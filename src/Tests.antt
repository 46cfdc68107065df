-- ===== src/Tests.antt =====
-- Runs of the model on concrete inputs, and the theorems at inputs that meet their hypotheses.
mod Fixtures
mod Matcher
mod AuthTests
mod ApiTests
mod EdgeTests
mod PanelTests
mod CronTests
mod FilesTests
mod WorkerTests
