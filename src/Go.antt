-- ===== src/Go.antt =====
-- The parts of Go's standard library that the panel calls on text, over bytes.
pub mod Strings
pub mod Filepath
pub mod Strconv
pub mod Sort
