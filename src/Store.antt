-- ===== src/Store.antt =====
-- internal/store: the statements of the data layer on the tables of the schema
-- (internal/database/migrations), one module for each group of tables.
pub mod Users
pub mod Accounts
pub mod Sites
