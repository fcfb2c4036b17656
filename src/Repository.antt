-- ===== src/Repository.antt =====
-- The repositories of internal/repository: tables of rows, and each method as its SQL statement.
-- A method takes whether the database answers; if it does not, the table stays as it was.
pub mod History
pub mod Tokens
pub mod Users
