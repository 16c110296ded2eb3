-- ===== src/MySqlDriver.antt =====
-- src/MySQLDriver.cpp: the ranges of the data that is stored already, and what the
-- queries record. The database is a parameter.
pub mod Ranges
pub mod Stored
pub mod Queries
pub mod Effects
pub mod QueryLaws
pub mod QueryExamples
pub mod Examples
