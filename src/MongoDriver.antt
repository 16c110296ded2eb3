-- ===== src/MongoDriver.antt =====
-- src/MongoDBDriver.cpp
pub mod Connection
pub mod Address
pub mod Inserts
pub mod Ranges
pub mod InsertLaws
pub mod Examples
