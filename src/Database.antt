-- ===== src/Database.antt =====
-- database: the SQL client.
pub mod SplitOnDupId
pub mod Config
pub mod Statements
pub mod Streams
pub mod Exec
pub mod Semaphores
pub mod ColumnMap
pub mod Connector
pub mod Open
pub mod Log
pub mod YieldAll
