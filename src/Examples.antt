-- ===== src/Examples.antt =====
-- Concrete inputs of the code, and the runs on them.
mod Com
mod Retry
mod Objectpacker
mod Database
mod Statements
mod Text
mod Services
mod Structify
mod Periodic
mod Settings
mod Connections
mod Pool
mod Values
