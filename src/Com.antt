-- ===== src/Com.antt =====
-- com: channels, bulks and synchronisation.
pub mod Bulker
pub mod Bulk
pub mod Counter
pub mod Cond
pub mod CopyFirst
pub mod WaitAsync
