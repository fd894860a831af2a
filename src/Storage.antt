-- ===== src/Storage.antt =====
-- pkg/storage: the commands that Raft replicates, the write-ahead log, and the tables in memory and on
-- disk.
pub mod Command
pub mod Wal
pub mod Bloom
pub mod SkipList
pub mod SsTable
pub mod Engine
mod Examples
mod TableExamples
mod EngineExamples
