-- ===== src/Storage/Wal.antt =====
-- pkg/storage/wal: the write-ahead log. Its files are lists of bytes, and the checksum of the
-- library is a parameter.
pub mod Record
pub mod Segment
pub mod Recovery
pub mod Log
pub mod Examples
