-- ===== src/Partition.antt =====
-- pkg/partition: the ring of consistent hashing.
pub mod Ring
mod Examples
