-- ===== src/Consistency.antt =====
-- pkg/consistency: the lock service, leases, read-index requests and the replicated data types.
pub mod Locks
pub mod Lease
pub mod ReadIndex
pub mod Counters
pub mod Register
pub mod Sets
mod Examples
mod ReadExamples
