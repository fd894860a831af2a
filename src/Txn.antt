-- ===== src/Txn.antt =====
-- pkg/txn: the timestamp oracle, the lock manager, sagas, conflicts and two-phase commit.
pub mod Oracle
pub mod LockManager
pub mod TwoPc
pub mod TwoPhase
pub mod Saga
pub mod Ssi
mod Examples
