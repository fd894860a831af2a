-- ===== src/Raft.antt =====
-- pkg/raft: the replicated log, the follower progress kept by a leader, and the node state machine.
pub mod Types
pub mod Log
pub mod Progress
pub mod Node
mod LogExamples
mod NodeExamples
