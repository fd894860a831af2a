-- ===== src/Clock.antt =====
-- pkg/clock: Lamport clocks, vector clocks, and the hybrid logical clock.
pub mod Lamport
pub mod Hybrid
pub mod Vector
mod Examples
