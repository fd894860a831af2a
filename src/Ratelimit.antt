-- ===== src/Ratelimit.antt =====
-- pkg/ratelimit: the circuit breaker.
pub mod Breaker
mod Examples
