-- ===== src/Ratelimit/Breaker.antt =====
-- pkg/ratelimit/limiter.go: the circuit breaker. Times are numbers of nanoseconds, and the reading of
-- the clock is an argument. Counters are `int`s that wrap at 64 bits.
pub mod Transitions
use hermes.Base.{
  ℕ, ◌+◌, ◌*◌, ◌%◌, Bool, true, false, ◌&&◌, not, leb, ltb, ◌==◌, if◌then◌else◌, GoString, u64,
  i64_lt,
}

pub data CircuitState : Type 0 where
  circuit_closed circuit_open circuit_half_open : CircuitState

-- The failure threshold is the constant 0.5; see `rate_exceeded`.
pub record CircuitBreaker : Type 0 where
  pub name : GoString
  pub success_threshold : ℕ
  pub cooldown : ℕ
  pub state : CircuitState
  pub failures : ℕ
  pub successes : ℕ
  pub total_requests : ℕ
  pub last_failure : ℕ
  pub opened_at : ℕ
  pub allowed : ℕ
  pub rejected : ℕ

unfoldable pub new_circuit_breaker : GoString → CircuitBreaker
new_circuit_breaker name = record {
  name = name;
  success_threshold = 5;
  cooldown = 10000000000;
  state = circuit_closed;
  failures = 0;
  successes = 0;
  total_requests = 0;
  last_failure = 0;
  opened_at = 0;
  allowed = 0;
  rejected = 0;
}

-- A request that passes, and one that is turned away.
abbrev pub pass : CircuitBreaker → Bool × CircuitBreaker
pass cb = (true, record cb { allowed = u64 (cb.allowed + 1) })

abbrev pub reject : CircuitBreaker → Bool × CircuitBreaker
reject cb = (false, record cb { rejected = u64 (cb.rejected + 1) })

-- A time is past the cooldown: `time.Since(cb.openedAt) >= cb.cooldown`.
abbrev pub is_cool : ℕ → CircuitBreaker → Bool
is_cool now cb = leb (cb.opened_at + cb.cooldown) now

pub allow : ℕ → CircuitBreaker → Bool × CircuitBreaker
allow now cb =
    let counted = record cb { total_requests = u64 (cb.total_requests + 1) } in
    elim cb.state [
      | circuit_closed ↦ pass counted
      | circuit_open ↦
          if is_cool now cb
          then pass (record counted { state = circuit_half_open; successes = 0; failures = 0 })
          else reject cb
      | circuit_half_open ↦ if counted.total_requests % 2 == 0 then pass counted else reject counted
    ]

abbrev pub is_half_open : CircuitState → Bool
is_half_open circuit_half_open = true
is_half_open _ = false

pub success : CircuitBreaker → CircuitBreaker
success cb =
    let cb' = record cb { successes = u64 (cb.successes + 1) } in
    if is_half_open cb.state && not (i64_lt cb'.successes cb.success_threshold)
    then record cb' { state = circuit_closed; failures = 0; total_requests = 0 }
    else cb'

-- The quotient of two counts, the second above 10, as a `float64` is at least 0.5. Rounding does not
-- carry a smaller quotient of counts below 2 ^ 53 to 0.5.
abbrev pub rate_exceeded : ℕ → ℕ → Bool
rate_exceeded failures total = leb total (2 * failures)

pub failure : ℕ → CircuitBreaker → CircuitBreaker
failure now cb =
    let cb' = record cb { failures = u64 (cb.failures + 1); last_failure = now } in
    let opened = record cb' { state = circuit_open; opened_at = now } in
    elim cb.state [
      | circuit_closed ↦
          if i64_lt 10 cb.total_requests && rate_exceeded cb'.failures cb.total_requests
          then opened
          else cb'
      | circuit_half_open ↦ opened
      | circuit_open ↦ cb'
    ]

pub state_of : CircuitBreaker → CircuitState
state_of cb = cb.state
