-- ===== src/Ratelimit/Breaker/Transitions.antt =====
-- When the circuit changes its state, and what an open one lets through.
use hermes.Base.{
  ◌&&◌, not, subst, ap, ◌∙◌, zero, suc, ◌-◌, ℕ, ◌+◌, ◌≤◌, ◌<◌, ◌≡◌, ◌⊎◌, refl, List, [], ◌∷◌, Bool,
  true, false, i64_lt, u64, arith,
}
use hermes.Ratelimit.Breaker.{
  CircuitState, circuit_closed, circuit_open, circuit_half_open, CircuitBreaker, allow, success,
  failure, is_cool, rate_exceeded,
}

-- What the clients of the breaker do, at a time.
pub data Event : Type 0 where
  asks succeeds fails : Event

pub after : Event → ℕ → CircuitBreaker → CircuitBreaker
unfolding allow success failure
after asks now cb = (allow now cb).1
after succeeds now cb = success cb
after fails now cb = failure now cb

-- The condition on which an event leads from a state to another; `false` where no edge does.
abbrev pub edge : CircuitBreaker → ℕ → Event → CircuitState → CircuitState → Bool
edge cb now fails circuit_closed circuit_open =
    i64_lt 10 cb.total_requests && rate_exceeded (u64 (cb.failures + 1)) cb.total_requests
edge cb now asks circuit_open circuit_half_open = is_cool now cb
edge cb now succeeds circuit_half_open circuit_closed =
    not (i64_lt (u64 (cb.successes + 1)) cb.success_threshold)
edge cb now fails circuit_half_open circuit_open = true
edge cb now e s s' = false

-- A call leaves the state as it was or follows an edge whose condition holds; and where the condition
-- of an edge from the state holds, the call follows it.
pub after_lem :
    (e : Event) (now : ℕ) (cb : CircuitBreaker)
    → (((after e now cb).state ≡ cb.state) ⊎ (edge cb now e cb.state (after e now cb).state ≡ true))
      × ((s : CircuitState) → edge cb now e cb.state s ≡ true → (after e now cb).state ≡ s)
unfolding after allow success failure
after_lem asks now cb = (ground arith, λ s h. ground (arith, h))
after_lem succeeds now cb = (ground arith, λ s h. ground (arith, h))
after_lem fails now cb = (ground arith, λ s h. ground (arith, h))

-- The calls, each at its time.
pub run : List (Event × ℕ) → CircuitBreaker → CircuitBreaker
unfolding after
run [] cb = cb
run ((e, now) ∷ es) cb = run es (after e now cb)

abbrev pub AreBefore : ℕ → List (Event × ℕ) → Type 0
AreBefore limit [] = Unit {0}
AreBefore limit ((e, now) ∷ es) = (now < limit) × AreBefore limit es

open_rejects_once :
    (e : Event) (now : ℕ) (cb : CircuitBreaker)
    → cb.state ≡ circuit_open
    → now < cb.opened_at + cb.cooldown
    → ((after e now cb).state ≡ circuit_open)
      × ((after e now cb).opened_at ≡ cb.opened_at)
      × ((after e now cb).allowed ≡ cb.allowed)
      × ((after e now cb).cooldown ≡ cb.cooldown)
unfolding after allow success failure
open_rejects_once asks now cb opened early = ground (arith, opened, early)
open_rejects_once succeeds now cb opened early = ground (arith, opened, early)
open_rejects_once fails now cb opened early = ground (arith, opened, early)

-- What the requests among the calls are answered: each is refused.
abbrev pub AllRefused : List (Event × ℕ) → CircuitBreaker → Type 0
AllRefused [] cb = Unit {0}
AllRefused ((asks, now) ∷ es) cb = ((allow now cb).0 ≡ false) × AllRefused es (after asks now cb)
AllRefused ((succeeds, now) ∷ es) cb = AllRefused es (after succeeds now cb)
AllRefused ((fails, now) ∷ es) cb = AllRefused es (after fails now cb)

AllRefused-cons :
    (e : Event) (now : ℕ) (es : List (Event × ℕ)) (cb : CircuitBreaker)
    → cb.state ≡ circuit_open
    → now < cb.opened_at + cb.cooldown
    → AllRefused es (after e now cb)
    → AllRefused ((e, now) ∷ es) cb
unfolding allow
AllRefused-cons asks now es cb opened early rest = (ground (arith, opened, early), rest)
AllRefused-cons succeeds now es cb opened early rest = rest
AllRefused-cons fails now es cb opened early rest = rest

-- An open circuit refuses every request that comes before its cooldown is over, counts none as let
-- through, and stays open since the time it was, whatever is reported meanwhile.
pub open_rejects :
    (es : List (Event × ℕ)) (cb : CircuitBreaker)
    → cb.state ≡ circuit_open
    → AreBefore (cb.opened_at + cb.cooldown) es
    → ((run es cb).state ≡ circuit_open)
      × ((run es cb).opened_at ≡ cb.opened_at)
      × ((run es cb).allowed ≡ cb.allowed)
      × AllRefused es cb
unfolding run
open_rejects [] cb opened early = (opened, refl, refl, tt)
open_rejects ((e, now) ∷ es) cb opened (early, rest) =
    let cb' = after e now cb in
    let (opened', since, allowed', cooldown) = open_rejects_once e now cb opened early in
    let ih =
      open_rejects es cb' opened'
        (subst (λ n. AreBefore n es) (omega (arith, since, cooldown)) rest) in
    (ih.0, ih.1 ∙ since, ih.2 ∙ allowed', AllRefused-cons e now es cb opened early ih.3)

abbrev pub repeated : ℕ → CircuitBreaker → CircuitBreaker
repeated zero cb = cb
repeated (suc n) cb = repeated n (success cb)

-- A half-open circuit whose successes are `n + 1` short of the threshold closes with so many more.
repeated-closes :
    (n : ℕ) (cb : CircuitBreaker)
    → cb.state ≡ circuit_half_open
    → cb.successes + suc n ≡ cb.success_threshold
    → cb.success_threshold < 9223372036854775808
    → ((repeated (suc n) cb).state ≡ circuit_closed)
      × ((repeated (suc n) cb).failures ≡ 0)
      × ((repeated (suc n) cb).total_requests ≡ 0)
unfolding success
repeated-closes zero cb half left small = ground (arith, half, left, small)
repeated-closes (suc n) cb half left small =
    repeated-closes n (success cb) (ground (arith, half, left, small))
      (ground (arith, half, left, small)) (ground (arith, half, left, small))

-- An open circuit whose cooldown is over lets the next request through, and as many successes as the
-- threshold asks for then close it with its counts at 0.
pub recovers :
    (now : ℕ) (cb : CircuitBreaker)
    → cb.state ≡ circuit_open
    → cb.opened_at + cb.cooldown ≤ now
    → 0 < cb.success_threshold
    → cb.success_threshold < 9223372036854775808
    → ((allow now cb).0 ≡ true)
      × ((repeated cb.success_threshold (allow now cb).1).state ≡ circuit_closed)
      × ((repeated cb.success_threshold (allow now cb).1).failures ≡ 0)
      × ((repeated cb.success_threshold (allow now cb).1).total_requests ≡ 0)
unfolding allow
recovers now cb opened cool some' small =
    let n = cb.success_threshold - 1 in
    let half : CircuitBreaker = (allow now cb).1 in
    let all : cb.success_threshold ≡ suc n = omega (arith, some') in
    let closes =
      repeated-closes n half (ground (arith, opened, cool)) (ground (arith, opened, cool, some'))
        (ground (arith, opened, cool, small)) in
    (
      ground (arith, opened, cool),
      ap (λ k. (repeated k half).state) all ∙ closes.0,
      ap (λ k. (repeated k half).failures) all ∙ closes.1,
      ap (λ k. (repeated k half).total_requests) all ∙ closes.2,
    )
