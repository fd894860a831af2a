-- ===== src/Clock/Lamport.antt =====
-- pkg/clock/lamport.go. The counter is an `int64`, kept as its bit pattern. `Receive` retries until
-- its compare-and-swap succeeds, and the round that succeeds is one atomic step.
use hermes.Base.{
  inr, ◌⊎◌, ℕ, ◌+◌, ◌<◌, ◌≡◌, true, Bool, refl, arith, if◌then◌else◌, i64_lt, u64, GoString,
}

pub record LamportClock : Type 0 where
  pub counter : ℕ
  pub node_id : GoString

new_lamport_clock : GoString → LamportClock
new_lamport_clock node_id = record { counter = 0; node_id = node_id }

unfoldable pub tick : LamportClock → LamportClock × ℕ
tick c = (record c { counter = u64 (c.counter + 1) }, u64 (c.counter + 1))

pub send : LamportClock → LamportClock × ℕ
send c = (record c { counter = u64 (c.counter + 1) }, u64 (c.counter + 1))

unfoldable pub receive : LamportClock → ℕ → LamportClock × ℕ
receive c received =
    let new = if i64_lt c.counter received then u64 (received + 1) else u64 (c.counter + 1) in
    (record c { counter = new }, new)

pub happened_before : ℕ → ℕ → Bool
happened_before a b = i64_lt a b

-- One event of a process: its clock before, the time it is given, its clock after. No clock or
-- message is at the end of the `int64` range.
pub data Event : LamportClock → ℕ → LamportClock → Type 0 where
  ticks : (c : LamportClock) → c.counter + 1 < 9223372036854775808 → Event c (tick c).1 (tick c).0
  sends : (c : LamportClock) → c.counter + 1 < 9223372036854775808 → Event c (send c).1 (send c).0
  receives :
      (c : LamportClock) (t : ℕ)
      → c.counter + 1 < 9223372036854775808
      → t + 1 < 9223372036854775808
      → Event c (receive c t).1 (receive c t).0

-- What a process does in order.
pub data History (c : LamportClock) : LamportClock → Type 0 where
  here : History c c
  next : {d e : LamportClock} {t : ℕ} → History c d → Event d t e → History c e

-- Lamport's relation on the times of events: later in one process, or from a message to its receipt.
pub data Precedes : ℕ → ℕ → Type 0 where
  in_process :
      {c d e f : LamportClock} {t u : ℕ} → Event c t d → History d e → Event e u f → Precedes t u
  by_message :
      (c : LamportClock) (t : ℕ)
      → c.counter + 1 < 9223372036854775808
      → t + 1 < 9223372036854775808
      → Precedes t (receive c t).1
  then_precedes : {t u v : ℕ} → Precedes t u → Precedes u v → Precedes t v

Event-time :
    {c d : LamportClock} {t : ℕ}
    → Event c t d
    → (c.counter < t) × (d.counter ≡ t) × (t < 9223372036854775808)
unfolding tick send receive
Event-time (ticks c h) = ground arith
Event-time (sends c h) = ground arith
Event-time (receives c t h k) = ground arith

History-counter :
    {c d : LamportClock} → History c d → (c.counter < d.counter) ⊎ (c.counter ≡ d.counter)
History-counter here = inr refl
History-counter (next h e) = grind (arith, History-counter h, Event-time e)

Precedes-lt : {t u : ℕ} → Precedes t u → (t < u) × (u < 9223372036854775808)
unfolding receive
Precedes-lt (in_process a h b) = grind (arith, Event-time a, History-counter h, Event-time b)
Precedes-lt (by_message c t h k) = ground arith
Precedes-lt (then_precedes p q) = omega (arith, Precedes-lt p, Precedes-lt q)

-- If an event precedes another, through any processes and messages whose clocks do not reach the
-- end of the `int64` range, its time is before the other's.
pub Precedes-happened_before : {t u : ℕ} → Precedes t u → happened_before t u ≡ true
unfolding happened_before
Precedes-happened_before p = ground (arith, Precedes-lt p)
