-- ===== src/Clock/Examples.antt =====
-- The theorems of this folder at concrete clocks.
use hermes.Base.{string_eq, ℕ, ◌≡◌, refl, true, [], ◌∷◌, arith, bytes}
use hermes.Clock.Lamport.{
  LamportClock, tick, receive, happened_before, ticks, here, Precedes, in_process, by_message,
  then_precedes, Precedes-happened_before,
}
use hermes.Clock.Hybrid.{Hlc, pack, before, now}
use hermes.Clock.Hybrid.Order.{now_wraps}
use hermes.Clock.Vector.{Vector, compare}
use hermes.Clock.Vector.Compare.{Means, compare-Means}

abbrev clock_at : ℕ → LamportClock
clock_at n = record { counter = n; node_id = bytes "a" }

-- A process ticks to 4 and to 5; the message sent at 5 reaches a process at 7, which counts it 8.
two_ticks_and_a_message : Precedes 4 8
unfolding tick receive
two_ticks_and_a_message =
    then_precedes
      (in_process (ticks (clock_at 3) (omega arith)) here (ticks (clock_at 4) (omega arith)))
      (by_message (clock_at 7) 5 (omega arith) (omega arith))

Precedes-happened_before_example : happened_before 4 8 ≡ true
Precedes-happened_before_example = Precedes-happened_before two_ticks_and_a_message

abbrev clock : ℕ → ℕ → Hlc
clock l c = record { l = l; c = c; max_skew_ms = 500 }

now_wraps_example :
    (before (now 900 (clock 1000 65535)).1 (pack 1000 65535) ≡ true)
    × ((now 900 (clock 1000 65535)).1 ≡ pack 1000 0)
now_wraps_example =
    now_wraps 900 (clock 1000 65535)
      (record { wall = omega arith; physical = omega arith; logical = omega arith }) refl
      (omega arith)

abbrev left : Vector
left = (bytes "a", 2) ∷ (bytes "b", 1) ∷ []

abbrev right : Vector
right = (bytes "a", 1) ∷ (bytes "b", 3) ∷ []

compare-Means_example : Means left right (compare left right)
compare-Means_example = compare-Means left right
