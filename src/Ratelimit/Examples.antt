-- ===== src/Ratelimit/Examples.antt =====
-- The theorems of this folder at concrete circuit breakers.
use hermes.Base.{◌≡◌, refl, [], ◌∷◌, arith, bytes}
use hermes.Ratelimit.Breaker.{CircuitBreaker, circuit_open, new_circuit_breaker}
use hermes.Ratelimit.Breaker.Transitions.{asks, succeeds, run, AllRefused, open_rejects}

abbrev opened : CircuitBreaker
opened = record (new_circuit_breaker (bytes "db")) { state = circuit_open; opened_at = 7 }

open_rejects_example :
    ((run ((asks, 8) ∷ (succeeds, 9) ∷ (asks, 10) ∷ []) opened).state ≡ circuit_open)
    × ((run ((asks, 8) ∷ (succeeds, 9) ∷ (asks, 10) ∷ []) opened).opened_at ≡ opened.opened_at)
    × ((run ((asks, 8) ∷ (succeeds, 9) ∷ (asks, 10) ∷ []) opened).allowed ≡ opened.allowed)
    × AllRefused ((asks, 8) ∷ (succeeds, 9) ∷ (asks, 10) ∷ []) opened
unfolding new_circuit_breaker
open_rejects_example =
    open_rejects ((asks, 8) ∷ (succeeds, 9) ∷ (asks, 10) ∷ []) opened refl (omega arith)
