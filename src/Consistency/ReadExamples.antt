-- ===== src/Consistency/ReadExamples.antt =====
-- The theorems on leases and read-index requests at concrete clocks and requests.
use hermes.Base.{ℕ, List, [], ◌∷◌, ◌+◌, ◌<◌, refl, arith, bytes}
use hermes.Consistency.ReadIndex.{ReadIndexRequest}
use hermes.Consistency.ReadIndex.Conservation.{Step, takes_id, queues, confirms, gives_up}
use hermes.Consistency.Lease.{LeaseConfig, serve_with_lease, renew, new_leader_lease, is_valid}
use hermes.Consistency.Lease.Safety.{lease_lem}

abbrev timeouts : LeaseConfig
timeouts = record { election_timeout = 150; max_clock_drift = 5 }

-- The follower's clock reads three more than the leader's; the lease is renewed at 100, heard of at
-- 110, and a read is served at 230.
lease_example : 230 + 3 < 110 + 3 + 150
unfolding serve_with_lease renew new_leader_lease is_valid
lease_example =
    lease_lem timeouts (bytes "n") (λ t. t) (λ t. t + 3) 100 110 230 (λ s t h. h)
      (λ t. (omega arith, omega arith)) (omega arith) (omega arith) (omega arith) (omega arith)
      (omega arith) refl

abbrev read : ℕ → ℕ → ReadIndexRequest
read id index = record { request_id = id; read_index = index }

-- Two reads of which the first is answered and the second given up.
abbrev reads : List Step
reads = takes_id ∷ queues (read 1 5) ∷ queues (read 2 9) ∷ confirms 6 ∷ gives_up 2 ∷ []
