-- ===== src/Consistency/Lease/Safety.antt =====
-- Reads under a lease beside the followers' election timeouts.
use hermes.Base.{ℕ, ◌+◌, ◌*◌, ◌≤◌, ◌<◌, ◌≡◌, refl, true, false, arith, GoString}
use hermes.Consistency.Lease.{
  LeaseConfig, LeaderLease, new_leader_lease, renew, is_valid, expire, serve_with_lease,
}

-- A clock reads at most `drift` more and at most `drift` less than another, at every instant.
abbrev pub IsNear : ℕ → (ℕ → ℕ) → (ℕ → ℕ) → Type 0
IsNear drift f g = (t : ℕ) → (f t ≤ g t + drift) × (g t ≤ f t + drift)

abbrev pub IsMonotone : (ℕ → ℕ) → Type 0
IsMonotone f = (s t : ℕ) → s ≤ t → f s ≤ f t

-- A lease is renewed with the reading of the leader's clock at the instant `sent`, and a follower
-- hears from the leader at an instant `heard` that is not earlier. If the leader serves a read under
-- this lease at the instant `now`, less than the election timeout has passed since then on the
-- follower's clock. The leader's clock does not go back, differs from the follower's by at most the
-- drift, and times and the timeout are below 2 ^ 62; twice the drift is at most the timeout.
pub lease_lem :
    (config : LeaseConfig) (id : GoString) (leader follower : ℕ → ℕ) (sent heard now : ℕ)
    → IsMonotone leader
    → IsNear config.max_clock_drift leader follower
    → 2 * config.max_clock_drift ≤ config.election_timeout
    → config.election_timeout < 4611686018427387904
    → leader sent < 4611686018427387904
    → leader now < 4611686018427387904
    → sent ≤ heard
    → (serve_with_lease (leader now) (renew (leader sent) (new_leader_lease id config))).0 ≡ true
    → follower now < follower heard + config.election_timeout
unfolding serve_with_lease renew is_valid new_leader_lease
lease_lem config id leader follower sent heard now mono near drift timeout a b order served =
    let first = near now in
    let second = near heard in
    let third = mono sent heard order in ground (arith, first, second, third, served)

-- A lease that was never renewed, or that has been ended, serves no read.
pub expired_serves_nothing :
    (now : ℕ) (l : LeaderLease) → serve_with_lease now (expire l) ≡ (false, expire l)
unfolding serve_with_lease expire is_valid
expired_serves_nothing now l = refl
