-- ===== src/Consistency/Lease.antt =====
-- pkg/consistency/lease.go. A time is an `int64` of nanoseconds, kept as its bit pattern, and the
-- reading of the clock is an argument; `none` is the zero time. Durations are `int64`s too.
pub mod Safety
use hermes.Base.{
  ℕ, ◌+◌, ◌-◌, ◌*◌, Bool, true, false, Option, none, some, i64_lt, u64, u64_mod, if◌then◌else◌,
  GoString,
}

pub record LeaseConfig : Type 0 where
  pub election_timeout : ℕ
  pub max_clock_drift : ℕ

pub default_lease_config : LeaseConfig
default_lease_config = record { election_timeout = 150000000; max_clock_drift = 5000000 }

pub record LeaderLease : Type 0 where
  pub config : LeaseConfig
  pub node_id : GoString
  pub lease_expiry : Option ℕ
  pub last_renewal : Option ℕ
  pub lease_duration : ℕ
  pub reads_served_under_lease : ℕ
  pub lease_expirations : ℕ

-- `a - b` on `int64`
abbrev pub minus : ℕ → ℕ → ℕ
minus a b = u64 (a + (u64_mod - b))

unfoldable pub new_leader_lease : GoString → LeaseConfig → LeaderLease
new_leader_lease node_id config = record {
  config = config;
  node_id = node_id;
  lease_expiry = none;
  last_renewal = none;
  lease_duration = minus config.election_timeout (u64 (2 * config.max_clock_drift));
  reads_served_under_lease = 0;
  lease_expirations = 0;
}

unfoldable pub renew : ℕ → LeaderLease → LeaderLease
renew at l = record l { last_renewal = some at; lease_expiry = some (u64 (at + l.lease_duration)) }

unfoldable pub is_valid : ℕ → LeaderLease → Bool
is_valid now l = elim l.lease_expiry [ none ↦ false | some expiry ↦ i64_lt now expiry ]

pub expire : LeaderLease → LeaderLease
expire l = record l { lease_expiry = none; lease_expirations = u64 (l.lease_expirations + 1) }

-- The zero time lies so far back that nothing remains.
pub time_remaining : ℕ → LeaderLease → ℕ
time_remaining now l = elim l.lease_expiry [
  | none ↦ 0
  | some expiry ↦ if i64_lt (minus expiry now) 0 then 0 else minus expiry now
]

-- The two readings of the clock are one.
unfoldable pub serve_with_lease : ℕ → LeaderLease → Bool × LeaderLease
serve_with_lease now l =
    if is_valid now l
    then (true, record l { reads_served_under_lease = u64 (l.reads_served_under_lease + 1) })
    else (false, l)

pub record LeaseStats : Type 0 where
  pub valid : Bool
  pub reads_served_under_lease : ℕ
  pub lease_expirations : ℕ
  pub time_remaining : ℕ

-- The source locks the mutex for reading a second time within, which the model takes to succeed.
pub stats : ℕ → LeaderLease → LeaseStats
stats now l = record {
  valid = is_valid now l;
  reads_served_under_lease = l.reads_served_under_lease;
  lease_expirations = l.lease_expirations;
  time_remaining = time_remaining now l;
}
