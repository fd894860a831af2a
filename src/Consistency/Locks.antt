-- ===== src/Consistency/Locks.antt =====
-- pkg/consistency/distlock.go. A time is a number of nanoseconds since an early epoch and is read
-- from the clock by each call, so it is an argument; a `time.Duration` is an `int64`, kept as its
-- bit pattern. The mutex makes each call one step. Printing is left out, and a line of `raftLog`
-- is the data it formats. The source hands out its grants by pointer, so a holder sees a renewal of
-- its own grant; the model keeps the service's copy.
pub mod Calls
pub mod Fencing
pub mod Exclusion
use hermes.Base.{
  ℕ, ◌+◌, ◌-◌, Bool, Option, none, some, List, [], ◌∷◌, ◌++◌, if◌then◌else◌, i64_lt, u64, u64_mod,
  ltb, ◌==◌, GoString, string_eq, ◌⊎◌, inl, inr,
}
use hermes.Base.Dict.{Dict, get, put, delete}

pub record LockGrant : Type 0 where
  pub token : ℕ
  pub expires_at : ℕ
  pub lock_name : GoString
  pub holder : GoString

unfoldable pub is_valid : ℕ → LockGrant → Bool
is_valid now g = ltb now g.expires_at

pub data LogLine : Type 0 where
  lock_acquire : (name holder : GoString) (token ttl : ℕ) → LogLine
  lock_release : (name : GoString) (token : ℕ) → LogLine

pub record Service : Type 0 where
  pub locks : Dict GoString LockGrant
  pub next_token : ℕ
  pub default_ttl : ℕ
  pub raft_log : List LogLine

unfoldable pub new_service : Service
new_service = record { locks = []; next_token = 1; default_ttl = 30000000000; raft_log = [] }

pub data LockError : Type 0 where
  is_held not_found token_mismatch stale_token has_expired : LockError

-- `t.Add(d)`
abbrev pub add_duration : ℕ → ℕ → ℕ
add_duration t d = if i64_lt d 0 then t - (u64_mod - d) else t + d

-- The grant of a free lock.
unfoldable pub grant_lock : ℕ → GoString → GoString → ℕ → Service → LockGrant × Service
grant_lock granted_at name holder ttl s =
    let token = u64 (s.next_token + 1) in
    let g : LockGrant = record {
      token = token;
      expires_at = add_duration granted_at ttl;
      lock_name = name;
      holder = holder;
    } in
    (
      g,
      record s {
        locks = put name g s.locks;
        next_token = token;
        raft_log = s.raft_log ++ lock_acquire name holder token ttl ∷ [];
      },
    )

-- `Acquire` reads the clock to test the grant it finds, and again to date its own.
unfoldable pub acquire :
    ℕ → ℕ → GoString → GoString → ℕ → Service → (LockError ⊎ LockGrant) × Service
unfolding is_valid grant_lock
acquire checked_at granted_at name holder ttl s =
    let ttl' = if i64_lt 0 ttl then ttl else s.default_ttl in
    let (g, s') = grant_lock granted_at name holder ttl' s in
    elim (get name s.locks) [
      | none ↦ (inr g, s')
      | some existing ↦ if is_valid checked_at existing then (inl is_held, s) else (inr g, s')
    ]

pub release : GoString → ℕ → Service → Option LockError × Service
release name token s = elim (get name s.locks) [
  | none ↦ (some not_found, s)
  | some existing ↦
      if existing.token == token
      then (
        none,
        record s {
          locks = delete name s.locks;
          raft_log = s.raft_log ++ lock_release name token ∷ [];
        },
      )
      else (some token_mismatch, s)
]

pub renew : ℕ → ℕ → GoString → ℕ → ℕ → Service → Option LockError × Service
unfolding is_valid
renew checked_at renewed_at name token ttl s = elim (get name s.locks) [
  | none ↦ (some not_found, s)
  | some existing ↦
      if existing.token == token
      then if is_valid checked_at existing
        then (
          none,
          record s {
            locks = put name (record existing { expires_at = add_duration renewed_at ttl }) s.locks;
          },
        )
        else (some has_expired, s)
      else (some stale_token, s)
]

pub verify_token : ℕ → GoString → ℕ → Service → Option LockError
unfolding is_valid
verify_token now name token s = elim (get name s.locks) [
  | none ↦ some not_found
  | some existing ↦
      if ltb token existing.token
      then some stale_token
      else if is_valid now existing
      then none
      else some has_expired
]

-- One round of `expireLoop` over the grants that the range visits.
pub expire_each : ℕ → Dict GoString LockGrant → Dict GoString LockGrant → Dict GoString LockGrant
expire_each now [] locks = locks
expire_each now ((name, g) ∷ visited) locks =
    expire_each now visited (if ltb g.expires_at now then delete name locks else locks)

pub expire : ℕ → Service → Service
unfolding expire_each
expire now s = record s { locks = expire_each now s.locks s.locks }
