-- ===== src/Consistency/Examples.antt =====
-- The theorems of this folder at concrete locks.
use hermes.Base.{
  ◌≡◌, inl, inr, refl, some, [], ◌∷◌, arith, bytes, GoString, str_eq, string_eq, nat_eq,
}
use hermes.Base.Dict.{get, put}
use hermes.Consistency.Locks.{
  LockGrant, LockError, Service, acquire, verify_token, new_service, is_held, grant_lock, is_valid,
}
use hermes.Consistency.Locks.Calls.{to_expire, serve_all}
use hermes.Consistency.Locks.Fencing.{stale_token_refused}
use hermes.Consistency.Locks.Exclusion.{lock_is_exclusive}

abbrev name : GoString
name = bytes "migrate"

-- The first lock, granted at 0 until 10 with token 2, and the service afterwards.
abbrev first : LockGrant
first = record { token = 2; expires_at = 10; lock_name = name; holder = bytes "a" }

abbrev started : Service
started = (acquire 0 0 name (bytes "a") 10 new_service).1

abbrev taken_over : Service
taken_over = (acquire 20 20 name (bytes "b") 10 started).1

abbrev second_grant : LockGrant
second_grant = record { token = 3; expires_at = 30; lock_name = name; holder = bytes "b" }

first_granted : acquire 0 0 name (bytes "a") 10 new_service ≡ (inr first, started)
unfolding acquire new_service grant_lock get
first_granted = refl

second_granted : acquire 20 20 name (bytes "b") 10 started ≡ (inr second_grant, taken_over)
unfolding acquire new_service grant_lock get put str_eq is_valid
second_granted = refl

stale_token_refused_example :
    (e : LockError) × (verify_token 27 name 2 (serve_all (to_expire 25 ∷ []) taken_over) ≡ some e)
unfolding acquire new_service grant_lock get put str_eq is_valid
stale_token_refused_example =
    stale_token_refused 20 20 name (bytes "b") 10 started taken_over second_grant
      (to_expire 25 ∷ []) 27 2 second_granted (omega arith) (omega arith)

lock_is_exclusive_example :
    (get name (serve_all (to_expire 8 ∷ []) started).locks ≡ some first)
    × (acquire 9 9 name (bytes "b") 10 (serve_all (to_expire 8 ∷ []) started)
        ≡ (inl is_held, serve_all (to_expire 8 ∷ []) started))
unfolding new_service
lock_is_exclusive_example =
    lock_is_exclusive 0 0 name (bytes "a") 10 new_service started first (to_expire 8 ∷ [])
      (record { lower = tt }) first_granted (omega arith, tt) 9 9 (bytes "b") 10 (omega arith)
