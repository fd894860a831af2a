-- ===== src/Consistency/Locks/Calls.antt =====
-- The calls that reach the lock service, one after another.
use hermes.Base.{ℕ, List, [], ◌∷◌, GoString}
use hermes.Consistency.Locks.{Service, acquire, release, renew, expire}

-- A call of the service with the clock readings that it makes.
pub data Call : Type 0 where
  to_acquire : (checked_at granted_at : ℕ) (name holder : GoString) (ttl : ℕ) → Call
  to_release : (name : GoString) (token : ℕ) → Call
  to_renew : (checked_at renewed_at : ℕ) (name : GoString) (token ttl : ℕ) → Call
  to_expire : (now : ℕ) → Call

unfoldable pub serve : Call → Service → Service
serve (to_acquire c g name holder ttl) s = (acquire c g name holder ttl s).1
serve (to_release name token) s = (release name token s).1
serve (to_renew c r name token ttl) s = (renew c r name token ttl s).1
serve (to_expire now) s = expire now s

unfoldable pub serve_all : List Call → Service → Service
serve_all [] s = s
serve_all (c ∷ cs) s = serve_all cs (serve c s)
