-- ===== src/Consistency/Locks/Exclusion.antt =====
-- What becomes of a held lock across the calls that follow.
use hermes.Base.{
  ℕ, ◌≤◌, ◌<◌, ◌≡◌, ◌≢◌, ◌⊎◌, inl, inr, false, none, some, List, [], ◌∷◌, if◌then◌else◌, ltb, ◌==◌,
  GoString, string_eq, str_eq, str_eq_iff, i64_lt, arith, refl, Bool-cases, Option-cases, lt→ltb,
  ==_iff, subst,
}
use hermes.Base.Dict.{Dict, get, put, delete, get-put, get-delete, IsMap, put-IsMap, delete-IsMap}
use hermes.Consistency.Locks.{
  LockGrant, LockError, Service, acquire, release, renew, expire, expire_each, grant_lock, is_valid,
  is_held, add_duration,
}
use hermes.Consistency.Locks.Calls.{
  Call, to_acquire, to_release, to_renew, to_expire, serve, serve_all,
}
use hermes.Consistency.Locks.Fencing.{acquire-WasGranted}

-- The call reads the clock before the grant's end and does not use the grant's own token on the lock.
abbrev pub Respects : LockGrant → GoString → Call → Type 0
Respects g name (to_acquire checked_at granted_at lock holder ttl) = checked_at < g.expires_at
Respects g name (to_release lock token) = (lock ≢ name) ⊎ (token ≢ g.token)
Respects g name (to_renew checked_at renewed_at lock token ttl) = (lock ≢ name) ⊎ (token ≢ g.token)
Respects g name (to_expire now) = now ≤ g.expires_at

abbrev pub AllRespect : LockGrant → GoString → List Call → Type 0
AllRespect g name [] = Unit
AllRespect g name (c ∷ cs) = Respects g name c × AllRespect g name cs

expire_each-keeps :
    (now : ℕ) (name : GoString) (g : LockGrant) (visited locks : Dict GoString LockGrant)
    → now ≤ g.expires_at
    → get name locks ≡ some g
    → IsMap visited
    → ((h : LockGrant) → get name visited ≡ some h → h ≡ g)
    → get name (expire_each now visited locks) ≡ some g
unfolding expire_each get
expire_each-keeps now name g [] locks early found m same = found
expire_each-keeps now name g ((j, h) ∷ visited) locks early found (absent, m) same =
    let locks' : Dict GoString LockGrant = if ltb h.expires_at now then delete j locks else locks in
    elim (Bool-cases (str_eq j name)) [
      | inl here ↦
          let absent' : get name visited ≡ none =
            subst (λ n. get n visited ≡ none) ((str_eq_iff j name).0 here) absent in
          let h_is : h ≡ g = same h (rw here refl) in
          let late : ltb h.expires_at now ≡ false = rw h_is (ground arith) in
          let found' : get name locks' ≡ some g = rw late found in
          expire_each-keeps now name g visited locks' early found' m (λ k e. ground arith)
      | inr there ↦
          let found' : get name locks' ≡ some g = ground (arith, get-delete j name locks) in
          expire_each-keeps now name g visited locks' early found' m (λ k e. same k (ground arith))
    ]

expire_each-IsMap :
    (now : ℕ) (visited locks : Dict GoString LockGrant)
    → IsMap locks
    → IsMap (expire_each now visited locks)
unfolding expire_each
expire_each-IsMap now [] locks m = m
expire_each-IsMap now ((j, g) ∷ visited) locks m = elim (Bool-cases (ltb g.expires_at now)) [
  | inl yes' ↦ rw yes' (expire_each-IsMap now visited (delete j locks) (delete-IsMap j locks m))
  | inr no' ↦ rw no' (expire_each-IsMap now visited locks m)
]

renew-cases :
    (c r : ℕ) (lock : GoString) (token ttl : ℕ) (s : Service)
    → ((renew c r lock token ttl s).1 ≡ s)
      ⊎ ((h : LockGrant) × (get lock s.locks ≡ some h)
          × (h.token ≡ token)
          × ((renew c r lock token ttl s).1.locks
              ≡ put lock (record h { expires_at = add_duration r ttl }) s.locks))
unfolding renew
renew-cases c r lock token ttl s = elim (Option-cases (get lock s.locks)) [
  | inl free ↦ inl (rw (free, renew) refl)
  | inr (h, found) ↦ elim (Bool-cases (h.token == token)) [
    | inl same ↦ elim (Bool-cases (is_valid c h)) [
      | inl valid ↦
          inr (h, found, (==_iff h.token token).0 same, rw (found, same, valid, renew) refl)
      | inr stale ↦ inl (rw (found, same, stale, renew) refl)
    ]
    | inr other ↦ inl (rw (found, other, renew) refl)
  ]
]

serve-IsMap : (c : Call) (s : Service) → IsMap s.locks → IsMap (serve c s).locks
unfolding serve acquire grant_lock release expire is_valid
serve-IsMap (to_acquire c d lock holder ttl) s m =
    let ttl' : ℕ = if i64_lt 0 ttl then ttl else s.default_ttl in
    ground (arith, put-IsMap lock (grant_lock d lock holder ttl' s).0 s.locks m)
serve-IsMap (to_release lock token) s m = ground (arith, delete-IsMap lock s.locks m)
serve-IsMap (to_renew c r lock token ttl) s m = elim (renew-cases c r lock token ttl s) [
  | inl same ↦ rw same m
  | inr (h, _, _, e) ↦
      rw e (put-IsMap lock (record h { expires_at = add_duration r ttl }) s.locks m)
]
serve-IsMap (to_expire now) s m = expire_each-IsMap now s.locks s.locks m

serve-keeps :
    (name : GoString) (g : LockGrant) (c : Call) (s : Service)
    → Respects g name c
    → IsMap s.locks
    → get name s.locks ≡ some g
    → get name (serve c s).locks ≡ some g
unfolding serve acquire grant_lock release expire is_valid
serve-keeps name g (to_acquire c d lock holder ttl) s ok m found =
    let ttl' : ℕ = if i64_lt 0 ttl then ttl else s.default_ttl in
    ground
      (arith, get-put lock name (grant_lock d lock holder ttl' s).0 s.locks, str_eq_iff lock name)
serve-keeps name g (to_release lock token) s ok m found =
    ground (arith, get-delete lock name s.locks, str_eq_iff lock name)
serve-keeps name g (to_renew c r lock token ttl) s ok m found =
    elim (renew-cases c r lock token ttl s) [
      | inl same ↦ rw same found
      | inr (h, found', t, e) ↦
          let h' : LockGrant = record h { expires_at = add_duration r ttl } in
          rw e (ground (arith, get-put lock name h' s.locks, str_eq_iff lock name))
    ]
serve-keeps name g (to_expire now) s ok m found =
    expire_each-keeps now name g s.locks s.locks ok found m (λ h e. ground arith)

serve_all-keeps :
    (name : GoString) (g : LockGrant) (cs : List Call) (s : Service)
    → AllRespect g name cs
    → IsMap s.locks
    → get name s.locks ≡ some g
    → get name (serve_all cs s).locks ≡ some g
unfolding serve_all
serve_all-keeps name g [] s ok m found = found
serve_all-keeps name g (c ∷ cs) s (ok, oks) m found =
    serve_all-keeps name g cs (serve c s) oks (serve-IsMap c s m)
      (serve-keeps name g c s ok m found)

-- After a lock is granted by a service whose map binds no name twice, whatever calls follow that
-- read the clock before the grant's end, or at it to expire locks, and do not use the grant's
-- token on the lock, the lock stays granted as it was, and another request for it that is checked
-- before the grant's end is refused and changes nothing.
pub lock_is_exclusive :
    (c d : ℕ) (name holder : GoString) (ttl : ℕ) (s s' : Service) (g : LockGrant) (cs : List Call)
    → IsMap s.locks
    → acquire c d name holder ttl s ≡ (inr g, s')
    → AllRespect g name cs
    → (c' d' : ℕ) (holder' : GoString) (ttl' : ℕ) → c' < g.expires_at
    → (get name (serve_all cs s').locks ≡ some g)
      × (acquire c' d' name holder' ttl' (serve_all cs s') ≡ (inl is_held, serve_all cs s'))
unfolding acquire is_valid serve
lock_is_exclusive c d name holder ttl s s' g cs m e ok c' d' holder' ttl' early =
    let w = acquire-WasGranted c d name holder ttl s s' g e in
    let m' : IsMap s'.locks =
      subst (λ (x : (LockError ⊎ LockGrant) × Service). IsMap x.1.locks) e
        (serve-IsMap (to_acquire c d name holder ttl) s m) in
    let found = serve_all-keeps name g cs s' ok m' w.is_kept in
    (found, rw (found, acquire, lt→ltb c' g.expires_at early) refl)
