-- ===== src/Consistency/Locks/Fencing.antt =====
-- Tokens across the calls that follow a grant.
use hermes.Base.{
  ℕ, ◌+◌, ◌≤◌, ◌<◌, ◌≡◌, ◌⊎◌, inl, inr, none, some, List, [], ◌∷◌, if◌then◌else◌, u64, u64_mod, ltb,
  ◌==◌, GoString, string_eq, str_eq_iff, i64_lt, str_eq, subst, ◌∙◌, arith, length, refl,
  Bool-cases, Option-cases,
}
use hermes.Base.Dict.{Dict, get, delete, get-put, get-delete, beq_refl}
use hermes.Consistency.Locks.Calls.{
  Call, to_acquire, to_release, to_renew, to_expire, serve, serve_all,
}
use hermes.Consistency.Locks.{
  LockGrant, LockError, add_duration, Service, acquire, release, renew, verify_token, expire,
  expire_each, grant_lock, is_valid,
}

-- Every grant of the lock, now or to come, has a token from `t` on.
record IsFenced (t : ℕ) (name : GoString) (s : Service) : Type 0 where
  issued : t ≤ s.next_token
  held : (g : LockGrant) → get name s.locks ≡ some g → t ≤ g.token

expire_each-get :
    (now : ℕ) (visited locks : Dict GoString LockGrant) (name : GoString)
    → (get name (expire_each now visited locks) ≡ none)
      ⊎ (get name (expire_each now visited locks) ≡ get name locks)
unfolding expire_each
expire_each-get now [] locks name = inr refl
expire_each-get now ((j, g) ∷ visited) locks name =
    let rest =
      expire_each-get now visited (if ltb g.expires_at now then delete j locks else locks) name in
    ground (arith, get-delete j name locks)

grant_lock-IsFenced :
    (t : ℕ) (name : GoString) (g : ℕ) (lock holder : GoString) (ttl : ℕ) (s : Service)
    → s.next_token + 1 < u64_mod
    → IsFenced t name s
    → IsFenced t name (grant_lock g lock holder ttl s).1
unfolding grant_lock
grant_lock-IsFenced t name g lock holder ttl s small f = record {
  issued = omega (arith, f.issued, small);
  held = λ h found.
      ground
        (arith, get-put lock name (grant_lock g lock holder ttl s).0 s.locks, f.held h, f.issued);
}

acquire-IsFenced :
    (t : ℕ) (name : GoString) (c g : ℕ) (lock holder : GoString) (ttl : ℕ) (s : Service)
    → s.next_token + 1 < u64_mod
    → IsFenced t name s
    → IsFenced t name (acquire c g lock holder ttl s).1
unfolding acquire
acquire-IsFenced t name c g lock holder ttl s small f =
    let ttl' : ℕ = if i64_lt 0 ttl then ttl else s.default_ttl in
    let granted = grant_lock-IsFenced t name g lock holder ttl' s small f in
    elim (Option-cases (get lock s.locks)) [
      | inl free ↦ rw (free, acquire) granted
      | inr (existing, found) ↦ elim (Bool-cases (is_valid c existing)) [
        | inl yes' ↦ rw (found, yes', acquire) f
        | inr no' ↦ rw (found, no', acquire) granted
      ]
    ]

release-IsFenced :
    (t : ℕ) (name lock : GoString) (token : ℕ) (s : Service)
    → IsFenced t name s
    → IsFenced t name (release lock token s).1
unfolding release
release-IsFenced t name lock token s f = elim (Option-cases (get lock s.locks)) [
  | inl free ↦ rw (free, release) f
  | inr (existing, found) ↦ elim (Bool-cases (existing.token == token)) [
    | inl yes' ↦
        rw (found, yes', release)
          (record {
            issued = f.issued;
            held = λ h still. ground (arith, get-delete lock name s.locks, f.held h);
          })
    | inr no' ↦ rw (found, no', release) f
  ]
]

renew-IsFenced :
    (t : ℕ) (name : GoString) (c r : ℕ) (lock : GoString) (token ttl : ℕ) (s : Service)
    → IsFenced t name s
    → IsFenced t name (renew c r lock token ttl s).1
unfolding renew
renew-IsFenced t name c r lock token ttl s f = elim (Option-cases (get lock s.locks)) [
  | inl free ↦ rw (free, renew) f
  | inr (existing, found) ↦ elim (Bool-cases (existing.token == token)) [
    | inl same ↦ elim (Bool-cases (is_valid c existing)) [
      | inl valid ↦
          rw (found, same, valid, renew)
            (record {
              issued = f.issued;
              held = λ h still.
                  let g : LockGrant = record existing { expires_at = add_duration r ttl } in
                  elim (Bool-cases (str_eq lock name)) [
                    | inl here ↦ ground (
                      arith,
                      get-put lock name g s.locks,
                      f.held existing (
                          subst (λ n. get n s.locks ≡ some existing) ((str_eq_iff lock name).0 here)
                            found),
                    )
                    | inr there ↦ ground (arith, get-put lock name g s.locks, f.held h)
                  ];
            })
      | inr stale ↦ rw (found, same, stale, renew) f
    ]
    | inr other ↦ rw (found, other, renew) f
  ]
]

serve-IsFenced :
    (t : ℕ) (name : GoString) (c : Call) (s : Service)
    → s.next_token + 1 < u64_mod
    → IsFenced t name s
    → IsFenced t name (serve c s)
unfolding serve expire
serve-IsFenced t name (to_acquire c g lock holder ttl) s small f =
    acquire-IsFenced t name c g lock holder ttl s small f
serve-IsFenced t name (to_release lock token) s small f = release-IsFenced t name lock token s f
serve-IsFenced t name (to_renew c r lock token ttl) s small f =
    renew-IsFenced t name c r lock token ttl s f
serve-IsFenced t name (to_expire now) s small f = record {
  issued = f.issued;
  held = λ h still. ground (arith, expire_each-get now s.locks s.locks name, f.held h);
}

-- A call issues at most one token.
serve-next_token :
    (c : Call) (s : Service)
    → s.next_token + 1 < u64_mod
    → ((serve c s).next_token ≤ s.next_token + 1)
unfolding serve acquire grant_lock release renew expire
serve-next_token (to_acquire c g lock holder ttl) s small = ground arith
serve-next_token (to_release lock token) s small = ground arith
serve-next_token (to_renew c r lock token ttl) s small = ground arith
serve-next_token (to_expire now) s small = omega arith

serve_all-IsFenced :
    (t : ℕ) (name : GoString) (cs : List Call) (s : Service)
    → s.next_token + length cs < u64_mod
    → IsFenced t name s
    → IsFenced t name (serve_all cs s) × ((serve_all cs s).next_token ≤ s.next_token + length cs)
unfolding serve_all
serve_all-IsFenced t name [] s small f = (f, omega arith)
serve_all-IsFenced t name (c ∷ cs) s small f =
    let next = serve-next_token c s (omega (arith, small)) in
    let (f', last) =
      serve_all-IsFenced t name cs (serve c s) (omega (arith, small, next))
        (serve-IsFenced t name c s (omega (arith, small)) f) in
    (f', omega (arith, last, next))

-- What a granted lock holds.
pub record WasGranted (g : LockGrant) (name : GoString) (s s' : Service) : Type 0 where
  pub is_next : g.token ≡ u64 (s.next_token + 1)
  pub is_last : s'.next_token ≡ g.token
  pub is_kept : get name s'.locks ≡ some g

grant_lock-WasGranted :
    (d : ℕ) (name holder : GoString) (ttl : ℕ) (s : Service)
    → WasGranted (grant_lock d name holder ttl s).0 name s (grant_lock d name holder ttl s).1
unfolding grant_lock
grant_lock-WasGranted d name holder ttl s =
    let g : LockGrant = (grant_lock d name holder ttl s).0 in
    record {
      is_next = refl;
      is_last = refl;
      is_kept = get-put name name g s.locks ∙ rw (beq_refl name) refl;
    }

pub acquire-WasGranted :
    (c d : ℕ) (name holder : GoString) (ttl : ℕ) (s s' : Service) (g : LockGrant)
    → acquire c d name holder ttl s ≡ (inr g, s')
    → WasGranted g name s s'
unfolding acquire
acquire-WasGranted c d name holder ttl s s' g e =
    let ttl' : ℕ = if i64_lt 0 ttl then ttl else s.default_ttl in
    let new : LockGrant × Service = grant_lock d name holder ttl' s in
    let granted : (new.0 ≡ g) × (new.1 ≡ s') = ground arith in
    subst (λ x. WasGranted x name s s') granted.0
      (subst (λ x. WasGranted new.0 name s x) granted.1
        (grant_lock-WasGranted d name holder ttl' s))

acquire-starts-IsFenced :
    (name : GoString) (s s' : Service) (g : LockGrant)
    → WasGranted g name s s'
    → IsFenced g.token name s'
acquire-starts-IsFenced name s s' g w = record {
  issued = omega (arith, w.is_last);
  held = λ h found. ground (arith, w.is_kept);
}

-- After a lock is granted with a token, whatever calls follow, any token below that one is refused
-- for the lock, provided that the calls do not run the counter of tokens past 64 bits: a client
-- that lost the lock before the grant cannot use the resource again.
pub stale_token_refused :
    (c d : ℕ) (name holder : GoString) (ttl : ℕ) (s s' : Service) (g : LockGrant) (cs : List Call)
    (now t : ℕ)
    → acquire c d name holder ttl s ≡ (inr g, s')
    → s'.next_token + length cs < u64_mod
    → t < g.token
    → (e : LockError) × (verify_token now name t (serve_all cs s') ≡ some e)
unfolding verify_token
stale_token_refused c d name holder ttl s s' g cs now t e small old =
    let start =
      acquire-starts-IsFenced name s s' g (acquire-WasGranted c d name holder ttl s s' g e) in
    let (f, last) = serve_all-IsFenced g.token name cs s' small start in
    elim (Option-cases (get name (serve_all cs s').locks)) [
      | inl free ↦ (LockError.not_found, rw (free, verify_token) refl)
      | inr (h, found) ↦
          (LockError.stale_token, rw (found, verify_token) (ground (arith, f.held h found)))
    ]

-- Of two grants of any locks, with any calls between them, the later one has the greater token,
-- provided that the calls do not run the counter of tokens past 64 bits.
pub later_grant_newer :
    (c d c' d' : ℕ) (name holder name' holder' : GoString) (ttl ttl' : ℕ) (s s' s'' : Service)
    (g g' : LockGrant) (cs : List Call)
    → acquire c d name holder ttl s ≡ (inr g, s')
    → acquire c' d' name' holder' ttl' (serve_all cs s') ≡ (inr g', s'')
    → s'.next_token + length cs + 1 < u64_mod
    → g.token < g'.token
later_grant_newer c d c' d' name holder name' holder' ttl ttl' s s' s'' g g' cs e e' small =
    let first = acquire-WasGranted c d name holder ttl s s' g e in
    let second = acquire-WasGranted c' d' name' holder' ttl' (serve_all cs s') s'' g' e' in
    let (f, last) =
      serve_all-IsFenced g.token name cs s' (omega (arith, small))
        (acquire-starts-IsFenced name s s' g first) in
    omega (arith, f.issued, last, second.is_next, small)
