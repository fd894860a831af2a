-- ===== src/Txn/LockManager/Ownership.antt =====
-- Who holds what, in the two maps of the lock manager.
use hermes.Base.{
  ℕ, ◌≡◌, ◌≢◌, refl, ap, subst, sym, ◌∙◌, Bool, true, false, ◌&&◌, Option, none, some, [], ◌∷◌,
  if◌then◌else◌, GoString, str_eq, string_eq, str_eq_iff, arith, Bool-cases, Option-cases, inl, inr,
}
use hermes.Base.Dict.{Dict, get, put, delete, get-put, get-delete, beq_refl}
use hermes.Txn.LockManager.{
  Lock, LockManager, new_lock_manager, KeySet, keys_or_new, take_lock, forget_key, try_lock, unlock,
  unlock_key, delete_keys, is_expired,
}

abbrev pub is_present : Option Bool → Bool
is_present none = false
is_present (some held) = true

-- The key is among the transaction's.
abbrev pub is_marked : GoString → GoString → LockManager → Bool
is_marked txn key lm = is_present (get key (keys_or_new (get txn lm.txn_locks)))

abbrev pub is_owner : GoString → Option Lock → Bool
is_owner txn none = false
is_owner txn (some lock) = str_eq lock.txn_id txn

-- The transaction holds the lock on the key.
abbrev pub holds : GoString → GoString → LockManager → Bool
holds txn key lm = is_owner txn (get key lm.locks)

abbrev pub Agrees : LockManager → Type 0
Agrees lm = (txn key : GoString) → is_marked txn key lm ≡ holds txn key lm

holds-take_lock :
    (txn k key : GoString) (lock : Lock) (lm : LockManager)
    → holds txn k (take_lock key lock lm)
      ≡ (if str_eq key k then str_eq lock.txn_id txn else holds txn k lm)
unfolding take_lock
holds-take_lock txn k key lock lm = ground (arith, get-put key k lock lm.locks)

is_marked-take_lock :
    (txn k key : GoString) (lock : Lock) (lm : LockManager)
    → is_marked txn k (take_lock key lock lm)
      ≡ (if str_eq lock.txn_id txn && str_eq key k then true else is_marked txn k lm)
unfolding take_lock
is_marked-take_lock txn k key lock lm =
    let keys : KeySet = keys_or_new (get lock.txn_id lm.txn_locks) in
    elim (Bool-cases (str_eq lock.txn_id txn)) [
      | inl here ↦
          let same : get lock.txn_id lm.txn_locks ≡ get txn lm.txn_locks =
            ap (λ t. get t lm.txn_locks) ((str_eq_iff lock.txn_id txn).0 here) in
          ground (
            arith,
            get-put lock.txn_id txn (put key true keys) lm.txn_locks,
            get-put key k true keys,
          )
      | inr there ↦ ground (arith, get-put lock.txn_id txn (put key true keys) lm.txn_locks)
    ]

-- Taking a lock that no other transaction holds.
take_lock-Agrees :
    (key : GoString) (lock : Lock) (lm : LockManager)
    → Agrees lm
    → ((txn : GoString) → txn ≢ lock.txn_id → holds txn key lm ≡ false)
    → Agrees (take_lock key lock lm)
take_lock-Agrees key lock lm a free txn k =
    is_marked-take_lock txn k key lock lm
    ∙ (elim (Bool-cases (str_eq key k)) [
      | inl here ↦
          let unmarked : txn ≢ lock.txn_id → is_marked txn k lm ≡ false = λ other.
            a txn k ∙ ap (λ j. holds txn j lm) (sym ((str_eq_iff key k).0 here)) ∙ free txn other in
          ground (arith, unmarked, str_eq_iff lock.txn_id txn)
      | inr there ↦ ground (arith, a txn k)
    ])
    ∙ sym (holds-take_lock txn k key lock lm)

is_marked-forget_key :
    (txn k owner key : GoString) (lm : LockManager)
    → is_marked txn k (forget_key owner key lm)
      ≡ (if str_eq owner txn && str_eq key k then false else is_marked txn k lm)
unfolding forget_key get
is_marked-forget_key txn k owner key lm = elim (Bool-cases (str_eq owner txn)) [
  | inl here ↦
      let same : get owner lm.txn_locks ≡ get txn lm.txn_locks =
        ap (λ t. get t lm.txn_locks) ((str_eq_iff owner txn).0 here) in
      elim (Option-cases (get owner lm.txn_locks)) [
        | inl absent ↦ ground arith
        | inr (keys, found) ↦
            ground (arith, get-put owner txn (delete key keys) lm.txn_locks, get-delete key k keys)
      ]
  | inr there ↦ elim (Option-cases (get owner lm.txn_locks)) [
    | inl absent ↦ ground arith
    | inr (keys, found) ↦ ground (arith, get-put owner txn (delete key keys) lm.txn_locks)
  ]
]

-- The expired holder forgets the key, and the lock is taken from it.
steal-Agrees :
    (key : GoString) (lock existing : Lock) (lm : LockManager)
    → Agrees lm
    → get key lm.locks ≡ some existing
    → str_eq existing.txn_id lock.txn_id ≡ false
    → Agrees (take_lock key lock (forget_key existing.txn_id key lm))
unfolding forget_key
steal-Agrees key lock existing lm a found other txn k =
    is_marked-take_lock txn k key lock (forget_key existing.txn_id key lm)
    ∙ (elim (Bool-cases (str_eq key k)) [
      | inl here ↦
          let found' : get k lm.locks ≡ some existing =
            subst (λ j. get j lm.locks ≡ some existing) ((str_eq_iff key k).0 here) found in
          ground (
            arith,
            is_marked-forget_key txn k existing.txn_id key lm,
            a txn k,
            str_eq_iff lock.txn_id txn,
            str_eq_iff existing.txn_id txn,
            str_eq_iff existing.txn_id lock.txn_id,
          )
      | inr there ↦ ground (arith, is_marked-forget_key txn k existing.txn_id key lm, a txn k)
    ])
    ∙ sym (holds-take_lock txn k key lock (forget_key existing.txn_id key lm))

try_lock-Agrees :
    (now : ℕ) (key : GoString) (lock : Lock) (lm : LockManager)
    → Agrees lm
    → Agrees (try_lock now key lock lm).1
unfolding try_lock
try_lock-Agrees now key lock lm a = elim (Option-cases (get key lm.locks)) [
  | inl absent ↦
      rw (absent, try_lock) (take_lock-Agrees key lock lm a (λ txn other. rw absent refl))
  | inr (existing, found) ↦ elim (Bool-cases (str_eq existing.txn_id lock.txn_id)) [
    | inl same ↦ rw (found, same, try_lock) a
    | inr other ↦ elim (Bool-cases (is_expired now existing)) [
      | inl old ↦ rw (found, other, old, try_lock) (steal-Agrees key lock existing lm a found other)
      | inr valid ↦ rw (found, other, valid, try_lock) a
    ]
  ]
]

unlock_key-Agrees :
    (key txn : GoString) (lm : LockManager) → Agrees lm → Agrees (unlock_key key txn lm).1
unfolding unlock_key
unlock_key-Agrees key txn lm a = elim (Option-cases (get key lm.locks)) [
  | inl absent ↦ rw (absent, unlock_key) a
  | inr (lock, found) ↦ elim (Bool-cases (str_eq lock.txn_id txn)) [
    | inr other ↦ rw (found, other, unlock_key) a
    | inl mine ↦
        rw (found, mine, unlock_key)
          (λ t k.
            let rest : LockManager = record lm { locks = delete key lm.locks } in
            is_marked-forget_key t k txn key rest ∙ (elim (Bool-cases (str_eq key k)) [
              | inl here ↦
                  let found' : get k lm.locks ≡ some lock =
                    subst (λ j. get j lm.locks ≡ some lock) ((str_eq_iff key k).0 here) found in
                  ground (
                    arith,
                    get-delete key k lm.locks,
                    a t k,
                    str_eq_iff lock.txn_id t,
                    str_eq_iff lock.txn_id txn,
                    str_eq_iff txn t,
                  )
              | inr there ↦ ground (arith, get-delete key k lm.locks, a t k)
            ]))
  ]
]

get-delete_keys :
    (key : GoString) (keys : KeySet) (locks : Dict GoString Lock)
    → get key (delete_keys keys locks) ≡ (if is_present (get key keys) then none else get key locks)
unfolding delete_keys get
get-delete_keys key [] locks = refl
get-delete_keys key ((j, held) ∷ keys) locks =
    ground (arith, get-delete_keys key keys (delete j locks), get-delete j key locks)

unlock-Agrees : (txn : GoString) (lm : LockManager) → Agrees lm → Agrees (unlock txn lm)
unfolding unlock get
unlock-Agrees txn lm a = elim (Option-cases (get txn lm.txn_locks)) [
  | inl absent ↦ rw (absent, unlock) a
  | inr (keys, found) ↦
      rw (found, unlock)
        (λ t k. elim (Option-cases (get k lm.locks)) [
          | inl free ↦ ground (
            arith,
            get-delete txn t lm.txn_locks,
            get-delete_keys k keys lm.locks,
            a t k,
            a txn k,
            str_eq_iff txn t,
          )
          | inr (lock, held) ↦ ground (
            arith,
            get-delete txn t lm.txn_locks,
            get-delete_keys k keys lm.locks,
            a t k,
            a txn k,
            str_eq_iff txn t,
            str_eq_iff lock.txn_id t,
            str_eq_iff lock.txn_id txn,
          )
        ])
]

-- The two maps of a new lock manager agree, and every operation keeps them so: a key is among a
-- transaction's keys exactly if the transaction holds its lock.
pub operations-Agrees :
    (now : ℕ) (key txn : GoString) (lock : Lock) (lm : LockManager)
    → Agrees lm
    → Agrees new_lock_manager
      × Agrees (try_lock now key lock lm).1
      × Agrees (unlock_key key txn lm).1
      × Agrees (unlock txn lm)
unfolding new_lock_manager get
operations-Agrees now key txn lock lm a = (
  λ t k. refl,
  try_lock-Agrees now key lock lm a,
  unlock_key-Agrees key txn lm a,
  unlock-Agrees txn lm a,
)

-- `TryLock` reports success exactly if the transaction holds the lock afterwards, and changes no
-- other key.
pub try_lock_lem :
    (now : ℕ) (key : GoString) (lock : Lock) (lm : LockManager) (txn k : GoString)
    → k ≢ key
    → ((try_lock now key lock lm).0 ≡ holds lock.txn_id key (try_lock now key lock lm).1)
      × (holds txn k (try_lock now key lock lm).1 ≡ holds txn k lm)
unfolding try_lock forget_key take_lock
try_lock_lem now key lock lm txn k other = (
  ground (arith, get-put key key lock lm.locks, beq_refl key, beq_refl lock.txn_id),
  ground (arith, get-put key k lock lm.locks, str_eq_iff key k),
)

-- If the two maps agree, `Unlock` leaves the transaction without a lock, and every other one with
-- the locks that it had.
pub unlock_lem :
    (txn t key : GoString) (lm : LockManager)
    → Agrees lm
    → t ≢ txn
    → (holds txn key (unlock txn lm) ≡ false) × (holds t key (unlock txn lm) ≡ holds t key lm)
unfolding unlock get
unlock_lem txn t key lm a other = elim (Option-cases (get txn lm.txn_locks)) [
  | inl absent ↦ (rw (absent, unlock) (ground (arith, a txn key)), rw (absent, unlock) refl)
  | inr (keys, found) ↦ (
    rw (found, unlock) (ground (arith, get-delete_keys key keys lm.locks, a txn key)),
    rw (found, unlock)
        (elim (Option-cases (get key lm.locks)) [
          | inl free ↦ ground (arith, get-delete_keys key keys lm.locks)
          | inr (lock, held) ↦ ground (
            arith,
            get-delete_keys key keys lm.locks,
            a txn key,
            str_eq_iff lock.txn_id t,
            str_eq_iff lock.txn_id txn,
          )
        ]),
  )
]
