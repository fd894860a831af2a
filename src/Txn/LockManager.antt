-- ===== src/Txn/LockManager.antt =====
-- pkg/txn/types.go: the lock manager of a shard. A time is a number, and 0 is the zero time; a map
-- in `txn_locks` that is `nil` is a missing one. `range` visits a map in the order of its list.
pub mod Ownership
use hermes.Base.{
  ℕ, Bool, true, false, not, ◌&&◌, Option, none, some, List, [], ◌∷◌, ltb, ◌==◌, if◌then◌else◌,
  length, GoString, str_eq, string_eq,
}
use hermes.Base.Dict.{Dict, get, put, delete}

pub record Lock : Type 0 where
  pub key : GoString
  pub txn_id : GoString
  pub timestamp : ℕ
  pub primary : GoString
  pub expires_at : ℕ

abbrev pub KeySet : Type 0
KeySet = Dict GoString Bool

pub record LockManager : Type 0 where
  pub locks : Dict GoString Lock
  pub txn_locks : Dict GoString KeySet

unfoldable pub new_lock_manager : LockManager
new_lock_manager = record { locks = []; txn_locks = [] }

abbrev pub keys_or_new : Option KeySet → KeySet
keys_or_new none = []
keys_or_new (some keys) = keys

-- The lock is stored, and its key is added to its transaction's.
pub take_lock : GoString → Lock → LockManager → LockManager
take_lock key lock lm = record {
  locks = put key lock lm.locks;
  txn_locks =
      put lock.txn_id (put key true (keys_or_new (get lock.txn_id lm.txn_locks))) lm.txn_locks;
}

abbrev delete_key :
    GoString → GoString → Option KeySet → Dict GoString KeySet → Dict GoString KeySet
delete_key txn key none m = m
delete_key txn key (some keys) m = put txn (delete key keys) m

-- `delete(lm.txnLocks[txn], key)`, which does nothing to a map that is `nil`
pub forget_key : GoString → GoString → LockManager → LockManager
forget_key txn key lm = record lm {
  txn_locks = delete_key txn key (get txn lm.txn_locks) lm.txn_locks;
}

pub is_expired : ℕ → Lock → Bool
is_expired now lock = not (lock.expires_at == 0) && ltb lock.expires_at now

pub try_lock : ℕ → GoString → Lock → LockManager → Bool × LockManager
unfolding take_lock forget_key is_expired
try_lock now key lock lm = elim (get key lm.locks) [
  | none ↦ (true, take_lock key lock lm)
  | some existing ↦
      if str_eq existing.txn_id lock.txn_id
      then (true, lm)
      else if is_expired now existing
      then (true, take_lock key lock (forget_key existing.txn_id key lm))
      else (false, lm)
]

pub delete_keys : KeySet → Dict GoString Lock → Dict GoString Lock
delete_keys [] locks = locks
delete_keys ((key, held) ∷ keys) locks = delete_keys keys (delete key locks)

pub unlock : GoString → LockManager → LockManager
unfolding delete_keys
unlock txn lm = elim (get txn lm.txn_locks) [
  | none ↦ lm
  | some keys ↦ record { locks = delete_keys keys lm.locks; txn_locks = delete txn lm.txn_locks }
]

pub unlock_key : GoString → GoString → LockManager → Bool × LockManager
unfolding forget_key
unlock_key key txn lm = elim (get key lm.locks) [
  | none ↦ (false, lm)
  | some lock ↦
      if str_eq lock.txn_id txn
      then (true, forget_key txn key (record lm { locks = delete key lm.locks }))
      else (false, lm)
]

pub get_lock : GoString → LockManager → Option Lock
get_lock key lm = get key lm.locks

pub has_conflict : GoString → GoString → LockManager → Bool
has_conflict key txn lm = elim (get key lm.locks) [
  | none ↦ false
  | some lock ↦ not (str_eq lock.txn_id txn)
]

expired_in : ℕ → Dict GoString Lock → List Lock
unfolding is_expired
expired_in now [] = []
expired_in now ((key, lock) ∷ locks) =
    let rest = expired_in now locks in if is_expired now lock then lock ∷ rest else rest

pub get_expired_locks : ℕ → LockManager → List Lock
unfolding expired_in
get_expired_locks now lm = expired_in now lm.locks

pub record LockStats : Type 0 where
  pub active_locks : ℕ
  pub active_txns : ℕ

pub stats : LockManager → LockStats
stats lm = record { active_locks = length lm.locks; active_txns = length lm.txn_locks }
