-- ===== src/Txn/Ssi.antt =====
-- pkg/txn/ssi.go: the detector of serialization conflicts. Of a transaction it reads the fields that
-- are kept here. Times are numbers, the reading of the clock is an argument, and `range` visits a map
-- in the order of its list. A round of the loop that collects garbage is a step of its own.
pub mod Conflicts
use hermes.Base.{
  ℕ, ◌+◌, Bool, true, false, not, ◌&&◌, Option, none, some, List, [], ◌∷◌, ltb, if◌then◌else◌,
  GoString, str_eq, string_eq,
}
use hermes.Base.Dict.{Dict, get, put, delete}
use hermes.Clock.Hybrid.{after}

pub record Transaction : Type 0 where
  pub id : GoString
  pub read_timestamp : ℕ
  pub start_time : ℕ

pub record RwSet : Type 0 where
  pub read_at : ℕ
  pub written : Bool
  pub write_at : ℕ

abbrev pub RwSets : Type 0
RwSets = Dict GoString RwSet

pub record CommittedTxnInfo : Type 0 where
  pub txn_id : GoString
  pub commit_ts : ℕ
  pub write_keys : Dict GoString Bool
  pub read_keys : Dict GoString Bool
  pub expires_at : ℕ

pub record SsiDetector : Type 0 where
  pub active_txns : Dict GoString Transaction
  pub read_write_sets : Dict GoString RwSets
  pub committed_txns : Dict GoString CommittedTxnInfo

unfoldable pub new_ssi_detector : SsiDetector
new_ssi_detector = record { active_txns = []; read_write_sets = []; committed_txns = [] }

unfoldable pub register_txn : Transaction → SsiDetector → SsiDetector
register_txn txn d = record d {
  active_txns = put txn.id txn d.active_txns;
  read_write_sets = put txn.id [] d.read_write_sets;
}

-- The sets of the transaction, or none yet.
abbrev pub sets_or_new : Option RwSets → RwSets
sets_or_new none = []
sets_or_new (some sets) = sets

abbrev pub sets_of : GoString → SsiDetector → RwSets
sets_of id d = sets_or_new (get id d.read_write_sets)

abbrev pub with_set : GoString → GoString → RwSet → SsiDetector → SsiDetector
with_set id key rw d = record d {
  read_write_sets = put id (put key rw (sets_of id d)) d.read_write_sets;
}

unfoldable pub record_read : GoString → GoString → ℕ → SsiDetector → SsiDetector
record_read id key ts d = with_set id key (record { read_at = ts; written = false; write_at = 0 }) d

abbrev pub marked_written : ℕ → Option RwSet → RwSet
marked_written ts none = record { read_at = 0; written = true; write_at = ts }
marked_written ts (some rw) = record rw { written = true; write_at = ts }

unfoldable pub record_write : GoString → GoString → ℕ → SsiDetector → SsiDetector
record_write id key ts d = with_set id key (marked_written ts (get key (sets_of id d))) d

pub data Reason : Type 0 where
  rw_cycle write_write : Reason

pub record SerializationError : Type 0 where
  pub txn_id : GoString
  pub conflict_txn : GoString
  pub key : GoString
  pub reason : Reason

-- `m[k]` of a map to `bool`
abbrev pub has_key : GoString → Dict GoString Bool → Bool
has_key key keys = elim (get key keys) [ none ↦ false | some b ↦ b ]

abbrev pub is_written : Option RwSet → Bool
is_written none = false
is_written (some rw) = rw.written

abbrev is_read_only : Option RwSet → Bool
is_read_only none = false
is_read_only (some rw) = not rw.written

-- Some key of the map was read, and not written.
pub reads_one : RwSets → Dict GoString Bool → Bool
reads_one sets [] = false
reads_one sets ((key, b) ∷ keys) =
    let rest = reads_one sets keys in if is_read_only (get key sets) then true else rest

abbrev pub or_else : {A : Type 0} → Option A → Option A → Option A
or_else (some a) other = some a
or_else none other = other

-- The keys left to look at, against one committed transaction.
pub rw_conflict :
    Transaction → RwSets → GoString → CommittedTxnInfo → RwSets → Option SerializationError
rw_conflict txn sets cid info [] = none
rw_conflict txn sets cid info ((key, rw) ∷ left) =
    let rest = rw_conflict txn sets cid info left in
    if rw.written
      && has_key key info.read_keys
      && reads_one sets info.write_keys
      && after txn.read_timestamp info.commit_ts
    then some (record { txn_id = txn.id; conflict_txn = cid; key = key; reason = rw_cycle })
    else rest

unfoldable pub committed_conflict :
    Transaction → RwSets → Dict GoString CommittedTxnInfo → Option SerializationError
committed_conflict txn sets [] = none
committed_conflict txn sets ((cid, info) ∷ infos) =
    let rest = committed_conflict txn sets infos in
    if str_eq cid txn.id then rest else or_else (rw_conflict txn sets cid info sets) rest

-- The other transaction is active and started before.
abbrev pub started_before : Transaction → Option Transaction → Bool
started_before txn none = false
started_before txn (some other) = ltb other.start_time txn.start_time

unfoldable pub ww_conflict :
    Transaction → GoString → Option Transaction → RwSets → RwSets → Option SerializationError
ww_conflict txn oid other others [] = none
ww_conflict txn oid other others ((key, rw) ∷ left) =
    let rest = ww_conflict txn oid other others left in
    if rw.written && is_written (get key others) && started_before txn other
    then some (record { txn_id = txn.id; conflict_txn = oid; key = key; reason = write_write })
    else rest

unfoldable pub active_conflict :
    Transaction
    → RwSets
    → Dict GoString Transaction
    → Dict GoString RwSets
    → Option SerializationError
active_conflict txn sets active [] = none
active_conflict txn sets active ((oid, others) ∷ left) =
    let rest = active_conflict txn sets active left in
    if str_eq oid txn.id
    then rest
    else or_else (ww_conflict txn oid (get oid active) others sets) rest

-- `none` is that there is no conflict.
unfoldable pub check_conflict : Transaction → SsiDetector → Option SerializationError
check_conflict txn d = elim (get txn.id d.read_write_sets) [
  | none ↦ none
  | some sets ↦
      or_else (committed_conflict txn sets d.committed_txns)
        (active_conflict txn sets d.active_txns d.read_write_sets)
]

-- The keys that were written, or those that were not.
pub keys_where : Bool → RwSets → Dict GoString Bool
keys_where w [] = []
keys_where w ((key, rw) ∷ sets) =
    let rest = keys_where w sets in
    if (if rw.written then w else not w) then (key, true) ∷ rest else rest

-- The sets of the transaction stay behind.
pub commit : ℕ → GoString → ℕ → SsiDetector → SsiDetector
commit now id ts d = elim (get id d.read_write_sets) [
  | none ↦ d
  | some sets ↦ record d {
    active_txns = delete id d.active_txns;
    committed_txns =
        put id
          (record {
            txn_id = id;
            commit_ts = ts;
            write_keys = keys_where true sets;
            read_keys = keys_where false sets;
            expires_at = now + 300000000000;
          })
          d.committed_txns;
  }
]

pub abort : GoString → SsiDetector → SsiDetector
abort id d = record d {
  active_txns = delete id d.active_txns;
  read_write_sets = delete id d.read_write_sets;
}

-- The entries that the range visits.
pub gc_each :
    ℕ
    → Dict GoString CommittedTxnInfo
    → Dict GoString CommittedTxnInfo
    → Dict GoString CommittedTxnInfo
gc_each now [] infos = infos
gc_each now ((id, info) ∷ visited) infos =
    gc_each now visited (if ltb info.expires_at now then delete id infos else infos)

pub gc_round : ℕ → SsiDetector → SsiDetector
gc_round now d = record d { committed_txns = gc_each now d.committed_txns d.committed_txns }
