-- ===== src/Raft/Types.antt =====
-- pkg/raft/state.go and the message types of pkg/raft/raft.go
use hermes.Base.{ℕ, List, Bool, Option, GoString}
use hermes.Base.Dict.{Dict}

-- the three roles of a node
pub data NodeState : Type 0 where
  follower candidate leader : NodeState

pub data EntryType : Type 0 where
  normal config_change barrier noop : EntryType

pub record LogEntry : Type 0 where
  pub index : ℕ  -- uint64
  pub term : ℕ  -- uint64
  pub type : EntryType
  pub payload : GoString  -- Data []byte

pub data MsgType : Type 0 where
  heartbeat heartbeat_rsp append append_rsp vote vote_rsp pre_vote pre_vote_rsp : MsgType
  propose snapshot snapshot_rsp timeout_now read_index read_index_rsp tick unreachable : MsgType

pub record Snapshot : Type 0 where
  pub index : ℕ
  pub term : ℕ
  pub payload : GoString

pub record Message : Type 0 where
  pub type : MsgType
  pub to : GoString
  pub from : GoString
  pub term : ℕ
  pub index : ℕ
  pub log_term : ℕ
  pub log_index : ℕ
  pub entries : List LogEntry
  pub commit_index : ℕ
  pub success : Bool
  pub conflict_index : ℕ
  pub conflict_term : ℕ
  pub last_log_index : ℕ
  pub last_log_term : ℕ
  pub vote_granted : Bool
  pub pre_vote : Bool
  pub snapshot : Option Snapshot
  pub reject : Bool
  pub reject_hint : ℕ

-- `len(config.Peers)` and the tick counts are Go `int`s, read as numbers that are not negative.
pub record Config : Type 0 where
  pub node_id : GoString
  pub peers : List GoString
  pub heartbeat_tick : ℕ
  pub election_tick : ℕ
  pub max_entries_to_send : ℕ
  pub max_inflight : ℕ

pub data ProgressState : Type 0 where
  probe replicate snapshotting : ProgressState

pub record Progress : Type 0 where
  pub next_index : ℕ  -- uint64
  pub match_index : ℕ  -- uint64
  pub state : ProgressState
  pub inflight : ℕ
  pub recent_active : Bool

pub record ReadIndexState : Type 0 where
  pub index : ℕ
  pub from : GoString
  pub ctx : GoString
  pub acks : Dict GoString Bool

pub record ReadOnly : Type 0 where
  pub pending : Dict GoString ReadIndexState
  pub queue : List GoString

-- A source of random numbers: `draw k n` is what the draw number `k` gives for the bound `n`.
pub record Rand : Type 0 where
  pub position : ℕ
  pub draw : ℕ → ℕ → ℕ
