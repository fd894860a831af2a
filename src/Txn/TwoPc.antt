-- ===== src/Txn/TwoPc.antt =====
-- pkg/txn/twopc.go: two-phase commit. The channels of the source carry one answer for each
-- participant; an `Interrupt` says after how many answers the context ends or the wait times out,
-- if it does. The callbacks that persist are not code of the file: whether they fail is an argument,
-- and what they persisted is kept as a list of decisions.
pub mod Decisions
use hermes.Base.{
  ℕ, zero, suc, ◌+◌, ◌%◌, Bool, true, false, Option, none, some, List, [], ◌∷◌, ◌++◌, ◌⊎◌, inl, inr,
  ◌==◌, ◌&&◌, ltb, if◌then◌else◌, length, GoString, u64, nat_eq,
}
use hermes.Base.Dict.{Dict, get, put}

pub data TxnState : Type 0 where
  init preparing prepared committing committed aborting aborted : TxnState

pub data Vote : Type 0 where
  vote_commit vote_abort : Vote

pub record Participant : Type 0 where
  pub node_id : GoString
  pub shard_id : ℕ
  pub voted : Bool
  pub vote : Vote
  pub acked : Bool

pub record Transaction : Type 0 where
  pub txn_id : ℕ
  pub state : TxnState
  pub participants : List Participant
  pub persisted : List Bool  -- the decisions handed to `persistDecision` with success

pub record Coordinator : Type 0 where
  pub transactions : Dict ℕ Transaction
  pub next_txn_id : ℕ

pub new_coordinator : Coordinator
new_coordinator = record { transactions = []; next_txn_id = 1 }

pub begin : List Participant → Coordinator → Transaction × Coordinator
begin participants c =
    let txn : Transaction = record {
      txn_id = c.next_txn_id;
      state = init;
      participants = participants;
      persisted = [];
    } in
    (
      txn,
      record {
        transactions = put c.next_txn_id txn c.transactions;
        next_txn_id = u64 (c.next_txn_id + 1);
      },
    )

pub data TwoPcError : Type 0 where
  wrong_state persist_failed context_done timed_out : TwoPcError

-- After how many answers the wait ends early, and how.
pub record Interrupt : Type 0 where
  pub answers : ℕ
  pub why : TwoPcError

abbrev pub interrupted : ℕ → Option Interrupt → Option TwoPcError
interrupted n none = none
interrupted n (some i) = if ltb i.answers n then some i.why else none

-- The participant's check is simulated by the transaction's number.
pub send_prepare : Transaction → Vote
send_prepare txn = if txn.txn_id % 7 == 0 then vote_abort else vote_commit

abbrev pub is_commit : Vote → Bool
is_commit vote_commit = true
is_commit vote_abort = false

pub record_votes : Vote → List Participant → List Participant
record_votes v [] = []
record_votes v (p ∷ ps) = record p { voted = true; vote = v } ∷ record_votes v ps

pub all_commit : List Participant → Bool
all_commit [] = true
all_commit (p ∷ ps) = is_commit p.vote && all_commit ps

abbrev pub is_init : TxnState → Bool
is_init init = true
is_init _ = false

-- What follows the first lock of `Prepare`.
pub collect_votes : Option Interrupt → Transaction → (TwoPcError ⊎ Bool) × Transaction
unfolding send_prepare record_votes all_commit
collect_votes i txn = elim (interrupted (length txn.participants) i) [
  | some e ↦ (inl e, txn)
  | none ↦
      let ps = record_votes (send_prepare txn) txn.participants in
      (inr (all_commit ps), record txn { state = prepared; participants = ps })
]

pub prepare : Bool → Option Interrupt → Transaction → (TwoPcError ⊎ Bool) × Transaction
unfolding collect_votes
prepare persists i txn =
    if is_init txn.state
    then if persists
      then collect_votes i (record txn { state = preparing })
      else (inl persist_failed, record txn { state = aborting })
    else (inl wrong_state, txn)

pub record_acks : List Participant → List Participant
record_acks [] = []
record_acks (p ∷ ps) = record p { acked = true } ∷ record_acks ps

abbrev pub is_prepared : TxnState → Bool
is_prepared prepared = true
is_prepared _ = false

abbrev pub is_terminal : TxnState → Bool
is_terminal committed = true
is_terminal aborted = true
is_terminal _ = false

-- The participants are told in goroutines of their own, which run also if the wait ends early. A
-- timeout of one acknowledgement is passed over, so only the context interrupts.
pub commit : Bool → Bool → Transaction → Option TwoPcError × Transaction
unfolding record_acks
commit persists context_ends txn =
    if is_prepared txn.state
    then if persists
      then (
        if context_ends then some context_done else none,
        record txn {
          state = if context_ends then committing else committed;
          participants = record_acks txn.participants;
          persisted = txn.persisted ++ true ∷ [];
        },
      )
      else (some persist_failed, record txn { state = committing })
    else (some wrong_state, txn)

pub abort : Bool → Transaction → Option TwoPcError × Transaction
abort persists txn =
    if is_terminal txn.state
    then (some wrong_state, txn)
    else if persists
    then (none, record txn { state = aborted; persisted = txn.persisted ++ false ∷ [] })
    else (some persist_failed, record txn { state = aborting })

pub get_state : ℕ → Coordinator → Option TxnState
get_state id c = elim (get id c.transactions) [ none ↦ none | some txn ↦ some txn.state ]

abbrev is_in_doubt : TxnState → Bool
is_in_doubt prepared = true
is_in_doubt committing = true
is_in_doubt _ = false

in_doubt : Dict ℕ Transaction → List ℕ
in_doubt [] = []
in_doubt ((id, txn) ∷ txns) =
    let rest = in_doubt txns in if is_in_doubt txn.state then id ∷ rest else rest

pub recover_in_doubt : Coordinator → List ℕ
unfolding in_doubt
recover_in_doubt c = in_doubt c.transactions
