-- ===== src/Txn/TwoPhase.antt =====
-- pkg/txn/two_phase_commit.go: the coordinator over the hybrid clock. The votes are arguments: each
-- participant gives a vote or, as `none`, an error. `Sprintf` makes the ID, so it is an argument too.
-- The participants are told in goroutines of their own, which change nothing here. A panic does not
-- occur, and `range` visits a map in the order of its list.
pub mod Decision
use hermes.Base.{
  ℕ, ◌+◌, Bool, true, false, ◌&&◌, ◌||◌, Option, none, some, List, [], ◌∷◌, ◌⊎◌, inl, inr, ltb,
  if◌then◌else◌, GoString, nat_eq, string_eq,
}
use hermes.Base.Dict.{Dict, get, put, delete}
use hermes.Clock.Hybrid.{Hlc, now}
use hermes.Txn.TwoPc.{
  TxnState, init, preparing, committing, committed, aborted, Vote, vote_commit, vote_abort,
  Participant,
}

-- The fields of a transaction that the coordinator sets after it began.
pub record Txn : Type 0 where
  pub id : GoString
  pub state : TxnState
  pub read_timestamp : ℕ
  pub commit_timestamp : ℕ
  pub start_time : ℕ
  pub participants : List GoString

pub record CommitState : Type 0 where
  pub txn : Txn
  pub votes : Dict GoString Vote
  pub prepared : Bool
  pub committed : Bool
  pub decision : Vote

pub record Coordinator : Type 0 where
  pub transactions : Dict GoString CommitState
  pub participants : Dict ℕ Participant
  pub hlc : Hlc

pub new_two_phase_coordinator : Hlc → Coordinator
new_two_phase_coordinator hlc = record { transactions = []; participants = []; hlc = hlc }

pub add_participant : Participant → Coordinator → Coordinator
add_participant p c = record c { participants = put p.shard_id p c.participants }

-- The nodes of the shards that are known.
pub nodes_of : List ℕ → Dict ℕ Participant → List GoString
nodes_of [] ps = []
nodes_of (shard ∷ shards) ps =
    let rest = nodes_of shards ps in elim (get shard ps) [ none ↦ rest | some p ↦ p.node_id ∷ rest ]

abbrev is_empty : List GoString → Bool
is_empty [] = true
is_empty (n ∷ ns) = false

-- The clock is read for the ID, and once more for the read timestamp.
pub begin : ℕ → ℕ → (ℕ → ℕ → GoString) → List ℕ → Coordinator → Option Txn × Coordinator
begin pt start make_id shards c =
    let (hlc, ts) = now pt c.hlc in
    let (hlc', read_ts) = now pt hlc in
    let nodes = nodes_of shards c.participants in
    let txn : Txn = record {
      id = make_id ts start;
      state = init;
      read_timestamp = read_ts;
      commit_timestamp = 0;
      start_time = start;
      participants = nodes;
    } in
    let begun : CommitState = record {
      txn = txn;
      votes = [];
      prepared = false;
      committed = false;
      decision = vote_commit;
    } in
    if is_empty nodes
    then (none, record c { hlc = hlc })
    else (some txn, record c { hlc = hlc'; transactions = put txn.id begun c.transactions })

-- The answers, in the order in which they arrive: the votes stored, and whether all would commit.
pub collect : List (GoString × Option Vote) → Dict GoString Vote → Dict GoString Vote × Bool
collect [] votes = (votes, true)
collect ((node, none) ∷ answers) votes = ((collect answers votes).0, false)
collect ((node, some vote_commit) ∷ answers) votes = collect answers (put node vote_commit votes)
collect ((node, some vote_abort) ∷ answers) votes =
    ((collect answers (put node vote_abort votes)).0, false)

-- The answers are one for each participant.
pub prepare : GoString → List (GoString × Option Vote) → Coordinator → Option Bool × Coordinator
prepare id answers c = elim (get id c.transactions) [
  | none ↦ (none, c)
  | some s ↦
      let (votes, all) = collect answers s.votes in
      let s' : CommitState = record s {
        txn = record s.txn { state = preparing };
        votes = votes;
        prepared = true;
        decision = if all then vote_commit else vote_abort;
      } in
      (some all, record c { transactions = put id s' c.transactions })
]

-- True where the call gives no error.
pub commit : ℕ → GoString → Coordinator → Bool × Coordinator
commit pt id c =
    let (hlc, ts) = now pt c.hlc in
    elim (get id c.transactions) [
      | none ↦ (false, c)
      | some s ↦
          let s' : CommitState = record s {
            committed = true;
            txn = record s.txn { state = committed; commit_timestamp = ts };
          } in
          if s.prepared
          then (true, record c { hlc = hlc; transactions = put id s' c.transactions })
          else (false, c)
    ]

pub abort : GoString → Coordinator → Bool × Coordinator
abort id c = elim (get id c.transactions) [
  | none ↦ (false, c)
  | some s ↦
      let s' : CommitState = record s { txn = record s.txn { state = aborted } } in
      (true, record c { transactions = put id s' c.transactions })
]

pub get_state : GoString → Coordinator → Option CommitState
get_state id c = get id c.transactions

abbrev is_aborted : TxnState → Bool
is_aborted aborted = true
is_aborted _ = false

-- The transactions that the range visits, at a time.
pub cleanup_each :
    ℕ → Dict GoString CommitState → Dict GoString CommitState → Dict GoString CommitState
cleanup_each now [] txns = txns
cleanup_each now ((id, s) ∷ visited) txns = cleanup_each now visited (
    if (s.committed || is_aborted s.txn.state) && ltb (s.txn.start_time + 300000000000) now
    then delete id txns
    else txns)

pub cleanup : ℕ → Coordinator → Coordinator
cleanup now c = record c { transactions = cleanup_each now c.transactions c.transactions }
