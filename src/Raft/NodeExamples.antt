-- ===== src/Raft/NodeExamples.antt =====
-- The theorems of Raft/Node at concrete nodes and messages.
use hermes.Base.{
  ◌+◌, List, length, ℕ, ◌*◌, ◌<◌, ◌≡◌, ◌≢◌, ◌⊎◌, inl, refl, ap, true, false, none, some, [], ◌∷◌,
  arith, length, bytes, GoString, str_eq, string_eq,
}
use hermes.Base.Dict.{Dict, get, put}
use hermes.Base.Partial.{Returns}
use hermes.Raft.Types.{Message, MsgType, follower, candidate, leader, Progress, probe}
use hermes.Raft.Log.{
  RaftLog, last_index, append_one, maybe_commit, find_commit, committable, count_from, majority,
  is_up_to_date, term_of, sentinel,
}
use hermes.Raft.Log.Numbered.{IsWellFormed}
use hermes.Raft.Log.Commit.{acks}
use hermes.Raft.LogExamples.{entry, three, three-IsWellFormed}
use hermes.Raft.Node.{
  Raft, blank, send, become_leader, append_entry, broadcast_heartbeat, send_heartbeat,
  leader_commit, send_append_entries,
}
use hermes.Raft.Node.Handlers.{
  can_vote, has_quorum, granted_votes, handle_vote_request, handle_vote_response,
  handle_append_entries,
}
use hermes.Raft.Node.Step.{step}
use hermes.Raft.Node.Election.{IsSane, step_ballot}
use hermes.Raft.Node.Grants.{
  AsksVote, Run, vote_answer, one_vote_per_term, rival_refused, step-vote, here, message,
}
use hermes.Raft.Node.Quorum.{AreDifferent, AllGranted, leader-quorum}
use hermes.Raft.Node.Follower.{Extends, AppendOutcome, handle_append_entries_log}
use hermes.Raft.Node.Leader.{matches, commit_by_majority, lagging_follower_panics}

abbrev first_byte : GoString → ℕ
first_byte [] = 0
first_byte (x ∷ xs) = x

abbrev a : GoString
a = bytes "a"

abbrev b : GoString
b = bytes "b"

abbrev c : GoString
c = bytes "c"

b_is_not_c : b ≢ c
b_is_not_c e = omega (arith, ap first_byte e)

b_is_named : b ≢ []
b_is_named e = omega (arith, ap length e)

-- A follower of a cluster of three in term 2 that has not voted.
abbrev voter : Raft
voter = record {
  config = record {
    node_id = a;
    peers = b ∷ c ∷ [];
    heartbeat_tick = 1;
    election_tick = 10;
    max_entries_to_send = 4;
    max_inflight = 16;
  };
  id = a;
  term = 2;
  vote = [];
  log = three;
  state = follower;
  lead = [];
  election_elapsed = 0;
  election_timeout = 10;
  heartbeat_elapsed = 0;
  progress = [];
  votes = [];
  msgs = [];
  read_only = record { pending = []; queue = [] };
  rng = record { position = 0; draw = λ k n. 0 };
}

-- A request for a vote in term 3 by a node whose log ends like the voter's.
abbrev ask : GoString → Message
ask from = record (blank MsgType.vote a 3) { from = from; last_log_index = 3; last_log_term = 2 }

ask-AsksVote : (from : GoString) → AsksVote (ask from) voter
ask-AsksVote from = record {
  is_vote = refl;
  is_real = refl;
  has_term = omega arith;
  is_current = omega arith;
}

ask-IsSane : IsSane (ask b) voter
ask-IsSane = record {
  own_room = omega arith;
  message_room = omega arith;
  carries_term = λ h. omega arith;
}

abbrev after : Raft
after = handle_vote_request (ask b) voter

step_ballot_example :
    (2 < after.term) ⊎ ((after.term ≡ 2) × ((voter.vote ≡ []) ⊎ (after.vote ≡ voter.vote)))
step_ballot_example =
    step_ballot (ask b) voter ask-IsSane (step-vote (ask b) voter (ask-AsksVote b))

-- Another candidate asks in between, and the first one asks again.
after-ask : (from : GoString) → AsksVote (ask from) after
unfolding handle_vote_request send can_vote str_eq is_up_to_date term_of last_index
after-ask from = record {
  is_vote = refl;
  is_real = refl;
  has_term = omega arith;
  is_current = omega arith;
}

between : Run after (handle_vote_request (ask c) after)
unfolding handle_vote_request send can_vote str_eq is_up_to_date term_of last_index
between =
    message (ask c) here
      (record {
        own_room = omega arith;
        message_room = omega arith;
        carries_term = λ h. omega arith;
      })
      (step-vote (ask c) after (after-ask c))

-- The first candidate's log has grown by then.
abbrev ask_again : Message
ask_again = record (ask b) { last_log_index = 4 }

one_vote_per_term_example : ask_again.from ≡ (ask b).from
unfolding handle_vote_request send can_vote str_eq is_up_to_date term_of last_index
one_vote_per_term_example =
    one_vote_per_term (ask b) ask_again voter after (handle_vote_request (ask c) after)
      (ask-AsksVote b) b_is_named refl (step-vote (ask b) voter (ask-AsksVote b)) between
      (record { is_vote = refl; is_real = refl; has_term = omega arith; is_current = omega arith })
      refl refl

-- A follower of b is asked by c.
abbrev led : Raft
led = record voter { vote = b; lead = b }

rival_refused_example :
    (r' : Raft) × (step (ask c) led ≡ some (r', none))
    × (r'.msgs ≡ vote_answer (ask c) led ∷ [])
    × ((vote_answer (ask c) led).vote_granted ≡ false)
    × (r'.term ≡ 2)
    × (r'.vote ≡ b)
rival_refused_example =
    rival_refused (ask c) led
      (record { is_vote = refl; is_real = refl; has_term = omega arith; is_current = omega arith })
      b_is_not_c (inl b_is_named)

-- A candidate with its own vote gets one of the two others.
abbrev runner : Raft
runner = record voter { vote = a; state = candidate; votes = (a, true) ∷ [] }

abbrev vote_for_runner : Message
vote_for_runner = record (blank MsgType.vote_rsp a 2) { from = b; vote_granted = true }

leader-quorum_example :
    (vote_for_runner.vote_granted ≡ true)
    × ((ids : List GoString) × AreDifferent ids
        × AllGranted ids (put b true runner.votes)
        × (length runner.config.peers + 1 < length ids * 2))
unfolding handle_vote_response has_quorum granted_votes get put str_eq become_leader append_entry
    append_one last_index broadcast_heartbeat send_heartbeat send
leader-quorum_example =
    leader-quorum vote_for_runner runner (refl, record { lower = tt }) refl refl refl

-- Entries 3 and 4 behind index 2, which the log has.
abbrev entries_from_b : Message
entries_from_b = record (blank MsgType.append a 3) {
  from = b;
  log_index = 2;
  log_term = 1;
  entries = entry 3 3 ∷ entry 4 3 ∷ [];
  commit_index = 3;
}

handle_append_entries_log_example :
    Returns
      (λ r'. Extends three r'.log × AppendOutcome entries_from_b voter r')
      (handle_append_entries entries_from_b voter)
handle_append_entries_log_example =
    handle_append_entries_log entries_from_b voter three-IsWellFormed
      (record { numbered = (refl, (refl, tt)); has_term = λ h. omega arith; fits = omega arith })

abbrev prog_at : ℕ → ℕ → Progress
prog_at next match = record {
  next_index = next;
  match_index = match;
  state = probe;
  inflight = 0;
  recent_active = false;
}

abbrev lead_of : Dict GoString Progress → Raft
lead_of progress = record voter { state = leader; lead = a; progress = progress }

abbrev lead_of_three : Raft
lead_of_three = lead_of ((a, prog_at 4 3) ∷ (b, prog_at 4 3) ∷ (c, prog_at 2 1) ∷ [])

commit_by_majority_example :
    (1 < (leader_commit lead_of_three).log.committed)
    × (3 < 2 * acks (leader_commit lead_of_three).log.committed (matches lead_of_three))
    × (term_of three (leader_commit lead_of_three).log.committed ≡ 2)
unfolding leader_commit maybe_commit find_commit committable count_from majority last_index term_of
commit_by_majority_example = commit_by_majority lead_of_three 1 refl (λ e. omega (arith, e))

-- A log behind a snapshot at 10 with one entry past it.
abbrev compacted : RaftLog
compacted = record {
  entries = sentinel 10 2 ∷ entry 11 2 ∷ [];
  snapshot_index = 10;
  snapshot_term = 2;
  committed = 10;
  applied = 10;
}

compacted-IsWellFormed : IsWellFormed compacted
compacted-IsWellFormed = record {
  nonempty = omega arith;
  in_range = omega arith;
  numbered = (refl, (refl, tt));
  base_term = refl;
  snapshot_committed = omega arith;
  committed_stored = omega arith;
  applied_committed = omega arith;
}

abbrev lead_compacted : Raft
lead_compacted = record (lead_of ((b, prog_at 1 0) ∷ [])) { log = compacted }

lagging_follower_panics_example : send_append_entries b lead_compacted ≡ none
unfolding last_index get str_eq
lagging_follower_panics_example =
    lagging_follower_panics b lead_compacted (prog_at 1 0) compacted-IsWellFormed refl refl
      (omega arith) (omega arith) (omega arith)
