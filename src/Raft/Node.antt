-- ===== src/Raft/Node.antt =====
-- pkg/raft/raft.go: the state of a node, its role changes, and what it sends. `none` stands for a
-- panic. A node is driven by one goroutine, so each call is a function of the state. The functions
-- that the source keeps in the fields `step` and `tick` are set together with the role, and are
-- chosen by it here. `rand.Rand` is not code of the repository: it is an unknown function from the
-- number of the draw and its bound to the number drawn.
pub mod Handlers
pub mod Step
pub mod Votes
pub mod Election
pub mod Leader
pub mod Follower
pub mod Grants
pub mod Quorum
use hermes.Base.{
  ℕ, zero, suc, ◌+◌, ◌*◌, Bool, true, false, Option, none, some, List, [], ◌∷◌, ◌++◌, ltb, leb,
  ◌==◌, not, ◌&&◌, ◌||◌, if◌then◌else◌, length, u64, u64_mod, GoString, str_eq, string_eq, map, ◌-◌,
}
use hermes.Base.Dict.{Dict, get, put}
use hermes.Base.Partial.{◌>>=◌}
use hermes.Raft.Types.{
  NodeState, follower, candidate, leader, LogEntry, noop, MsgType, Message, Config, Progress, probe,
  replicate, ReadIndexState, ReadOnly, Rand,
}
use hermes.Raft.Log.{
  RaftLog, new_raft_log, last_index, last_term, term_of, slice, append_one, maybe_commit,
}
use hermes.Raft.Progress.{is_snapshotting}

pub record Raft : Type 0 where
  pub config : Config
  pub id : GoString
  pub term : ℕ  -- uint64
  pub vote : GoString
  pub log : RaftLog
  pub state : NodeState
  pub lead : GoString
  pub election_elapsed : ℕ
  pub election_timeout : ℕ
  pub heartbeat_elapsed : ℕ
  pub progress : Dict GoString Progress
  pub votes : Dict GoString Bool
  pub msgs : List Message
  pub read_only : ReadOnly
  pub rng : Rand

abbrev pub is_leader : NodeState → Bool
is_leader leader = true
is_leader _ = false

abbrev pub is_candidate : NodeState → Bool
is_candidate candidate = true
is_candidate _ = false

unfoldable pub send : Message → Raft → Raft
send m r =
    let from = if str_eq m.from [] then r.id else m.from in
    let term = if m.term == 0 then r.term else m.term in
    record r { msgs = r.msgs ++ record m { from = from; term = term } ∷ [] }

-- `rng.Intn` panics unless its argument is above 0; the number of ticks of the configuration is.
reset_election_timeout : Raft → Raft
reset_election_timeout r = record r {
  election_elapsed = 0;
  election_timeout = r.config.election_tick + r.rng.draw r.rng.position r.config.election_tick;
  rng = record r.rng { position = r.rng.position + 1 };
}

pub become_follower : ℕ → GoString → Raft → Raft
unfolding reset_election_timeout
become_follower term lead r =
    let newer = ltb r.term term in
    reset_election_timeout (record r {
      term = if newer then term else r.term;
      vote = if newer then [] else r.vote;
      state = follower;
      lead = lead;
    })

pub new_raft : Config → Rand → Raft
unfolding become_follower
new_raft config rng = become_follower 0 [] (record {
  config = config;
  id = config.node_id;
  term = 0;
  vote = [];
  log = new_raft_log;
  state = follower;
  lead = [];
  election_elapsed = 0;
  election_timeout = 0;
  heartbeat_elapsed = 0;
  progress = [];
  votes = [];
  msgs = [];
  read_only = record { pending = []; queue = [] };
  rng = rng;
})

pub become_candidate : Raft → Option Raft
unfolding reset_election_timeout
become_candidate r =
    if is_leader r.state
    then none
    else some (
        reset_election_timeout (record r {
          term = u64 (r.term + 1);
          vote = r.id;
          state = candidate;
          lead = [];
          votes = put r.id true [];
        }))

abbrev pub blank : MsgType → GoString → ℕ → Message
blank type to term = record {
  type = type;
  to = to;
  from = [];
  term = term;
  index = 0;
  log_term = 0;
  log_index = 0;
  entries = [];
  commit_index = 0;
  success = false;
  conflict_index = 0;
  conflict_term = 0;
  last_log_index = 0;
  last_log_term = 0;
  vote_granted = false;
  pre_vote = false;
  snapshot = none;
  reject = false;
  reject_hint = 0;
}

unfoldable pub send_heartbeat : GoString → Raft → Raft
unfolding send
send_heartbeat to r =
    send (record (blank MsgType.heartbeat to r.term) { commit_index = r.log.committed }) r

-- `broadcastHeartbeat`, and `broadcastAppendEntries(true)`
unfoldable pub broadcast_heartbeat : List GoString → Raft → Raft
unfolding send_heartbeat
broadcast_heartbeat [] r = r
broadcast_heartbeat (peer ∷ peers) r = broadcast_heartbeat peers (send_heartbeat peer r)

append_message : GoString → Progress → List LogEntry → Raft → Message
append_message to prog entries r =
    let prev = u64 (prog.next_index + (u64_mod - 1)) in
    record (blank MsgType.append to r.term) {
      log_index = prev;
      log_term = term_of r.log prev;
      entries = entries;
      commit_index = r.log.committed;
    }

pub send_append_to : GoString → Option Progress → Raft → Option Raft
unfolding append_message send
send_append_to to none r = some r
send_append_to to (some prog) r = if is_snapshotting prog.state then some r else do
  entries ← slice r.log prog.next_index (u64 (prog.next_index + r.config.max_entries_to_send))
  some (send (append_message to prog entries r) r)

pub send_append_entries : GoString → Raft → Option Raft
unfolding send_append_to
send_append_entries to r = send_append_to to (get to r.progress) r

-- `broadcastAppendEntries(false)`
pub broadcast_append : List GoString → Raft → Option Raft
broadcast_append [] r = some r
broadcast_append (peer ∷ peers) r = do r' ← send_append_entries peer r; broadcast_append peers r'

unfoldable pub append_entry : LogEntry → Raft → Option Raft
append_entry e r = do
  log ← append_one r.log (record e { index = u64 (last_index r.log + 1); term = r.term })
  some (record r { log = log })

-- A new leader knows nothing of its peers' logs.
probe_peers : ℕ → List GoString → Dict GoString Progress → Dict GoString Progress
probe_peers last [] d = d
probe_peers last (peer ∷ peers) d = probe_peers last peers (
    put peer
      (record {
        next_index = u64 (last + 1);
        match_index = 0;
        state = probe;
        inflight = 0;
        recent_active = false;
      })
      d)

abbrev own_progress : ℕ → Progress
own_progress last = record {
  next_index = u64 (last + 1);
  match_index = last;
  state = replicate;
  inflight = 0;
  recent_active = true;
}

unfoldable pub become_leader : Raft → Option Raft
unfolding probe_peers append_entry
become_leader r =
    let last = last_index r.log in
    if not (is_candidate r.state) then none else do
      r' ←
          append_entry (record { index = 0; term = 0; type = noop; payload = [] })
            (record r {
              state = leader;
              lead = r.id;
              heartbeat_elapsed = 0;
              progress = probe_peers last r.config.peers (put r.id (own_progress last) r.progress);
            })
      some (broadcast_heartbeat r'.config.peers r')

pub request_votes : List GoString → Raft → Raft
unfolding send
request_votes [] r = r
request_votes (peer ∷ peers) r = request_votes peers (
    send
      (record (blank MsgType.vote peer r.term) {
        log_index = last_index r.log;
        log_term = last_term r.log;
        last_log_index = last_index r.log;
        last_log_term = last_term r.log;
      })
      r)

-- The rest of `campaign`, once the node is a candidate.
pub solicit : List GoString → Raft → Option Raft
solicit [] r = become_leader r
solicit (peer ∷ peers) r = some (request_votes (peer ∷ peers) r)

pub campaign : Raft → Option Raft
unfolding become_candidate solicit
campaign r = do r' ← become_candidate r; solicit r'.config.peers r'

-- `maybeCommit`: the match indices of every progress entry, the leader's own among them
unfoldable pub leader_commit : Raft → Raft
leader_commit r =
    let ms = map (λ (kv : GoString × Progress). (kv.1).match_index) r.progress in
    record r { log = (maybe_commit r.log ms (last_term r.log) r.term).0 }

pub tick_election : Raft → Option Raft
tick_election r =
    if leb r.election_timeout (r.election_elapsed + 1)
    then campaign (record r { election_elapsed = 0 })
    else some (record r { election_elapsed = r.election_elapsed + 1 })

pub tick_heartbeat : Raft → Raft
tick_heartbeat r =
    if leb r.config.heartbeat_tick (r.heartbeat_elapsed + 1)
    then broadcast_heartbeat r.config.peers (record r { heartbeat_elapsed = 0 })
    else record r { heartbeat_elapsed = r.heartbeat_elapsed + 1 }

pub tick : Raft → Option Raft
unfolding tick_election tick_heartbeat
tick r = if is_leader r.state then some (tick_heartbeat r) else tick_election r
