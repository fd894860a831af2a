-- ===== src/Raft/Node/Step.antt =====
-- pkg/raft/raft.go: `Step`, its three roles, and what a caller takes out of the node.
use hermes.Base.{
  ◌+◌, Bool, true, false, Option, none, some, List, [], ltb, ◌==◌, if◌then◌else◌, u64, str_eq,
  string_eq,
}
use hermes.Base.Dict.{get, put}
use hermes.Base.Partial.{◌>>=◌}
use hermes.Raft.Types.{NodeState, follower, candidate, leader, LogEntry, MsgType, Message, Progress}
use hermes.Raft.Log.{last_index, slice}
use hermes.Raft.Progress.{is_replicate, become_probe}
use hermes.Raft.Node.{Raft, send, send_append_entries, become_follower, campaign}
use hermes.Raft.Node.Handlers.{
  handle_proposal, handle_append_entries, handle_append_response, handle_heartbeat,
  handle_vote_request, handle_vote_response, handle_install_snapshot, handle_read_index,
}

-- The errors that `Step` returns.
pub data StepError : Type 0 where
  no_leader in_election empty_proposal : StepError

-- `none` is a panic; else the node and the error returned, if any.
abbrev pub Outcome : Type 0
Outcome = Option (Raft × Option StepError)

abbrev done : Option Raft → Outcome
done none = none
done (some r) = some (r, none)

abbrev heard : Message → Raft → Raft
heard m r = record r { election_elapsed = 0; lead = m.from }

unfoldable pub step_follower : MsgType → Message → Raft → Outcome
step_follower MsgType.heartbeat m r = done (handle_heartbeat m (heard m r))
step_follower MsgType.append m r = done (handle_append_entries m (heard m r))
step_follower MsgType.snapshot m r = done (some (handle_install_snapshot m (heard m r)))
step_follower MsgType.vote m r = done (some (handle_vote_request m r))
step_follower MsgType.pre_vote m r = done (some (handle_vote_request m r))
step_follower MsgType.timeout_now m r = done (campaign r)
step_follower MsgType.propose m r =
    if str_eq r.lead []
    then some (r, some no_leader)
    else some (send (record m { to = r.lead }) r, none)
step_follower _ m r = some (r, none)

unfoldable pub step_candidate : MsgType → Message → Raft → Outcome
step_candidate MsgType.vote_rsp m r = done (handle_vote_response m r)
step_candidate MsgType.pre_vote_rsp m r = done (handle_vote_response m r)
step_candidate MsgType.append m r = done (handle_append_entries m (become_follower m.term m.from r))
step_candidate MsgType.heartbeat m r = done (handle_heartbeat m (become_follower m.term m.from r))
step_candidate MsgType.propose m r = some (r, some in_election)
step_candidate MsgType.vote m r = done (some (handle_vote_request m r))
step_candidate _ m r = some (r, none)

heartbeat_answered : Message → Option Progress → Raft → Option Raft
heartbeat_answered m none r = some r
heartbeat_answered m (some prog) r =
    let r' = record r { progress = put m.from (record prog { recent_active = true }) r.progress } in
    if ltb prog.match_index (last_index r.log) then send_append_entries m.from r' else some r'

peer_lost : Message → Option Progress → Raft → Raft
peer_lost m none r = r
peer_lost m (some prog) r =
    if is_replicate prog.state
    then record r { progress = put m.from (become_probe prog) r.progress }
    else r

propose_entries : Message → List LogEntry → Raft → Outcome
propose_entries m [] r = some (r, some empty_proposal)
propose_entries m _ r = done (handle_proposal m r)

unfoldable pub step_leader : MsgType → Message → Raft → Outcome
unfolding heartbeat_answered peer_lost propose_entries
step_leader MsgType.propose m r = propose_entries m m.entries r
step_leader MsgType.append_rsp m r = done (handle_append_response m r)
step_leader MsgType.heartbeat_rsp m r = done (heartbeat_answered m (get m.from r.progress) r)
step_leader MsgType.vote m r = done (some (handle_vote_request m r))
step_leader MsgType.pre_vote m r = done (some (handle_vote_request m r))
step_leader MsgType.unreachable m r = done (some (peer_lost m (get m.from r.progress) r))
step_leader MsgType.read_index m r = done (handle_read_index m r)
step_leader _ m r = some (r, none)

unfoldable pub step_role : NodeState → Message → Raft → Outcome
unfolding step_follower step_candidate step_leader
step_role follower m r = step_follower m.type m r
step_role candidate m r = step_candidate m.type m r
step_role leader m r = step_leader m.type m r

abbrev pub is_vote_request : MsgType → Bool
is_vote_request MsgType.vote = true
is_vote_request MsgType.pre_vote = true
is_vote_request _ = false

abbrev pub is_vote_response : MsgType → Bool
is_vote_response MsgType.vote_rsp = true
is_vote_response MsgType.pre_vote_rsp = true
is_vote_response _ = false

-- A message of a later term makes the node a follower in that term, unless it asks for a vote.
unfoldable pub observe_term : Message → Raft → Raft
observe_term m r =
    if m.term == 0
    then r
    else if ltb r.term m.term
    then if is_vote_request m.type
      then r
      else become_follower m.term (if is_vote_response m.type then [] else m.from) r
    else r

abbrev pub is_stale : Message → Raft → Bool
is_stale m r = if m.term == 0 then false else ltb m.term r.term

unfoldable pub step : Message → Raft → Outcome
unfolding step_role observe_term
step m r =
    let r' = observe_term m r in if is_stale m r then some (r, none) else step_role r'.state m r'

take_messages : Raft → List Message × Raft
take_messages r = (r.msgs, record r { msgs = [] })

-- `Snapshot`, `SoftState`, `HardState` and `ReadStates` of a `Ready` are always nil.
pub record Ready : Type 0 where
  pub entries : List LogEntry
  pub messages : List Message
  pub committed_entries : List LogEntry

take_ready : Raft → Option (Ready × Raft)
unfolding take_messages
take_ready r = do
  entries ←
      if ltb r.log.applied (last_index r.log)
      then slice r.log (u64 (r.log.applied + 1)) (u64 (last_index r.log + 1))
      else some []
  committed ←
      if ltb r.log.applied r.log.committed
      then slice r.log (u64 (r.log.applied + 1)) (u64 (r.log.committed + 1))
      else some []
  let (messages, r') = take_messages r
  some (record { entries = entries; messages = messages; committed_entries = committed }, r')
