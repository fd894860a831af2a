-- ===== src/Raft/Node/Handlers.antt =====
-- pkg/raft/raft.go: what a node does with each kind of message.
use hermes.Base.{
  ℕ, zero, suc, ◌+◌, ◌*◌, Bool, true, false, Option, none, some, List, [], ◌∷◌, ◌++◌, ltb, ◌==◌,
  not, ◌&&◌, ◌||◌, if◌then◌else◌, length, u64, GoString, str_eq, string_eq,
}
use hermes.Base.Dict.{Dict, get, put}
use hermes.Base.Partial.{◌>>=◌}
use hermes.Raft.Types.{LogEntry, MsgType, Message, Snapshot, Progress, ReadOnly, ReadIndexState}
use hermes.Raft.Log.{
  RaftLog, last_index, term_of, append_entries, append_one, commit_to, is_up_to_date, compact,
}
use hermes.Raft.Progress.{is_replicate, maybe_update, maybe_decr_to, become_replicate}
use hermes.Raft.Node.{
  Raft, send, blank, send_append_entries, broadcast_append, broadcast_heartbeat, leader_commit,
  become_leader, campaign,
}

-- `CommitTo` moves the commit index and hands out entries that these callers do not use.
unfoldable pub advance_commit : ℕ → Raft → Option Raft
advance_commit n r =
    let (log, handed) = commit_to r.log n in do entries ← handed; some (record r { log = log })

unfoldable pub number_entries : ℕ → ℕ → List LogEntry → List LogEntry
number_entries index term [] = []
number_entries index term (e ∷ es) =
    record e { index = u64 index; term = term } ∷ number_entries (index + 1) term es

unfoldable pub append_each : RaftLog → List LogEntry → Option RaftLog
append_each l [] = some l
append_each l (e ∷ es) = do l' ← append_one l e; append_each l' es

abbrev update_own : ℕ → GoString → Option Progress → Dict GoString Progress → Dict GoString Progress
update_own last id none d = d
update_own last id (some prog) d = put id (maybe_update prog last).0 d

unfoldable pub handle_proposal : Message → Raft → Option Raft
unfolding number_entries append_each
handle_proposal m r = do
  log ← append_each r.log (number_entries (last_index r.log + 1) r.term m.entries)
  r' ← broadcast_append r.config.peers (record r {
    log = log;
    progress = update_own (last_index log) r.id (get r.id r.progress) r.progress;
  })
  some (leader_commit r')

unfoldable pub log_consistency_check : Raft → ℕ → ℕ → Bool
log_consistency_check r index term = if index == 0 then true else term_of r.log index == term

-- The first index of the term that the log has at `index`, down to the snapshot.
first_of_term : RaftLog → ℕ → ℕ → ℕ
first_of_term l term zero = 0
first_of_term l term (suc n) = elim (ltb l.snapshot_index (suc n) && term_of l n == term) [
  | true ↦ first_of_term l term n
  | false ↦ suc n
]

pub find_conflict : Raft → ℕ → ℕ × ℕ
unfolding first_of_term
find_conflict r index =
    let term = term_of r.log index in
    if term == 0 then (last_index r.log, 0) else (first_of_term r.log term index, term)

append_rsp : GoString → ℕ → Raft → Raft
append_rsp to index r = send (record (blank MsgType.append_rsp to r.term) { index = index }) r

reject_rsp : GoString → ℕ × ℕ → Raft → Raft
reject_rsp to (index, term) r =
    send
      (record (blank MsgType.append_rsp to r.term) {
        conflict_index = index;
        conflict_term = term;
        reject = true;
      })
      r

-- `append` of no entries is not called.
unfoldable pub store_entries : Message → Raft → Option Raft
store_entries m r = do
  log ← append_entries r.log m.entries
  let r' = record r { log = log }
  if ltb r'.log.committed m.commit_index
      then advance_commit
          (if ltb (last_index r'.log) m.commit_index then last_index r'.log else m.commit_index) r'
      else some r'

unfoldable pub handle_append_entries : Message → Raft → Option Raft
unfolding log_consistency_check find_conflict append_rsp reject_rsp store_entries advance_commit
handle_append_entries m r =
    if ltb m.log_index r.log.committed
    then some (append_rsp m.from r.log.committed r)
    else if not (log_consistency_check r m.log_index m.log_term)
    then some (reject_rsp m.from (find_conflict r m.log_index) r)
    else do r' ← store_entries m r; some (append_rsp m.from (last_index r'.log) r')

-- The leader's pointer to the progress entry stays in the map, so each change is a write to it.
set_progress : GoString → Progress → Raft → Raft
set_progress id prog r = record r { progress = put id prog r.progress }

-- what follows a rejection
back_off : GoString → Progress × Bool → Raft → Option Raft
back_off from (prog, changed) r =
    let r' = set_progress from prog r in if changed then send_append_entries from r' else some r'

resend_missing : GoString → Progress → Raft → Option Raft
resend_missing from prog r =
    if ltb prog.match_index (last_index r.log) then send_append_entries from r else some r

-- what follows an acknowledgement
acknowledged : GoString → Progress × Bool → Raft → Option Raft
unfolding resend_missing
acknowledged from (prog, changed) r =
    let prog' = if not (is_replicate prog.state) then become_replicate prog else prog in
    if changed
    then resend_missing from prog' (leader_commit (set_progress from prog' r))
    else some (set_progress from prog r)

append_response_of : Message → Option Progress → Raft → Option Raft
unfolding back_off acknowledged set_progress
append_response_of m none r = some r
append_response_of m (some prog) r =
    let active = record prog { recent_active = true } in
    if m.reject
    then back_off m.from (maybe_decr_to active m.index m.conflict_index) r
    else acknowledged m.from (maybe_update active m.index) r

unfoldable pub handle_append_response : Message → Raft → Option Raft
unfolding append_response_of
handle_append_response m r = append_response_of m (get m.from r.progress) r

heartbeat_rsp : GoString → Raft → Raft
heartbeat_rsp to r =
    send (record (blank MsgType.heartbeat_rsp to r.term) { commit_index = r.log.committed }) r

unfoldable pub handle_heartbeat : Message → Raft → Option Raft
unfolding advance_commit heartbeat_rsp
handle_heartbeat m r = do
  r' ← if ltb r.log.committed m.commit_index then advance_commit m.commit_index r else some r
  some (heartbeat_rsp m.from r')

unfoldable pub can_vote : Message → Raft → Bool
can_vote m r =
    (str_eq r.vote [] && str_eq r.lead [])
    || str_eq r.vote m.from
    || (m.pre_vote && ltb r.term m.term)

vote_rsp : Message → ℕ → Bool → Raft → Raft
vote_rsp m term granted r =
    send
      (record (blank MsgType.vote_rsp m.from term) {
        vote_granted = granted;
        pre_vote = m.pre_vote;
      })
      r

unfoldable pub handle_vote_request : Message → Raft → Raft
unfolding vote_rsp can_vote
handle_vote_request m r =
    if can_vote m r && is_up_to_date r.log m.last_log_index m.last_log_term
    then vote_rsp m m.term true (record r {
      vote = if not m.pre_vote then m.from else r.vote;
      term = if not m.pre_vote then m.term else r.term;
      election_elapsed = 0;
    })
    else vote_rsp m r.term false r

unfoldable pub granted_votes : Dict GoString Bool → ℕ
granted_votes [] = 0
granted_votes ((id, granted) ∷ votes) = (if granted then 1 else 0) + granted_votes votes

unfoldable pub has_quorum : Raft → Dict GoString Bool → Bool
unfolding granted_votes
has_quorum r votes = ltb (1 + length r.config.peers) (granted_votes votes * 2)

unfoldable pub handle_vote_response : Message → Raft → Option Raft
unfolding has_quorum
handle_vote_response m r =
    let r' = record r { votes = put m.from m.vote_granted r.votes } in
    if m.vote_granted && has_quorum r' r'.votes
    then if m.pre_vote then campaign r' else become_leader r'
    else some r'

install_snapshot : Message → Option Snapshot → Raft → Raft
install_snapshot m none r = r
install_snapshot m (some snap) r =
    send (record (blank MsgType.snapshot_rsp m.from r.term) { index = snap.index })
      (record r { log = compact r.log snap.index snap.term })

unfoldable pub handle_install_snapshot : Message → Raft → Raft
unfolding install_snapshot
handle_install_snapshot m r = install_snapshot m m.snapshot r

enqueue_read : ℕ → GoString → GoString → Option ReadIndexState → ReadOnly → ReadOnly
enqueue_read index from ctx (some pending) ro = ro
enqueue_read index from ctx none ro = record {
  pending = put ctx (record { index = index; from = from; ctx = ctx; acks = [] }) ro.pending;
  queue = ro.queue ++ ctx ∷ [];
}

add_request : ℕ → GoString → GoString → ReadOnly → ReadOnly
unfolding enqueue_read
add_request index from ctx ro = enqueue_read index from ctx (get ctx ro.pending) ro

-- The handler reads the first entry of the message, and panics without one.
read_index_of : Message → List LogEntry → Raft → Option Raft
read_index_of m [] r = none
read_index_of m (e ∷ es) r = some (
    broadcast_heartbeat r.config.peers
      (record r { read_only = add_request r.log.committed m.from e.payload r.read_only }))

unfoldable pub handle_read_index : Message → Raft → Option Raft
unfolding read_index_of add_request
handle_read_index m r = read_index_of m m.entries r
