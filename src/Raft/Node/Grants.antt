-- ===== src/Raft/Node/Grants.antt =====
-- Who gets a vote: the reply to a request, one vote for each term of a run, and refused rivals.
use hermes.Base.{
  ◌+◌, ◌≤◌, ◌<◌, ◌≡◌, ◌≢◌, ◌⊎◌, refl, Bool, true, false, Option, none, some, [], ◌∷◌, ◌++◌, arith,
  str_eq, str_eq_iff, string_eq, Bool-cases, inl, inr, ◌==◌, sym, ◌∙◌, ◌&&◌, if◌then◌else◌,
}
use hermes.Raft.Types.{follower, candidate, leader, NodeState, Message, MsgType}
use hermes.Raft.Log.{is_up_to_date}
use hermes.Raft.Node.{Raft, send, blank, tick}
use hermes.Raft.Node.Handlers.{can_vote, handle_vote_request}
use hermes.Raft.Node.Step.{
  StepError, step, step_role, step_follower, step_candidate, step_leader, observe_term,
}
use hermes.Raft.Node.Votes.{
  BallotKept, SameBallot-BallotKept, campaign-BallotKept, broadcast_heartbeat-SameBallot,
}
use hermes.Raft.Node.Election.{IsSane, step-BallotKept, BallotKept-trans}

-- A request for a real vote, of the node's term or a later one.
pub record AsksVote (m : Message) (r : Raft) : Type 0 where
  pub is_vote : m.type ≡ MsgType.vote
  pub is_real : m.pre_vote ≡ false
  pub has_term : 0 < m.term
  pub is_current : r.term ≤ m.term

abbrev pub grants : Message → Raft → Bool
grants m r = can_vote m r && is_up_to_date r.log m.last_log_index m.last_log_term

step_role-vote :
    (s : NodeState) (m : Message) (r : Raft)
    → m.type ≡ MsgType.vote
    → step_role s m r ≡ some (handle_vote_request m r, none)
unfolding step_role step_follower step_candidate step_leader
step_role-vote follower m r h = rw h
step_role-vote candidate m r h = rw h
step_role-vote leader m r h = rw h

pub step-vote :
    (m : Message) (r : Raft) → AsksVote m r → step m r ≡ some (handle_vote_request m r, none)
unfolding step observe_term
step-vote m r a = ground (arith, step_role-vote r.state m r a.is_vote)

-- The answer that a request deserves.
abbrev pub vote_answer : Message → Raft → Message
vote_answer m r = record (blank MsgType.vote_rsp m.from (if grants m r then m.term else r.term)) {
  from = r.id;
  vote_granted = grants m r;
}

-- Whatever its role, a node answers a request for a real vote, of its term or a later one, with
-- one message to the candidate. If it may vote and the candidate's log is at least as up to date,
-- the message grants the vote in the candidate's term, and the node's term and vote become the
-- candidate's; else it refuses, and both stay as they are, also where the candidate's term is
-- later.
pub vote_reply :
    (m : Message) (r : Raft)
    → AsksVote m r
    → (r' : Raft) × (step m r ≡ some (r', none))
      × (r'.msgs ≡ r.msgs ++ vote_answer m r ∷ [])
      × (r'.term ≡ (if grants m r then m.term else r.term))
      × (r'.vote ≡ (if grants m r then m.from else r.vote))
unfolding handle_vote_request send str_eq
vote_reply m r a =
    let t : (m.term == 0) ≡ false = ground (arith, a.has_term) in
    let z : (if r.term == 0 then r.term else r.term) ≡ r.term = ground arith in
    elim (Bool-cases (grants m r)) [
      | inl yes' ↦ (
        handle_vote_request m r,
        step-vote m r a,
        rw (yes', a.is_real, t),
        rw (yes', a.is_real),
        rw (yes', a.is_real),
      )
      | inr no' ↦ (handle_vote_request m r, step-vote m r a, rw (no', a.is_real, z), rw no', rw no')
    ]

-- The events that reach a node: messages and ticks.
pub data Run (r : Raft) : Raft → Type 0 where
  here : Run r r
  message :
      {s t : Raft} {e : Option StepError} (m : Message)
      → Run r s
      → IsSane m s
      → step m s ≡ some (t, e)
      → Run r t
  ticked : {s t : Raft} → Run r s → s.term + 1 < 18446744073709551616 → tick s ≡ some t → Run r t

tick-BallotKept :
    (r : Raft) {r' : Raft} → r.term + 1 < 18446744073709551616 → tick r ≡ some r' → BallotKept r r'
unfolding tick
tick-BallotKept r fits h =
    grind (arith, campaign-BallotKept, broadcast_heartbeat-SameBallot, SameBallot-BallotKept)

Run-BallotKept : {r s : Raft} → Run r s → BallotKept r s
Run-BallotKept here = SameBallot-BallotKept (record { term = refl; vote = refl })
Run-BallotKept (message m run sane h) =
    BallotKept-trans (Run-BallotKept run) (step-BallotKept m _ sane h)
Run-BallotKept (ticked run fits h) =
    BallotKept-trans (Run-BallotKept run) (tick-BallotKept _ fits h)

granted_ballot :
    (m : Message) (r : Raft) {r' : Raft}
    → AsksVote m r
    → grants m r ≡ true
    → step m r ≡ some (r', none)
    → (r'.term ≡ m.term) × (r'.vote ≡ m.from)
granted_ballot m r a g h = let (q, run, _, t, v) = vote_reply m r a in ground (arith, run, t, v)

-- A node that has voted grants only requests of the candidate that it voted for.
grants_voted :
    (m : Message) (r : Raft) → AsksVote m r → grants m r ≡ true → r.vote ≢ [] → m.from ≡ r.vote
unfolding can_vote
grants_voted m r a g n = ground (arith, str_eq_iff r.vote [], str_eq_iff r.vote m.from, a.is_real)

-- A node grants at most one candidate its vote in each term: after it granted a real request of a
-- named candidate, and after any messages and ticks, a request of the same term that it grants is
-- by the same candidate. Along the way terms stay below 2^64 and requests for votes carry a term.
pub one_vote_per_term :
    (m n : Message) (r r' s : Raft)
    → AsksVote m r
    → m.from ≢ []
    → grants m r ≡ true
    → step m r ≡ some (r', none)
    → Run r' s
    → AsksVote n s
    → grants n s ≡ true
    → n.term ≡ m.term
    → n.from ≡ m.from
one_vote_per_term m n r r' s a named g h run b g' same =
    let cast : (r'.term ≡ m.term) × (r'.vote ≡ m.from) = granted_ballot m r a g h in
    let k : BallotKept r' s = Run-BallotKept run in
    let e : s.term ≡ r'.term = omega (arith, cast.0, k.grows, b.is_current, same) in
    let v : s.vote ≡ m.from = k.kept e (λ z. named (sym cast.1 ∙ z)) ∙ cast.1 in
    grants_voted n s b g' (λ z. named (sym v ∙ z)) ∙ v

not_granted :
    (m : Message) (r : Raft)
    → AsksVote m r
    → r.vote ≢ m.from
    → (r.vote ≢ []) ⊎ (r.lead ≢ [])
    → grants m r ≡ false
unfolding can_vote
not_granted m r a other busy =
    ground (arith, str_eq_iff r.vote [], str_eq_iff r.lead [], str_eq_iff r.vote m.from, a.is_real)

-- Asked for a real vote in its term or a later one, a node that voted for another, or that knows a
-- leader and did not vote for the asker, refuses however late the term is, and stays in its own
-- term with its vote as it was.
pub rival_refused :
    (m : Message) (r : Raft)
    → AsksVote m r
    → r.vote ≢ m.from
    → (r.vote ≢ []) ⊎ (r.lead ≢ [])
    → (r' : Raft) × (step m r ≡ some (r', none))
      × (r'.msgs ≡ r.msgs ++ vote_answer m r ∷ [])
      × ((vote_answer m r).vote_granted ≡ false)
      × (r'.term ≡ r.term)
      × (r'.vote ≡ r.vote)
rival_refused m r a other busy =
    let no' : grants m r ≡ false = not_granted m r a other busy in
    let (r', run, sent, t, v) = vote_reply m r a in (r', run, sent, no', rw no' at t, rw no' at v)
