-- ===== src/Raft/Node/Election.antt =====
-- Terms and votes across `Step` and `Tick`.
use hermes.Base.{
  ◌+◌, ◌≤◌, ◌<◌, ◌≡◌, refl, true, false, Option, some, [], arith, str_eq, str_eq_iff, Bool-cases,
  inl, inr, ltb, sym, ◌∙◌, ltb→lt, ◌⊎◌,
}
use hermes.Raft.Types.{follower, candidate, leader, NodeState, Message, MsgType}
use hermes.Raft.Node.{Raft, send, become_follower}
use hermes.Raft.Node.Handlers.{handle_install_snapshot}
use hermes.Raft.Node.Step.{
  StepError, step_follower, step_candidate, step_leader, step_role, observe_term, is_stale,
  is_vote_request, step,
}
use hermes.Raft.Node.Votes.{
  BallotKept, SameBallot-BallotKept, BallotKept-same, become_follower-BallotKept,
  send_append_entries-SameBallot, handle_heartbeat-SameBallot, handle_append_entries-SameBallot,
  handle_append_response-SameBallot, handle_proposal-SameBallot, handle_read_index-SameBallot,
  campaign-BallotKept, handle_vote_request-BallotKept, handle_vote_response-BallotKept,
}

abbrev Room : Raft → Type 0
Room r = r.term + 1 < 18446744073709551616

step_follower-BallotKept :
    (t : MsgType) (m : Message) (r : Raft) {r' : Raft} {e : Option StepError}
    → Room r
    → (is_vote_request t ≡ true → r.term ≤ m.term)
    → step_follower t m r ≡ some (r', e)
    → BallotKept r r'
unfolding step_follower send handle_install_snapshot
step_follower-BallotKept MsgType.heartbeat m r fits v h =
    grind (arith, handle_heartbeat-SameBallot, SameBallot-BallotKept)
step_follower-BallotKept MsgType.append m r fits v h =
    grind (arith, handle_append_entries-SameBallot, SameBallot-BallotKept)
step_follower-BallotKept MsgType.timeout_now m r fits v h = grind (arith, campaign-BallotKept)
step_follower-BallotKept MsgType.vote m r fits v h =
    ground (arith, v refl, handle_vote_request-BallotKept m r)
step_follower-BallotKept MsgType.pre_vote m r fits v h =
    ground (arith, v refl, handle_vote_request-BallotKept m r)
step_follower-BallotKept _ m r fits v h = ground arith

step_candidate-BallotKept :
    (t : MsgType) (m : Message) (r : Raft) {r' : Raft} {e : Option StepError}
    → Room r
    → (is_vote_request t ≡ true → r.term ≤ m.term)
    → step_candidate t m r ≡ some (r', e)
    → BallotKept r r'
unfolding step_candidate
step_candidate-BallotKept MsgType.vote_rsp m r fits v h =
    grind (arith, handle_vote_response-BallotKept)
step_candidate-BallotKept MsgType.pre_vote_rsp m r fits v h =
    grind (arith, handle_vote_response-BallotKept)
step_candidate-BallotKept MsgType.heartbeat m r fits v h =
    grind (arith, handle_heartbeat-SameBallot, become_follower-BallotKept, BallotKept-same)
step_candidate-BallotKept MsgType.append m r fits v h =
    grind (arith, handle_append_entries-SameBallot, become_follower-BallotKept, BallotKept-same)
step_candidate-BallotKept MsgType.vote m r fits v h =
    ground (arith, v refl, handle_vote_request-BallotKept m r)
step_candidate-BallotKept _ m r fits v h = ground arith

step_leader-BallotKept :
    (t : MsgType) (m : Message) (r : Raft) {r' : Raft} {e : Option StepError}
    → Room r
    → (is_vote_request t ≡ true → r.term ≤ m.term)
    → step_leader t m r ≡ some (r', e)
    → BallotKept r r'
unfolding step_leader
step_leader-BallotKept MsgType.propose m r fits v h =
    grind (arith, handle_proposal-SameBallot, SameBallot-BallotKept)
step_leader-BallotKept MsgType.append_rsp m r fits v h =
    grind (arith, handle_append_response-SameBallot, SameBallot-BallotKept)
step_leader-BallotKept MsgType.heartbeat_rsp m r fits v h =
    grind (arith, send_append_entries-SameBallot, SameBallot-BallotKept)
step_leader-BallotKept MsgType.read_index m r fits v h =
    grind (arith, handle_read_index-SameBallot, SameBallot-BallotKept)
step_leader-BallotKept MsgType.vote m r fits v h =
    ground (arith, v refl, handle_vote_request-BallotKept m r)
step_leader-BallotKept MsgType.pre_vote m r fits v h =
    ground (arith, v refl, handle_vote_request-BallotKept m r)
step_leader-BallotKept _ m r fits v h = ground arith

step_role-BallotKept :
    (s : NodeState) (m : Message) (r : Raft) {r' : Raft} {e : Option StepError}
    → Room r
    → (is_vote_request m.type ≡ true → r.term ≤ m.term)
    → step_role s m r ≡ some (r', e)
    → BallotKept r r'
unfolding step_role
step_role-BallotKept follower m r fits v h = step_follower-BallotKept m.type m r fits v h
step_role-BallotKept candidate m r fits v h = step_candidate-BallotKept m.type m r fits v h
step_role-BallotKept leader m r fits v h = step_leader-BallotKept m.type m r fits v h

pub BallotKept-trans : {a b c : Raft} → BallotKept a b → BallotKept b c → BallotKept a c
BallotKept-trans h k = record {
  grows = omega (arith, h.grows, k.grows);
  kept = λ e n.
      let ab : _ ≡ _ = h.kept (omega (arith, h.grows, k.grows, e)) n in
      k.kept (omega (arith, h.grows, k.grows, e)) (λ z. n (sym ab ∙ z)) ∙ ab;
}

observe_term-BallotKept : (m : Message) (r : Raft) → BallotKept r (observe_term m r)
unfolding observe_term become_follower
observe_term-BallotKept m r = ground arith

-- Neither the node's term nor the message's is the last of the 64-bit range, and a request for a
-- vote carries a term.
pub record IsSane (m : Message) (r : Raft) : Type 0 where
  pub own_room : r.term + 1 < 18446744073709551616
  pub message_room : m.term + 1 < 18446744073709551616
  pub carries_term : is_vote_request m.type ≡ true → 0 < m.term

observed_facts :
    (m : Message) (r : Raft)
    → IsSane m r
    → is_stale m r ≡ false
    → Room (observe_term m r) × (is_vote_request m.type ≡ true → (observe_term m r).term ≤ m.term)
unfolding observe_term become_follower
observed_facts m r s h = (ground arith, λ v. ground (arith, s.carries_term v))

pub step-BallotKept :
    (m : Message) (r : Raft) {r' : Raft} {e : Option StepError}
    → IsSane m r
    → step m r ≡ some (r', e)
    → BallotKept r r'
unfolding step
step-BallotKept m r s h = elim (Bool-cases (is_stale m r)) [
  | inl stale ↦ ground arith
  | inr fresh ↦
      let k : step_role (observe_term m r).state m (observe_term m r) ≡ some (_, _) =
        rw fresh at h in
      let f : Room (observe_term m r) × _ = observed_facts m r s fresh in
      BallotKept-trans (observe_term-BallotKept m r)
        (step_role-BallotKept (observe_term m r).state m (observe_term m r) f.0 f.1 k)
]

-- A step on any message, in any role, raises the node's term, or keeps it and keeps the vote
-- unless none was cast in it, provided that the terms of node and message leave room below 2^64
-- and that requests for votes carry a term.
pub step_ballot :
    (m : Message) (r : Raft) {r' : Raft} {e : Option StepError}
    → IsSane m r
    → step m r ≡ some (r', e)
    → (r.term < r'.term) ⊎ ((r'.term ≡ r.term) × ((r.vote ≡ []) ⊎ (r'.vote ≡ r.vote)))
step_ballot m r {r'} s h =
    let k : BallotKept r r' = step-BallotKept m r s h in
    elim (Bool-cases (ltb r.term r'.term)) [
      | inl later ↦ inl (ltb→lt _ _ later)
      | inr same ↦
          let e : r'.term ≡ r.term = ground (arith, k.grows) in
          elim (Bool-cases (str_eq r.vote [])) [
            | inl free ↦ inr (e, inl ((str_eq_iff r.vote []).0 free))
            | inr cast ↦ inr (e, inr (k.kept e (λ z. cc (cast, (str_eq_iff r.vote []).1 z))))
          ]
    ]
