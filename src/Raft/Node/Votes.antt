-- ===== src/Raft/Node/Votes.antt =====
-- How a step changes the term and the vote of a node.
use hermes.Base.{
  ℕ, ◌+◌, ◌≤◌, ◌<◌, ◌≡◌, ◌≢◌, refl, some, List, [], ◌∷◌, arith, GoString, str_eq_iff, sym, ◌∙◌,
}
use hermes.Base.Partial.{>>=-eq-some}
use hermes.Raft.Types.{Message}
use hermes.Raft.Node.{
  Raft, send, become_follower, become_candidate, become_leader, send_append_entries, send_heartbeat,
  broadcast_heartbeat, broadcast_append, request_votes, solicit, campaign, append_entry,
  leader_commit,
}
use hermes.Raft.Node.Handlers.{
  advance_commit, handle_proposal, handle_append_entries, handle_append_response, handle_heartbeat,
  handle_vote_request, handle_vote_response, handle_read_index,
}

-- The term and the vote are as they were.
pub record SameBallot (r r' : Raft) : Type 0 where
  pub term : r'.term ≡ r.term
  pub vote : r'.vote ≡ r.vote

SameBallot-refl : (r : Raft) → SameBallot r r
SameBallot-refl r = record { term = refl; vote = refl }

SameBallot-trans : {a b c : Raft} → SameBallot a b → SameBallot b c → SameBallot a c
SameBallot-trans h k = ground arith

send-SameBallot : (m : Message) (r : Raft) → SameBallot r (send m r)
unfolding send
send-SameBallot m r = record { term = refl; vote = refl }

pub broadcast_heartbeat-SameBallot :
    (peers : List GoString) (r : Raft) → SameBallot r (broadcast_heartbeat peers r)
unfolding broadcast_heartbeat
broadcast_heartbeat-SameBallot [] r = SameBallot-refl r
broadcast_heartbeat-SameBallot (p ∷ ps) r =
    ground (arith, broadcast_heartbeat-SameBallot ps (send_heartbeat p r))

request_votes-SameBallot : (peers : List GoString) (r : Raft) → SameBallot r (request_votes peers r)
unfolding request_votes
request_votes-SameBallot [] r = SameBallot-refl r
request_votes-SameBallot (p ∷ ps) r = grind (arith, request_votes-SameBallot ps, send-SameBallot)

pub send_append_entries-SameBallot :
    (to : GoString) (r : Raft) {r' : Raft} → send_append_entries to r ≡ some r' → SameBallot r r'
unfolding send_append_entries send
send_append_entries-SameBallot to r h = ground arith

broadcast_append-SameBallot :
    (peers : List GoString) (r : Raft) {r' : Raft}
    → broadcast_append peers r ≡ some r'
    → SameBallot r r'
unfolding broadcast_append
broadcast_append-SameBallot [] r h = ground arith
broadcast_append-SameBallot (p ∷ ps) r h =
    let (s, first, rest) = >>=-eq-some (send_append_entries p r) (broadcast_append ps) h in
    SameBallot-trans (send_append_entries-SameBallot p r first)
      (broadcast_append-SameBallot ps s rest)

become_leader-SameBallot : (r : Raft) {r' : Raft} → become_leader r ≡ some r' → SameBallot r r'
unfolding become_leader append_entry
become_leader-SameBallot r h = grind (arith, broadcast_heartbeat-SameBallot)

advance_commit-SameBallot :
    (n : ℕ) (r : Raft) {r' : Raft} → advance_commit n r ≡ some r' → SameBallot r r'
unfolding advance_commit
advance_commit-SameBallot n r h = ground arith

pub handle_heartbeat-SameBallot :
    (m : Message) (r : Raft) {r' : Raft} → handle_heartbeat m r ≡ some r' → SameBallot r r'
unfolding handle_heartbeat send
handle_heartbeat-SameBallot m r h = ground arith

pub handle_append_entries-SameBallot :
    (m : Message) (r : Raft) {r' : Raft} → handle_append_entries m r ≡ some r' → SameBallot r r'
unfolding handle_append_entries send
handle_append_entries-SameBallot m r h = ground arith

pub handle_append_response-SameBallot :
    (m : Message) (r : Raft) {r' : Raft} → handle_append_response m r ≡ some r' → SameBallot r r'
unfolding handle_append_response leader_commit
handle_append_response-SameBallot m r h = grind (arith, send_append_entries-SameBallot)

pub handle_proposal-SameBallot :
    (m : Message) (r : Raft) {r' : Raft} → handle_proposal m r ≡ some r' → SameBallot r r'
unfolding handle_proposal leader_commit
handle_proposal-SameBallot m r h = grind (arith, broadcast_append-SameBallot)

pub handle_read_index-SameBallot :
    (m : Message) (r : Raft) {r' : Raft} → handle_read_index m r ≡ some r' → SameBallot r r'
unfolding handle_read_index
handle_read_index-SameBallot m r h = grind (arith, broadcast_heartbeat-SameBallot)

-- The term does not fall, and within a term a vote that was cast stays.
pub record BallotKept (r r' : Raft) : Type 0 where
  pub grows : r.term ≤ r'.term
  pub kept : r'.term ≡ r.term → r.vote ≢ [] → r'.vote ≡ r.vote

pub SameBallot-BallotKept : {r r' : Raft} → SameBallot r r' → BallotKept r r'
SameBallot-BallotKept h = record { grows = omega (arith, h.term); kept = λ e n. h.vote }

pub become_follower-BallotKept :
    (term : ℕ) (lead : GoString) (r : Raft) → BallotKept r (become_follower term lead r)
unfolding become_follower
become_follower-BallotKept term lead r = ground arith

pub BallotKept-same : {a b c : Raft} → BallotKept a b → SameBallot b c → BallotKept a c
BallotKept-same h k = record {
  grows = omega (arith, h.grows, k.term);
  kept = λ e n. k.vote ∙ h.kept (sym k.term ∙ e) n;
}

become_candidate_ballot :
    (r : Raft) {r' : Raft}
    → r.term + 1 < 18446744073709551616
    → become_candidate r ≡ some r'
    → (r'.term ≡ r.term + 1) × (r'.vote ≡ r.id)
unfolding become_candidate
become_candidate_ballot r fits h = ground arith

solicit-SameBallot :
    (ps : List GoString) (r : Raft) {r' : Raft} → solicit ps r ≡ some r' → SameBallot r r'
unfolding solicit
solicit-SameBallot [] r h = become_leader-SameBallot r h
solicit-SameBallot (p ∷ ps) r h = ground (arith, request_votes-SameBallot (p ∷ ps) r)

pub campaign-BallotKept :
    (r : Raft) {r' : Raft}
    → r.term + 1 < 18446744073709551616
    → campaign r ≡ some r'
    → BallotKept r r'
unfolding campaign
campaign-BallotKept r fits h =
    let (s, first, rest) =
      >>=-eq-some (become_candidate r) (λ (s : Raft). solicit s.config.peers s) h in
    let b : (s.term ≡ r.term + 1) × (s.vote ≡ r.id) = become_candidate_ballot r fits first in
    let k : SameBallot s _ = solicit-SameBallot s.config.peers s rest in
    record { grows = omega (arith, b, k.term); kept = λ e n. absurd (omega (arith, b, k.term)) }

pub handle_vote_request-BallotKept :
    (m : Message) (r : Raft) → r.term ≤ m.term → BallotKept r (handle_vote_request m r)
unfolding handle_vote_request send
handle_vote_request-BallotKept m r h =
    ground (arith, str_eq_iff r.vote [], str_eq_iff r.vote m.from)

pub handle_vote_response-BallotKept :
    (m : Message) (r : Raft) {r' : Raft}
    → r.term + 1 < 18446744073709551616
    → handle_vote_response m r ≡ some r'
    → BallotKept r r'
unfolding handle_vote_response
handle_vote_response-BallotKept m r fits h =
    grind (arith, campaign-BallotKept, become_leader-SameBallot, SameBallot-BallotKept)
