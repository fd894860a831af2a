-- ===== src/Raft/Node/Quorum.antt =====
-- Who has voted for a candidate that becomes leader on a vote response.
use hermes.Base.{
  ◌+◌, ◌*◌, ◌<◌, ◌≡◌, ◌≢◌, refl, subst, Bool, true, false, some, none, List, [], ◌∷◌, length,
  GoString, str_eq_iff, string_eq, arith,
}
use hermes.Base.Dict.{Dict, get, put, IsMap, put-IsMap}
use hermes.Raft.Types.{Message, candidate, leader}
use hermes.Raft.Node.{Raft}
use hermes.Raft.Node.Handlers.{granted_votes, has_quorum, handle_vote_response}

abbrev pub AllDiffer : GoString → List GoString → Type 0
AllDiffer id [] = Unit {0}
AllDiffer id (j ∷ ids) = (id ≢ j) × AllDiffer id ids

abbrev pub AreDifferent : List GoString → Type 0
AreDifferent [] = Unit {0}
AreDifferent (id ∷ ids) = AllDiffer id ids × AreDifferent ids

-- Each of the nodes is recorded with a vote that it granted.
abbrev pub AllGranted : List GoString → Dict GoString Bool → Type 0
AllGranted [] votes = Unit {0}
AllGranted (id ∷ ids) votes = (get id votes ≡ some true) × AllGranted ids votes

-- A node that is recorded beside them is none of them, and changes nothing for them.
AllGranted-cons :
    (k : GoString) (b : Bool) (votes : Dict GoString Bool) (ids : List GoString)
    → get k votes ≡ none
    → AllGranted ids votes
    → AllDiffer k ids × AllGranted ids ((k, b) ∷ votes)
unfolding get
AllGranted-cons k b votes [] fresh all = (tt, tt)
AllGranted-cons k b votes (id ∷ ids) fresh (here, all) =
    let (differ, granted) = AllGranted-cons k b votes ids fresh all in
    let other : k ≢ id = λ e.
      let none_here : get id votes ≡ none = subst (λ j. get j votes ≡ none) e fresh in
      ground (arith, here, none_here) in
    ((other, differ), (ground (arith, here, str_eq_iff k id, other), granted))

granters_lem :
    (votes : Dict GoString Bool)
    → IsMap votes
    → (ids : List GoString) × AreDifferent ids
      × AllGranted ids votes
      × (length ids ≡ granted_votes votes)
unfolding granted_votes get
granters_lem [] distinct = ([], tt, tt, refl)
granters_lem ((k, true) ∷ votes) (fresh, distinct) =
    let (ids, differ, granted, count) = granters_lem votes distinct in
    let (apart, granted') = AllGranted-cons k true votes ids fresh granted in
    (k ∷ ids, (apart, differ), (ground (arith, str_eq_iff k k), granted'), omega (arith, count))
granters_lem ((k, false) ∷ votes) (fresh, distinct) =
    let (ids, differ, granted, count) = granters_lem votes distinct in
    (ids, differ, (AllGranted-cons k false votes ids fresh granted).1, omega (arith, count))

-- A candidate that becomes leader on a response, which granted its vote, has recorded the granted
-- votes of different nodes, the response's sender counted, that are more than half of the cluster,
-- which is its peers and itself. No node is bound twice in its record of votes.
pub leader-quorum :
    (m : Message) (r : Raft) {r' : Raft}
    → IsMap r.votes
    → r.state ≡ candidate
    → handle_vote_response m r ≡ some r'
    → r'.state ≡ leader
    → (m.vote_granted ≡ true)
      × ((ids : List GoString) × AreDifferent ids
          × AllGranted ids (put m.from true r.votes)
          × (length r.config.peers + 1 < length ids * 2))
unfolding handle_vote_response has_quorum
leader-quorum m r distinct c h l =
    let (ids, differ, granted, count) =
      granters_lem (put m.from true r.votes) (put-IsMap m.from true r.votes distinct) in
    let (accepted, many) : (m.vote_granted ≡ true)
        × (length r.config.peers + 1 < granted_votes (put m.from true r.votes) * 2) =
      ground arith in
    (accepted, (ids, differ, granted, omega (arith, many, count)))
