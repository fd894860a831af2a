-- ===== src/Txn/TwoPhase/Decision.antt =====
-- The decision of the coordinator, and what a commit makes of it.
use hermes.Base.{ℕ, ◌≡◌, refl, true, Option, none, some, List, [], ◌∷◌, GoString, string_eq, arith}
use hermes.Base.Dict.{Dict, get, put}
use hermes.Txn.TwoPc.{Vote, vote_commit, vote_abort}
use hermes.Txn.TwoPhase.{Coordinator, CommitState, commit, collect}

abbrev pub AllCommit : List (GoString × Option Vote) → Type 0
AllCommit [] = Unit {0}
AllCommit ((node, v) ∷ answers) = (v ≡ some vote_commit) × AllCommit answers

-- A prepare reports that all would commit only if every participant voted so.
pub prepare-AllCommit :
    (answers : List (GoString × Option Vote)) (votes : Dict GoString Vote)
    → (collect answers votes).1 ≡ true
    → AllCommit answers
unfolding collect
prepare-AllCommit [] votes h = tt
prepare-AllCommit ((node, none) ∷ answers) votes h = absurd (ground (arith, h))
prepare-AllCommit ((node, some vote_commit) ∷ answers) votes h =
    (refl, prepare-AllCommit answers (put node vote_commit votes) h)
prepare-AllCommit ((node, some vote_abort) ∷ answers) votes h = absurd (ground (arith, h))

-- A transaction that was prepared is committed, whatever its decision.
pub commit_ignores_decision :
    (pt : ℕ) (id : GoString) (c : Coordinator) (s : CommitState)
    → get id c.transactions ≡ some s
    → s.prepared ≡ true
    → (commit pt id c).0 ≡ true
unfolding commit
commit_ignores_decision pt id c s found ready = ground (arith, found, ready)
