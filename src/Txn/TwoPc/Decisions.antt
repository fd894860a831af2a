-- ===== src/Txn/TwoPc/Decisions.antt =====
-- What the coordinator decides and persists, call after call.
use hermes.Base.{
  ◌%◌, ◌≡◌, ◌≢◌, refl, Bool, true, false, Option, none, some, List, [], ◌∷◌, inr, ◌==◌, arith,
  if◌then◌else◌,
}
use hermes.Txn.TwoPc.{
  init, prepared, committed, aborted, Transaction, Participant, vote_abort, vote_commit,
  is_terminal, prepare, collect_votes, commit, abort, send_prepare, all_commit, record_votes,
  context_done, Interrupt,
}

-- A state that is committed or aborted is the last one.
pub terminal_stays :
    (txn : Transaction) (persists context_ends : Bool) (i : Option Interrupt)
    → is_terminal txn.state ≡ true
    → ((prepare persists i txn).1 ≡ txn)
      × ((commit persists context_ends txn).1 ≡ txn)
      × ((abort persists txn).1 ≡ txn)
unfolding prepare commit abort
terminal_stays txn persists context_ends i h = ground arith

votes_abort : (ps : List Participant) → ps ≢ [] → all_commit (record_votes vote_abort ps) ≡ false
unfolding all_commit record_votes
votes_abort [] some' = absurd (some' refl)
votes_abort (p ∷ ps) some' = refl

votes_commit : (ps : List Participant) → all_commit (record_votes vote_commit ps) ≡ true
unfolding all_commit record_votes
votes_commit [] = refl
votes_commit (p ∷ ps) = votes_commit ps

-- The number of the transaction decides: a prepare of a new transaction with participants that
-- persists and is not interrupted reports that all would commit unless the number is a multiple of 7.
pub prepare_lem :
    (txn : Transaction)
    → txn.state ≡ init
    → txn.participants ≢ []
    → ((prepare true none txn).0 ≡ inr (if txn.txn_id % 7 == 0 then false else true))
      × ((prepare true none txn).1.state ≡ prepared)
unfolding prepare collect_votes send_prepare
prepare_lem txn fresh some' =
    ground (arith, votes_abort txn.participants some', votes_commit txn.participants)

-- `Commit` does not look at the votes: a transaction whose prepare reports that a participant votes
-- to abort is committed all the same.
pub commit_ignores_votes :
    (txn : Transaction)
    → (prepare true none txn).0 ≡ inr false
    → (commit true false (prepare true none txn).1).1.state ≡ committed
unfolding prepare collect_votes commit
commit_ignores_votes txn h = ground arith

-- A commit whose context ends after the decision is persisted leaves the transaction committing, and
-- an abort then goes through: both decisions are persisted, and the transaction counts as aborted
-- after its participants were told to commit.
pub abort_after_commit :
    (txn : Transaction)
    → txn.state ≡ prepared
    → txn.persisted ≡ []
    → ((commit true true txn).0 ≡ some context_done)
      × ((abort true (commit true true txn).1).0 ≡ none)
      × ((abort true (commit true true txn).1).1.state ≡ aborted)
      × ((abort true (commit true true txn).1).1.persisted ≡ true ∷ false ∷ [])
unfolding commit abort
abort_after_commit txn p empty = ground arith
