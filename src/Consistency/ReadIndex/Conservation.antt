-- ===== src/Consistency/ReadIndex/Conservation.antt =====
-- Where the reads that are queued end up, across the steps of callers.
use hermes.Base.{suc, ◌&&◌, ℕ, ◌+◌, ◌≡◌, refl, List, [], ◌∷◌, ◌++◌, ltb, ◌==◌, if◌then◌else◌, arith}
use hermes.Consistency.ReadIndex.{
  ReadIndexRequest, ReadIndexTracker, allocate_id, queue_read, without_first, give_up, to_notify,
  still_pending, confirm_leadership, on_applied,
}

-- The steps of the tracker's callers.
pub data Step : Type 0 where
  takes_id : Step
  queues : ReadIndexRequest → Step
  gives_up : (id : ℕ) → Step
  confirms : (max : ℕ) → Step
  applies : (index : ℕ) → Step

pub step : Step → ReadIndexTracker → ReadIndexTracker
step takes_id t = (allocate_id t).1
step (queues req) t = queue_read req t
step (gives_up id) t = give_up id t
step (confirms max) t = confirm_leadership max t
step (applies index) t = on_applied index t

pub run : List Step → ReadIndexTracker → ReadIndexTracker
run [] t = t
run (s ∷ ss) t = run ss (step s t)

-- How often a request with the ID stands in the list.
pub times : ℕ → List ReadIndexRequest → ℕ
times id [] = 0
times id (req ∷ reqs) = let rest = times id reqs in if req.request_id == id then suc rest else rest

-- How often a request with the ID was queued.
pub queued : ℕ → List Step → ℕ
queued id [] = 0
queued id (queues req ∷ ss) = times id (req ∷ []) + queued id ss
queued id (takes_id ∷ ss) = queued id ss
queued id (gives_up j ∷ ss) = queued id ss
queued id (confirms max ∷ ss) = queued id ss
queued id (applies index ∷ ss) = queued id ss

-- How often a pending request with the ID was given up.
pub given_up : ℕ → List Step → ReadIndexTracker → ℕ
given_up id [] t = 0
given_up id (gives_up j ∷ ss) t =
    (if (j == id) && ltb 0 (times id t.pending) then 1 else 0)
    + given_up id ss (step (gives_up j) t)
given_up id (queues req ∷ ss) t = given_up id ss (step (queues req) t)
given_up id (takes_id ∷ ss) t = given_up id ss (step takes_id t)
given_up id (confirms max ∷ ss) t = given_up id ss (step (confirms max) t)
given_up id (applies index ∷ ss) t = given_up id ss (step (applies index) t)

times-append :
    (id : ℕ) (xs ys : List ReadIndexRequest) → times id (xs ++ ys) ≡ times id xs + times id ys
unfolding times
times-append id [] ys = ground arith
times-append id (x ∷ xs) ys = ground (arith, times-append id xs ys)

times-confirmed :
    (id max : ℕ) (xs : List ReadIndexRequest)
    → times id (to_notify max xs) + times id (still_pending max xs) ≡ times id xs
unfolding times to_notify still_pending
times-confirmed id max [] = refl
times-confirmed id max (x ∷ xs) = ground (arith, times-confirmed id max xs)

times-without_first :
    (id j : ℕ) (xs : List ReadIndexRequest)
    → times id (without_first j xs) + (if (j == id) && ltb 0 (times id xs) then 1 else 0)
      ≡ times id xs
unfolding times without_first
times-without_first id j [] = ground arith
times-without_first id j (x ∷ xs) = ground (arith, times-without_first id j xs)

-- After any steps, a request's ID stands among the pending and the answered requests as often as it
-- did before and was queued since, less the times that it was given up while it was pending. So no
-- read is lost and none is answered twice.
pub reads_conserved :
    (ss : List Step) (t : ReadIndexTracker) (id : ℕ)
    → times id (run ss t).pending + times id (run ss t).answered + given_up id ss t
      ≡ times id t.pending + times id t.answered + queued id ss
unfolding run given_up queued step allocate_id queue_read give_up confirm_leadership on_applied
reads_conserved [] t id = refl
reads_conserved (takes_id ∷ ss) t id = reads_conserved ss (step takes_id t) id
reads_conserved (applies index ∷ ss) t id = reads_conserved ss (step (applies index) t) id
reads_conserved (queues req ∷ ss) t id =
    omega (arith, reads_conserved ss (step (queues req) t) id, times-append id t.pending (req ∷ []))
reads_conserved (confirms max ∷ ss) t id = omega (
  arith,
  reads_conserved ss (step (confirms max) t) id,
  times-append id t.answered (to_notify max t.pending),
  times-confirmed id max t.pending,
)
reads_conserved (gives_up j ∷ ss) t id =
    omega (arith, reads_conserved ss (step (gives_up j) t) id, times-without_first id j t.pending)
