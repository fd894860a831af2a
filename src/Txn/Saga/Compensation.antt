-- ===== src/Txn/Saga/Compensation.antt =====
-- The order in which a saga runs and undoes its steps.
use mathlib.Core.List.{append_assoc, append-nil}
use hermes.Base.{
  ℕ, suc, ◌+◌, ◌≡◌, ◌⊎◌, inl, inr, refl, ap, subst, sym, ◌∙◌, Option, none, some, List, [], ◌∷◌,
  ◌++◌, length, length-append, get_elem?, arith, Option-cases,
}
use hermes.Txn.Saga.{
  SagaStep, completed, failed, SagaExecution, Orchestrator, Context, execute_step_with_retry,
  compensate, execute_from, execute, running,
}
use hermes.Txn.Saga.Attempts.{Undone, nothing_left, TriedStep, execute_step-TriedStep, undo_one}

module _ {D E : Type 0} where
  -- The steps that ran, from a list with the latest first.
  abbrev pub in_order : List (SagaStep D E) → List (SagaStep D E)
  in_order [] = []
  in_order (step ∷ earlier) = in_order earlier ++ step ∷ []

  get_elem?-middle :
      (xs ys : List (SagaStep D E)) (s : SagaStep D E)
      → get_elem? (xs ++ s ∷ ys) (length xs) ≡ some s
  get_elem?-middle [] ys s = refl
  get_elem?-middle (x ∷ xs) ys s = get_elem?-middle xs ys s

  length-in_order : (xs : List (SagaStep D E)) → length (in_order xs) ≡ length xs
  length-in_order [] = refl
  length-in_order (x ∷ xs) = omega (arith, length-append (in_order xs) (x ∷ []), length-in_order xs)

  -- The loop over the indices, downwards, undoes the steps that ran.
  compensate-Undone :
      (r rest : List (SagaStep D E)) (d : D)
      → Undone r d (compensate (in_order r ++ rest) (length r) d).1
  unfolding compensate
  compensate-Undone [] rest d = nothing_left d
  compensate-Undone (s ∷ r) rest d =
      let whole : in_order (s ∷ r) ++ rest ≡ in_order r ++ s ∷ rest =
        append_assoc (in_order r) (s ∷ []) rest in
      let here : get_elem? (in_order r ++ s ∷ rest) (length r) ≡ some s =
        subst (λ n. get_elem? (in_order r ++ s ∷ rest) n ≡ some s) (length-in_order r)
          (get_elem?-middle (in_order r) rest s) in
      subst (λ xs. Undone (s ∷ r) d (compensate xs (suc (length r)) d).1) (sym whole)
        (rw here
          (undo_one r s (in_order r ++ s ∷ rest) d (λ d'. compensate-Undone r (s ∷ rest) d')))

  -- The steps of a list all succeed, one after another from a first index.
  pub data Ran (o : Orchestrator) (ctx : Context E) : List (SagaStep D E) → D → D → Type 0 where
    none_ran : (d : D) → Ran o ctx [] d d
    then_ran :
        {r : List (SagaStep D E)} {d d' d'' : D} (step : SagaStep D E)
        → Ran o ctx r d d'
        → TriedStep o ctx (length r) step d' none d''
        → Ran o ctx (step ∷ r) d d''

  -- How a saga from the data `d` may have failed: the steps of `r` ran, the latest first, then a step
  -- failed, and those that ran were undone.
  pub record Failed (o : Orchestrator) (ctx : Context E) (x : SagaExecution D E) (err : Option E)
      (x' : SagaExecution D E) : Type 0 where
    pub ran : List (SagaStep D E)
    pub step : SagaStep D E
    pub rest : List (SagaStep D E)
    pub before : D
    pub after : D
    pub reason : E
    pub splits : x.steps ≡ in_order ran ++ step ∷ rest
    pub worked : Ran o ctx ran x.payload before
    pub broke : TriedStep o ctx (length ran) step before (some reason) after
    pub compensated : Undone ran after x'.payload
    pub reported : err ≡ some reason
    pub marked : x'.state ≡ failed

  pub record Completed (o : Orchestrator) (ctx : Context E) (x : SagaExecution D E) (err : Option E)
      (x' : SagaExecution D E) : Type 0 where
    pub ran : List (SagaStep D E)
    pub all_ran : x.steps ≡ in_order ran
    pub worked : Ran o ctx ran x.payload x'.payload
    pub reported : err ≡ none
    pub marked : x'.state ≡ completed

  abbrev pub Outcome :
      Orchestrator → Context E → SagaExecution D E → Option E × SagaExecution D E → Type 0
  Outcome o ctx x (err, x') = Completed o ctx x err x' ⊎ Failed o ctx x err x'

  execute_from-lem :
      (o : Orchestrator) (ctx : Context E) (left r : List (SagaStep D E)) (i : ℕ)
      (x0 x : SagaExecution D E)
      → i ≡ length r
      → x.steps ≡ in_order r ++ left
      → x0.steps ≡ x.steps
      → Ran o ctx r x0.payload x.payload
      → Outcome o ctx x0 (execute_from o ctx left i x)
  unfolding execute_from
  execute_from-lem o ctx [] r i x0 x num split same worked = inl (record {
    ran = r;
    all_ran = same ∙ split ∙ append-nil (in_order r);
    worked = worked;
    reported = refl;
    marked = refl;
  })
  execute_from-lem o ctx (step ∷ left) r i x0 x num split same worked =
      let result : Option E × D = execute_step_with_retry o ctx i step x.payload in
      let tried : TriedStep o ctx (length r) step x.payload result.0 result.1 =
        subst (λ n. TriedStep o ctx n step x.payload result.0 result.1) num
          (execute_step-TriedStep o ctx i step x.payload) in
      elim (Option-cases result.0) [
        | inl fine ↦
            let next : SagaExecution D E = record x { current_step = i; payload = result.1 } in
            let split' : x.steps ≡ in_order (step ∷ r) ++ left =
              split ∙ sym (append_assoc (in_order r) (step ∷ []) left) in
            rw (execute_from, fine)
              (execute_from-lem o ctx left (step ∷ r) (i + 1) x0 next (omega (arith, num)) split'
                same
                (then_ran step worked
                  (subst (λ e. TriedStep o ctx (length r) step x.payload e result.1) fine tried)))
        | inr (e, broken) ↦
            let same' : compensate (in_order r ++ step ∷ left) (length r) result.1
                ≡ compensate x.steps i result.1 =
              ap (λ n. compensate (in_order r ++ step ∷ left) n result.1) (sym num)
              ∙ ap (λ s. compensate s i result.1) (sym split) in
            rw (execute_from, broken)
              (inr (record {
                ran = r;
                step = step;
                rest = left;
                before = x.payload;
                after = result.1;
                reason = e;
                splits = same ∙ split;
                worked = worked;
                broke =
                    subst (λ e. TriedStep o ctx (length r) step x.payload e result.1) broken tried;
                compensated =
                    subst (λ p. Undone r result.1 p.1) same'
                      (compensate-Undone r (step ∷ left) result.1);
                reported = refl;
                marked = refl;
              }))
      ]

  -- A saga either completes, with every step run in order and none undone, or fails: the steps before
  -- some step ran in order, that step gave an error in its last attempt or was cancelled before one,
  -- and the compensations of those before it then ran on the data, the latest first, until one of them
  -- failed. A step is tried until an attempt succeeds, at most once more than its number of retries,
  -- each time on the data that the attempt before left. The result is marked
  -- and reported accordingly.
  pub execute_lem :
      (o : Orchestrator) (ctx : Context E) (x : SagaExecution D E)
      → Outcome o ctx x (execute o ctx x)
  unfolding execute
  execute_lem o ctx x =
      execute_from-lem o ctx x.steps [] 0 x (record x { state = running }) refl refl refl
        (none_ran x.payload)
