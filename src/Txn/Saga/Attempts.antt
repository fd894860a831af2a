-- ===== src/Txn/Saga/Attempts.antt =====
-- The attempts at a step, and the compensations of steps.
use hermes.Base.{
  ℕ, suc, zero, ◌+◌, ◌<◌, ◌≡◌, ◌⊎◌, inl, inr, subst, sym, ◌∙◌, Option, none, some, List, [], ◌∷◌,
  length, arith, ◌==◌, if◌then◌else◌, Option-cases,
}
use hermes.Txn.Saga.{
  SagaStep, Orchestrator, Context, execute_step_with_retry, compensate, compensate_step, and_then,
  attempts, ended,
}

pub pair_of : {A B : Type 0} (p : A × B) {a : A} → p.0 ≡ a → p ≡ (a, p.1)
pair_of p e = λ k. (e k, p.1)

module _ {D E : Type 0} where
  -- How the compensations of steps, one after another, lead from data to data: a step without one is
  -- passed over, and the first error ends them.
  pub data Undone : List (SagaStep D E) → D → D → Type 0 where
    nothing_left : (d : D) → Undone [] d d
    passed_over :
        {steps : List (SagaStep D E)} {d d' : D} (step : SagaStep D E)
        → step.compensate ≡ none
        → Undone steps d d'
        → Undone (step ∷ steps) d d'
    undone :
        {steps : List (SagaStep D E)} {d d' d'' : D} (step : SagaStep D E) (undo : D → Option E × D)
        → step.compensate ≡ some undo
        → undo d ≡ (none, d')
        → Undone steps d' d''
        → Undone (step ∷ steps) d d''
    stuck :
        {steps : List (SagaStep D E)} {d d' : D} (step : SagaStep D E) (undo : D → Option E × D)
        (e : E)
        → step.compensate ≡ some undo
        → undo d ≡ (some e, d')
        → Undone (step ∷ steps) d d'

  -- How the attempts at a step, so many of them left and the next of this number, lead from data to
  -- data and to the last error, if all fail: each runs the step on the data that the one before left.
  -- The context may end by the wait before an attempt, though not before the first.
  pub data Tried (ctx : Context E) (i : ℕ) (step : SagaStep D E)
      : ℕ → ℕ → Option E → D → Option E → D → Type 0 where
    given_up : (attempt : ℕ) (last : Option E) (d : D) → Tried ctx i step 0 attempt last d last d
    cancelled :
        (left attempt : ℕ) (last : Option E) (d : D) (e : E)
        → 0 < attempt
        → ctx i attempt ≡ some e
        → Tried ctx i step (suc left) attempt last d (some e) d
    succeeded :
        (left attempt : ℕ) (last : Option E) (d d' : D)
        → (attempt ≡ 0) ⊎ (ctx i attempt ≡ none)
        → step.execute d ≡ (none, d')
        → Tried ctx i step (suc left) attempt last d none d'
    again :
        (left attempt : ℕ) (last : Option E) (d d' : D) (e : E) {err : Option E} {d'' : D}
        → (attempt ≡ 0) ⊎ (ctx i attempt ≡ none)
        → step.execute d ≡ (some e, d')
        → Tried ctx i step left (attempt + 1) (some e) d' err d''
        → Tried ctx i step (suc left) attempt last d err d''

  -- A step is tried once, and then as often as it says; the orchestrator's number stands for 0.
  abbrev pub TriedStep : Orchestrator → Context E → ℕ → SagaStep D E → D → Option E → D → Type 0
  TriedStep o ctx i step d err d' =
      Tried ctx i step
        (suc (if step.retry_count == 0 then o.default_retry_count else step.retry_count)) 0 none d
        err d'

  attempts_lem :
      (ctx : Context E) (i : ℕ) (step : SagaStep D E) (left attempt : ℕ) (last : Option E) (d : D)
      → Tried ctx i step left attempt last d
          (attempts ctx i step left attempt last d).0
          (attempts ctx i step left attempt last d).1
  unfolding attempts
  attempts_lem ctx i step zero attempt last d = given_up attempt last d
  attempts_lem ctx i step (suc left) attempt last d =
      let IsTried : Option E × D → Type 0 =
        λ p. Tried ctx i step (suc left) attempt last d p.0 p.1 in
      let given = attempts ctx i step (suc left) attempt last d in
      let d' = (step.execute d).1 in
      elim (Option-cases (ended ctx i attempt)) [
        | inr (e, over) ↦
            let ends : (some e, d) ≡ given = ground (arith, over) in
            subst IsTried ends
              (cancelled left attempt last d e (ground (arith, over)) (ground (arith, over)))
        | inl on ↦
            let runs : (attempt ≡ 0) ⊎ (ctx i attempt ≡ none) = ground (arith, on) in
            elim (Option-cases ((step.execute d).0)) [
              | inl fine ↦
                  let ends : (none, d') ≡ given = ground (arith, on, fine) in
                  subst IsTried ends
                    (succeeded left attempt last d d' runs (pair_of (step.execute d) fine))
              | inr (e, broken) ↦
                  let next = attempts ctx i step left (attempt + 1) (some e) d' in
                  let goes_on : next ≡ given = ground (arith, on, broken) in
                  subst IsTried goes_on (
                    again left attempt last d d' e runs (pair_of (step.execute d) broken)
                      (attempts_lem ctx i step left (attempt + 1) (some e) d'))
            ]
      ]

  pub execute_step-TriedStep :
      (o : Orchestrator) (ctx : Context E) (i : ℕ) (step : SagaStep D E) (d : D)
      → TriedStep o ctx i step d
          (execute_step_with_retry o ctx i step d).0
          (execute_step_with_retry o ctx i step d).1
  unfolding execute_step_with_retry
  execute_step-TriedStep o ctx i step d =
      let retries = if step.retry_count == 0 then o.default_retry_count else step.retry_count in
      let count : retries + 1 ≡ suc retries = omega arith in
      subst
        (λ n.
          Tried ctx i step n 0 none d (attempts ctx i step (retries + 1) 0 none d).0
            (attempts ctx i step (retries + 1) 0 none d).1)
        count (attempts_lem ctx i step (retries + 1) 0 none d)

  pub undo_one :
      (r : List (SagaStep D E)) (s : SagaStep D E) (steps : List (SagaStep D E)) (d : D)
      → ((d' : D) → Undone r d' (compensate steps (length r) d').1)
      → Undone
          (s ∷ r)
          d
          (and_then (compensate_step (some s) d) (λ d'. compensate steps (length r) d')).1
  unfolding compensate_step
  undo_one r s steps d rest =
      let here = compensate_step (some s) d in
      let IsUndone : Option E × D → Type 0 =
        λ p. Undone (s ∷ r) d (and_then p (λ d'. compensate steps (length r) d')).1 in
      elim (Option-cases s.compensate) [
        | inl missing ↦
            let same : (none, d) ≡ here = ground (arith, missing) in
            subst IsUndone same (passed_over s missing (rest d))
        | inr (undo, there) ↦
            let same : undo d ≡ here = ground (arith, there) in
            elim (Option-cases ((undo d).0)) [
              | inl fine ↦
                  let done : undo d ≡ (none, (undo d).1) = pair_of (undo d) fine in
                  subst IsUndone (sym done ∙ same) (undone s undo there done (rest (undo d).1))
              | inr (e, broken) ↦
                  let failed' : undo d ≡ (some e, (undo d).1) = pair_of (undo d) broken in
                  subst IsUndone (sym failed' ∙ same) (stuck s undo e there failed')
            ]
      ]
