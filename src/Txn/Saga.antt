-- ===== src/Txn/Saga.antt =====
-- pkg/txn/saga.go. The functions of a step are the caller's: from the saga's data they give the data
-- afterwards and an error, if any. The context is a function from the step and the attempt to the
-- error with which it has ended by the wait before that attempt, if it has. Retry counts are taken
-- to be natural numbers, and delays are left out.
pub mod Compensation
pub mod Attempts
use hermes.Base.{
  ℕ, zero, suc, ◌+◌, Bool, Option, none, some, List, [], ◌∷◌, ◌==◌, if◌then◌else◌, length,
  get_elem?, GoString,
}

pub record SagaStep (D E : Type 0) : Type 0 where
  pub name : GoString
  pub execute : D → Option E × D
  pub compensate : Option (D → Option E × D)
  pub retry_count : ℕ

pub data SagaState : Type 0 where
  pending running completed failed compensating : SagaState

pub record SagaExecution (D E : Type 0) : Type 0 where
  pub steps : List (SagaStep D E)
  pub current_step : ℕ
  pub state : SagaState
  pub payload : D  -- Data
  pub error : Option E

pub record Orchestrator : Type 0 where
  pub default_retry_count : ℕ

pub new_orchestrator : Orchestrator
new_orchestrator = record { default_retry_count = 3 }

abbrev pub Context : Type 0 → Type 0
Context E = ℕ → ℕ → Option E

abbrev pub ended : {E : Type 0} → Context E → ℕ → ℕ → Option E
ended ctx i attempt = if attempt == 0 then none else ctx i attempt

module _ {D E : Type 0} where
  pub begin : List (SagaStep D E) → D → SagaExecution D E
  begin steps d = record {
    steps = steps;
    current_step = 0;
    state = pending;
    payload = d;
    error = none;
  }

  -- The attempts that are left, of which the next has this number; the last error is kept.
  attempts : Context E → ℕ → SagaStep D E → ℕ → ℕ → Option E → D → Option E × D
  attempts ctx i step zero attempt last d = (last, d)
  attempts ctx i step (suc left) attempt last d = elim (ended ctx i attempt) [
    | some e ↦ (some e, d)
    | none ↦ elim ((step.execute d).0) [
      | none ↦ (none, (step.execute d).1)
      | some e ↦ attempts ctx i step left (attempt + 1) (some e) (step.execute d).1
    ]
  ]

  pub execute_step_with_retry : Orchestrator → Context E → ℕ → SagaStep D E → D → Option E × D
  unfolding attempts
  execute_step_with_retry o ctx i step d =
      let retries = if step.retry_count == 0 then o.default_retry_count else step.retry_count in
      attempts ctx i step (retries + 1) 0 none d

  -- The second action runs if the first gives no error.
  abbrev pub and_then : Option E × D → (D → Option E × D) → Option E × D
  and_then (some e, d) next = (some e, d)
  and_then (none, d) next = next d

  -- The loop of `compensate` from the step below `n` down to 0. A step that is not there panics in
  -- the source; the callers stay within the steps.
  pub compensate_step : Option (SagaStep D E) → D → Option E × D
  compensate_step none d = (none, d)
  compensate_step (some step) d = elim step.compensate [ none ↦ (none, d) | some undo ↦ undo d ]

  pub compensate : List (SagaStep D E) → ℕ → D → Option E × D
  unfolding compensate_step
  compensate steps zero d = (none, d)
  compensate steps (suc n) d =
      and_then (compensate_step (get_elem? steps n) d) (λ d'. compensate steps n d')

  -- The loop of `Execute` over the steps that are left, of which the first has the index `i`.
  execute_from :
      Orchestrator
      → Context E
      → List (SagaStep D E)
      → ℕ
      → SagaExecution D E
      → Option E × SagaExecution D E
  unfolding execute_step_with_retry compensate
  execute_from o ctx [] i x = (none, record x { state = completed })
  execute_from o ctx (step ∷ left) i x =
      let (err, d) = execute_step_with_retry o ctx i step x.payload in
      elim err [
        | none ↦ execute_from o ctx left (i + 1) (record x { current_step = i; payload = d })
        | some e ↦ (
          some e,
          record x {
            current_step = i;
            payload = (compensate x.steps i d).1;
            state = failed;
            error = some e;
          },
        )
      ]

  pub execute : Orchestrator → Context E → SagaExecution D E → Option E × SagaExecution D E
  unfolding execute_from
  execute o ctx x = execute_from o ctx x.steps 0 (record x { state = running })
