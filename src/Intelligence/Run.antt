-- ===== src/Intelligence/Run.antt =====
-- The retrieval loop of `execute` in intelligence/orchestration.py.
use rfi.Common.{
  ℕ, zero, suc, ◌+◌, String, Bool, true, false, Option, none, some, List, [], ◌∷◌, ◌++◌, ltb, leb,
  if◌then◌else◌,
}
use rfi.Common.Lists.{length}
use rfi.Common.Errors.{Attempt, ok, raise, ◌>>=◌, ◌>>◌}
use rfi.Common.Text.{join, decimal}
use rfi.Retrieval.Contracts.{RetrievalQuery, EvidencePackage}
use rfi.Intelligence.Contracts.{
  InformationNeed, IntelligenceBudget, RetrievalStep, RetrievalPlan, ModelEvidence, ReasoningDraft,
  ExecutionEvent,
}
use rfi.Intelligence.Checks.{validate_step, validate_package}
use rfi.Intelligence.Project.{Rendering, missing_of}

-- The planner, the reasoner and the gateway. A gateway may answer each call differently, so that
-- it has the number of the calls before.
pub record Providers : Type 0 where
  pub plan : InformationNeed → IntelligenceBudget → Attempt RetrievalPlan
  pub follow_up :
      InformationNeed
      → RetrievalPlan
      → List RetrievalStep
      → List String
      → Attempt (Option RetrievalStep)
  pub reason : InformationNeed → RetrievalPlan → ModelEvidence → Attempt ReasoningDraft
  pub retrieve : ℕ → RetrievalQuery → Attempt EvidencePackage

-- the local variables of `execute`
pub record Run : Type 0 where
  pub events : List ExecutionEvent
  pub queries : List RetrievalQuery
  pub packages : List EvidencePackage
  pub completed : List RetrievalStep
  pub failures : List String
  pub pending : List RetrievalStep
  pub missing : List String

-- `events.append(ExecutionEvent(len(events) + 1, ...))`
unfoldable pub add_event :
    String → String → Option String → Option String → List ExecutionEvent → List ExecutionEvent
add_event category detail step_id package_id events =
    events
    ++ record {
      sequence = length events + 1;
      category = category;
      detail = detail;
      step_id = step_id;
      package_id = package_id;
    }
      ∷ []

-- `event`
unfoldable pub note : String → String → Option String → Option String → Run → Run
unfolding add_event
note category detail step_id package_id r = record r {
  events = add_event category detail step_id package_id r.events;
}

-- `failures.append`
unfoldable pub fail : String → Run → Run
fail text r = record r { failures = r.failures ++ text ∷ [] }

-- `queries.append(step.query)`
unfoldable pub ask : RetrievalStep → Run → Run
ask step r = record r { queries = r.queries ++ step.query ∷ [] }

-- `packages.append(package)` and `completed.append(step)`, with what `_missing` finds
unfoldable pub consume : RetrievalStep → EvidencePackage → List String → Run → Run
consume step package_ missing r = record r {
  packages = r.packages ++ package_ ∷ [];
  completed = r.completed ++ step ∷ [];
  missing = missing;
}

unfoldable pub push_pending : RetrievalStep → Run → Run
push_pending step r = record r { pending = r.pending ++ step ∷ [] }

-- `pending.pop(0)`
unfoldable pub with_pending : List RetrievalStep → Run → Run
with_pending steps r = record r { pending = steps }

-- `sum(item.bytes_used for item in packages)`
abbrev pub total_bytes : List EvidencePackage → ℕ
total_bytes [] = 0
total_bytes (package_ ∷ packages) = package_.bytes_used + total_bytes packages

-- `", ".join(missing)`
abbrev pub comma_list : List String → String
comma_list [] = ""
comma_list (m ∷ ms) = elim ms [ [] ↦ m | _ ∷ _ ↦ join m (join ", " (comma_list ms)) ]

-- `str(flag)`
abbrev pub shown_flag : Bool → String
shown_flag true = "True"
shown_flag false = "False"

-- how a pass through the loop ends: it goes on, breaks, or an exception leaves `execute`
pub data Pass : Type 0 where
  again : Run → Pass
  stop : Run → Pass
  escape : String → Pass

-- how the loop ends
pub data LoopEnd : Type 0 where
  left : Run → LoopEnd
  escaped : String → LoopEnd
  out_of_fuel : LoopEnd

module _ (providers : Providers) (env : Rendering) (need : InformationNeed) (plan : RetrievalPlan)
    (budget : IntelligenceBudget) where
  -- the package of a step, retrieved and checked
  unfoldable pub fetch : ℕ → RetrievalStep → Attempt EvidencePackage
  unfolding validate_package
  fetch calls step = do
    package_ ← providers.retrieve calls step.query
    validate_package package_ step
    ok package_

  -- what the planner answers to missing requirements
  unfoldable pub follow : RetrievalStep → List String → Run → Pass
  unfolding note fail push_pending validate_step join
  follow step missing r = elim (providers.follow_up need plan r.completed missing) [
    | raise error ↦ stop (
        note "planner-failure" error (some step.step_id) none
          (fail (join "follow-up planner failure: " error) r))
    | ok answer ↦ elim answer [
      | none ↦
          again
            (note "follow-up" "planner declined additional retrieval" (some step.step_id) none r)
      | some next ↦ elim (validate_step next) [
        | raise error ↦ escape error
        | ok _ ↦
            again (note "follow-up" next.purpose (some next.step_id) none (push_pending next r))
      ]
    ]
  ]

  -- what is done where requirements are missing
  unfoldable pub pursue : RetrievalStep → List String → Run → Pass
  unfolding note fail follow
  pursue step missing r = elim r.pending [
    | _ ∷ _ ↦ again r
    | [] ↦
        if ltb (length r.completed) budget.max_iterations
        then follow step missing r
        else again (
            note "stop" "iteration limit exhausted" (some step.step_id) none
              (fail "iteration limit exhausted" r))
  ]

  -- a package that was consumed
  unfoldable pub accept : RetrievalStep → EvidencePackage → Run → Pass
  unfolding note consume missing_of pursue join decimal
  accept step package_ r =
      let missing = missing_of env step package_ in
      let next =
        note "evidence-package"
          (join "consumed " (
            join (decimal package_.bytes_used)
              (join " verified context bytes; complete=" (shown_flag package_.complete))))
          (some step.step_id) (some package_.package_id) (consume step package_ missing r) in
      elim missing [
        | [] ↦ again next
        | m ∷ ms ↦
            pursue step (m ∷ ms) (
              note "coverage" (join "missing: " (comma_list (m ∷ ms))) (some step.step_id) none
                next)
      ]

  -- the loop's body, for the step that was popped
  unfoldable pub advance : RetrievalStep → Run → Pass
  unfolding note fail ask fetch accept join
  advance step r =
      if leb budget.max_packages (length r.packages)
      then stop (note "stop" "package limit reached before next step" (some step.step_id) none r)
      else let asked =
          ask step (note "retrieval-request" step.purpose (some step.step_id) none r) in
        elim (fetch (length r.queries) step) [
          | raise error ↦ stop (
              note "retrieval-failure" error (some step.step_id) none
                (fail (join step.step_id (join ": retrieval failure: " error)) asked))
          | ok package_ ↦
              if ltb budget.max_total_evidence_bytes
                (total_bytes asked.packages + package_.bytes_used)
              then stop (
                  note "budget" "package rejected by total evidence-byte budget" (some step.step_id)
                    none (fail "total evidence-byte budget exhausted" asked))
              else accept step package_ asked
        ]

  unfoldable pub run_steps : ℕ → Run → LoopEnd
  unfolding advance with_pending
  run_steps zero r = out_of_fuel
  run_steps (suc fuel) r = elim r.pending [
    | [] ↦ left r
    | step ∷ rest ↦ elim (ltb (length r.completed) budget.max_iterations) [
      | false ↦ left r
      | true ↦ elim (advance step (with_pending rest r)) [
        | again r' ↦ run_steps fuel r'
        | stop r' ↦ left r'
        | escape error ↦ escaped error
      ]
    ]
  ]
