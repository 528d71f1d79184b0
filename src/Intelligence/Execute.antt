-- ===== src/Intelligence/Execute.antt =====
-- `execute` of intelligence/orchestration.py, around its loop.
use rfi.Common.Lists.{is_empty}
use rfi.Common.{
  suc, String, Bool, false, Option, none, some, List, [], ◌∷◌, ◌++◌, ◌&&◌, ◌||◌, not, leb,
  if◌then◌else◌,
}
use rfi.Common.Lists.{length, mem}
use rfi.Common.Sorting.{unique}
use rfi.Common.Errors.{Attempt, ok, raise, ◌>>=◌, ◌>>◌}
use rfi.Common.Text.{join, decimal, contains}
use rfi.Intelligence.Contracts.{
  CompletionStatus, StopReason, InformationNeed, IntelligenceBudget, RetrievalPlan, ReasoningDraft,
  ModelEvidence, ExecutionRecord,
}
use rfi.Intelligence.Checks.{refuses, validate_plan}
use rfi.Intelligence.Draft.{validate_draft}
use rfi.Intelligence.Project.{Rendering, project}
use rfi.Intelligence.Record.{terminal_record, failure_record}
use rfi.Intelligence.Run.{
  Providers, Run, note, fail, with_pending, shown_flag, LoopEnd, left, escaped, out_of_fuel,
  run_steps,
}

-- `stop.value`
abbrev pub stop_value : StopReason → String
stop_value StopReason.requirements_satisfied = "requirements-satisfied"
stop_value StopReason.evidence_insufficient = "evidence-insufficient"
stop_value StopReason.iteration_limit = "iteration-limit"
stop_value StopReason.evidence_budget = "evidence-budget"
stop_value StopReason.refused = "refused"
stop_value StopReason.failure = "failure"

-- `status`, `stop` and `gaps`
pub record Verdict : Type 0 where
  pub status : CompletionStatus
  pub reason : StopReason
  pub gaps : List String

-- `failures and "evidence-byte budget" in failures[-1]`
unfoldable pub ends_on_budget : List String → Bool
unfolding contains
ends_on_budget [] = false
ends_on_budget (f ∷ fs) = elim fs [
  | [] ↦ contains "evidence-byte budget" f
  | _ ∷ _ ↦ ends_on_budget fs
]

-- what the failures, the gaps, the contradictions and the truncation make of the draft's status
unfoldable pub judge : ReasoningDraft → ModelEvidence → Run → Verdict
unfolding unique ends_on_budget
judge draft model r =
    let gaps = unique (draft.evidence_gaps ++ r.missing) in
    let verdict : Verdict =
      if mem "iteration limit exhausted" r.failures
      then record {
        status = CompletionStatus.incomplete;
        reason = StopReason.iteration_limit;
        gaps = gaps;
      }
      else if ends_on_budget r.failures
      then record {
        status = CompletionStatus.incomplete;
        reason = StopReason.evidence_budget;
        gaps = gaps;
      }
      else if not (is_empty gaps) || not (is_empty draft.contradictions) || model.truncated
      then record {
        status = CompletionStatus.incomplete;
        reason = StopReason.evidence_insufficient;
        gaps = gaps;
      }
      else record {
        status = draft.requested_status;
        reason = StopReason.requirements_satisfied;
        gaps = gaps;
      } in
    if is_empty r.packages
    then record {
      status = CompletionStatus.incomplete;
      reason = StopReason.evidence_insufficient;
      gaps = unique (gaps ++ "no evidence package was consumed" ∷ []);
    }
    else verdict

-- what follows a draft that passed
unfoldable pub finish :
    Rendering
    → String
    → InformationNeed
    → RetrievalPlan
    → ModelEvidence
    → ReasoningDraft
    → Run
    → ExecutionRecord
unfolding judge note terminal_record
finish env execution_id need plan model draft r =
    let verdict = judge draft model r in
    terminal_record env execution_id need plan
      (record {
        model = some model;
        draft = some draft;
        claims = draft.claims;
        uncertainties = draft.uncertainties;
        gaps = verdict.gaps;
        status = verdict.status;
        response = draft.response;
        reason = verdict.reason;
      })
      (note "stop" (stop_value verdict.reason) none none r)

module _ (providers : Providers) (env : Rendering) (need : InformationNeed) where
  -- the reasoner's part
  unfoldable pub reason_on : String → RetrievalPlan → ModelEvidence → Run → ExecutionRecord
  unfolding note validate_draft failure_record finish join decimal
  reason_on execution_id plan model r = elim (providers.reason need plan model) [
    | raise error ↦
        failure_record env execution_id need (some plan) (some model)
          (join "model or grounding failure: " error) r
    | ok draft ↦
        let heard =
          note "model-output" (join "received " (join (decimal (length draft.claims)) " claim(s)"))
            none none r in
        elim (validate_draft draft model.evidence) [
          | raise error ↦
              failure_record env execution_id need (some plan) (some model)
                (join "model or grounding failure: " error) heard
          | ok _ ↦
              finish env execution_id need plan model draft (
                note "grounding-validation" "all claims mapped to consumed evidence" none none
                  heard)
        ]
  ]

  -- `pending and len(completed) >= max_iterations` after the loop
  unfoldable pub check_limit : IntelligenceBudget → Run → Run
  unfolding note fail
  check_limit budget r =
      if not (is_empty r.pending) && leb budget.max_iterations (length r.completed)
      then note "stop" "iteration limit exhausted" none none (fail "iteration limit exhausted" r)
      else r

  -- what follows the loop
  unfoldable pub conclude : String → RetrievalPlan → IntelligenceBudget → Run → ExecutionRecord
  unfolding check_limit project note reason_on join decimal
  conclude execution_id plan budget r =
      let checked = check_limit budget r in
      let model = project env checked.packages budget.max_model_input_chars in
      reason_on execution_id plan model (
        note "model-input"
          (join "projected "
            (join (decimal model.chars) (join " chars; truncated=" (shown_flag model.truncated))))
          none none checked)

  abbrev pub nothing_run : Run
  nothing_run = record {
    events = [];
    queries = [];
    packages = [];
    completed = [];
    failures = [];
    pending = [];
    missing = [];
  }

  -- the plan, as the planner makes it and `_validate_plan` accepts it
  unfoldable pub accepted_plan : IntelligenceBudget → Attempt RetrievalPlan
  unfolding validate_plan
  accepted_plan budget = do plan ← providers.plan need budget; validate_plan plan budget; ok plan

  -- the run before the loop
  unfoldable pub planned : RetrievalPlan → Run
  unfolding note join decimal
  planned plan =
      note "plan"
        (join "accepted " (join (decimal (length plan.steps)) " bounded retrieval step(s)")) none
        none nothing_run

  abbrev pub reason_text : Option String → String
  reason_text none = ""
  reason_text (some text) = text

  unfoldable pub refusal : String → RetrievalPlan → ExecutionRecord
  unfolding planned note terminal_record
  refusal execution_id plan =
      terminal_record env execution_id need plan
        (record {
          model = none;
          draft = none;
          claims = [];
          uncertainties = [];
          gaps = [];
          status = CompletionStatus.refused;
          response = reason_text plan.refusal_reason;
          reason = StopReason.refused;
        })
        (note "refusal" (reason_text plan.refusal_reason) none none (planned plan))

-- how `execute` ends: with a record, or with an exception
pub data Execution : Type 0 where
  recorded : ExecutionRecord → Execution
  raised : String → Execution
  unfinished : Execution

module _ (providers : Providers) (env : Rendering) (need : InformationNeed) where
  unfoldable pub after_loop : String → RetrievalPlan → IntelligenceBudget → LoopEnd → Execution
  unfolding conclude
  after_loop execution_id plan budget (left r) =
      recorded (conclude providers env need execution_id plan budget r)
  after_loop execution_id plan budget (escaped error) = raised error
  after_loop execution_id plan budget out_of_fuel = unfinished

  -- `execute`, with fuel for one pass more than the iterations that the budget allows
  unfoldable pub execute : IntelligenceBudget → Execution
  unfolding accepted_plan failure_record refusal planned with_pending run_steps after_loop join
  execute budget =
      let execution_id = env.execution_identity need budget in
      elim (accepted_plan providers env need budget) [
        | raise error ↦ recorded (
            failure_record env execution_id need none none (join "planner failure: " error)
              (nothing_run providers env need))
        | ok plan ↦
            if refuses plan.refusal_reason
            then recorded (refusal providers env need execution_id plan)
            else after_loop execution_id plan budget (
                run_steps providers env need plan budget (suc budget.max_iterations)
                  (with_pending plan.steps (planned providers env need plan)))
      ]
