-- ===== src/Intelligence/Outcomes.antt =====
-- What a complete record of `execute` in intelligence/orchestration.py has.
use rfi.Common.{◌≤◌, String, ◌≡◌, refl, sym, ap, ◌∙◌, false, some, [], inl, inr}
use mathlib.Core.Path.{subst}
use rfi.Common.Lists.{length, mem}
use rfi.Intelligence.Contracts.{
  CompletionStatus, StopReason, InformationNeed, IntelligenceBudget, ReasoningDraft, RetrievalPlan,
  ModelEvidence, ExecutionRecord,
}
use rfi.Intelligence.Project.{Rendering}
use rfi.Intelligence.Record.{terminal_record, failure_record}
use rfi.Intelligence.Run.{Providers, Run, note}
use rfi.Intelligence.Execute.{finish, refusal, recorded, execute}
use rfi.Intelligence.Made.{IsMade, failed, refused, finished}
use rfi.Intelligence.Governed.{recorded-IsMade}
use rfi.Intelligence.Verdicts.{judge_lem}

-- what a record has that is complete
pub record IsComplete (made : ExecutionRecord) : Type 0 where
  pub reason : made.result.stopping_reason ≡ StopReason.requirements_satisfied
  pub consumed : 1 ≤ length made.trace.evidence_packages
  pub no_gaps : made.result.evidence_gaps ≡ []
  pub no_contradictions : made.result.contradictions ≡ []
  pub asked_for :
      (draft : ReasoningDraft) × (made.trace.raw_model_output ≡ some draft)
      × (draft.requested_status ≡ CompletionStatus.complete)
  pub whole :
      (model : ModelEvidence) × (made.trace.model_input ≡ some model) × (model.truncated ≡ false)
  pub below_limit : mem "iteration limit exhausted" made.trace.failures ≡ false

module _ (providers : Providers) (env : Rendering) (need : InformationNeed)
    (budget : IntelligenceBudget) where
  finish-IsComplete :
      (id : String) (plan : RetrievalPlan) (model : ModelEvidence) (draft : ReasoningDraft)
      (r : Run)
      → (finish env id need plan model draft r).result.status ≡ CompletionStatus.complete
      → IsComplete (finish env id need plan model draft r)
  unfolding finish terminal_record note
  finish-IsComplete id plan model draft r h = elim (judge_lem draft model r) [
    | inl is ↦ record {
      reason = is.reason;
      consumed = is.consumed;
      no_gaps = is.no_gaps;
      no_contradictions = is.no_contradictions;
      asked_for = (draft, refl, sym is.status ∙ h);
      whole = (model, refl, is.whole);
      below_limit = is.below_limit;
    }
    | inr is ↦ let short = sym is.status ∙ h in cc
  ]

  made-IsComplete :
      (made : ExecutionRecord)
      → IsMade providers env need budget made
      → made.result.status ≡ CompletionStatus.complete
      → IsComplete made
  unfolding failure_record refusal terminal_record
  made-IsComplete made (failed plan model failure r h short e) status =
      let why = sym (ap (λ (m : ExecutionRecord). m.result.status) e) ∙ status in cc
  made-IsComplete made (refused plan e) status =
      let why = sym (ap (λ (m : ExecutionRecord). m.result.status) e) ∙ status in cc
  made-IsComplete made (finished plan draft r h good e) status = subst IsComplete (sym e) (
      finish-IsComplete _ plan _ draft r
        (sym (ap (λ (m : ExecutionRecord). m.result.status) e) ∙ status))

  -- Where `execute` returns a record whose status is complete, it has consumed a package, it
  -- reports no gap and no contradiction, the reasoner's draft asked for this status on evidence that
  -- was not truncated, and no failure says that the iteration limit was exhausted.
  pub execute-IsComplete :
      (made : ExecutionRecord)
      → execute providers env need budget ≡ recorded made
      → made.result.status ≡ CompletionStatus.complete
      → IsComplete made
  execute-IsComplete made e status =
      made-IsComplete made (recorded-IsMade providers env need budget made e) status
