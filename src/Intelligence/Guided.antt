-- ===== src/Intelligence/Guided.antt =====
-- `execute` of intelligence/orchestration.py with `DeterministicPlanner` of
-- intelligence/deterministic.py.
use rfi.Common.{
  ℕ, ◌≤◌, String, ◌≡◌, refl, sym, ◌∙◌, Bool, true, false, List, [], ◌∷◌, ◌==◌, ◌||◌, not, arith,
  ltb, if◌then◌else◌, inl, inr,
}
use mathlib.Core.Path.{subst}
use rfi.Common.Lists.{All, List-cases}
use rfi.Common.Errors.{Attempt, ok, bind_ok, after_check, ok_injective, raise_not_ok}
use rfi.Common.Text.{is_blank}
use rfi.Retrieval.Contracts.{RetrievalQuery, EvidencePackage}
use rfi.Retrieval.Assemble.{min}
use rfi.Intelligence.Contracts.{
  InformationNeed, IntelligenceBudget, RetrievalStep, RetrievalPlan, ModelEvidence, ReasoningDraft,
  ExecutionRecord,
}
use rfi.Intelligence.Checks.{validate_step, validate_plan, refuses}
use rfi.Intelligence.Project.{Rendering}
use rfi.Intelligence.Run.{Providers}
use rfi.Intelligence.Execute.{accepted_plan, recorded, execute}
use rfi.Intelligence.Sound.{IsChecked}
use rfi.Intelligence.Made.{accepted_plan-IsChecked}
use rfi.Intelligence.Governed.{IsRejectedFollowUp, execute-ends}
use rfi.Intelligence.Planner.{
  PlannerText, mentions_any, entity_aliases, entities_from, entities_of, step_of, steps_from,
  plan_steps, refusing_plan, comparing_plan, plan_of, follow_up_of,
}
use rfi.Intelligence.Planned.{follow_up_of-IsChecked}

-- the deterministic planner, with any reasoner and any gateway
abbrev pub guided :
    PlannerText
    → Bool
    → (InformationNeed → RetrievalPlan → ModelEvidence → Attempt ReasoningDraft)
    → (ℕ → RetrievalQuery → Attempt EvidencePackage)
    → Providers
guided text alternate_wording reason retrieve = record {
  plan = λ need budget. ok (plan_of text alternate_wording need budget);
  follow_up = λ need plan completed missing. ok (follow_up_of need plan completed missing);
  reason = reason;
  retrieve = retrieve;
}

-- what a step of the plan passes only with a text and a budget
step_of-IsChecked_only :
    (alternate_wording : Bool) (need : InformationNeed) (budget : IntelligenceBudget)
    (terms types : List String) (number : ℕ) (entity : String)
    → IsChecked (step_of alternate_wording need budget terms types number entity)
    → (is_blank need.text ≡ false) × (1 ≤ budget.max_total_evidence_bytes)
unfolding step_of validate_step
step_of-IsChecked_only alternate_wording need budget terms types number entity h =
    let step = step_of alternate_wording need budget terms types number entity in
    let (filled, h1) =
      after_check (not ((step.step_id == "") || (step.purpose == "") || is_blank need.text))
        "malformed retrieval step" _ tt h in
    let (u, h2) = after_check true "unsupported retrieval constraints in plan" _ tt h1 in
    let (v, h3) = after_check true "invalid retrieval result bounds" _ tt h2 in
    let (sized, h4) =
      after_check (not (ltb (min 24000 budget.max_total_evidence_bytes) 1))
        "invalid per-package evidence budget" _ tt h3 in
    (ground (arith, filled), ground (arith, sized))

entities_of-first :
    (lowered : String) → (e : String) × (es : List String) × (entities_of lowered ≡ e ∷ es)
unfolding entities_of
entities_of-first lowered = elim (List-cases (entities_from lowered entity_aliases [])) [
  | inl none_named ↦ ("", [], rw (none_named, entities_of) refl)
  | inr (e, es, named) ↦ (e, es, rw (named, entities_of) refl)
]

steps_from-first :
    (make : ℕ → String → RetrievalStep) (lowered : String)
    → All IsChecked (steps_from make 1 (entities_of lowered))
    → (e : String) × IsChecked (make 1 e)
unfolding steps_from
steps_from-first make lowered h =
    let (e, es, named) = entities_of-first lowered in
    (e, (subst (λ xs. All IsChecked (steps_from make 1 xs)) named h).0)

plan_steps-first :
    (text : PlannerText) (alternate_wording : Bool) (need : InformationNeed)
    (budget : IntelligenceBudget)
    → All IsChecked (plan_steps text alternate_wording need budget)
    → (is_blank need.text ≡ false) × (1 ≤ budget.max_total_evidence_bytes)
unfolding plan_steps steps_from
plan_steps-first text alternate_wording need budget h =
    let (e, first) = steps_from-first _ (text.lower need.text) h in
    step_of-IsChecked_only alternate_wording need budget _ _ 1 e first

-- An accepted plan of the planner that does not refuse has a text and a budget.
plan_of-accepted_only :
    (text : PlannerText) (alternate_wording : Bool) (need : InformationNeed)
    (budget : IntelligenceBudget)
    → refuses (plan_of text alternate_wording need budget).refusal_reason ≡ false
    → All IsChecked (plan_of text alternate_wording need budget).steps
    → (is_blank need.text ≡ false)
      × (1 ≤ (plan_of text alternate_wording need budget).budget.max_total_evidence_bytes)
unfolding plan_of refusing_plan comparing_plan
plan_of-accepted_only text alternate_wording need budget going h =
    elim (mentions_any (text.lower need.text)
          ("ignore governance" ∷ "exfiltrate" ∷ "show secret" ∷ []))
        as (λ b.
          let plan =
            if b
            then refusing_plan text need budget
            else comparing_plan text need budget (plan_steps text alternate_wording need budget) in
          refuses plan.refusal_reason ≡ false
          → All IsChecked plan.steps
          → (is_blank need.text ≡ false) × (1 ≤ plan.budget.max_total_evidence_bytes)) [
            | true ↦ λ going h. let it : not false ≡ false = going in cc
            | false ↦ λ going h. plan_steps-first text alternate_wording need budget h
          ]
      going h

module _ (text : PlannerText) (alternate_wording : Bool)
    (reason : InformationNeed → RetrievalPlan → ModelEvidence → Attempt ReasoningDraft)
    (retrieve : ℕ → RetrievalQuery → Attempt EvidencePackage) (env : Rendering)
    (need : InformationNeed) (budget : IntelligenceBudget) where
  accepted_plan-guided :
      (plan : RetrievalPlan)
      → accepted_plan (guided text alternate_wording reason retrieve) env need budget ≡ ok plan
      → plan_of text alternate_wording need budget ≡ plan
  unfolding accepted_plan
  accepted_plan-guided plan e =
      let (u, passed, whole) =
        bind_ok (validate_plan (plan_of text alternate_wording need budget) budget) _ plan e in
      ok_injective whole

  never_rejected :
      (error : String)
      → IsRejectedFollowUp (guided text alternate_wording reason retrieve) env need budget error
      → ⊥
  never_rejected error (plan, accepted, going, (completed, missing, step, gave, rejected)) =
      let same = accepted_plan-guided plan accepted in
      let steps =
        accepted_plan-IsChecked (guided text alternate_wording reason retrieve) env need budget plan
          accepted in
      let (filled, bytes) =
        plan_of-accepted_only text alternate_wording need budget
          (subst (λ (p : RetrievalPlan). refuses p.refusal_reason ≡ false) (sym same) going)
          (subst (λ (p : RetrievalPlan). All IsChecked p.steps) (sym same) steps) in
      let checked =
        follow_up_of-IsChecked need plan completed missing step filled
          (subst (λ (p : RetrievalPlan). 1 ≤ p.budget.max_total_evidence_bytes) same bytes)
          (ok_injective gave) in
      raise_not_ok error tt (sym rejected ∙ checked)

  -- With the deterministic planner, and any reasoner and gateway, `execute` returns a record: it
  -- raises nothing.
  pub execute-guided :
      (made : ExecutionRecord) × (execute
          (guided text alternate_wording reason retrieve)
          env
          need
          budget
        ≡ recorded made)
  execute-guided =
      elim (execute-ends (guided text alternate_wording reason retrieve) env need budget) [
        | inl made ↦ made
        | inr (error, raised_, rejected) ↦ absurd (never_rejected error rejected)
      ]
