-- ===== src/Intelligence/Made.antt =====
-- The three kinds of record that `execute` of intelligence/orchestration.py returns.
use rfi.Common.Lists.{is_empty}
use rfi.Common.{
  false, ℕ, suc, ◌≤◌, String, ◌≡◌, refl, Option, none, some, List, [], ◌∷◌, arith, not, ltb, leb,
  ◌&&◌, ◌||◌, ◌==◌, eqb, map, if◌then◌else◌, Bool-cases, inl, inr,
}
use mathlib.Core.Path.{subst}
use rfi.Common.Lists.{length, All}
use rfi.Common.Errors.{ok, bind_ok, after_check, ok_injective, Attempt-cases}
use rfi.Common.Text.{text_length, text_length-text_take-le}
use rfi.Retrieval.Contracts.{EvidencePackage}
use rfi.Intelligence.Contracts.{
  InformationNeed, IntelligenceBudget, RetrievalStep, RetrievalPlan, ModelEvidence, ReasoningDraft,
  ExecutionRecord,
}
use rfi.Intelligence.Checks.{refuses, step_id_of, validate_step, validate_steps, validate_plan}
use rfi.Common.Sorting.{unique}
use rfi.Intelligence.Equal.{same_budget}
use rfi.Intelligence.Draft.{validate_draft}
use rfi.Intelligence.Project.{Rendering, project, content_items}
use rfi.Intelligence.Record.{failure_record}
use rfi.Intelligence.Run.{Providers, Run, note, with_pending, LoopEnd, left, escaped, out_of_fuel}
use rfi.Intelligence.Execute.{
  finish, reason_on, check_limit, conclude, nothing_run, accepted_plan, planned, refusal, Execution,
  recorded, raised, unfinished, after_loop, execute,
}
use rfi.Intelligence.Sound.{IsChecked, IsSound, note-IsSound, fail-IsSound, with_pending-IsSound}
use rfi.Intelligence.Loop.{IsRejected, IsSoundEnd, run_steps-IsSoundEnd}

-- the characters that the model gets are within the limit
abbrev pub IsShort : IntelligenceBudget → Option ModelEvidence → Type 0
IsShort budget none = Unit
IsShort budget (some model) = model.chars ≤ budget.max_model_input_chars

pub project-IsShort :
    (env : Rendering) (packages : List EvidencePackage) (max : ℕ)
    → (project env packages max).chars ≤ max
unfolding project
project-IsShort env packages max =
    elim (Bool-cases (ltb max (text_length (env.rendered (content_items packages))))) [
      | inl long ↦
          rw (long, if◌then◌else◌)
            (text_length-text_take-le max (env.rendered (content_items packages)))
      | inr short ↦ rw (short, if◌then◌else◌) (ground (arith, short))
    ]

validate_steps-IsChecked :
    (steps : List RetrievalStep) → validate_steps steps ≡ ok tt → All IsChecked steps
unfolding validate_steps
validate_steps-IsChecked [] e = tt
validate_steps-IsChecked (step ∷ steps) e =
    let (u, passed, rest) = bind_ok (validate_step step) _ tt e in
    (passed, validate_steps-IsChecked steps rest)

validate_plan-IsChecked :
    (budget : IntelligenceBudget) (plan : RetrievalPlan)
    → validate_plan plan budget ≡ ok tt
    → All IsChecked plan.steps
unfolding validate_plan
validate_plan-IsChecked budget plan e =
    let (_, p1) =
      after_check (not ((plan.plan_id == "") || (plan.interpretation == "")))
        "malformed planner output" _ tt e in
    let (_, p2) =
      after_check (same_budget plan.budget budget) "planner altered governing budget" _ tt p1 in
    let (_, p3) =
      after_check
        (not (
          ltb budget.max_packages (length plan.steps)
          || ltb budget.max_iterations (length plan.steps)))
        "plan exceeds package or iteration budget" _ tt p2 in
    let (_, p4) =
      after_check (not (is_empty plan.steps && not (refuses plan.refusal_reason)))
        "plan has neither steps nor refusal" _ tt p3 in
    let (_, p5) =
      after_check (eqb (length plan.steps) (length (unique (map step_id_of plan.steps))))
        "plan contains duplicate step identifiers" _ tt p4 in
    validate_steps-IsChecked plan.steps p5

module _ (providers : Providers) (env : Rendering) (need : InformationNeed)
    (budget : IntelligenceBudget) where
  -- a failure, a refusal, or a draft that passed its check on what was consumed
  pub data IsMade (made : ExecutionRecord) : Type 0 where
    failed :
        (plan : Option RetrievalPlan) (model : Option ModelEvidence) (failure : String) (r : Run)
        → IsSound budget r
        → IsShort budget model
        → made ≡ failure_record env (env.execution_identity need budget) need plan model failure r
        → IsMade made
    refused :
        (plan : RetrievalPlan)
        → made ≡ refusal providers env need (env.execution_identity need budget) plan
        → IsMade made
    finished :
        (plan : RetrievalPlan) (draft : ReasoningDraft) (r : Run)
        → IsSound budget r
        → validate_draft draft (project env r.packages budget.max_model_input_chars).evidence
          ≡ ok tt
        → made
          ≡ finish env
              (env.execution_identity need budget)
              need
              plan
              (project env r.packages budget.max_model_input_chars)
              draft
              r
        → IsMade made

  nothing_run-IsSound : IsSound budget (nothing_run providers env need)
  nothing_run-IsSound = record {
    numbered = tt;
    paired = refl;
    few_packages = omega arith;
    few_steps = omega arith;
    few_bytes = omega arith;
    waiting = tt;
    asked = tt;
    consumed = tt;
  }

  check_limit-IsSound :
      (r : Run) → IsSound budget r → IsSound budget (check_limit providers env need budget r)
  unfolding check_limit
  check_limit-IsSound r h =
      elim (Bool-cases
        (not (is_empty r.pending) && leb budget.max_iterations (length r.completed))) [
          | inl at ↦
              rw (at, if◌then◌else◌) (note-IsSound budget _ _ _ _ _ (fail-IsSound budget _ r h))
          | inr below ↦ rw (below, if◌then◌else◌) h
        ]

  reason_on-IsMade :
      (plan : RetrievalPlan) (r : Run)
      → IsSound budget r
      → IsMade (
          reason_on providers env need
            (env.execution_identity need budget)
            plan
            (project env r.packages budget.max_model_input_chars)
            r)
  unfolding reason_on note
  reason_on-IsMade plan r h =
      let model = project env r.packages budget.max_model_input_chars in
      let short = project-IsShort env r.packages budget.max_model_input_chars in
      elim (Attempt-cases (providers.reason need plan model)) [
        | inl (error, e) ↦ rw (e, reason_on) (failed (some plan) (some model) _ r h short refl)
        | inr (draft, e) ↦ elim (Attempt-cases (validate_draft draft model.evidence)) [
          | inl (error, bad) ↦
              rw (e, bad, reason_on)
                (failed (some plan) (some model) _ _ (note-IsSound budget _ _ _ _ r h) short refl)
          | inr (u, good) ↦
              rw (e, good, reason_on)
                (finished plan draft _
                  (note-IsSound budget _ _ _ _ _ (note-IsSound budget _ _ _ _ r h)) good refl)
        ]
      ]

  conclude-IsMade :
      (plan : RetrievalPlan) (r : Run)
      → IsSound budget r
      → IsMade (conclude providers env need (env.execution_identity need budget) plan budget r)
  unfolding conclude note
  conclude-IsMade plan r h =
      reason_on-IsMade plan _ (note-IsSound budget _ _ _ _ _ (check_limit-IsSound r h))

  abbrev pub IsEnd : Execution → Type 0
  IsEnd (recorded made) = IsMade made
  IsEnd (raised error) =
      (plan : RetrievalPlan) × (accepted_plan providers env need budget ≡ ok plan)
      × (refuses plan.refusal_reason ≡ false)
      × IsRejected providers env need plan budget error
  IsEnd unfinished = ⊥

  pub accepted_plan-IsChecked :
      (plan : RetrievalPlan)
      → accepted_plan providers env need budget ≡ ok plan
      → All IsChecked plan.steps
  unfolding accepted_plan
  accepted_plan-IsChecked plan e =
      let (found, got, e1) = bind_ok (providers.plan need budget) _ plan e in
      let (u, passed, e2) = bind_ok (validate_plan found budget) _ plan e1 in
      subst (λ (p : RetrievalPlan). All IsChecked p.steps) (ok_injective e2)
        (validate_plan-IsChecked budget found passed)

  after_loop-IsEnd :
      (plan : RetrievalPlan) (last : LoopEnd)
      → accepted_plan providers env need budget ≡ ok plan
      → refuses plan.refusal_reason ≡ false
      → IsSoundEnd providers env need plan budget last
      → IsEnd (after_loop providers env need (env.execution_identity need budget) plan budget last)
  unfolding after_loop
  after_loop-IsEnd plan (left r) e going h = conclude-IsMade plan r h
  after_loop-IsEnd plan (escaped error) e going h = (plan, e, going, h)
  after_loop-IsEnd plan out_of_fuel e going h = h

  planned-IsSound :
      (plan : RetrievalPlan)
      → IsSound budget (planned providers env need plan)
        × (length (planned providers env need plan).completed ≡ 0)
  unfolding planned note
  planned-IsSound plan = (note-IsSound budget _ _ _ _ _ nothing_run-IsSound, refl)

  -- How `execute` ends.
  pub execute-IsEnd : IsEnd (execute providers env need budget)
  unfolding execute with_pending
  execute-IsEnd = elim (Attempt-cases (accepted_plan providers env need budget)) [
    | inl (error, e) ↦ rw (e, execute) (failed none none _ _ nothing_run-IsSound tt refl)
    | inr (plan, e) ↦ elim (Bool-cases (refuses plan.refusal_reason)) [
      | inl refusing ↦ rw (e, execute) (rw (refusing, if◌then◌else◌) (refused plan refl))
      | inr going ↦
          let (sound, none_yet) = planned-IsSound plan in
          rw (e, execute)
            (rw (going, if◌then◌else◌)
              (after_loop-IsEnd plan _ e going (
                run_steps-IsSoundEnd providers env need plan budget (suc budget.max_iterations) _
                  (omega (arith, none_yet))
                  (with_pending-IsSound budget plan.steps _ (accepted_plan-IsChecked plan e)
                    sound))))
    ]
  ]
