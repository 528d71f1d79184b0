-- ===== src/Intelligence/Planned.antt =====
-- The follow-ups of `DeterministicPlanner` in intelligence/deterministic.py and `_validate_step`.
use rfi.Common.{
  ℕ, ◌≤◌, String, ◌≡◌, refl, false, none, some, List, ◌||◌, arith, ltb, if◌then◌else◌, Bool-cases,
  inl, inr,
}
use mathlib.Core.Path.{subst}
use rfi.Common.Lists.{take, is_empty}
use rfi.Common.Blank.{is_blank-join}
use rfi.Common.Text.{join, is_blank}
use rfi.Intelligence.Contracts.{InformationNeed, RetrievalStep, RetrievalPlan}
use rfi.Retrieval.Assemble.{min}
use rfi.Intelligence.Checks.{validate_step}
use rfi.Intelligence.Planner.{has_step, space_list, broader_step, follow_up_of}
use rfi.Intelligence.Sound.{IsChecked}

some_injective : {A : Type 0} {a b : A} → some a ≡ some b → a ≡ b
some_injective h = cc

pub min_positive : (a b : ℕ) → 1 ≤ a → 1 ≤ b → ltb (min a b) 1 ≡ false
min_positive a b h k = ground arith

broader_step-IsChecked :
    (need : InformationNeed) (plan : RetrievalPlan) (missing : List String)
    → is_blank need.text ≡ false
    → 1 ≤ plan.budget.max_total_evidence_bytes
    → IsChecked (broader_step need plan missing)
unfolding broader_step validate_step
broader_step-IsChecked need plan missing filled bytes =
    let text = is_blank-join need.text (join " " (space_list (take 4 missing))) filled in
    let size = min_positive 16000 plan.budget.max_total_evidence_bytes (omega arith) bytes in
    rw (text, size) refl

-- A follow-up passes the check of a step.
pub follow_up_of-IsChecked :
    (need : InformationNeed) (plan : RetrievalPlan) (completed : List RetrievalStep)
    (missing : List String) (step : RetrievalStep)
    → is_blank need.text ≡ false
    → 1 ≤ plan.budget.max_total_evidence_bytes
    → follow_up_of need plan completed missing ≡ some step
    → IsChecked step
unfolding follow_up_of
follow_up_of-IsChecked need plan completed missing step filled bytes e =
    elim (Bool-cases (is_empty missing || has_step "follow-up-coverage" completed)) [
      | inl declined ↦
          let given : none ≡ some step =
            subst (λ b. (if b then none else some (broader_step need plan missing)) ≡ some step)
              declined e in
          cc
      | inr asks ↦
          let given : some (broader_step need plan missing) ≡ some step =
            subst (λ b. (if b then none else some (broader_step need plan missing)) ≡ some step)
              asks e in
          subst IsChecked (some_injective given)
            (broader_step-IsChecked need plan missing filled bytes)
    ]
