-- ===== src/Intelligence/Accepted.antt =====
-- The plans of `DeterministicPlanner` in intelligence/deterministic.py and `_validate_plan`.
use rfi.Common.{
  ℕ, ◌≤◌, String, ◌≡◌, refl, Bool, true, false, List, [], ◌∷◌, ◌==◌, ◌||◌, arith, ltb, eqb_of_eq,
  if◌then◌else◌, Bool-cases, ◌⊎◌, inl, inr, map,
}
use rfi.Common.Lists.{All, length}
use rfi.Common.Sorting.{unique}
use rfi.Common.Blank.{join-filled}
use rfi.Common.Errors.{ok}
use rfi.Common.Text.{join, contains, decimal, is_blank}
use rfi.Intelligence.Contracts.{InformationNeed, IntelligenceBudget, RetrievalStep}
use rfi.Intelligence.Equal.{same_budget}
use rfi.Intelligence.Checks.{validate_step, validate_steps, validate_plan, step_id_of}
use rfi.Intelligence.Sound.{IsChecked}
use rfi.Intelligence.Planner.{
  PlannerText, mentions_any, entities_from, entities_of, step_of, steps_from, plan_steps,
  refusing_plan, comparing_plan, plan_of,
}
use rfi.Intelligence.Planned.{min_positive}

step_id_filled : (x : String) → (join "step-" x == "") ≡ false
step_id_filled x = join-filled "s" "tep-" x

plan_id_filled : (x : String) → (join "retrieval-plan-" x == "") ≡ false
plan_id_filled x = join-filled "r" "etrieval-plan-" x

step_of-IsChecked :
    (alternate_wording : Bool) (need : InformationNeed) (budget : IntelligenceBudget)
    (terms types : List String) (number : ℕ) (entity : String)
    → is_blank need.text ≡ false
    → 1 ≤ budget.max_total_evidence_bytes
    → IsChecked (step_of alternate_wording need budget terms types number entity)
unfolding step_of validate_step
step_of-IsChecked true need budget terms types number entity filled bytes =
    let suffix = if entity == "" then "corpus" else entity in
    rw
      (
        step_id_filled (join (decimal number) (join "-" suffix)),
        join-filled "I" "nspect source and interpreted filing records for entity "
            (join suffix "."),
        filled,
        min_positive 24000 budget.max_total_evidence_bytes (omega arith) bytes,
      )
      refl
step_of-IsChecked false need budget terms types number entity filled bytes =
    let suffix = if entity == "" then "corpus" else entity in
    rw
      (
        step_id_filled (join (decimal number) (join "-" suffix)),
        join-filled "C" "ollect governed annual-filing evidence for SEC entity " (join suffix "."),
        filled,
        min_positive 24000 budget.max_total_evidence_bytes (omega arith) bytes,
      )
      refl

-- one entity or none is named, or both are
entities_of-few :
    (lowered : String)
    → ((e : String) × (entities_of lowered ≡ e ∷ []))
      ⊎ (entities_of lowered ≡ "1137789" ∷ "106040" ∷ [])
unfolding entities_of entities_from
entities_of-few lowered = elim (Bool-cases (contains "seagate" lowered)) [
  | inl e0 ↦ elim (Bool-cases (contains "stx" lowered)) [
    | inl e1 ↦ elim (Bool-cases (contains "western digital" lowered)) [
      | inl e2 ↦ elim (Bool-cases (contains "wdc" lowered)) [
        | inl e3 ↦ rw (e0, e1, e2, e3, entities_of) (inr refl)
        | inr e3 ↦ rw (e0, e1, e2, e3, entities_of) (inr refl)
      ]
      | inr e2 ↦ elim (Bool-cases (contains "wdc" lowered)) [
        | inl e3 ↦ rw (e0, e1, e2, e3, entities_of) (inr refl)
        | inr e3 ↦ rw (e0, e1, e2, e3, entities_of) (inl ("1137789", refl))
      ]
    ]
    | inr e1 ↦ elim (Bool-cases (contains "western digital" lowered)) [
      | inl e2 ↦ elim (Bool-cases (contains "wdc" lowered)) [
        | inl e3 ↦ rw (e0, e1, e2, e3, entities_of) (inr refl)
        | inr e3 ↦ rw (e0, e1, e2, e3, entities_of) (inr refl)
      ]
      | inr e2 ↦ elim (Bool-cases (contains "wdc" lowered)) [
        | inl e3 ↦ rw (e0, e1, e2, e3, entities_of) (inr refl)
        | inr e3 ↦ rw (e0, e1, e2, e3, entities_of) (inl ("1137789", refl))
      ]
    ]
  ]
  | inr e0 ↦ elim (Bool-cases (contains "stx" lowered)) [
    | inl e1 ↦ elim (Bool-cases (contains "western digital" lowered)) [
      | inl e2 ↦ elim (Bool-cases (contains "wdc" lowered)) [
        | inl e3 ↦ rw (e0, e1, e2, e3, entities_of) (inr refl)
        | inr e3 ↦ rw (e0, e1, e2, e3, entities_of) (inr refl)
      ]
      | inr e2 ↦ elim (Bool-cases (contains "wdc" lowered)) [
        | inl e3 ↦ rw (e0, e1, e2, e3, entities_of) (inr refl)
        | inr e3 ↦ rw (e0, e1, e2, e3, entities_of) (inl ("1137789", refl))
      ]
    ]
    | inr e1 ↦ elim (Bool-cases (contains "western digital" lowered)) [
      | inl e2 ↦ elim (Bool-cases (contains "wdc" lowered)) [
        | inl e3 ↦ rw (e0, e1, e2, e3, entities_of) (inl ("106040", refl))
        | inr e3 ↦ rw (e0, e1, e2, e3, entities_of) (inl ("106040", refl))
      ]
      | inr e2 ↦ elim (Bool-cases (contains "wdc" lowered)) [
        | inl e3 ↦ rw (e0, e1, e2, e3, entities_of) (inl ("106040", refl))
        | inr e3 ↦ rw (e0, e1, e2, e3, entities_of) (inl ("", refl))
      ]
    ]
  ]
]

validate_steps_lem :
    (steps : List RetrievalStep) → All IsChecked steps → validate_steps steps ≡ ok tt
unfolding validate_steps
validate_steps_lem [] h = refl
validate_steps_lem (step ∷ steps) h = rw (h.0) (validate_steps_lem steps h.1)

same_budget_refl : (budget : IntelligenceBudget) → same_budget budget budget ≡ true
same_budget_refl budget = ground arith

-- a plan with steps that pass, few enough and told apart
comparing_plan-accepted :
    (text : PlannerText) (need : InformationNeed) (budget : IntelligenceBudget)
    (steps : List RetrievalStep)
    → All IsChecked steps
    → 1 ≤ length steps
    → length steps ≤ budget.max_packages
    → length steps ≤ budget.max_iterations
    → length steps ≡ length (unique (map step_id_of steps))
    → validate_plan (comparing_plan text need budget steps) budget ≡ ok tt
unfolding comparing_plan validate_plan
comparing_plan-accepted text need budget [] h some_steps packages iterations told =
    let none_there : ⊥ = omega arith in absurd none_there
comparing_plan-accepted text need budget (step ∷ steps) h some_steps packages iterations told =
    let few : (ltb budget.max_packages (length (step ∷ steps))
          || ltb budget.max_iterations (length (step ∷ steps)))
        ≡ false =
      ground arith in
    rw
      (
        plan_id_filled (text.plan_digest need (step ∷ steps) budget),
        same_budget_refl budget,
        few,
        eqb_of_eq (length (step ∷ steps)) (length (unique (map step_id_of (step ∷ steps)))) told,
      )
      (validate_steps_lem (step ∷ steps) h)

refusing_plan-accepted :
    (text : PlannerText) (need : InformationNeed) (budget : IntelligenceBudget)
    → validate_plan (refusing_plan text need budget) budget ≡ ok tt
unfolding refusing_plan validate_plan validate_steps unique
refusing_plan-accepted text need budget =
    let few : (ltb budget.max_packages 0 || ltb budget.max_iterations 0) ≡ false = ground arith in
    rw (plan_id_filled (text.refusal_digest need), same_budget_refl budget, few) refl

-- the steps of the plan pass, and are one or two that are told apart
plan_steps_lem :
    (text : PlannerText) (alternate_wording : Bool) (need : InformationNeed)
    (budget : IntelligenceBudget)
    → is_blank need.text ≡ false
    → 1 ≤ budget.max_total_evidence_bytes
    → let steps = plan_steps text alternate_wording need budget in
      All IsChecked steps
      × (1 ≤ length steps)
      × (length steps ≤ 2)
      × (length steps ≡ length (unique (map step_id_of steps)))
unfolding plan_steps steps_from step_of unique
plan_steps_lem text alternate_wording need budget filled bytes =
    elim (entities_of-few (text.lower need.text)) [
      | inl (e, one) ↦ rw (one) (
        (step_of-IsChecked alternate_wording need budget _ _ 1 e filled bytes, tt),
        omega arith,
        omega arith,
        refl,
      )
      | inr both ↦ rw (both) (
        (
          step_of-IsChecked alternate_wording need budget _ _ 1 "1137789" filled bytes,
          (step_of-IsChecked alternate_wording need budget _ _ 2 "106040" filled bytes, tt),
        ),
        omega arith,
        omega arith,
        refl,
      )
    ]

-- The planner's plan passes `_validate_plan` where the need's text is not blank and the budget has
-- two iterations, two packages and a byte of evidence.
pub plan_of-accepted :
    (text : PlannerText) (alternate_wording : Bool) (need : InformationNeed)
    (budget : IntelligenceBudget)
    → is_blank need.text ≡ false
    → 2 ≤ budget.max_iterations
    → 2 ≤ budget.max_packages
    → 1 ≤ budget.max_total_evidence_bytes
    → validate_plan (plan_of text alternate_wording need budget) budget ≡ ok tt
unfolding plan_of
plan_of-accepted text alternate_wording need budget filled iterations packages bytes =
    let (passed, some_steps, few, told) =
      plan_steps_lem text alternate_wording need budget filled bytes in
    elim (Bool-cases (
      mentions_any (text.lower need.text)
        ("ignore governance" ∷ "exfiltrate" ∷ "show secret" ∷ []))) [
          | inl unsafe ↦
              rw (unsafe, plan_of, if◌then◌else◌) (refusing_plan-accepted text need budget)
          | inr safe ↦
              rw (safe, plan_of, if◌then◌else◌)
                (comparing_plan-accepted text need budget
                  (plan_steps text alternate_wording need budget) passed some_steps
                  (omega (arith, few)) (omega (arith, few)) told)
        ]
