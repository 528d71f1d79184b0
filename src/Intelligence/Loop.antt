-- ===== src/Intelligence/Loop.antt =====
-- What a pass through the loop of `execute` in intelligence/orchestration.py does, and how the loop
-- ends.
use rfi.Common.{
  ℕ, zero, suc, ◌+◌, ◌<◌, String, ◌≡◌, refl, none, some, List, [], ◌∷◌, ◌++◌, arith, ltb, leb,
  if◌then◌else◌, Bool-cases, ◌⊎◌, inl, inr,
}
use mathlib.Core.Path.{subst}
use rfi.Common.Lists.{length, length-append, All, List-cases}
use rfi.Common.Errors.{ok, raise, bind_ok, ok_injective, Attempt-cases}
use rfi.Retrieval.Contracts.{EvidencePackage}
use rfi.Intelligence.Contracts.{InformationNeed, IntelligenceBudget, RetrievalStep, RetrievalPlan}
use rfi.Intelligence.Checks.{validate_step, validate_package}
use rfi.Intelligence.Project.{Rendering, missing_of}
use rfi.Intelligence.Run.{
  Providers, Run, note, fail, ask, consume, push_pending, with_pending, total_bytes, Pass, again,
  stop, escape, fetch, follow, pursue, accept, advance, LoopEnd, left, escaped, out_of_fuel,
  run_steps,
}
use rfi.Intelligence.Sound.{
  IsChecked, IsSound, note-IsSound, fail-IsSound, ask-IsSound, consume-IsSound,
  with_pending-IsSound, push_pending-IsSound,
}

module _ (providers : Providers) (env : Rendering) (need : InformationNeed) (plan : RetrievalPlan)
    (budget : IntelligenceBudget) where
  -- the planner answered with a step that its check rejects with this message
  abbrev pub IsRejected : String → Type 0
  IsRejected error =
      (completed : List RetrievalStep) × (missing : List String) × (step : RetrievalStep)
      × (providers.follow_up need plan completed missing ≡ ok (some step))
      × (validate_step step ≡ raise error)

  -- A pass keeps what is sound; where the loop goes on, `n` steps are completed.
  abbrev IsSoundPass : ℕ → Pass → Type 0
  IsSoundPass n (again r) = IsSound budget r × (length r.completed ≡ n)
  IsSoundPass n (stop r) = IsSound budget r
  IsSoundPass n (escape error) = IsRejected error

  follow-IsSoundPass :
      (n : ℕ) (step : RetrievalStep) (missing : List String) (r : Run)
      → length r.completed ≡ n
      → IsSound budget r
      → IsSoundPass n (follow providers env need plan budget step missing r)
  unfolding follow note push_pending
  follow-IsSoundPass n step missing r count h =
      elim (Attempt-cases (providers.follow_up need plan r.completed missing)) [
        | inl (error, e) ↦
            rw (e, IsSoundPass, follow) (note-IsSound budget _ _ _ _ _ (fail-IsSound budget _ r h))
        | inr (none, e) ↦ rw (e, IsSoundPass, follow) (note-IsSound budget _ _ _ _ r h, count)
        | inr (some next, e) ↦ elim (Attempt-cases (validate_step next)) [
          | inl (error, bad) ↦ rw (e, bad, IsSoundPass, follow) (r.completed, missing, next, e, bad)
          | inr (u, good) ↦
              rw (e, good, IsSoundPass, follow)
                (note-IsSound budget _ _ _ _ _ (push_pending-IsSound budget next r good h), count)
        ]
      ]

  pursue-IsSoundPass :
      (n : ℕ) (step : RetrievalStep) (missing : List String) (r : Run)
      → length r.completed ≡ n
      → IsSound budget r
      → IsSoundPass n (pursue providers env need plan budget step missing r)
  unfolding pursue note fail
  pursue-IsSoundPass n step missing r count h = elim (List-cases r.pending) [
    | inr (next, rest, e) ↦ rw (e, IsSoundPass, pursue) (h, count)
    | inl e ↦ elim (Bool-cases (ltb (length r.completed) budget.max_iterations)) [
      | inl more ↦
          rw (e, pursue) (rw (more, if◌then◌else◌) (follow-IsSoundPass n step missing r count h))
      | inr last ↦
          rw (e, pursue)
            (rw (last, if◌then◌else◌)
              (note-IsSound budget _ _ _ _ _ (fail-IsSound budget _ r h), count))
    ]
  ]

  accept-IsSoundPass :
      (step : RetrievalStep) (package_ : EvidencePackage) (r : Run)
      → IsSound budget (consume step package_ (missing_of env step package_) r)
      → IsSoundPass
          (suc (length r.completed))
          (accept providers env need plan budget step package_ r)
  unfolding accept note consume
  accept-IsSoundPass step package_ r h =
      let longer : length (r.completed ++ step ∷ []) ≡ suc (length r.completed) =
        omega (arith, length-append r.completed (step ∷ [])) in
      elim (List-cases (missing_of env step package_)) [
        | inl e ↦ rw (e, IsSoundPass, accept) (note-IsSound budget _ _ _ _ _ h, longer)
        | inr (m, ms, e) ↦
            rw (e, accept)
              (pursue-IsSoundPass (suc (length r.completed)) step (m ∷ ms) _ longer
                (note-IsSound budget _ _ _ _ _ (note-IsSound budget _ _ _ _ _ h)))
      ]

  fetched :
      (calls : ℕ) (step : RetrievalStep) (package_ : EvidencePackage)
      → fetch providers env need plan budget calls step ≡ ok package_
      → validate_package package_ step ≡ ok tt
  unfolding fetch
  fetched calls step package_ e =
      let (found, got, e1) = bind_ok (providers.retrieve calls step.query) _ package_ e in
      let (u, passed, e2) = bind_ok (validate_package found step) _ package_ e1 in
      subst (λ p. validate_package p step ≡ ok tt) (ok_injective e2) passed

  advance-IsSoundPass :
      (step : RetrievalStep) (r : Run)
      → IsChecked step
      → length r.completed < budget.max_iterations
      → IsSound budget r
      → IsSoundPass (suc (length r.completed)) (advance providers env need plan budget step r)
  unfolding advance note ask fail
  advance-IsSoundPass step r c more h =
      elim (Bool-cases (leb budget.max_packages (length r.packages))) [
        | inl full ↦
            rw (full, advance, if◌then◌else◌, IsSoundPass) (note-IsSound budget _ _ _ _ r h)
        | inr room ↦
            let asked =
              ask-IsSound budget step _ c (
                note-IsSound budget "retrieval-request" step.purpose (some step.step_id) none r
                  h) in
            elim (Attempt-cases (fetch providers env need plan budget (length r.queries) step)) [
              | inl (error, e) ↦
                  rw (room, advance, if◌then◌else◌, e, IsSoundPass)
                    (note-IsSound budget _ _ _ _ _ (fail-IsSound budget _ _ asked))
              | inr (package_, e) ↦
                  elim (Bool-cases (
                    ltb budget.max_total_evidence_bytes
                      (total_bytes r.packages + package_.bytes_used))) [
                        | inl over ↦
                            rw (room, advance, if◌then◌else◌, e, over, IsSoundPass)
                              (note-IsSound budget _ _ _ _ _ (fail-IsSound budget _ _ asked))
                        | inr fits ↦
                            rw (room, advance, if◌then◌else◌, e, fits)
                              (accept-IsSoundPass step package_
                                (ask step (
                                  note "retrieval-request" step.purpose (some step.step_id) none r))
                                (consume-IsSound budget step package_ _ _ c
                                  (fetched (length r.queries) step package_ e)
                                  (ground (arith, room)) (omega arith) (ground (arith, fits))
                                  asked))
                      ]
            ]
      ]

  Pass-cases :
      (p : Pass)
      → ((r : Run) × (p ≡ again r)) ⊎ ((r : Run) × (p ≡ stop r)) ⊎ ((e : String) × (p ≡ escape e))
  Pass-cases (again r) = inl (r, refl)
  Pass-cases (stop r) = inr (inl (r, refl))
  Pass-cases (escape e) = inr (inr (e, refl))

  abbrev pub IsSoundEnd : LoopEnd → Type 0
  IsSoundEnd (left r) = IsSound budget r
  IsSoundEnd (escaped error) = IsRejected error
  IsSoundEnd out_of_fuel = ⊥

  -- With more fuel than iterations are left, the loop ends, soundly.
  pub run_steps-IsSoundEnd :
      (fuel : ℕ) (r : Run)
      → budget.max_iterations < fuel + length r.completed
      → IsSound budget r
      → IsSoundEnd (run_steps providers env need plan budget fuel r)
  unfolding run_steps with_pending
  run_steps-IsSoundEnd zero r enough h = omega (arith, h.few_steps)
  run_steps-IsSoundEnd (suc fuel) r enough h = elim (List-cases r.pending) [
    | inl e ↦ rw (e, run_steps, IsSoundEnd) h
    | inr (step, rest, e) ↦ elim (Bool-cases (ltb (length r.completed) budget.max_iterations)) [
      | inr last ↦ rw (e, run_steps) (rw (last, IsSoundEnd) h)
      | inl more ↦
          let waiting = subst (All IsChecked) e h.waiting in
          let pass =
            advance-IsSoundPass step (with_pending rest r) waiting.0 (ground (arith, more))
              (with_pending-IsSound budget rest r waiting.1 h) in
          elim (Pass-cases (advance providers env need plan budget step (with_pending rest r))) [
            | inl (r', on) ↦
                let (sound, counted) = subst (IsSoundPass (suc (length r.completed))) on pass in
                rw (e, run_steps)
                  (rw (more, on) (run_steps-IsSoundEnd fuel r' (omega (arith, counted)) sound))
            | inr (inl (r', broke)) ↦
                rw (e, run_steps)
                  (rw (more, broke) (subst (IsSoundPass (suc (length r.completed))) broke pass))
            | inr (inr (error, rose)) ↦
                rw (e, run_steps)
                  (rw (more, rose) (subst (IsSoundPass (suc (length r.completed))) rose pass))
          ]
    ]
  ]
