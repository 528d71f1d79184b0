-- ===== src/Intelligence/Verdicts.antt =====
-- What `execute` of intelligence/orchestration.py makes of the failures, the gaps and the draft's
-- status.
use rfi.Common.Lists.{nil_of_is_empty, some_of_is_empty}
use rfi.Common.Lists.{is_empty}
use rfi.Common.{
  ◌≤◌, ◌≡◌, refl, Bool, true, false, [], ◌++◌, ◌||◌, not, arith, if◌then◌else◌, Bool-cases, ◌⊎◌,
  inl, inr,
}
use rfi.Common.Lists.{length, mem}
use rfi.Common.Sorting.{unique}
use rfi.Intelligence.Contracts.{CompletionStatus, StopReason, ReasoningDraft, ModelEvidence}
use rfi.Intelligence.Run.{Run}
use rfi.Intelligence.Execute.{Verdict, ends_on_budget, judge}

-- nothing was missing: the draft's status stands
pub record IsSatisfied (draft : ReasoningDraft) (model : ModelEvidence) (r : Run) (v : Verdict)
    : Type 0 where
  pub reason : v.reason ≡ StopReason.requirements_satisfied
  pub status : v.status ≡ draft.requested_status
  pub no_gaps : v.gaps ≡ []
  pub no_contradictions : draft.contradictions ≡ []
  pub whole : model.truncated ≡ false
  pub consumed : 1 ≤ length r.packages
  pub below_limit : mem "iteration limit exhausted" r.failures ≡ false

-- something was missing
pub record IsShortOf (v : Verdict) : Type 0 where
  pub status : v.status ≡ CompletionStatus.incomplete
  pub reason :
      (v.reason ≡ StopReason.iteration_limit)
      ⊎ (v.reason ≡ StopReason.evidence_budget)
      ⊎ (v.reason ≡ StopReason.evidence_insufficient)

either_true : (a b : Bool) → (a || b) ≡ false → (a ≡ false) × (b ≡ false)
either_true a b h = ground (arith, h)

is_empty_of_not : (b : Bool) → not b ≡ false → b ≡ true
is_empty_of_not b h = ground (arith, h)

pub judge_lem :
    (draft : ReasoningDraft) (model : ModelEvidence) (r : Run)
    → IsSatisfied draft model r (judge draft model r) ⊎ IsShortOf (judge draft model r)
unfolding judge
judge_lem draft model r =
    let gaps = unique (draft.evidence_gaps ++ r.missing) in
    let lacking = not (is_empty gaps) || not (is_empty draft.contradictions) || model.truncated in
    elim (Bool-cases (is_empty r.packages)) [
      | inl none_consumed ↦
          rw (none_consumed, judge, if◌then◌else◌)
            (inr (record { status = refl; reason = inr (inr refl) }))
      | inr some_consumed ↦ elim (Bool-cases (mem "iteration limit exhausted" r.failures)) [
        | inl limit ↦
            rw (some_consumed, limit, judge, if◌then◌else◌)
              (inr (record { status = refl; reason = inl refl }))
        | inr below ↦ elim (Bool-cases (ends_on_budget r.failures)) [
          | inl budget ↦
              rw (some_consumed, below, budget, judge, if◌then◌else◌)
                (inr (record { status = refl; reason = inr (inl refl) }))
          | inr within ↦ elim (Bool-cases lacking) [
            | inl lacks ↦
                rw (some_consumed, below, within, lacks, judge, if◌then◌else◌)
                  (inr (record { status = refl; reason = inr (inr refl) }))
            | inr complete ↦
                let (lists, whole) =
                  either_true (not (is_empty gaps) || not (is_empty draft.contradictions))
                    model.truncated complete in
                let (no_gaps, no_contradictions) =
                  either_true (not (is_empty gaps)) (not (is_empty draft.contradictions)) lists in
                rw (some_consumed, below, within, complete, judge, if◌then◌else◌)
                  (inl (record {
                    reason = refl;
                    status = refl;
                    no_gaps = nil_of_is_empty gaps (is_empty_of_not _ no_gaps);
                    no_contradictions =
                        nil_of_is_empty draft.contradictions (is_empty_of_not _ no_contradictions);
                    whole = whole;
                    consumed = some_of_is_empty r.packages some_consumed;
                    below_limit = below;
                  }))
          ]
        ]
      ]
    ]
