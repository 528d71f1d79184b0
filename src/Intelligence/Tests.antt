-- ===== src/Intelligence/Tests.antt =====
-- Runs of the model of intelligence/orchestration.py, and the theorems at concrete executions.
use rfi.Common.{
  String, ◌≡◌, ◌⊎◌, refl, sym, true, some, List, [], ◌∷◌, eqb, if◌then◌else◌, inl, inr,
}
use mathlib.Core.Path.{subst}
use rfi.Common.Lists.{length, All, Any}
use rfi.Common.Sorting.{sorted_set, unique}
use rfi.Common.Errors.{ok, raise, ok_injective}
use rfi.Common.Assoc.{lookup, assign, index_from}
use rfi.Common.Text.{join, decimal, strip, contains, text_length, text_take}
use rfi.Retrieval.Contracts.{
  ResultClass, ProvenanceReference, SourceEvidenceResult, EvidencePackage,
}
use rfi.Retrieval.Ranked.{ranked_of, identities, identity, references}
use rfi.Retrieval.Assemble.{assemble_each}
use rfi.Retrieval.Package.{package_of, assemble}
use rfi.Retrieval.Sample
use rfi.Intelligence.Sample.{env, need, budget, mail_only, step, wanting, plan, providers}
use rfi.Intelligence.Contracts.{CompletionStatus, ClaimKind, StopReason, ExecutionRecord}
use rfi.Intelligence.Equal.{same_query}
use rfi.Intelligence.Checks.{
  validate_step, validate_plan, validate_package, span_of, same_reference,
}
use rfi.Intelligence.Draft.{validate_draft}
use rfi.Intelligence.Project.{project, missing_of}
use rfi.Intelligence.Record.{select, terminal_record, failure_record}
use rfi.Intelligence.Run.{note, run_steps}
use rfi.Intelligence.Execute.{execute, recorded, raised, finish}
use rfi.Intelligence.Gateway.{IsReferredTo, AreTold, gateway, gateway-accepted}
use rfi.Intelligence.Sound.{IsNumberedFrom}
use rfi.Intelligence.Governed.{
  IsWithin, HasPassed, IsRejectedFollowUp, execute-IsWithin, execute-HasPassed, execute-numbered,
  execute-ends,
}
use rfi.Intelligence.Claims.{IsGroundedClaim, execute-IsGroundedClaim}
use rfi.Intelligence.Outcomes.{IsComplete, execute-IsComplete}

completed :
    (made : ExecutionRecord) × (execute (providers ClaimKind.source_evidence) env need budget
      ≡ recorded made)
    × (made.result.status ≡ CompletionStatus.complete)
    × (length made.result.evidence ≡ 1)
unfolding execute validate_plan run_steps gateway missing_of finish note join decimal strip contains
    unique sorted_set lookup assign index_from text_length text_take validate_draft project
    validate_package validate_step assemble identities identity ranked_of assemble_each package_of
    terminal_record select
completed = (_, refl, refl, refl)

-- the claim says that it is derived, and cites a source
closed :
    (made : ExecutionRecord) × (execute (providers ClaimKind.derived_knowledge) env need budget
      ≡ recorded made)
    × (made.result.stopping_reason ≡ StopReason.failure)
unfolding execute validate_plan run_steps gateway missing_of finish note join decimal strip contains
    unique sorted_set lookup assign index_from text_length text_take validate_draft project
    validate_package validate_step assemble identities identity ranked_of assemble_each package_of
    failure_record
closed = (_, refl, refl)

execute-IsWithin_example : IsWithin budget completed.0
execute-IsWithin_example =
    execute-IsWithin (providers ClaimKind.source_evidence) env need budget completed.0 completed.1

execute-HasPassed_example : HasPassed completed.0
execute-HasPassed_example =
    execute-HasPassed (providers ClaimKind.source_evidence) env need budget completed.0 completed.1

execute-numbered_example : IsNumberedFrom 1 completed.0.trace.events
execute-numbered_example =
    execute-numbered (providers ClaimKind.source_evidence) env need budget completed.0 completed.1

execute-ends_example :
    ((made : ExecutionRecord) × (execute (providers ClaimKind.source_evidence) env need budget
        ≡ recorded made))
    ⊎ ((error : String) × (execute (providers ClaimKind.source_evidence) env need budget
          ≡ raised error)
        × IsRejectedFollowUp (providers ClaimKind.source_evidence) env need budget error)
execute-ends_example = execute-ends (providers ClaimKind.source_evidence) env need budget

execute-IsGroundedClaim_example : All (IsGroundedClaim completed.0) completed.0.result.claims
execute-IsGroundedClaim_example =
    execute-IsGroundedClaim (providers ClaimKind.source_evidence) env need budget completed.0
      completed.1

execute-IsComplete_example : IsComplete completed.0
execute-IsComplete_example =
    execute-IsComplete (providers ClaimKind.source_evidence) env need budget completed.0 completed.1
      completed.2

-- the mail's package, as the gateway returns it
answered :
    (p : EvidencePackage) × (gateway Sample.env (λ calls query. ok mail_only) 0 step.query ≡ ok p)
unfolding gateway assemble identities identity ranked_of assemble_each package_of join decimal
    lookup assign
answered = (_, refl)

same_asked : same_query mail_only.trace.query step.query ≡ true
unfolding same_query
same_asked = refl

-- the mail is all that is referred to
mail_known :
    (r : ProvenanceReference)
    → IsReferredTo mail_only Sample.env r
    → span_of (record {
      result_class = ResultClass.source_evidence;
      source_object = Sample.mail;
      score = Sample.score 2;
      rationale = [];
      metadata = [];
    })
      ≡ r
unfolding references
mail_known r (inl (refs, are, among)) =
    elim (subst (Any (λ s. s ≡ r)) (sym (ok_injective are)) among) [
      | inl e ↦ e
      | inr none_other ↦ absurd none_other
    ]
mail_known r (inr none_other) = absurd none_other

mail_told : AreTold mail_only Sample.env
mail_told r s known known' same =
    let reach = mail_known r known in
    let reach' = mail_known s known' in
    subst (λ a. same_reference a s ≡ true) reach
      (subst
        (λ b.
          same_reference
            (span_of (record {
              result_class = ResultClass.source_evidence;
              source_object = Sample.mail;
              score = Sample.score 2;
              rationale = [];
              metadata = [];
            }))
            b
          ≡ true)
        reach' refl)

gateway-accepted_example : validate_package answered.0 step ≡ ok tt
gateway-accepted_example =
    gateway-accepted Sample.env mail_only mail_told (λ calls query. ok mail_only) 0 step answered.0
      refl same_asked refl answered.1

-- A step that wants derived knowledge, which the mail is not, is followed by a step without a text.
follow_up_raises :
    execute
      (record (providers ClaimKind.source_evidence) {
        plan = λ n b. ok (record plan { steps = wanting ∷ [] });
        follow_up = λ n p done missing. ok (some (record step { purpose = "" }));
      })
      env
      need
      budget
    ≡ raised "malformed retrieval step"
unfolding execute validate_plan run_steps gateway missing_of note join decimal strip contains unique
    sorted_set lookup assign project validate_package validate_step assemble identities identity
    ranked_of assemble_each package_of
follow_up_raises = refl

-- a step that wants derived knowledge, and then one that wants the mail: the status is complete
earlier_gap_forgotten :
    (made : ExecutionRecord) × (execute
        (record (providers ClaimKind.source_evidence) {
          plan = λ n b. ok (record plan {
            budget = b;
            steps = wanting ∷ record step { step_id = "step-2" } ∷ [];
          });
        })
        env
        need
        (record budget { max_total_evidence_bytes = 8 })
      ≡ recorded made)
    × (made.result.status ≡ CompletionStatus.complete)
unfolding execute validate_plan run_steps gateway missing_of finish note join decimal strip contains
    unique sorted_set lookup assign index_from text_length text_take validate_draft project
    validate_package validate_step assemble identities identity ranked_of assemble_each package_of
    terminal_record
earlier_gap_forgotten = (_, refl, refl)

-- the second of two steps cannot be retrieved: the status is complete
failure_forgotten :
    (made : ExecutionRecord) × (execute
        (record (providers ClaimKind.source_evidence) {
          plan = λ n b. ok (record plan { steps = step ∷ record step { step_id = "step-2" } ∷ [] });
          retrieve = λ calls query.
              if eqb calls 0
              then gateway Sample.env (λ c q. ok mail_only) calls query
              else raise "offline";
        })
        env
        need
        budget
      ≡ recorded made)
    × (made.result.status ≡ CompletionStatus.complete)
    × (made.trace.failures ≡ "step-2: retrieval failure: offline" ∷ [])
unfolding execute validate_plan run_steps gateway missing_of finish note join decimal strip contains
    unique sorted_set lookup assign index_from text_length text_take validate_draft project
    validate_package validate_step assemble identities identity ranked_of assemble_each package_of
    terminal_record
failure_forgotten = (_, refl, refl, refl)

abbrev with_part : List SourceEvidenceResult
with_part =
    record {
      result_class = ResultClass.source_evidence;
      source_object = Sample.mail;
      score = Sample.score 2;
      rationale = [];
      metadata = [];
    }
    ∷ record {
      result_class = ResultClass.source_evidence;
      source_object = record Sample.mail { source_object_id = "part-1" };
      score = Sample.score 1;
      rationale = [];
      metadata = [];
    }
    ∷ []

-- A mail and its only part have one span, so that the package has one context for both, and the
-- other lacks its own.
shared_span_rejected :
    (p : EvidencePackage) × (gateway Sample.env
        (λ calls query. ok (record mail_only { source_results = with_part }))
        0
        step.query
      ≡ ok p)
    × (validate_package p step ≡ raise "source result lacks verified package context")
unfolding gateway assemble identities identity ranked_of assemble_each package_of validate_package
    join decimal lookup assign
shared_span_rejected = (_, refl, refl)
