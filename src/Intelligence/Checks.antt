-- ===== src/Intelligence/Checks.antt =====
-- `_validate_plan`, `_validate_step`, `_validate_package` and `_validate_draft` of
-- intelligence/orchestration.py: `ok` where they return, and the message of the error.
use rfi.Common.Lists.{is_empty}
use rfi.Common.Text.{is_blank, strip}
use rfi.Common.{
  String, Bool, true, false, Option, none, some, List, [], ◌∷◌, ◌==◌, ◌&&◌, ◌||◌, not, ltb, leb,
  eqb, map, if◌then◌else◌,
}
use text.Mathlib.Text.{starts_with}
use rfi.Common.Lists.{length}
use rfi.Common.Sorting.{unique}
use rfi.Common.Errors.{Attempt, ok, require, ◌>>◌}
use rfi.Common.Text.{strip}
use rfi.Retrieval.Contracts.{
  ResultClass, ProvenanceReference, SourceEvidenceResult, DerivedKnowledgeResult, ContextExcerpt,
  EvidencePackage,
}
use rfi.Intelligence.Contracts.{IntelligenceBudget, RetrievalStep, RetrievalPlan}
use rfi.Intelligence.Equal.{same_class, same_query, same_budget}

-- `class in classes`
abbrev pub has_class : ResultClass → List ResultClass → Bool
has_class c [] = false
has_class c (d ∷ ds) = if same_class d c then true else has_class c ds

-- `set(xs).issubset(set(ys))`
abbrev pub is_subset : List ResultClass → List ResultClass → Bool
is_subset [] ys = true
is_subset (x ∷ xs) ys = has_class x ys && is_subset xs ys

-- `_validate_step`
unfoldable pub validate_step : RetrievalStep → Attempt (Unit {0})
unfolding strip
validate_step step = do
  let query = step.query
  require (not ((step.step_id == "") || (step.purpose == "") || is_blank query.text))
      "malformed retrieval step"
  require (is_empty query.constraints.unsupported) "unsupported retrieval constraints in plan"
  require (not (ltb query.max_results 1 || ltb query.candidate_limit query.max_results))
      "invalid retrieval result bounds"
  require (not (ltb query.evidence_budget_bytes 1)) "invalid per-package evidence budget"
  require (is_subset step.required_result_classes query.result_classes)
      "step requirements exceed requested result classes"

unfoldable pub validate_steps : List RetrievalStep → Attempt (Unit {0})
unfolding validate_step
validate_steps [] = ok tt
validate_steps (step ∷ steps) = validate_step step >> validate_steps steps

-- the truth of `refusal_reason`
abbrev pub refuses : Option String → Bool
refuses none = false
refuses (some reason) = not (reason == "")

abbrev pub step_id_of : RetrievalStep → String
step_id_of step = step.step_id

-- `_validate_plan`
unfoldable pub validate_plan : RetrievalPlan → IntelligenceBudget → Attempt (Unit {0})
unfolding validate_steps unique
validate_plan plan budget = do
  require (not ((plan.plan_id == "") || (plan.interpretation == ""))) "malformed planner output"
  require (same_budget plan.budget budget) "planner altered governing budget"
  require
      (not (
        ltb budget.max_packages (length plan.steps)
        || ltb budget.max_iterations (length plan.steps)))
      "plan exceeds package or iteration budget"
  require (not (is_empty plan.steps && not (refuses plan.refusal_reason)))
      "plan has neither steps nor refusal"
  require (eqb (length plan.steps) (length (unique (map step_id_of plan.steps))))
      "plan contains duplicate step identifiers"
  validate_steps plan.steps

-- the fields of a reference, compared with those of a context
abbrev pub same_reference : ProvenanceReference → ProvenanceReference → Bool
same_reference a b =
    (a.source_object_id == b.source_object_id)
    && (a.document_id == b.document_id)
    && (a.artifact_id == b.artifact_id)
    && eqb a.byte_start b.byte_start
    && eqb a.byte_end b.byte_end
    && (a.content_sha256 == b.content_sha256)

-- `key in context_keys`
abbrev pub in_contexts : ProvenanceReference → List ContextExcerpt → Bool
in_contexts r [] = false
in_contexts r (c ∷ cs) = if same_reference c.provenance r then true else in_contexts r cs

-- the span of a source object
abbrev pub span_of : SourceEvidenceResult → ProvenanceReference
span_of result = record {
  source_object_id = result.source_object.source_object_id;
  document_id = result.source_object.document_id;
  artifact_id = result.source_object.artifact_id;
  byte_start = result.source_object.byte_start;
  byte_end = result.source_object.byte_end;
  content_sha256 = result.source_object.content_sha256;
}

unfoldable pub check_sources : List ContextExcerpt → List SourceEvidenceResult → Attempt (Unit {0})
check_sources contexts [] = ok tt
check_sources contexts (result ∷ results) =
    require (in_contexts (span_of result) contexts) "source result lacks verified package context"
    >> check_sources contexts results

unfoldable pub check_provenance :
    List ContextExcerpt → List ProvenanceReference → Attempt (Unit {0})
check_provenance contexts [] = ok tt
check_provenance contexts (item ∷ items) =
    require (in_contexts item contexts) "derived result lacks verified package context"
    >> check_provenance contexts items

unfoldable pub check_knowledge :
    List ContextExcerpt → List DerivedKnowledgeResult → Attempt (Unit {0})
unfolding check_provenance
check_knowledge contexts [] = ok tt
check_knowledge contexts (result ∷ results) =
    require (not (is_empty result.derived_object.provenance)) "derived result lacks provenance"
    >> check_provenance contexts result.derived_object.provenance
    >> check_knowledge contexts results

-- `_validate_package`
unfoldable pub validate_package : EvidencePackage → RetrievalStep → Attempt (Unit {0})
unfolding same_query check_sources check_knowledge
validate_package package_ step = do
  require (same_query package_.query step.query && same_query package_.trace.query step.query)
      "evidence package does not match requested query"
  require (starts_with package_.package_id "evidence-package-") "invalid evidence-package identity"
  require (is_empty package_.trace.failures) "evidence package contains retrieval failures"
  require (leb package_.bytes_used package_.byte_budget)
      "evidence package exceeds declared byte budget"
  check_sources package_.contexts package_.source_evidence
  check_knowledge package_.contexts package_.derived_knowledge
