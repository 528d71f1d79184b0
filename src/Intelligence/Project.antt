-- ===== src/Intelligence/Project.antt =====
-- `_missing` and `_project` of intelligence/orchestration.py. What json.dumps and str.lower make of
-- their arguments is in `Rendering`.
use rfi.Common.Lists.{is_empty}
use rfi.Common.{ℕ, String, Bool, List, [], ◌∷◌, ◌++◌, ◌&&◌, ltb, map, if◌then◌else◌}
use rfi.Common.Sorting.{sorted_set, unique}
use rfi.Common.Text.{join, contains, text_length, text_take}
use rfi.Retrieval.Contracts.{
  ResultClass, ProvenanceReference, SourceObject, DerivedObject, SourceEvidenceResult,
  DerivedKnowledgeResult, ContextExcerpt, EvidencePackage,
}
use rfi.Intelligence.Contracts.{
  CompletionStatus, ClaimKind, StopReason, InformationNeed, IntelligenceBudget, RetrievalStep,
  IntelligenceClaim, EvidenceReference, ModelEvidence,
}
use rfi.Intelligence.Checks.{has_class}

-- an element of `content_items`
pub data ContentItem : Type 0 where
  source_item : (evidence_id : String) → SourceObject → ContentItem
  knowledge_item : (evidence_id : String) → DerivedObject → ContentItem
  package_item :
      (package_id : String) (coverage_gaps contradictions omissions : List String)
      → List ContextExcerpt
      → ContentItem

-- `searchable` before it is lowered, `str.lower`, `rendered` of `_project`, and the identities that
-- are made of the SHA-256 of canonical JSON.
pub record Rendering : Type 0 where
  pub searchable : List SourceObject → List DerivedObject → List String → String
  pub lower : String → String
  pub rendered : List ContentItem → String
  pub execution_identity : InformationNeed → IntelligenceBudget → String
  pub result_identity :
      String → CompletionStatus → String → List IntelligenceClaim → StopReason → String
  pub failure_identity : String → String → String

abbrev pub source_object_of : SourceEvidenceResult → SourceObject
source_object_of result = result.source_object

abbrev pub derived_object_of : DerivedKnowledgeResult → DerivedObject
derived_object_of result = result.derived_object

abbrev pub text_of : ContextExcerpt → String
text_of item = item.text

abbrev pub document_id_of : ProvenanceReference → String
document_id_of item = item.document_id

abbrev pub source_object_id_of : ProvenanceReference → String
source_object_id_of item = item.source_object_id

-- a text where a required class has no results
abbrev pub missing_class : Bool → Bool → String → List String
missing_class required none_found name = if required && none_found then name ∷ [] else []

module _ (env : Rendering) where
  -- the required terms that are not found
  unfoldable pub missing_terms : String → List String → List String
  unfolding contains
  missing_terms searchable [] = []
  missing_terms searchable (term ∷ terms) =
      let rest = missing_terms searchable terms in
      if contains (env.lower term) searchable then rest else term ∷ rest

  -- `_missing`
  unfoldable pub missing_of : RetrievalStep → EvidencePackage → List String
  unfolding missing_terms unique
  missing_of step package_ =
      let searchable = env.lower (
        env.searchable (map source_object_of package_.source_evidence)
          (map derived_object_of package_.derived_knowledge) (map text_of package_.contexts)) in
      unique (
        missing_class (has_class ResultClass.source_evidence step.required_result_classes)
          (is_empty package_.source_evidence) "source-evidence"
        ++ missing_class (has_class ResultClass.derived_knowledge step.required_result_classes)
            (is_empty package_.derived_knowledge) "derived-knowledge"
        ++ missing_terms searchable step.required_terms
        ++ package_.coverage_gaps
        ++ package_.omissions)

abbrev pub source_evidence_id : String → SourceObject → String
source_evidence_id package_id item = join package_id (join ":source:" item.source_object_id)

abbrev pub knowledge_evidence_id : String → DerivedObject → String
knowledge_evidence_id package_id item = join package_id (join ":knowledge:" item.object_id)

abbrev pub source_reference : String → SourceEvidenceResult → EvidenceReference
source_reference package_id result = record {
  evidence_id = source_evidence_id package_id result.source_object;
  package_id = package_id;
  authority = ClaimKind.source_evidence;
  object_id = result.source_object.source_object_id;
  document_ids = result.source_object.document_id ∷ [];
  source_object_ids = result.source_object.source_object_id ∷ [];
}

abbrev pub knowledge_reference : String → DerivedKnowledgeResult → EvidenceReference
knowledge_reference package_id result = record {
  evidence_id = knowledge_evidence_id package_id result.derived_object;
  package_id = package_id;
  authority = ClaimKind.derived_knowledge;
  object_id = result.derived_object.object_id;
  document_ids = sorted_set (map document_id_of result.derived_object.provenance);
  source_object_ids = map source_object_id_of result.derived_object.provenance;
}

abbrev pub source_content : String → SourceEvidenceResult → ContentItem
source_content package_id result =
    ContentItem.source_item (source_evidence_id package_id result.source_object)
      result.source_object

abbrev pub knowledge_content : String → DerivedKnowledgeResult → ContentItem
knowledge_content package_id result =
    ContentItem.knowledge_item (knowledge_evidence_id package_id result.derived_object)
      result.derived_object

-- `references` of one package
abbrev pub references_of : EvidencePackage → List EvidenceReference
references_of package_ =
    map (source_reference package_.package_id) package_.source_evidence
    ++ map (knowledge_reference package_.package_id) package_.derived_knowledge

-- `references`
unfoldable pub all_references : List EvidencePackage → List EvidenceReference
all_references [] = []
all_references (package_ ∷ packages) = references_of package_ ++ all_references packages

-- `content_items`
unfoldable pub content_items : List EvidencePackage → List ContentItem
content_items [] = []
content_items (package_ ∷ packages) =
    map (source_content package_.package_id) package_.source_evidence
    ++ map (knowledge_content package_.package_id) package_.derived_knowledge
    ++ ContentItem.package_item package_.package_id package_.coverage_gaps package_.contradictions
        package_.omissions package_.contexts
      ∷ content_items packages

abbrev pub package_id_of : EvidencePackage → String
package_id_of package_ = package_.package_id

-- `_project`
unfoldable pub project : Rendering → List EvidencePackage → ℕ → ModelEvidence
unfolding all_references content_items text_length text_take
project env packages max_chars =
    let whole = env.rendered (content_items packages) in
    let truncated = ltb max_chars (text_length whole) in
    let rendered = if truncated then text_take max_chars whole else whole in
    record {
      evidence = all_references packages;
      package_ids = map package_id_of packages;
      content = rendered;
      chars = text_length rendered;
      truncated = truncated;
    }
