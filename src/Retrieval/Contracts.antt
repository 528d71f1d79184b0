-- ===== src/Retrieval/Contracts.antt =====
-- The contracts of retrieval/contracts.py, knowledge/contracts.py and source_objects/contracts.py
-- that an evidence package is made of. A float is the place of its value among the doubles in
-- order, so that floats are compared as their places are.
use rfi.Common.{ℕ, String, Bool, Option, List}
use rfi.Common.Assoc.{Dict}
use rfi.Workspace.State.{Json}

pub data ResultClass : Type 0 where
  source_evidence derived_knowledge : ResultClass

pub data KnowledgeStatus : Type 0 where
  confirmed uncertain conflicted superseded stale : KnowledgeStatus

pub record ProvenanceReference : Type 0 where
  pub source_object_id : String
  pub document_id : String
  pub artifact_id : String
  pub byte_start : ℕ
  pub byte_end : ℕ
  pub content_sha256 : String

pub record SourceObject : Type 0 where
  pub source_object_id : String
  pub document_id : String
  pub artifact_id : String
  pub kind : String
  pub role : String
  pub ordinal : ℕ
  pub byte_start : ℕ
  pub byte_end : ℕ
  pub content_sha256 : String
  pub parent_id : Option String
  pub attributes : Dict String

pub record DerivedObject : Type 0 where
  pub object_id : String
  pub version_id : String
  pub object_type : String
  pub semantic_key : String
  pub payload : Json
  pub status : KnowledgeStatus
  pub confidence : ℕ
  pub provenance : List ProvenanceReference
  pub derivation_id : String
  pub supersedes_version_id : Option String
  pub annotations : Dict String

pub record MetadataConstraints : Type 0 where
  pub document_ids : List String
  pub artifact_ids : List String
  pub entity_ids : List String
  pub document_types : List String
  pub source_kinds : List String
  pub source_roles : List String
  pub knowledge_types : List String
  pub knowledge_statuses : List KnowledgeStatus
  pub period_from : Option String
  pub period_to : Option String
  pub unsupported : List String

pub record RetrievalQuery : Type 0 where
  pub text : String
  pub result_classes : List ResultClass
  pub constraints : MetadataConstraints
  pub max_results : ℕ
  pub candidate_limit : ℕ
  pub context_radius : ℕ
  pub evidence_budget_bytes : ℕ
  pub minimum_score : ℕ

pub record Score : Type 0 where
  pub vector : ℕ
  pub lexical : ℕ
  pub final : ℕ

pub record SourceEvidenceResult : Type 0 where
  pub result_class : ResultClass
  pub source_object : SourceObject
  pub score : Score
  pub rationale : List String
  pub metadata : Dict (List String)

pub record DerivedKnowledgeResult : Type 0 where
  pub result_class : ResultClass
  pub derived_object : DerivedObject
  pub score : Score
  pub rationale : List String
  pub metadata : Dict (List String)

pub record CandidateDecision : Type 0 where
  pub identity : String
  pub result_class : ResultClass
  pub included : Bool
  pub reason : String
  pub score : Option Score

pub record RetrievalTrace : Type 0 where
  pub trace_id : String
  pub index_generation_id : String
  pub authority_fingerprint : String
  pub query : RetrievalQuery
  pub decisions : List CandidateDecision
  pub failures : List String
  pub coverage_notes : List String
  pub truncated : Bool

pub record RetrievalResponse : Type 0 where
  pub source_results : List SourceEvidenceResult
  pub knowledge_results : List DerivedKnowledgeResult
  pub trace : RetrievalTrace

pub record ContextExcerpt : Type 0 where
  pub provenance : ProvenanceReference
  pub context_byte_start : ℕ
  pub context_byte_end : ℕ
  pub text : String
  pub context_sha256 : String

pub record EvidencePackage : Type 0 where
  pub package_id : String
  pub query : RetrievalQuery
  pub source_evidence : List SourceEvidenceResult
  pub derived_knowledge : List DerivedKnowledgeResult
  pub contexts : List ContextExcerpt
  pub trace : RetrievalTrace
  pub omissions : List String
  pub coverage_gaps : List String
  pub contradictions : List String
  pub complete : Bool
  pub byte_budget : ℕ
  pub bytes_used : ℕ
