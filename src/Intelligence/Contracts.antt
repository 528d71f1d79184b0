-- ===== src/Intelligence/Contracts.antt =====
-- The contracts of intelligence/contracts.py. A confidence is the place of its value among the
-- doubles in order.
use rfi.Common.{ℕ, String, Bool, Option, List}
use rfi.Retrieval.Contracts.{ResultClass, RetrievalQuery, EvidencePackage}

pub data CompletionStatus : Type 0 where
  complete incomplete refused failed : CompletionStatus

pub data ClaimKind : Type 0 where
  source_evidence derived_knowledge model_inference : ClaimKind

pub data StopReason : Type 0 where
  requirements_satisfied evidence_insufficient iteration_limit evidence_budget refused failure :
      StopReason

pub record InformationNeed : Type 0 where
  pub text : String
  pub request_id : String

pub record IntelligenceBudget : Type 0 where
  pub max_iterations : ℕ
  pub max_packages : ℕ
  pub max_total_evidence_bytes : ℕ
  pub max_model_input_chars : ℕ

pub record RetrievalStep : Type 0 where
  pub step_id : String
  pub purpose : String
  pub query : RetrievalQuery
  pub required_result_classes : List ResultClass
  pub required_terms : List String

pub record RetrievalPlan : Type 0 where
  pub plan_id : String
  pub interpretation : String
  pub steps : List RetrievalStep
  pub budget : IntelligenceBudget
  pub refusal_reason : Option String

pub record EvidenceReference : Type 0 where
  pub evidence_id : String
  pub package_id : String
  pub authority : ClaimKind
  pub object_id : String
  pub document_ids : List String
  pub source_object_ids : List String

pub record IntelligenceClaim : Type 0 where
  pub claim_id : String
  pub text : String
  pub kind : ClaimKind
  pub evidence_ids : List String
  pub support_explanation : String
  pub confidence : ℕ
  pub uncertainty : Option String

pub record ContradictionReport : Type 0 where
  pub description : String
  pub package_ids : List String
  pub evidence_ids : List String

pub record ReasoningDraft : Type 0 where
  pub response : String
  pub claims : List IntelligenceClaim
  pub uncertainties : List String
  pub evidence_gaps : List String
  pub contradictions : List ContradictionReport
  pub requested_status : CompletionStatus

pub record ModelEvidence : Type 0 where
  pub evidence : List EvidenceReference
  pub package_ids : List String
  pub content : String
  pub chars : ℕ
  pub truncated : Bool

pub record ExecutionEvent : Type 0 where
  pub sequence : ℕ
  pub category : String
  pub detail : String
  pub step_id : Option String
  pub package_id : Option String

pub record ExecutionTrace : Type 0 where
  pub execution_id : String
  pub need : InformationNeed
  pub plan : Option RetrievalPlan
  pub events : List ExecutionEvent
  pub retrieval_queries : List RetrievalQuery
  pub package_ids : List String
  pub evidence_packages : List EvidencePackage
  pub model_input : Option ModelEvidence
  pub raw_model_output : Option ReasoningDraft
  pub iterations : ℕ
  pub stop_reason : StopReason
  pub failures : List String

pub record IntelligenceResult : Type 0 where
  pub result_id : String
  pub execution_id : String
  pub status : CompletionStatus
  pub response : String
  pub claims : List IntelligenceClaim
  pub evidence : List EvidenceReference
  pub uncertainties : List String
  pub evidence_gaps : List String
  pub contradictions : List ContradictionReport
  pub retrieval_trace_ids : List String
  pub evidence_package_ids : List String
  pub stopping_reason : StopReason

pub record ExecutionRecord : Type 0 where
  pub result : IntelligenceResult
  pub trace : ExecutionTrace
