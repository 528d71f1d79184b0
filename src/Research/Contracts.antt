-- ===== src/Research/Contracts.antt =====
-- The contracts of research/contracts.py that a closed investigation is made of.
use rfi.Common.{ℕ, String, Option, List}
use rfi.Common.Assoc.{Dict}

pub data InvestigationStatus : Type 0 where
  supported partial insufficient failed : InvestigationStatus

pub record EvidenceExcerpt : Type 0 where
  pub evidence_id : String
  pub document_id : String
  pub artifact_id : String
  pub title : String
  pub event_date : String
  pub canonical_artifact_id : String
  pub event_kind : Option String
  pub speaker_label : Option String
  pub context_byte_start : ℕ
  pub context_byte_end : ℕ
  pub context_sha256 : String
  pub text : String
  pub provenance_locations : List String

pub record InvestigationClaim : Type 0 where
  pub text : String
  pub evidence_ids : List String
  pub periods : List String
  pub interpretation : String
  pub limitations : String

pub record InvestigationRecord : Type 0 where
  pub proposed_status : InvestigationStatus
  pub proposed_answer : String
  pub candidate_claims : List InvestigationClaim
  pub admissible_evidence : List EvidenceExcerpt
  pub gaps : List String
  pub failed_searches : List String
  pub stopping_reason : String

pub record ClaimAssessment : Type 0 where
  pub claim_index : ℕ
  pub disposition : String
  pub reasons : List String

pub record RecoveryRequest : Type 0 where
  pub deficiencies : List String
  pub required_periods : List String
  pub required_document_ids : List String
  pub covered_periods : List String

pub record ConsistencyAssessment : Type 0 where
  pub support_calibration : String
  pub completeness_calibration : String
  pub lead_paragraph : String
  pub claim_assessments : List ClaimAssessment
  pub findings : List String
  pub claimed_periods : List String
  pub covered_periods : List String
  pub recovery_request : Option RecoveryRequest

-- An action of the trace: `tool_name` is `detail.get("name")`, `order` is the text of the arguments'
-- order.
pub record TraceEntry : Type 0 where
  pub sequence : ℕ
  pub action : String
  pub tool_name : Option String
  pub order : String

pub record InvestigationResult : Type 0 where
  pub question : String
  pub status : InvestigationStatus
  pub answer : String
  pub claims : List InvestigationClaim
  pub evidence : List EvidenceExcerpt
  pub gaps : List String
  pub failed_searches : List String
  pub stopping_reason : String
  pub assessment : ConsistencyAssessment

-- `CorpusWindow` of adjudication.py
pub record CorpusWindow : Type 0 where
  pub date_from : Option String
  pub date_through : Option String
  pub document_ids_by_period : Dict (List String)
