-- ===== src/Research/Tests.antt =====
-- Runs of the model of research/adjudication.py, and the theorems at concrete investigations.
use rfi.Common.{String, ◌≡◌, refl, true, false, none, List, [], ◌∷◌}
use rfi.Common.Lists.{length, All}
use rfi.Common.Sorting.{sorted_set, unique}
use rfi.Common.Assoc.{lookup, assign, index_from}
use rfi.Common.Errors.{ok}
use rfi.Common.Text.{join, decimal}
use rfi.Research.Contracts.{
  InvestigationStatus, EvidenceExcerpt, InvestigationClaim, InvestigationRecord,
  InvestigationResult, CorpusWindow,
}
use rfi.Research.Adjudicate.{Scopes, review, evidence_by_id}
use rfi.Research.Closed.{adjudicate, reviewed, result_of, calibrate}
use rfi.Research.Backed.{IsBackedBy}
use rfi.Research.Calibrated.{IsFull, adjudicate-IsBackedBy, adjudicate-IsFull}

abbrev scopes : Scopes
scopes = record {
  temporal_question = λ q. true;
  full_retained_scope = λ q. false;
  chronology_scope = λ q. false;
}

abbrev excerpt : EvidenceExcerpt
excerpt = record {
  evidence_id = "segment-1";
  document_id = "document-1";
  artifact_id = "artifact-1";
  title = "first quarter";
  event_date = "2024-01-15";
  canonical_artifact_id = "earnings_transcript";
  event_kind = none;
  speaker_label = none;
  context_byte_start = 0;
  context_byte_end = 4;
  context_sha256 = "0";
  text = "text";
  provenance_locations = [];
}

abbrev claim : String → InvestigationClaim
claim id = record {
  text = "demand rose";
  evidence_ids = id ∷ [];
  periods = "2024-01-15" ∷ [];
  interpretation = "management said so";
  limitations = "one quarter";
}

abbrev closed : List InvestigationClaim → InvestigationRecord
closed claims = record {
  proposed_status = InvestigationStatus.supported;
  proposed_answer = "demand rose";
  candidate_claims = claims;
  admissible_evidence = excerpt ∷ [];
  gaps = [];
  failed_searches = [];
  stopping_reason = "enough";
}

abbrev corpus : CorpusWindow
corpus = record { date_from = none; date_through = none; document_ids_by_period = [] }

supported :
    (r : InvestigationResult) × (adjudicate scopes "how did demand change"
        (closed (claim "segment-1" ∷ []))
        corpus
        []
      ≡ ok r)
    × (r.status ≡ InvestigationStatus.supported)
unfolding adjudicate reviewed review evidence_by_id result_of calibrate lookup assign index_from
    join decimal sorted_set unique
supported = (_, refl, refl)

-- the second claim cites what was not expanded
partial :
    (r : InvestigationResult) × (adjudicate scopes "how did demand change"
        (closed (claim "segment-1" ∷ claim "segment-2" ∷ []))
        corpus
        []
      ≡ ok r)
    × (r.status ≡ InvestigationStatus.partial)
    × (length r.claims ≡ 1)
unfolding adjudicate reviewed review evidence_by_id result_of calibrate lookup assign index_from
    join decimal sorted_set unique
partial = (_, refl, refl, refl)

adjudicate-IsBackedBy_example :
    (r : InvestigationResult) × (adjudicate scopes "how did demand change"
        (closed (claim "segment-1" ∷ claim "segment-2" ∷ []))
        corpus
        []
      ≡ ok r)
    × All (IsBackedBy (excerpt ∷ [])) r.claims
adjudicate-IsBackedBy_example =
    adjudicate-IsBackedBy scopes "how did demand change"
      (closed (claim "segment-1" ∷ claim "segment-2" ∷ [])) corpus []

adjudicate-IsFull_example :
    IsFull scopes "how did demand change" (closed (claim "segment-1" ∷ [])) corpus [] supported.0
adjudicate-IsFull_example =
    adjudicate-IsFull scopes "how did demand change" (closed (claim "segment-1" ∷ [])) corpus []
      supported.0 supported.1 supported.2
