-- ===== src/Intelligence/Draft.antt =====
-- `_validate_draft` of intelligence/orchestration.py: `ok` where it returns, and the message of the
-- error.
use rfi.Common.Lists.{is_empty}
use rfi.Common.Text.{is_blank, strip}
use rfi.Common.{
  ℕ, String, Bool, true, false, none, some, List, [], ◌∷◌, ◌==◌, ◌&&◌, ◌||◌, not, leb, is_some,
}
use rfi.Common.Lists.{mem}
use rfi.Common.Errors.{Attempt, ok, raise, ◌>>=◌, require, ◌>>◌}
use rfi.Common.Assoc.{Dict, lookup, index_from}
use rfi.Common.Text.{strip, join}
use rfi.Intelligence.Contracts.{ClaimKind, EvidenceReference, IntelligenceClaim, ReasoningDraft}

-- the places of 0.0 and 1.0 among the doubles
abbrev pub zero_place : ℕ
zero_place = 9218868437227405312

abbrev pub one_place : ℕ
one_place = 13826050856027422720

abbrev pub same_kind : ClaimKind → ClaimKind → Bool
same_kind ClaimKind.source_evidence ClaimKind.source_evidence = true
same_kind ClaimKind.derived_knowledge ClaimKind.derived_knowledge = true
same_kind ClaimKind.model_inference ClaimKind.model_inference = true
same_kind _ _ = false

abbrev pub evidence_id_of : EvidenceReference → String
evidence_id_of item = item.evidence_id

-- `available`: of two references with one identifier the later counts
unfoldable pub available_of : List EvidenceReference → Dict EvidenceReference
unfolding index_from
available_of items = index_from evidence_id_of [] items

-- `resolved`
unfoldable pub resolve :
    Dict EvidenceReference → String → List String → Attempt (List EvidenceReference)
unfolding lookup join
resolve available claim_id [] = ok []
resolve available claim_id (evidence_id ∷ ids) = elim (lookup evidence_id available) [
  | none ↦ raise (join "claim references unconsumed evidence: " claim_id)
  | some item ↦ do rest ← resolve available claim_id ids; ok (item ∷ rest)
]

-- every item has the authority
abbrev pub all_have : ClaimKind → List EvidenceReference → Bool
all_have kind [] = true
all_have kind (item ∷ items) = same_kind item.authority kind && all_have kind items

unfoldable pub check_claim :
    Dict EvidenceReference → List String → IntelligenceClaim → Attempt (Unit {0})
unfolding resolve strip join
check_claim available identifiers claim = do
  require (not ((claim.claim_id == "") || mem claim.claim_id identifiers))
      "missing or duplicate claim identifier"
  require (not (is_empty claim.evidence_ids))
      (join "claim has no evidence mapping: " claim.claim_id)
  require (not (is_blank claim.support_explanation))
      (join "claim lacks support explanation: " claim.claim_id)
  require (leb zero_place claim.confidence && leb claim.confidence one_place)
      (join "claim confidence is invalid: " claim.claim_id)
  resolved ← resolve available claim.claim_id claim.evidence_ids
  require
      (not (
        same_kind claim.kind ClaimKind.source_evidence
        && not (all_have ClaimKind.source_evidence resolved)))
      "source claim cites non-source authority"
  require
      (not (
        same_kind claim.kind ClaimKind.derived_knowledge
        && not (all_have ClaimKind.derived_knowledge resolved)))
      "derived claim cites non-derived authority"
  require (not (same_kind claim.kind ClaimKind.model_inference && not (is_some claim.uncertainty)))
      "model inference lacks explicit uncertainty"

-- the loop over the claims, with the identifiers seen
unfoldable pub check_claims :
    Dict EvidenceReference → List String → List IntelligenceClaim → Attempt (Unit {0})
unfolding check_claim
check_claims available identifiers [] = ok tt
check_claims available identifiers (claim ∷ claims) =
    check_claim available identifiers claim
    >> check_claims available (claim.claim_id ∷ identifiers) claims

-- `_validate_draft`
unfoldable pub validate_draft : ReasoningDraft → List EvidenceReference → Attempt (Unit {0})
unfolding available_of check_claims strip
validate_draft draft evidence = do
  require (not (is_blank draft.response)) "model returned an empty response"
  check_claims (available_of evidence) [] draft.claims
