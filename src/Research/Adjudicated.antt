-- ===== src/Research/Adjudicated.antt =====
-- What `adjudicate` of research/adjudication.py returns.
use rfi.Common.{
  ℕ, ◌+◌, ◌≤◌, String, ◌≡◌, refl, sym, ap, ◌∙◌, Bool, true, false, List, [], ◌∷◌, ◌++◌, arith, inl,
  inr,
}
use mathlib.Core.Path.{subst}
use mathlib.Core.List.{append_assoc, append-nil}
use rfi.Common.Lists.{length, length-append, mem, All, All-append, List-cases}
use rfi.Common.Sorting.{unique_from}
use rfi.Common.Assoc.{Dict}
use rfi.Common.Errors.{ok}
use rfi.Research.Contracts.{EvidenceExcerpt, InvestigationClaim}
use rfi.Research.Adjudicate.{
  evidence_by_id, claim_reasons, Review, numbered_reasons, reject, admit, review,
}
use rfi.Research.Closed.{excerpts_of, all_cited}
use rfi.Research.Backed.{IsBackedBy, IsKnown, claim_reasons-IsBackedBy}

review-admit :
    (evidence : Dict EvidenceExcerpt) (temporal : Bool) (index : ℕ) (claim : InvestigationClaim)
    (claims : List InvestigationClaim) (r : Review)
    → claim_reasons claim evidence temporal ≡ []
    → review evidence temporal index (claim ∷ claims) r
      ≡ review evidence temporal (index + 1) claims (admit index claim r)
unfolding review
review-admit evidence temporal index claim claims r h = rw (h, review) refl

review-reject :
    (evidence : Dict EvidenceExcerpt) (temporal : Bool) (index : ℕ) (claim : InvestigationClaim)
    (claims : List InvestigationClaim) (r : Review) (reason : String) (reasons : List String)
    → claim_reasons claim evidence temporal ≡ reason ∷ reasons
    → review evidence temporal index (claim ∷ claims) r
      ≡ review evidence temporal (index + 1) claims (reject index claim (reason ∷ reasons) r)
unfolding review
review-reject evidence temporal index claim claims r reason reasons h = rw (h, review) refl

-- what the review keeps of the claims that it accepts
abbrev pub IsGood : List EvidenceExcerpt → InvestigationClaim → Type 0
IsGood items claim =
    IsBackedBy items claim × All (IsKnown (evidence_by_id items)) claim.evidence_ids

pub review-IsGood :
    (items : List EvidenceExcerpt) (temporal : Bool) (index : ℕ) (claims : List InvestigationClaim)
    (r : Review)
    → All (IsGood items) r.accepted
    → All (IsGood items) (review (evidence_by_id items) temporal index claims r).accepted
unfolding review admit reject
review-IsGood items temporal index [] r h = h
review-IsGood items temporal index (claim ∷ claims) r h =
    elim (List-cases (claim_reasons claim (evidence_by_id items) temporal)) [
      | inl clean ↦
          subst (λ (x : Review). All (IsGood items) x.accepted)
            (sym (review-admit (evidence_by_id items) temporal index claim claims r clean))
            (review-IsGood items temporal (index + 1) claims (admit index claim r) (
              All-append _ r.accepted (claim ∷ []) h
                (claim_reasons-IsBackedBy items claim temporal clean, tt)))
      | inr (reason, reasons, bad) ↦
          subst (λ (x : Review). All (IsGood items) x.accepted)
            (sym (
              review-reject (evidence_by_id items) temporal index claim claims r reason reasons
                bad))
            (review-IsGood items temporal (index + 1) claims
              (reject index claim (reason ∷ reasons) r) h)
    ]

-- findings are only added
review-findings :
    (evidence : Dict EvidenceExcerpt) (temporal : Bool) (index : ℕ)
    (claims : List InvestigationClaim) (r : Review)
    → length r.findings ≤ length (review evidence temporal index claims r).findings
unfolding review admit reject
review-findings evidence temporal index [] r = omega arith
review-findings evidence temporal index (claim ∷ claims) r =
    elim (List-cases (claim_reasons claim evidence temporal)) [
      | inl clean ↦
          subst (λ (x : Review). length r.findings ≤ length x.findings)
            (sym (review-admit evidence temporal index claim claims r clean))
            (review-findings evidence temporal (index + 1) claims (admit index claim r))
      | inr (reason, reasons, bad) ↦
          subst (λ (x : Review). length r.findings ≤ length x.findings)
            (sym (review-reject evidence temporal index claim claims r reason reasons bad))
            (omega (
              arith,
              review-findings evidence temporal (index + 1) claims
                  (reject index claim (reason ∷ reasons) r),
              length-append r.findings (numbered_reasons (index + 1) (reason ∷ reasons)),
            ))
    ]

-- a review without findings has accepted every claim
pub review_all :
    (evidence : Dict EvidenceExcerpt) (temporal : Bool) (index : ℕ)
    (claims : List InvestigationClaim) (r : Review)
    → length (review evidence temporal index claims r).findings ≡ 0
    → (review evidence temporal index claims r).accepted ≡ r.accepted ++ claims
unfolding review admit reject numbered_reasons
review_all evidence temporal index [] r h = sym (append-nil r.accepted)
review_all evidence temporal index (claim ∷ claims) r h =
    elim (List-cases (claim_reasons claim evidence temporal)) [
      | inl clean ↦
          let step = review-admit evidence temporal index claim claims r clean in
          ap (λ (x : Review). x.accepted) step
          ∙ review_all evidence temporal (index + 1) claims (admit index claim r)
              (sym (ap (λ (x : Review). length x.findings) step) ∙ h)
          ∙ append_assoc r.accepted (claim ∷ []) claims
      | inr (reason, reasons, bad) ↦
          let step = review-reject evidence temporal index claim claims r reason reasons bad in
          let next = reject index claim (reason ∷ reasons) r in
          let more = review-findings evidence temporal (index + 1) claims next in
          let none_more = sym (ap (λ (x : Review). length x.findings) step) ∙ h in
          let longer = length-append r.findings (numbered_reasons (index + 1) (reason ∷ reasons)) in
          let never : ⊥ = omega (arith, more, none_more, longer) in absurd never
    ]

pub All-unique_from :
    (P : String → Type 0) (seen xs : List String) → All P xs → All P (unique_from seen xs)
unfolding unique_from
All-unique_from P seen [] h = tt
All-unique_from P seen (x ∷ xs) h =
    elim (mem x seen)
      as (λ b. All P (elim b as (λ _. List String) [
        | true ↦ unique_from seen xs
        | false ↦ x ∷ unique_from (x ∷ seen) xs
      ])) [
        | true ↦ All-unique_from P seen xs h.1
        | false ↦ (h.0, All-unique_from P (x ∷ seen) xs h.1)
      ]

pub All-all_cited :
    (P : String → Type 0) (claims : List InvestigationClaim)
    → All (λ c. All P c.evidence_ids) claims
    → All P (all_cited claims)
All-all_cited P [] h = tt
All-all_cited P (claim ∷ claims) h =
    All-append P claim.evidence_ids (all_cited claims) h.0 (All-all_cited P claims h.1)

pub excerpts_of-total :
    (evidence : Dict EvidenceExcerpt) (ids : List String)
    → All (IsKnown evidence) ids
    → (items : List EvidenceExcerpt) × (excerpts_of evidence ids ≡ ok items)
unfolding excerpts_of
excerpts_of-total evidence [] h = ([], refl)
excerpts_of-total evidence (id ∷ ids) h =
    let (rest, e) = excerpts_of-total evidence ids h.1 in
    (h.0.0 ∷ rest, rw (h.0.1, excerpts_of) (rw e refl))
