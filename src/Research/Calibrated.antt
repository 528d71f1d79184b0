-- ===== src/Research/Calibrated.antt =====
-- The claims and the status of what `adjudicate` of research/adjudication.py returns.
use rfi.Common.{◌≤◌, String, ◌≡◌, refl, ap, ◌∙◌, true, List, [], ◌∷◌, ◌++◌, arith}
use mathlib.Core.Path.{subst}
use rfi.Common.Lists.{length, length-append, All, All-map}
use rfi.Common.Sorting.{unique}
use rfi.Common.Errors.{ok, bind_ok, ok_injective}
use rfi.Research.Contracts.{
  InvestigationStatus, EvidenceExcerpt, InvestigationClaim, InvestigationRecord,
  InvestigationResult, TraceEntry, CorpusWindow,
}
use rfi.Research.Adjudicate.{Scopes, evidence_by_id, Review, nothing_reviewed}
use rfi.Research.Closed.{
  is_supported, calibrate, excerpts_of, all_cited, reviewed, completeness, findings_of,
  later_findings, result_of, adjudicate,
}
use rfi.Research.Backed.{IsBackedBy, IsKnown}
use rfi.Research.Adjudicated.{
  IsGood, review-IsGood, review_all, All-unique_from, All-all_cited, excerpts_of-total,
}

supported_of :
    (status : InvestigationStatus)
    → is_supported status ≡ true
    → status ≡ InvestigationStatus.supported
supported_of InvestigationStatus.supported h = refl
supported_of InvestigationStatus.partial h = cc
supported_of InvestigationStatus.insufficient h = cc
supported_of InvestigationStatus.failed h = cc

-- what a supported status rests on
calibrate_lem :
    (proposed : InvestigationStatus) (accepted : List InvestigationClaim) (findings : List String)
    → (calibrate proposed accepted findings).status ≡ InvestigationStatus.supported
    → (1 ≤ length accepted) × (findings ≡ []) × (proposed ≡ InvestigationStatus.supported)
unfolding calibrate
calibrate_lem proposed [] findings h = cc
calibrate_lem InvestigationStatus.supported (c ∷ cs) [] h = (omega arith, refl, refl)
calibrate_lem InvestigationStatus.supported (c ∷ cs) (f ∷ fs) h = cc
calibrate_lem InvestigationStatus.partial (c ∷ cs) [] h = cc
calibrate_lem InvestigationStatus.partial (c ∷ cs) (f ∷ fs) h = cc
calibrate_lem InvestigationStatus.insufficient (c ∷ cs) findings h = cc
calibrate_lem InvestigationStatus.failed (c ∷ cs) [] h = cc
calibrate_lem InvestigationStatus.failed (c ∷ cs) (f ∷ fs) h = cc

module _ (scopes : Scopes) (question : String) (closed : InvestigationRecord)
    (corpus : CorpusWindow) (trace : List TraceEntry) where
  reviewed-IsGood :
      All
        (IsGood closed.admissible_evidence)
        (reviewed scopes question closed corpus trace).accepted
  unfolding reviewed
  reviewed-IsGood =
      review-IsGood closed.admissible_evidence (scopes.temporal_question question) 0
        closed.candidate_claims nothing_reviewed tt

  -- `adjudicate` returns a result, and each of its claims cites something, all that it cites is
  -- admissible evidence of the closed record, and each period that it names is the date of an
  -- excerpt that it cites.
  pub adjudicate-IsBackedBy :
      (r : InvestigationResult) × (adjudicate scopes question closed corpus trace ≡ ok r)
      × All (IsBackedBy closed.admissible_evidence) r.claims
  unfolding adjudicate result_of unique
  adjudicate-IsBackedBy =
      let kept = reviewed scopes question closed corpus trace in
      let cited =
        All-unique_from (IsKnown (evidence_by_id closed.admissible_evidence)) []
          (all_cited kept.accepted)
          (All-all_cited _ kept.accepted
            (All-map _ _ kept.accepted (λ c h. h.1) reviewed-IsGood)) in
      let (items, found) =
        excerpts_of-total (evidence_by_id closed.admissible_evidence)
          (unique (all_cited kept.accepted)) cited in
      (
        result_of scopes question closed corpus trace kept items,
        rw (found, adjudicate) refl,
        All-map _ _ kept.accepted (λ c h. h.0) reviewed-IsGood,
      )

  later_findings_none :
      (status : InvestigationStatus) (r : Review)
      → status ≡ InvestigationStatus.supported
      → closed.proposed_status ≡ InvestigationStatus.supported
      → later_findings scopes question closed corpus trace status r ≡ []
  unfolding later_findings
  later_findings_none status r h k = rw (h, k) refl

  -- what a result has whose status is supported
  abbrev pub IsFull : InvestigationResult → Type 0
  IsFull r =
      (r.claims ≡ closed.candidate_claims)
      × (1 ≤ length r.claims)
      × (closed.proposed_status ≡ InvestigationStatus.supported)
      × (r.assessment.findings ≡ [])

  result_of-IsFull :
      (items : List EvidenceExcerpt)
      → (result_of scopes question closed corpus trace
          (reviewed scopes question closed corpus trace)
          items).status
        ≡ InvestigationStatus.supported
      → IsFull (
          result_of scopes question closed corpus trace
            (reviewed scopes question closed corpus trace)
            items)
  unfolding result_of findings_of reviewed unique
  result_of-IsFull items h =
      let kept = reviewed scopes question closed corpus trace in
      let (some_kept, clean, proposed) =
        calibrate_lem closed.proposed_status kept.accepted
          (findings_of scopes question closed corpus trace kept) h in
      let none_found = ap length clean in
      let status =
        (calibrate closed.proposed_status kept.accepted
          (findings_of scopes question closed corpus trace kept)).status in
      let none_later = later_findings_none _ kept h proposed in
      let split =
        length-append kept.findings (completeness scopes question closed corpus trace kept).1 in
      (
        review_all (evidence_by_id closed.admissible_evidence) (scopes.temporal_question question) 0
            closed.candidate_claims nothing_reviewed (omega (arith, none_found, split)),
        some_kept,
        proposed,
        ap unique (
            ap (λ xs. xs ++ later_findings scopes question closed corpus trace status kept) clean
            ∙ none_later),
      )

  -- Where the result's status is supported, its claims are all the candidate claims and there is
  -- one, the investigation proposed this status, and the assessment has no findings.
  pub adjudicate-IsFull :
      (r : InvestigationResult)
      → adjudicate scopes question closed corpus trace ≡ ok r
      → r.status ≡ InvestigationStatus.supported
      → IsFull r
  unfolding adjudicate
  adjudicate-IsFull r e h =
      let (items, found, whole) =
        bind_ok
          (excerpts_of (evidence_by_id closed.admissible_evidence)
            (unique (all_cited (reviewed scopes question closed corpus trace).accepted)))
          _ r e in
      let same = ok_injective whole in
      subst IsFull same
        (result_of-IsFull items (ap (λ (x : InvestigationResult). x.status) same ∙ h))
