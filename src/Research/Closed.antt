-- ===== src/Research/Closed.antt =====
-- `adjudicate` of research/adjudication.py: the status, the lead and the result.
use rfi.Common.{
  String, Bool, true, false, Option, none, some, List, [], ◌∷◌, ◌++◌, ◌==◌, ◌&&◌, ◌||◌, not, eqb,
  if◌then◌else◌, map,
}
use Prim.Native.Char.{code}
use rfi.Common.Lists.{is_empty}
use rfi.Common.Sorting.{unique}
use rfi.Common.Assoc.{Dict, lookup}
use rfi.Common.Errors.{Attempt, ok, raise, ◌>>=◌}
use rfi.Common.Text.{join}
use rfi.Research.Contracts.{
  InvestigationStatus, EvidenceExcerpt, InvestigationClaim, InvestigationRecord, RecoveryRequest,
  TraceEntry, InvestigationResult, CorpusWindow,
}
use rfi.Research.Adjudicate.{
  Scopes, evidence_by_id, Review, nothing_reviewed, join_list, review, periods_of,
  assess_temporal_completeness, dates_in, reason_if,
}

abbrev pub is_supported : InvestigationStatus → Bool
is_supported InvestigationStatus.supported = true
is_supported _ = false

abbrev is_partial : InvestigationStatus → Bool
is_partial InvestigationStatus.partial = true
is_partial _ = false

abbrev pub is_insufficient : InvestigationStatus → Bool
is_insufficient InvestigationStatus.insufficient = true
is_insufficient _ = false

-- `status.value`
abbrev status_text : InvestigationStatus → String
status_text InvestigationStatus.supported = "supported"
status_text InvestigationStatus.partial = "partial"
status_text InvestigationStatus.insufficient = "insufficient"
status_text InvestigationStatus.failed = "failed"

-- `status`, `support` and `completeness`
pub record Calibration : Type 0 where
  pub status : InvestigationStatus
  pub support : String
  pub completeness : String

abbrev pub partly : Calibration
partly = record {
  status = InvestigationStatus.partial;
  support = "bounded";
  completeness = "partial";
}

-- the two tests of the status
unfoldable pub calibrate : InvestigationStatus → List InvestigationClaim → List String → Calibration
calibrate proposed accepted findings =
    if is_empty accepted
    then record {
      status = InvestigationStatus.insufficient;
      support = "none";
      completeness = "insufficient";
    }
    else if is_insufficient proposed
    then partly
    else if not (is_empty findings) || not (is_supported proposed)
    then partly
    else record {
      status = InvestigationStatus.supported;
      support = "strong";
      completeness = "complete";
    }

-- `rstrip(".")`
unfoldable pub rstrip_dots : String → String
rstrip_dots String.[] = String.[]
rstrip_dots (String.◌∷◌ c s) =
    let rest = rstrip_dots s in
    if eqb (code c) 46 && (rest == "") then String.[] else String.◌∷◌ c rest

-- the first of the texts, or another
abbrev first_or : String → List String → String
first_or other [] = other
first_or other (x ∷ xs) = x

abbrev last_of : String → List String → String
last_of other [] = other
last_of other (x ∷ xs) = last_of x xs

-- `supported_range`
unfoldable pub supported_range : List String → String
unfolding join
supported_range [] = "no retained period"
supported_range (p ∷ ps) = elim ps [ [] ↦ p | q ∷ qs ↦ join p (join " through " (last_of q qs)) ]

unfoldable pub boundary_of : CorpusWindow → String
unfolding join
boundary_of corpus = elim (dates_in corpus.date_from) [
  | [] ↦ "the requested scope is broader"
  | from_ ∷ _ ↦ elim (dates_in corpus.date_through) [
    | [] ↦ "the requested scope is broader"
    | through ∷ _ ↦ join "the retained corpus spans " (join from_ (join " through " through))
  ]
]

-- `_lead`
unfoldable pub lead_of :
    InvestigationStatus → List String → CorpusWindow → List String → List String → String
unfolding supported_range boundary_of rstrip_dots join
lead_of status periods corpus gaps findings =
    if is_supported status
    then join "The closed investigation record supports the stated findings for "
        (join (supported_range periods) "; every accepted period is mapped to expanded evidence.")
    else if is_partial status
    then join "The closed investigation record supports only a partial answer for " (
        join (supported_range periods) (
          join "; " (
            join (boundary_of corpus) (
              join ", and "
                (join (first_or "material coverage remains incomplete" findings) ".")))))
    else join "The closed investigation record is insufficient to answer the question responsibly: "
        (join
          (rstrip_dots
            (first_or (first_or "no candidate claim survived evidence validation" findings) gaps))
          ".")

-- the documents of the periods
unfoldable pub documents_of : Dict (List String) → List String → List String
unfolding lookup
documents_of by_period [] = []
documents_of by_period (period ∷ periods) = elim (lookup period by_period) [
  | none ↦ documents_of by_period periods
  | some documents ↦ documents ++ documents_of by_period periods
]

-- the recovery request, where there is one
unfoldable pub recovery_of :
    InvestigationStatus
    → CorpusWindow
    → List String
    → List String
    → List String
    → Option RecoveryRequest
unfolding documents_of unique
recovery_of status corpus deficiencies periods covered =
    if is_partial status && not (is_empty deficiencies) && not (is_empty periods)
    then some (record {
      deficiencies = unique deficiencies;
      required_periods = unique periods;
      required_document_ids = unique (documents_of corpus.document_ids_by_period periods);
      covered_periods = covered;
    })
    else none

abbrev pub all_cited : List InvestigationClaim → List String
all_cited [] = []
all_cited (claim ∷ claims) = claim.evidence_ids ++ all_cited claims

-- `evidence[item] for item in cited`
unfoldable pub excerpts_of : Dict EvidenceExcerpt → List String → Attempt (List EvidenceExcerpt)
unfolding lookup
excerpts_of evidence [] = ok []
excerpts_of evidence (id ∷ ids) = elim (lookup id evidence) [
  | none ↦ raise id
  | some item ↦ do rest ← excerpts_of evidence ids; ok (item ∷ rest)
]

abbrev claim_text : InvestigationClaim → String
claim_text claim = claim.text

module _ (scopes : Scopes) (question : String) (closed : InvestigationRecord)
    (corpus : CorpusWindow) (trace : List TraceEntry) where
  -- the review of the claims
  unfoldable pub reviewed : Review
  unfolding review evidence_by_id
  reviewed =
      review (evidence_by_id closed.admissible_evidence) (scopes.temporal_question question) 0
        closed.candidate_claims nothing_reviewed

  -- the missing periods and the findings, where a claim was accepted
  unfoldable pub completeness : Review → List String × List String
  unfolding assess_temporal_completeness periods_of
  completeness r =
      if is_empty r.accepted
      then ([], [])
      else assess_temporal_completeness scopes question corpus trace (periods_of r.accepted)

  -- the findings that the status rests on
  unfoldable pub findings_of : Review → List String
  unfolding completeness
  findings_of r = r.findings ++ (completeness r).1

  -- what the status adds to the findings
  unfoldable pub later_findings : InvestigationStatus → Review → List String
  later_findings status r =
      reason_if (is_insufficient closed.proposed_status && not (is_empty r.accepted))
        "the investigation proposed insufficiency despite supported candidate claims"
      ++ reason_if (is_insufficient status && is_empty closed.gaps)
          "the closed record does not explain its evidence gap"

  unfoldable pub result_of : Review → List EvidenceExcerpt → InvestigationResult
  unfolding completeness findings_of later_findings calibrate periods_of lead_of recovery_of unique
      join
  result_of r cited =
      let calibration = calibrate closed.proposed_status r.accepted (findings_of r) in
      let findings = findings_of r ++ later_findings calibration.status r in
      let missing = (completeness r).0 in
      let covered = periods_of r.accepted in
      let lead = lead_of calibration.status covered corpus closed.gaps findings in
      record {
        question = question;
        status = calibration.status;
        answer =
            if is_empty r.accepted
            then lead
            else join lead
                (join "\n\nSupported findings: " (join_list " " (map claim_text r.accepted)));
        claims = r.accepted;
        evidence = cited;
        gaps = unique (closed.gaps ++ unique findings);
        failed_searches = closed.failed_searches;
        stopping_reason = join "Closed-record consistency pass calibrated the result as " (
            join (status_text calibration.status)
              (join "; investigation stopping reason: " closed.stopping_reason));
        assessment = record {
          support_calibration = calibration.support;
          completeness_calibration = calibration.completeness;
          lead_paragraph = lead;
          claim_assessments = r.assessments;
          findings = unique findings;
          claimed_periods = periods_of closed.candidate_claims;
          covered_periods = covered;
          recovery_request =
              recovery_of calibration.status corpus
                (r.repair_deficiencies
                  ++ reason_if (not (is_empty missing))
                      "repair missing retained temporal boundary evidence")
                (r.repair_periods ++ missing) covered;
        };
      }

  -- `adjudicate`
  unfoldable pub adjudicate : Attempt InvestigationResult
  unfolding reviewed excerpts_of result_of unique evidence_by_id
  adjudicate = do
    cited ←
        excerpts_of (evidence_by_id closed.admissible_evidence)
          (unique (all_cited reviewed.accepted))
    ok (result_of reviewed cited)
