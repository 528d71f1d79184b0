-- ===== src/Research/Adjudicate.antt =====
-- `ClosedRecordAdjudicator` of research/adjudication.py, up to the verdict on the status. What its
-- regular expressions find is in `Scopes`.
use rfi.Common.{
  ℕ, ◌+◌, String, Bool, true, false, Option, none, some, List, [], ◌∷◌, ◌++◌, ◌==◌, ◌&&◌, ◌||◌, not,
  is_some, if◌then◌else◌,
}
use rfi.Common.Lists.{mem, is_empty}
use rfi.Common.Sorting.{sorted_set}
use rfi.Common.Assoc.{Dict, lookup, index_from}
use rfi.Common.Text.{join, decimal}
use rfi.Research.Contracts.{
  EvidenceExcerpt, InvestigationClaim, ClaimAssessment, TraceEntry, CorpusWindow,
}

pub record Scopes : Type 0 where
  pub temporal_question : String → Bool
  pub full_retained_scope : String → Bool
  pub chronology_scope : String → Bool

abbrev pub excerpt_id : EvidenceExcerpt → String
excerpt_id item = item.evidence_id

-- `evidence`: of two excerpts with one identifier the later counts
unfoldable pub evidence_by_id : List EvidenceExcerpt → Dict EvidenceExcerpt
unfolding index_from
evidence_by_id items = index_from excerpt_id [] items

-- a reason where the test passes
abbrev pub reason_if : Bool → String → List String
reason_if true reason = reason ∷ []
reason_if false reason = []

-- whether an identifier is not in `evidence`
unfoldable pub cites_unknown : Dict EvidenceExcerpt → List String → Bool
unfolding lookup
cites_unknown evidence [] = false
cites_unknown evidence (id ∷ ids) = not (is_some (lookup id evidence)) || cites_unknown evidence ids

-- `known_dates`
unfoldable pub known_dates : Dict EvidenceExcerpt → List String → List String
unfolding lookup
known_dates evidence [] = []
known_dates evidence (id ∷ ids) = elim (lookup id evidence) [
  | none ↦ known_dates evidence ids
  | some item ↦ item.event_date ∷ known_dates evidence ids
]

-- `any(period not in dates for period in periods)`
abbrev pub names_unknown : List String → List String → Bool
names_unknown dates [] = false
names_unknown dates (period ∷ periods) = not (mem period dates) || names_unknown dates periods

-- `_claim_reasons`
unfoldable pub claim_reasons : InvestigationClaim → Dict EvidenceExcerpt → Bool → List String
unfolding cites_unknown known_dates
claim_reasons claim evidence temporal =
    reason_if ((claim.text == "") || (claim.interpretation == "") || (claim.limitations == ""))
      "required claim text, interpretation, or limitations are blank"
    ++ (reason_if (is_empty claim.evidence_ids) "claim has no evidence citations"
        ++ (reason_if (cites_unknown evidence claim.evidence_ids)
              "claim cites unexpanded or search-only evidence"
            ++ (reason_if (names_unknown (known_dates evidence claim.evidence_ids) claim.periods)
                  "claim names a period without evidence from that event date"
                ++ reason_if (temporal && is_empty claim.periods)
                    "temporal claim has no explicit evidence-backed period")))

-- what the loop over the claims has
pub record Review : Type 0 where
  pub accepted : List InvestigationClaim
  pub assessments : List ClaimAssessment
  pub findings : List String
  pub repair_deficiencies : List String
  pub repair_periods : List String

abbrev pub nothing_reviewed : Review
nothing_reviewed = record {
  accepted = [];
  assessments = [];
  findings = [];
  repair_deficiencies = [];
  repair_periods = [];
}

-- `f"claim {number}: {reason}"` for each reason
unfoldable pub numbered_reasons : ℕ → List String → List String
unfolding join decimal
numbered_reasons number [] = []
numbered_reasons number (reason ∷ reasons) =
    join "claim " (join (decimal number) (join ": " reason)) ∷ numbered_reasons number reasons

-- `separator.join(items)`
abbrev pub join_list : String → List String → String
join_list separator [] = ""
join_list separator (m ∷ ms) = elim ms [
  | [] ↦ m
  | _ ∷ _ ↦ join m (join separator (join_list separator ms))
]

-- a claim that is rejected for the reasons
unfoldable pub reject : ℕ → InvestigationClaim → List String → Review → Review
unfolding numbered_reasons join decimal
reject index claim reasons r = record {
  accepted = r.accepted;
  assessments =
      r.assessments
      ++ record { claim_index = index; disposition = "rejected"; reasons = reasons } ∷ [];
  findings = r.findings ++ numbered_reasons (index + 1) reasons;
  repair_deficiencies =
      if is_empty claim.periods
      then r.repair_deficiencies
      else r.repair_deficiencies
        ++ join "repair rejected claim "
            (join (decimal (index + 1)) (join ": " (join_list "; " reasons)))
          ∷ [];
  repair_periods = r.repair_periods ++ claim.periods;
}

-- a claim that is accepted
unfoldable pub admit : ℕ → InvestigationClaim → Review → Review
admit index claim r = record r {
  accepted = r.accepted ++ claim ∷ [];
  assessments =
      r.assessments ++ record { claim_index = index; disposition = "supported"; reasons = [] } ∷ [];
}

-- the loop over the candidate claims
unfoldable pub review : Dict EvidenceExcerpt → Bool → ℕ → List InvestigationClaim → Review → Review
unfolding claim_reasons reject admit
review evidence temporal index [] r = r
review evidence temporal index (claim ∷ claims) r = elim (claim_reasons claim evidence temporal) [
  | [] ↦ review evidence temporal (index + 1) claims (admit index claim r)
  | reason ∷ reasons ↦
      review evidence temporal (index + 1) claims (reject index claim (reason ∷ reasons) r)
]

-- `tuple(sorted({period for claim in claims for period in claim.periods}))`
abbrev all_periods : List InvestigationClaim → List String
all_periods [] = []
all_periods (claim ∷ claims) = claim.periods ++ all_periods claims

unfoldable pub periods_of : List InvestigationClaim → List String
unfolding sorted_set
periods_of claims = sorted_set (all_periods claims)

-- the truth of a date
abbrev pub dates_in : Option String → List String
dates_in none = []
dates_in (some date) = if date == "" then [] else date ∷ []

abbrev pub not_covered : List String → List String → List String
not_covered covered [] = []
not_covered covered (date ∷ dates) =
    if mem date covered then not_covered covered dates else date ∷ not_covered covered dates

-- `orders`
abbrev orders_of : List TraceEntry → List String
orders_of [] = []
orders_of (item ∷ items) = elim item.tool_name [
  | none ↦ orders_of items
  | some name ↦
      if (item.action == "tool_call") && (name == "search_transcripts")
      then item.order ∷ orders_of items
      else orders_of items
]

-- the missing periods and the findings of `_assess_temporal_completeness`
unfoldable pub assess_temporal_completeness :
    Scopes → String → CorpusWindow → List TraceEntry → List String → List String × List String
unfolding join
assess_temporal_completeness scopes question corpus trace covered =
    let missing =
      if scopes.full_retained_scope question
      then not_covered covered (dates_in corpus.date_from ++ dates_in corpus.date_through)
      else [] in
    let scope_findings = reason_if (not (is_empty missing)) (
      join
        "the answer does not cover the full retained temporal scope; missing boundary period(s): "
        (join_list ", " missing)) in
    let orders = orders_of trace in
    let order_findings =
      reason_if
        (scopes.chronology_scope question && not (mem "oldest" orders && mem "latest" orders))
        "first/latest chronology was not tested with both oldest and latest search" in
    (missing, scope_findings ++ order_findings)
