-- ===== src/Research/Backed.antt =====
-- What stands behind the claims that `adjudicate` of research/adjudication.py accepts.
use rfi.Common.Lists.{Any-map, some_of_is_empty}
use rfi.Common.{
  ◌≤◌, String, ◌≡◌, refl, sym, ap, ◌∙◌, Bool, true, false, Option-cases, none, some, is_some, List,
  [], ◌∷◌, ◌++◌, ◌==◌, ◌||◌, not, eq_iff, arith, Bool-cases, inl, inr,
}
use mathlib.Core.Path.{subst}
use rfi.Common.Lists.{length, mem, is_empty, All, All-map, Any}
use rfi.Common.Assoc.{Dict, lookup, lookup-index_from}
use rfi.Research.Contracts.{EvidenceExcerpt, InvestigationClaim}
use rfi.Research.Adjudicate.{
  excerpt_id, evidence_by_id, reason_if, cites_unknown, known_dates, names_unknown, claim_reasons,
}

reason_if_nil :
    (b : Bool) (reason : String) (rest : List String)
    → reason_if b reason ++ rest ≡ []
    → (b ≡ false) × (rest ≡ [])
reason_if_nil true reason rest h = cc
reason_if_nil false reason rest h = (refl, h)

-- an excerpt of the evidence with the identifier
abbrev pub IsExcerpt : List EvidenceExcerpt → String → EvidenceExcerpt → Type 0
IsExcerpt items id item = Any (λ x. (x ≡ item) × (x.evidence_id ≡ id)) items

-- A claim cites something, all that it cites is evidence, and each period that it names is the date
-- of an excerpt that it cites.
pub record IsBackedBy (items : List EvidenceExcerpt) (claim : InvestigationClaim) : Type 0 where
  pub cites : 1 ≤ length claim.evidence_ids
  pub known : All (λ id. (item : EvidenceExcerpt) × IsExcerpt items id item) claim.evidence_ids
  pub dated :
      All
        (λ period.
          Any
            (λ id. (item : EvidenceExcerpt) × IsExcerpt items id item × (item.event_date ≡ period))
            claim.evidence_ids)
        claim.periods

lookup-IsExcerpt :
    (items : List EvidenceExcerpt) (id : String) (item : EvidenceExcerpt)
    → lookup id (evidence_by_id items) ≡ some item
    → IsExcerpt items id item
unfolding evidence_by_id lookup
lookup-IsExcerpt items id item e = elim (lookup-index_from excerpt_id id [] items item e) [
  | inl nowhere ↦ cc
  | inr there ↦ there
]

-- the identifier is in the dict
abbrev pub IsKnown : Dict EvidenceExcerpt → String → Type 0
IsKnown evidence id = (item : EvidenceExcerpt) × (lookup id evidence ≡ some item)

cites_unknown_lem :
    (evidence : Dict EvidenceExcerpt) (ids : List String)
    → cites_unknown evidence ids ≡ false
    → All (IsKnown evidence) ids
unfolding cites_unknown
cites_unknown_lem evidence [] h = tt
cites_unknown_lem evidence (id ∷ ids) h = elim (Option-cases (lookup id evidence)) [
  | inl unknown ↦
      let bad = subst (λ o. (not (is_some o) || cites_unknown evidence ids) ≡ false) unknown h in cc
  | inr (item, found) ↦
      let rest = subst (λ o. (not (is_some o) || cites_unknown evidence ids) ≡ false) found h in
      ((item, found), cites_unknown_lem evidence ids rest)
]

known_dates-skip :
    (evidence : Dict EvidenceExcerpt) (id : String) (ids : List String)
    → lookup id evidence ≡ none
    → known_dates evidence (id ∷ ids) ≡ known_dates evidence ids
unfolding known_dates
known_dates-skip evidence id ids h = rw (h, known_dates) refl

known_dates-found :
    (evidence : Dict EvidenceExcerpt) (id : String) (ids : List String) (item : EvidenceExcerpt)
    → lookup id evidence ≡ some item
    → known_dates evidence (id ∷ ids) ≡ item.event_date ∷ known_dates evidence ids
unfolding known_dates
known_dates-found evidence id ids item h = rw (h, known_dates) refl

-- a date among the known ones is that of an excerpt that is cited
known_dates_lem :
    (evidence : Dict EvidenceExcerpt) (period : String) (ids : List String)
    → mem period (known_dates evidence ids) ≡ true
    → Any
        (λ id.
          (item : EvidenceExcerpt) × (lookup id evidence ≡ some item) × (item.event_date ≡ period))
        ids
unfolding known_dates
known_dates_lem evidence period [] h = cc
known_dates_lem evidence period (id ∷ ids) h = elim (Option-cases (lookup id evidence)) [
  | inl unknown ↦ inr (
      known_dates_lem evidence period ids
        (sym (ap (mem period) (known_dates-skip evidence id ids unknown)) ∙ h))
  | inr (item, found) ↦
      let shown = sym (ap (mem period) (known_dates-found evidence id ids item found)) ∙ h in
      elim (Bool-cases (item.event_date == period)) [
        | inl same ↦ inl (item, found, (eq_iff item.event_date period).0 same)
        | inr other ↦ inr (known_dates_lem evidence period ids (ground (arith, shown, other)))
      ]
]

names_unknown_lem :
    (dates periods : List String)
    → names_unknown dates periods ≡ false
    → All (λ period. mem period dates ≡ true) periods
names_unknown_lem dates [] h = tt
names_unknown_lem dates (period ∷ periods) h =
    (ground (arith, h), names_unknown_lem dates periods (ground (arith, h)))

-- A claim against which there is no reason is backed, and what it cites is in the dict.
pub claim_reasons-IsBackedBy :
    (items : List EvidenceExcerpt) (claim : InvestigationClaim) (temporal : Bool)
    → claim_reasons claim (evidence_by_id items) temporal ≡ []
    → IsBackedBy items claim × All (IsKnown (evidence_by_id items)) claim.evidence_ids
unfolding claim_reasons
claim_reasons-IsBackedBy items claim temporal h =
    let evidence = evidence_by_id items in
    let (_, h1) =
      reason_if_nil
        ((claim.text == "") || (claim.interpretation == "") || (claim.limitations == "")) _ _ h in
    let (cites, h2) = reason_if_nil (is_empty claim.evidence_ids) _ _ h1 in
    let (known, h3) = reason_if_nil (cites_unknown evidence claim.evidence_ids) _ _ h2 in
    let (dated, _) =
      reason_if_nil (names_unknown (known_dates evidence claim.evidence_ids) claim.periods) _ _
        h3 in
    let found = cites_unknown_lem evidence claim.evidence_ids known in
    (
      record {
        cites = some_of_is_empty claim.evidence_ids cites;
        known =
            All-map _ _ claim.evidence_ids (λ id k. (k.0, lookup-IsExcerpt items id k.0 k.1)) found;
        dated =
            All-map _ _ claim.periods
              (λ period m.
                Any-map _ _ claim.evidence_ids
                  (λ id k. (k.0, lookup-IsExcerpt items id k.0 k.1, k.2))
                  (known_dates_lem evidence period claim.evidence_ids m))
              (names_unknown_lem (known_dates evidence claim.evidence_ids) claim.periods dated);
      },
      found,
    )
