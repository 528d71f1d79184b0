-- ===== src/Intelligence/Grounded.antt =====
-- What a draft that passes `_validate_draft` of intelligence/orchestration.py has behind its claims.
use rfi.Common.Lists.{is_empty}
use rfi.Common.Text.{is_blank}
use rfi.Common.{
  ◌≤◌, String, ◌≡◌, refl, sym, ◌∙◌, Bool, true, false, Option-cases, none, some, List, [], ◌∷◌,
  ◌==◌, ◌&&◌, ◌||◌, not, arith, leb, Bool-cases, inl, inr,
}
use mathlib.Core.Path.{subst}
use rfi.Common.Lists.{length, mem, All, Any}
use rfi.Common.Errors.{ok, raise, ◌>>=◌, bind_ok, after_check, ok_injective, raise_not_ok}
use rfi.Common.Assoc.{Dict, lookup, lookup-index_from}
use rfi.Common.Text.{join}
use rfi.Intelligence.Contracts.{ClaimKind, EvidenceReference, IntelligenceClaim, ReasoningDraft}
use rfi.Intelligence.Draft.{
  evidence_id_of, zero_place, one_place, same_kind, available_of, resolve, all_have, check_claim,
  check_claims, validate_draft,
}

-- the item is in the list, with the identifier
abbrev pub IsThere : String → List EvidenceReference → EvidenceReference → Type 0
IsThere id items item = Any (λ x. (x ≡ item) × (x.evidence_id ≡ id)) items

available_of-IsThere :
    (id : String) (items : List EvidenceReference) (item : EvidenceReference)
    → lookup id (available_of items) ≡ some item
    → IsThere id items item
unfolding available_of lookup
available_of-IsThere id items item e = elim (lookup-index_from evidence_id_of id [] items item e) [
  | inl nowhere ↦ cc
  | inr there ↦ there
]

-- the authority that a claim of the kind wants
abbrev pub HasAuthority : ClaimKind → EvidenceReference → Type 0
HasAuthority ClaimKind.source_evidence item = item.authority ≡ ClaimKind.source_evidence
HasAuthority ClaimKind.derived_knowledge item = item.authority ≡ ClaimKind.derived_knowledge
HasAuthority ClaimKind.model_inference item = Unit

-- an item of the list stands behind the identifier that a claim cites
abbrev pub IsBacked : List EvidenceReference → ClaimKind → String → Type 0
IsBacked items kind id = (item : EvidenceReference) × IsThere id items item × HasAuthority kind item

-- the kind's items all have its authority
abbrev Suits : ClaimKind → List EvidenceReference → Type 0
Suits kind items = All (HasAuthority kind) items

resolve-known :
    (available : Dict EvidenceReference) (claim_id id : String) (ids : List String)
    (item : EvidenceReference)
    → lookup id available ≡ some item
    → resolve available claim_id (id ∷ ids)
      ≡ (do rest ← resolve available claim_id ids; ok (item ∷ rest))
unfolding resolve
resolve-known available claim_id id ids item h = rw (h, resolve) refl

resolve-unknown :
    (available : Dict EvidenceReference) (claim_id id : String) (ids : List String)
    → lookup id available ≡ none
    → resolve available claim_id (id ∷ ids)
      ≡ raise (join "claim references unconsumed evidence: " claim_id)
unfolding resolve
resolve-unknown available claim_id id ids h = rw (h, resolve) refl

resolve-IsBacked :
    (evidence : List EvidenceReference) (claim_id : String) (ids : List String) (kind : ClaimKind)
    (resolved : List EvidenceReference)
    → resolve (available_of evidence) claim_id ids ≡ ok resolved
    → Suits kind resolved
    → All (IsBacked evidence kind) ids
unfolding lookup
resolve-IsBacked evidence claim_id [] kind resolved e h = tt
resolve-IsBacked evidence claim_id (id ∷ ids) kind resolved e h =
    let available = available_of evidence in
    elim (Option-cases (lookup id available)) [
      | inl unknown ↦
          absurd
            (raise_not_ok _ resolved (sym (resolve-unknown available claim_id id ids unknown) ∙ e))
      | inr (item, known) ↦
          let (rest, later, whole) =
            bind_ok (resolve available claim_id ids) (λ rest. ok (item ∷ rest)) resolved
              (sym (resolve-known available claim_id id ids item known) ∙ e) in
          let suits = subst (Suits kind) (sym (ok_injective whole)) h in
          (
            (item, available_of-IsThere id evidence item known, suits.0),
            resolve-IsBacked evidence claim_id ids kind rest later suits.1,
          )
    ]

same_kind_eq : (a b : ClaimKind) → same_kind a b ≡ true → a ≡ b
same_kind_eq ClaimKind.source_evidence ClaimKind.source_evidence h = refl
same_kind_eq ClaimKind.source_evidence ClaimKind.derived_knowledge h = cc
same_kind_eq ClaimKind.source_evidence ClaimKind.model_inference h = cc
same_kind_eq ClaimKind.derived_knowledge ClaimKind.source_evidence h = cc
same_kind_eq ClaimKind.derived_knowledge ClaimKind.derived_knowledge h = refl
same_kind_eq ClaimKind.derived_knowledge ClaimKind.model_inference h = cc
same_kind_eq ClaimKind.model_inference ClaimKind.source_evidence h = cc
same_kind_eq ClaimKind.model_inference ClaimKind.derived_knowledge h = cc
same_kind_eq ClaimKind.model_inference ClaimKind.model_inference h = refl

all_have_lem :
    (kind : ClaimKind) (items : List EvidenceReference)
    → all_have kind items ≡ true
    → All (λ item. item.authority ≡ kind) items
all_have_lem kind [] h = tt
all_have_lem kind (item ∷ items) h = elim (Bool-cases (same_kind item.authority kind)) [
  | inl same ↦
      (same_kind_eq item.authority kind same, all_have_lem kind items (ground (arith, h, same)))
  | inr other ↦ ground (arith, h, other)
]

any_suit : (items : List EvidenceReference) → Suits ClaimKind.model_inference items
any_suit [] = tt
any_suit (item ∷ items) = (tt, any_suit items)

cancel_not : (b : Bool) → not (not b) ≡ true → b ≡ true
cancel_not true h = refl
cancel_not false h = cc

-- what the two checks of the authority say
all_have-Suits :
    (kind : ClaimKind) (items : List EvidenceReference)
    → not
        (same_kind kind ClaimKind.source_evidence && not (all_have ClaimKind.source_evidence items))
      ≡ true
    → not (
        same_kind kind ClaimKind.derived_knowledge
        && not (all_have ClaimKind.derived_knowledge items))
      ≡ true
    → Suits kind items
all_have-Suits ClaimKind.source_evidence items s d =
    all_have_lem ClaimKind.source_evidence items (cancel_not _ s)
all_have-Suits ClaimKind.derived_knowledge items s d =
    all_have_lem ClaimKind.derived_knowledge items (cancel_not _ d)
all_have-Suits ClaimKind.model_inference items s d = any_suit items

-- a claim that cites something, and has an item of the list behind all that it cites
pub record IsGroundedIn (items : List EvidenceReference) (claim : IntelligenceClaim) : Type 0 where
  pub cites : 1 ≤ length claim.evidence_ids
  pub backed : All (IsBacked items claim.kind) claim.evidence_ids

cites_lem : (ids : List String) → not (is_empty ids) ≡ true → 1 ≤ length ids
cites_lem [] h = cc
cites_lem (id ∷ ids) h = omega arith

check_claim-IsGroundedIn :
    (evidence : List EvidenceReference) (seen : List String) (claim : IntelligenceClaim)
    → check_claim (available_of evidence) seen claim ≡ ok tt
    → IsGroundedIn evidence claim
unfolding check_claim
check_claim-IsGroundedIn evidence seen claim e =
    let available = available_of evidence in
    let (_, e1) =
      after_check (not ((claim.claim_id == "") || mem claim.claim_id seen))
        "missing or duplicate claim identifier" _ tt e in
    let (cites, e2) =
      after_check (not (is_empty claim.evidence_ids))
        (join "claim has no evidence mapping: " claim.claim_id) _ tt e1 in
    let (_, e3) =
      after_check (not (is_blank claim.support_explanation))
        (join "claim lacks support explanation: " claim.claim_id) _ tt e2 in
    let (_, e4) =
      after_check (leb zero_place claim.confidence && leb claim.confidence one_place)
        (join "claim confidence is invalid: " claim.claim_id) _ tt e3 in
    let (resolved, found, e5) =
      bind_ok (resolve available claim.claim_id claim.evidence_ids) _ tt e4 in
    let (from_source, e6) =
      after_check
        (not (
          same_kind claim.kind ClaimKind.source_evidence
          && not (all_have ClaimKind.source_evidence resolved)))
        "source claim cites non-source authority" _ tt e5 in
    let (from_derived, e7) =
      after_check
        (not (
          same_kind claim.kind ClaimKind.derived_knowledge
          && not (all_have ClaimKind.derived_knowledge resolved)))
        "derived claim cites non-derived authority" _ tt e6 in
    record {
      cites = cites_lem claim.evidence_ids cites;
      backed =
          resolve-IsBacked evidence claim.claim_id claim.evidence_ids claim.kind resolved found
            (all_have-Suits claim.kind resolved from_source from_derived);
    }

check_claims-IsGroundedIn :
    (evidence : List EvidenceReference) (seen : List String) (claims : List IntelligenceClaim)
    → check_claims (available_of evidence) seen claims ≡ ok tt
    → All (IsGroundedIn evidence) claims
unfolding check_claims
check_claims-IsGroundedIn evidence seen [] e = tt
check_claims-IsGroundedIn evidence seen (claim ∷ claims) e =
    let (u, now, later) = bind_ok (check_claim (available_of evidence) seen claim) _ tt e in
    (
      check_claim-IsGroundedIn evidence seen claim now,
      check_claims-IsGroundedIn evidence (claim.claim_id ∷ seen) claims later,
    )

pub validate_draft-IsGroundedIn :
    (draft : ReasoningDraft) (evidence : List EvidenceReference)
    → validate_draft draft evidence ≡ ok tt
    → All (IsGroundedIn evidence) draft.claims
unfolding validate_draft
validate_draft-IsGroundedIn draft evidence e =
    let (_, e1) =
      after_check (not (is_blank draft.response)) "model returned an empty response" _ tt e in
    check_claims-IsGroundedIn evidence [] draft.claims e1
