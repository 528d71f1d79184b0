-- ===== src/Intelligence/Claims.antt =====
-- What stands behind the claims and the status of a record of `execute` in
-- intelligence/orchestration.py.
use rfi.Common.{
  ◌≤◌, String, ◌≡◌, refl, sym, ap, ◌∙◌, true, false, List, [], ◌∷◌, ◌++◌, eq_iff, arith, Bool-cases,
  inl, inr,
}
use mathlib.Core.Path.{subst}
use rfi.Common.Lists.{length, mem, mem-append, All, All-map, All-both, Any, Any-append}
use rfi.Common.Errors.{ok}
use rfi.Retrieval.Contracts.{EvidencePackage}
use rfi.Intelligence.Contracts.{
  ClaimKind, InformationNeed, IntelligenceBudget, EvidenceReference, IntelligenceClaim,
  ReasoningDraft, RetrievalPlan, ExecutionRecord,
}
use rfi.Intelligence.Draft.{validate_draft}
use rfi.Intelligence.Project.{Rendering, project, references_of, all_references}
use rfi.Intelligence.Record.{selected_ids, select, terminal_record, failure_record}
use rfi.Intelligence.Run.{Providers, Run, note}
use rfi.Intelligence.Execute.{finish, refusal, recorded, execute}
use rfi.Intelligence.Grounded.{HasAuthority, IsThere, validate_draft-IsGroundedIn}
use rfi.Intelligence.Made.{IsMade, failed, refused, finished}
use rfi.Intelligence.Governed.{recorded-IsMade}

-- what a claim cites is selected
All-mem : (xs ys : List String) → All (λ x. mem x (xs ++ ys) ≡ true) xs
All-mem [] ys = tt
All-mem (x ∷ xs) ys =
    (ground (arith, (eq_iff x x).1 refl), All-map _ _ xs (λ y m. ground (arith, m)) (All-mem xs ys))

selected_ids_lem :
    (claims : List IntelligenceClaim)
    → All (λ c. All (λ id. mem id (selected_ids claims) ≡ true) c.evidence_ids) claims
unfolding selected_ids
selected_ids_lem [] = tt
selected_ids_lem (c ∷ cs) = (
  All-mem c.evidence_ids (selected_ids cs),
  All-map _ _ cs
      (λ d h.
        All-map _ _ d.evidence_ids
          (λ id m. mem-append id c.evidence_ids (selected_ids cs) ∙ ground (arith, m)) h)
      (selected_ids_lem cs),
)

select-kept :
    (ids : List String) (x : EvidenceReference) (xs : List EvidenceReference)
    → mem x.evidence_id ids ≡ true
    → select ids (x ∷ xs) ≡ x ∷ select ids xs
unfolding select
select-kept ids x xs h = rw (h, select) refl

select-left_out :
    (ids : List String) (x : EvidenceReference) (xs : List EvidenceReference)
    → mem x.evidence_id ids ≡ false
    → select ids (x ∷ xs) ≡ select ids xs
unfolding select
select-left_out ids x xs h = rw (h, select) refl

-- a selected item stays
select-IsThere :
    (ids : List String) (id : String) (items : List EvidenceReference) (item : EvidenceReference)
    → mem id ids ≡ true
    → IsThere id items item
    → IsThere id (select ids items) item
select-IsThere ids id [] item m h = absurd h
select-IsThere ids id (x ∷ xs) item m (inl (same, named)) =
    subst (λ ys. IsThere id ys item) (sym (select-kept ids x xs (ap (λ i. mem i ids) named ∙ m)))
      (inl (same, named))
select-IsThere ids id (x ∷ xs) item m (inr later) = elim (Bool-cases (mem x.evidence_id ids)) [
  | inl kept ↦
      subst (λ ys. IsThere id ys item) (sym (select-kept ids x xs kept))
        (inr (select-IsThere ids id xs item m later))
  | inr left_out ↦
      subst (λ ys. IsThere id ys item) (sym (select-left_out ids x xs left_out))
        (select-IsThere ids id xs item m later)
]

-- the item is a reference of one of the packages
abbrev pub IsFrom : List EvidencePackage → EvidenceReference → Type 0
IsFrom packages item = Any (λ p. Any (λ x. x ≡ item) (references_of p)) packages

named_only :
    (id : String) (items : List EvidenceReference) (item : EvidenceReference)
    → IsThere id items item
    → Any (λ x. x ≡ item) items
named_only id [] item h = h
named_only id (x ∷ xs) item (inl h) = inl h.0
named_only id (x ∷ xs) item (inr h) = inr (named_only id xs item h)

all_references-IsFrom :
    (packages : List EvidencePackage) (item : EvidenceReference)
    → Any (λ x. x ≡ item) (all_references packages)
    → IsFrom packages item
unfolding all_references
all_references-IsFrom [] item h = h
all_references-IsFrom (p ∷ ps) item h =
    elim (Any-append (λ x. x ≡ item) (references_of p) (all_references ps) h) [
      | inl here ↦ inl here
      | inr later ↦ inr (all_references-IsFrom ps item later)
    ]

-- Behind an identifier that the record's claim cites stands an item of the record's evidence that
-- has it, that has the authority for the claim's kind, and that is a reference of a package of the
-- record.
abbrev pub IsSupported : ExecutionRecord → ClaimKind → String → Type 0
IsSupported made kind id =
    (item : EvidenceReference) × IsThere id made.result.evidence item
    × HasAuthority kind item
    × IsFrom made.trace.evidence_packages item

pub record IsGroundedClaim (made : ExecutionRecord) (claim : IntelligenceClaim) : Type 0 where
  pub cites : 1 ≤ length claim.evidence_ids
  pub backed : All (IsSupported made claim.kind) claim.evidence_ids

module _ (providers : Providers) (env : Rendering) (need : InformationNeed)
    (budget : IntelligenceBudget) where
  finish-IsGroundedClaim :
      (id : String) (plan : RetrievalPlan) (draft : ReasoningDraft) (r : Run)
      → validate_draft draft (project env r.packages budget.max_model_input_chars).evidence ≡ ok tt
      → let made =
          finish env id need plan (project env r.packages budget.max_model_input_chars) draft r in
        All (IsGroundedClaim made) made.result.claims
  unfolding finish terminal_record project note
  finish-IsGroundedClaim id plan draft r good =
      let evidence = all_references r.packages in
      All-map _ _ draft.claims
        (λ claim h. record {
          cites = h.0.cites;
          backed =
              All-map _ _ claim.evidence_ids
                (λ cited k. (
                  k.0.0,
                  select-IsThere (selected_ids draft.claims) cited evidence k.0.0 k.1 k.0.1,
                  k.0.2,
                  all_references-IsFrom r.packages k.0.0 (named_only cited evidence k.0.0 k.0.1),
                ))
                (All-both _ _ claim.evidence_ids h.0.backed h.1);
        })
        (All-both _ _ draft.claims (validate_draft-IsGroundedIn draft evidence good)
          (selected_ids_lem draft.claims))

  made-IsGroundedClaim :
      (made : ExecutionRecord)
      → IsMade providers env need budget made
      → All (IsGroundedClaim made) made.result.claims
  unfolding failure_record refusal terminal_record
  made-IsGroundedClaim made (failed plan model failure r h short e) =
      subst (λ (m : ExecutionRecord). All (IsGroundedClaim m) m.result.claims) (sym e) tt
  made-IsGroundedClaim made (refused plan e) =
      subst (λ (m : ExecutionRecord). All (IsGroundedClaim m) m.result.claims) (sym e) tt
  made-IsGroundedClaim made (finished plan draft r h good e) =
      subst (λ (m : ExecutionRecord). All (IsGroundedClaim m) m.result.claims) (sym e)
        (finish-IsGroundedClaim _ plan draft r good)

  -- Where `execute` returns a record, each of its claims cites something, and for each identifier
  -- that it cites the record's evidence has an item with this identifier, which is a reference of a
  -- package that the record has consumed and has the authority that a source claim or a derived
  -- claim wants.
  pub execute-IsGroundedClaim :
      (made : ExecutionRecord)
      → execute providers env need budget ≡ recorded made
      → All (IsGroundedClaim made) made.result.claims
  execute-IsGroundedClaim made e =
      made-IsGroundedClaim made (recorded-IsMade providers env need budget made e)
