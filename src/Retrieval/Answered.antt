-- ===== src/Retrieval/Answered.antt =====
-- The loop over the ranked results in retrieval/evidence.py answers for each result: it includes it
-- or names it in an omission.
use rfi.Common.{
  ◌+◌, ◌≡◌, ◌⊎◌, refl, String, List, [], ◌∷◌, ltb, if◌then◌else◌, Bool-cases, inl, inr,
}
use mathlib.Core.Path.{subst}
use rfi.Common.Text.{join}
use rfi.Common.Lists.{All, Any, Any-append_left, Any-append_right}
use rfi.Common.Errors.{ok, bind_ok, ok_injective}
use rfi.Retrieval.Contracts.{RetrievalQuery, SourceEvidenceResult, DerivedKnowledgeResult}
use rfi.Retrieval.Ranked.{
  Sources, Ranked, source, derived, precedes, insert_ranked, ranked_of, references,
}
use rfi.Retrieval.Assemble.{Collected, collect, Assembly, include, omit, assemble_each}

-- the value is in the list
abbrev pub Stands : {A : Type 0} → A → List A → Type 0
Stands x xs = Any (λ y. y ≡ x) xs

-- an omission of the identity
abbrev pub IsOmitted : String → List String → Type 0
IsOmitted id omissions =
    Stands (join id " omitted: evidence budget cannot include all provenance context") omissions

-- The result is among those included, or an omission names it.
abbrev pub IsAnswered :
    List SourceEvidenceResult → List DerivedKnowledgeResult → List String → Ranked → Type 0
IsAnswered sources knowledge omissions (source r) =
    Stands r sources ⊎ IsOmitted r.source_object.source_object_id omissions
IsAnswered sources knowledge omissions (derived r) =
    Stands r knowledge ⊎ IsOmitted r.derived_object.object_id omissions

-- what holds of every result after sorting holds before
All-of_insert_ranked :
    (Q : Ranked → Type 0) (x : Ranked) (xs : List Ranked)
    → All Q (insert_ranked x xs)
    → Q x × All Q xs
unfolding insert_ranked
All-of_insert_ranked Q x [] h = h
All-of_insert_ranked Q x (y ∷ ys) h = elim (Bool-cases (precedes y x)) [
  | inl e ↦
      let later = (rw (e, insert_ranked) at h) in
      let (here, rest) = All-of_insert_ranked Q x ys later.1 in (here, (later.0, rest))
  | inr e ↦ rw (e, insert_ranked) at h
]

pub All-of_ranked_of : (Q : Ranked → Type 0) (xs : List Ranked) → All Q (ranked_of xs) → All Q xs
unfolding ranked_of
All-of_ranked_of Q [] h = tt
All-of_ranked_of Q (x ∷ xs) h =
    let (here, rest) = All-of_insert_ranked Q x (ranked_of xs) h in
    (here, All-of_ranked_of Q xs rest)

-- the answers of an assembly
abbrev pub Answers : Assembly → Ranked → Type 0
Answers a = IsAnswered a.source_results a.knowledge_results a.omissions

include-Answers : (x : Ranked) (c : Collected) (a : Assembly) → Answers (include x c a) x
unfolding include
include-Answers (source r) c a = inl (Any-append_right _ a.source_results (r ∷ []) (inl refl))
include-Answers (derived r) c a = inl (Any-append_right _ a.knowledge_results (r ∷ []) (inl refl))

omit-Answers : (x : Ranked) (c : Collected) (a : Assembly) → Answers (omit x c a) x
unfolding omit
omit-Answers (source r) c a = inr (Any-append_right _ a.omissions (_ ∷ []) (inl refl))
omit-Answers (derived r) c a = inr (Any-append_right _ a.omissions (_ ∷ []) (inl refl))

include-keeps :
    (x : Ranked) (c : Collected) (a : Assembly) (y : Ranked)
    → Answers a y
    → Answers (include x c a) y
unfolding include
include-keeps (source r) c a (source s) (inl h) = inl (Any-append_left _ a.source_results _ h)
include-keeps (source r) c a (source s) (inr h) = inr h
include-keeps (source r) c a (derived s) h = h
include-keeps (derived r) c a (source s) h = h
include-keeps (derived r) c a (derived s) (inl h) = inl (Any-append_left _ a.knowledge_results _ h)
include-keeps (derived r) c a (derived s) (inr h) = inr h

omit-keeps :
    (x : Ranked) (c : Collected) (a : Assembly) (y : Ranked) → Answers a y → Answers (omit x c a) y
unfolding omit
omit-keeps x c a (source s) (inl h) = inl h
omit-keeps x c a (source s) (inr h) = inr (Any-append_left _ a.omissions _ h)
omit-keeps x c a (derived s) (inl h) = inl h
omit-keeps x c a (derived s) (inr h) = inr (Any-append_left _ a.omissions _ h)

module _ (env : Sources) (query : RetrievalQuery) where
  -- One round answers for its result and keeps the earlier answers.
  next-Answers :
      (x : Ranked) (c : Collected) (a : Assembly)
      → let b =
          if ltb query.evidence_budget_bytes (a.bytes_used + c.required)
          then omit x c a
          else include x c a in
        Answers b x × ((y : Ranked) → Answers a y → Answers b y)
  next-Answers x c a =
      elim (Bool-cases (ltb query.evidence_budget_bytes (a.bytes_used + c.required))) [
        | inl over ↦ rw over (omit-Answers x c a, omit-keeps x c a)
        | inr fits ↦ rw fits (include-Answers x c a, include-keeps x c a)
      ]

  -- The loop answers for each of its results and keeps the earlier answers.
  pub assemble_each-Answers :
      (xs : List Ranked) (a b : Assembly)
      → assemble_each env query xs a ≡ ok b
      → All (Answers b) xs × ((y : Ranked) → Answers a y → Answers b y)
  unfolding assemble_each
  assemble_each-Answers [] a b e = (tt, λ y h. subst (λ z. Answers z y) (ok_injective e) h)
  assemble_each-Answers (x ∷ xs) a b e =
      let (refs, are, e1) = bind_ok (references x) _ b e in
      let (c, gathered, e2) =
        bind_ok
          (collect env query.context_radius a.contexts refs
            (record { pending = []; required = 0; cache = a.cache }))
          _ b e1 in
      let (here, kept) = next-Answers x c a in
      let (later, grown) = assemble_each-Answers xs _ b e2 in
      ((grown x here, later), λ y h. grown y (kept y h))
