-- ===== src/Retrieval/Included.antt =====
-- What the loop over the ranked results in retrieval/evidence.py includes.
use rfi.Common.{
  ℕ, ◌+◌, ◌≤◌, ◌≡◌, refl, ap, ◌∙◌, true, false, List, [], ◌∷◌, ◌++◌, ◌||◌, arith, ltb,
  if◌then◌else◌, Bool-cases, inl, inr,
}
use mathlib.Core.Path.{subst}
use rfi.Common.Lists.{length, length-append, All, All-append, All-map}
use rfi.Common.Errors.{ok, bind_ok, ok_injective}
use rfi.Retrieval.Contracts.{ProvenanceReference, RetrievalQuery, ContextExcerpt}
use rfi.Retrieval.Ranked.{
  Sources, Ranked, source, derived, precedes, insert_ranked, ranked_of, Key, key_of, has_key,
  references,
}
use rfi.Retrieval.Assemble.{
  Collected, collect, excerpts, Assembly, include, omit, assemble_each, nothing_assembled,
}
use rfi.Retrieval.Exact.{
  total_size, total_size-append, has_key-append, has_key-excerpts, IsEntry, IsGathered, IsCovered,
  collect_lem,
}

-- sorting keeps what holds of every result
All-insert_ranked :
    (Q : Ranked → Type 0) (x : Ranked) (xs : List Ranked)
    → Q x
    → All Q xs
    → All Q (insert_ranked x xs)
unfolding insert_ranked
All-insert_ranked Q x [] q h = (q, tt)
All-insert_ranked Q x (y ∷ ys) q h =
    elim (precedes y x)
      as (λ b.
        All Q
          (elim b as (λ _. List Ranked) [ true ↦ y ∷ insert_ranked x ys | false ↦ x ∷ y ∷ ys ])) [
            | true ↦ (h.0, All-insert_ranked Q x ys q h.1)
            | false ↦ (q, h)
          ]

pub All-ranked_of : (Q : Ranked → Type 0) (xs : List Ranked) → All Q xs → All Q (ranked_of xs)
unfolding ranked_of
All-ranked_of Q [] h = tt
All-ranked_of Q (x ∷ xs) h = All-insert_ranked Q x (ranked_of xs) h.0 (All-ranked_of Q xs h.1)

length-insert_ranked : (x : Ranked) (xs : List Ranked) → length (insert_ranked x xs) ≡ length xs + 1
unfolding insert_ranked
length-insert_ranked x [] = refl
length-insert_ranked x (y ∷ ys) = ground (arith, length-insert_ranked x ys)

pub length-ranked_of : (xs : List Ranked) → length (ranked_of xs) ≡ length xs
unfolding ranked_of
length-ranked_of [] = refl
length-ranked_of (x ∷ xs) =
    omega (arith, length-insert_ranked x (ranked_of xs), length-ranked_of xs)

-- every reference of the result satisfies `P` and has its context
pub record HasContexts (P : ProvenanceReference → Type 0) (contexts : List (Key × ContextExcerpt))
    (x : Ranked) : Type 0 where
  pub refs : List ProvenanceReference
  pub are : references x ≡ ok refs
  pub known : All P refs
  pub there : All (λ r. has_key (key_of r) contexts ≡ true) refs

HasContexts-append :
    (P : ProvenanceReference → Type 0) (contexts more : List (Key × ContextExcerpt)) (x : Ranked)
    → HasContexts P contexts x
    → HasContexts P (contexts ++ more) x
HasContexts-append P contexts more x h = record {
  refs = h.refs;
  are = h.are;
  known = h.known;
  there =
      All-map _ _ h.refs (λ r m. has_key-append (key_of r) contexts more ∙ ground (arith, m))
        h.there;
}

module _ (env : Sources) (query : RetrievalQuery) (P : ProvenanceReference → Type 0) where
  pub record IsAssembled (a : Assembly) : Type 0 where
    pub entries : All (IsEntry env query.context_radius P) a.contexts
    pub counted : a.bytes_used ≡ total_size a.contexts
    pub within : a.bytes_used ≤ query.evidence_budget_bytes
    pub sources : All (λ r. HasContexts P a.contexts (source r)) a.source_results
    pub knowledge : All (λ r. HasContexts P a.contexts (derived r)) a.knowledge_results

  -- the references of the result satisfy `P`
  abbrev pub Refers : Ranked → Type 0
  Refers x = (refs : List ProvenanceReference) → references x ≡ ok refs → All P refs

  abbrev nothing_pending : Assembly → Collected
  nothing_pending a = record { pending = []; required = 0; cache = a.cache }

  included :
      (x : Ranked) (refs : List ProvenanceReference) (c : Collected) (a : Assembly)
      → references x ≡ ok refs
      → All P refs
      → All (IsCovered env query.context_radius P a.contexts c) refs
      → HasContexts P (a.contexts ++ excerpts c.pending) x
  included x refs c a are known covered = record {
    refs = refs;
    are = are;
    known = known;
    there =
        All-map _ _ refs
          (λ r m.
            has_key-append (key_of r) a.contexts (excerpts c.pending)
            ∙ ap (λ b. has_key (key_of r) a.contexts || b) (has_key-excerpts (key_of r) c.pending)
            ∙ m)
          covered;
  }

  include-IsAssembled :
      (x : Ranked) (refs : List ProvenanceReference) (c : Collected) (a : Assembly)
      → IsAssembled a
      → references x ≡ ok refs
      → All P refs
      → IsGathered env query.context_radius P c
      → All (IsCovered env query.context_radius P a.contexts c) refs
      → a.bytes_used + c.required ≤ query.evidence_budget_bytes
      → IsAssembled (include x c a)
  unfolding include
  include-IsAssembled (source s) refs c a h are known g covered fits = record {
    entries = All-append _ a.contexts (excerpts c.pending) h.entries g.exact;
    counted = omega (arith, h.counted, g.sized, total_size-append a.contexts (excerpts c.pending));
    within = fits;
    sources =
        All-append _ a.source_results (s ∷ [])
          (All-map _ _ a.source_results
            (λ r k. HasContexts-append P a.contexts (excerpts c.pending) (source r) k) h.sources)
          (included (source s) refs c a are known covered, tt);
    knowledge =
        All-map _ _ a.knowledge_results
          (λ r k. HasContexts-append P a.contexts (excerpts c.pending) (derived r) k) h.knowledge;
  }
  include-IsAssembled (derived d) refs c a h are known g covered fits = record {
    entries = All-append _ a.contexts (excerpts c.pending) h.entries g.exact;
    counted = omega (arith, h.counted, g.sized, total_size-append a.contexts (excerpts c.pending));
    within = fits;
    sources =
        All-map _ _ a.source_results
          (λ r k. HasContexts-append P a.contexts (excerpts c.pending) (source r) k) h.sources;
    knowledge =
        All-append _ a.knowledge_results (d ∷ [])
          (All-map _ _ a.knowledge_results
            (λ r k. HasContexts-append P a.contexts (excerpts c.pending) (derived r) k) h.knowledge)
          (included (derived d) refs c a are known covered, tt);
  }

  omit-IsAssembled :
      (x : Ranked) (c : Collected) (a : Assembly) → IsAssembled a → IsAssembled (omit x c a)
  unfolding omit
  omit-IsAssembled x c a h = record {
    entries = h.entries;
    counted = h.counted;
    within = h.within;
    sources = h.sources;
    knowledge = h.knowledge;
  }

  -- how many results are included or omitted
  abbrev pub accounted : Assembly → ℕ
  accounted a = length a.source_results + (length a.knowledge_results + length a.omissions)

  accounted-include :
      (x : Ranked) (c : Collected) (a : Assembly) → accounted (include x c a) ≡ accounted a + 1
  unfolding include
  accounted-include (source s) c a = omega (arith, length-append a.source_results (s ∷ []))
  accounted-include (derived d) c a = omega (arith, length-append a.knowledge_results (d ∷ []))

  accounted-omit :
      (x : Ranked) (c : Collected) (a : Assembly) → accounted (omit x c a) ≡ accounted a + 1
  unfolding omit
  accounted-omit x c a = omega (arith, length-append a.omissions (_ ∷ []))

  next : Ranked → Collected → Assembly → Assembly
  next x c a =
      if ltb query.evidence_budget_bytes (a.bytes_used + c.required)
      then omit x c a
      else include x c a

  next-IsAssembled :
      (x : Ranked) (refs : List ProvenanceReference) (c : Collected) (a : Assembly)
      → IsAssembled a
      → references x ≡ ok refs
      → All P refs
      → IsGathered env query.context_radius P c
      → All (IsCovered env query.context_radius P a.contexts c) refs
      → IsAssembled (next x c a) × (accounted (next x c a) ≡ accounted a + 1)
  unfolding next
  next-IsAssembled x refs c a h are known g covered =
      elim (Bool-cases (ltb query.evidence_budget_bytes (a.bytes_used + c.required))) [
        | inl over ↦ rw over (omit-IsAssembled x c a h, accounted-omit x c a)
        | inr fits ↦ rw fits (
          include-IsAssembled x refs c a h are known g covered (ground (arith, fits)),
          accounted-include x c a,
        )
      ]

  -- What the loop has at its end is exact, counted and within the budget, and every result is
  -- included or omitted.
  pub assemble_each_lem :
      (xs : List Ranked) (a b : Assembly)
      → All Refers xs
      → IsAssembled a
      → assemble_each env query xs a ≡ ok b
      → IsAssembled b × (accounted b ≡ accounted a + length xs)
  unfolding assemble_each next
  assemble_each_lem [] a b refer h e =
      let same = ok_injective e in (subst IsAssembled same h, omega (arith, ap accounted same))
  assemble_each_lem (x ∷ xs) a b refer h e =
      let (refs, are, e1) = bind_ok (references x) _ b e in
      let (c, gathered, e2) =
        bind_ok (collect env query.context_radius a.contexts refs (nothing_pending a)) _ b e1 in
      let (g, covered, grown) =
        collect_lem env query.context_radius P a.contexts refs (nothing_pending a) c
          (record { exact = tt; sized = refl }) (refer.0 refs are) gathered in
      let (h', one) = next-IsAssembled x refs c a h are (refer.0 refs are) g covered in
      let (last, count) = assemble_each_lem xs (next x c a) b refer.1 h' e2 in
      (last, omega (arith, one, count))

  pub nothing_assembled-IsAssembled : IsAssembled nothing_assembled
  nothing_assembled-IsAssembled = record {
    entries = tt;
    counted = refl;
    within = omega arith;
    sources = tt;
    knowledge = tt;
  }
