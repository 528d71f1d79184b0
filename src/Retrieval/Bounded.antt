-- ===== src/Retrieval/Bounded.antt =====
-- What the packages of `assemble` in retrieval/evidence.py have.
use rfi.Common.{
  ℕ, ◌+◌, ◌≤◌, ◌≡◌, refl, sym, ap, ◌∙◌, true, List, [], ◌∷◌, ◌++◌, map, inl, inr, arith, Bool-cases,
}
use mathlib.Core.Path.{subst}
use rfi.Common.Lists.{length, length-append, length-map, All, All-map, Any}
use rfi.Common.Errors.{ok, bind_ok, ok_injective}
use rfi.Retrieval.Contracts.{
  ProvenanceReference, RetrievalResponse, ContextExcerpt, EvidencePackage,
}
use rfi.Retrieval.Ranked.{
  Sources, Ranked, source, derived, ranked_of, identities, Key, key_of, same_key, has_key,
  references,
}
use rfi.Retrieval.Assemble.{Assembly, assemble_each, nothing_assembled}
use rfi.Retrieval.Package.{contexts_of, package_of, assemble}
use rfi.Retrieval.Exact.{IsExact, IsEntry, size_of, total_size}
use rfi.Retrieval.Answered.{IsAnswered, Answers, All-of_ranked_of, assemble_each-Answers}
use rfi.Retrieval.Included.{
  length-ranked_of, All-ranked_of, HasContexts, IsAssembled, Refers, accounted, assemble_each_lem,
  nothing_assembled-IsAssembled,
}

-- the bytes of the contexts
abbrev pub context_bytes : List ContextExcerpt → ℕ
context_bytes [] = 0
context_bytes (c ∷ cs) = size_of c + context_bytes cs

context_bytes-contexts_of :
    (entries : List (Key × ContextExcerpt))
    → context_bytes (contexts_of entries) ≡ total_size entries
context_bytes-contexts_of [] = refl
context_bytes-contexts_of ((_, c) ∷ rest) = ap (λ n. size_of c + n) (context_bytes-contexts_of rest)

module _ (env : Sources) (response : RetrievalResponse) where
  -- the results that are ranked
  abbrev pub results_of : List Ranked
  results_of = map source response.source_results ++ map derived response.knowledge_results

  -- The package is that of an assembly that has gone through every result.
  pub assembled :
      (P : ProvenanceReference → Type 0) (p : EvidencePackage)
      → All (Refers env response.trace.query P) results_of
      → assemble env response ≡ ok p
      → (a : Assembly) × IsAssembled env response.trace.query P a
        × (accounted env response.trace.query P a ≡ length results_of)
        × (package_of env response a ≡ p)
        × All (Answers a) results_of
  unfolding assemble
  assembled P p refers e =
      let (names, named, rest) = bind_ok (identities results_of) _ p e in
      let (a, ends, made) =
        bind_ok (assemble_each env response.trace.query (ranked_of results_of) nothing_assembled) _
          p rest in
      let (is, count) =
        assemble_each_lem env response.trace.query P (ranked_of results_of) nothing_assembled a
          (All-ranked_of (Refers env response.trace.query P) results_of refers)
          (nothing_assembled-IsAssembled env response.trace.query P) ends in
      (
        a,
        is,
        omega (arith, count, length-ranked_of results_of),
        ok_injective made,
        All-of_ranked_of (Answers a) results_of
            (assemble_each-Answers env response.trace.query (ranked_of results_of) nothing_assembled
              a ends).0,
      )

  abbrev Anything : ProvenanceReference → Type 0
  Anything r = Unit

  All-Anything : (rs : List ProvenanceReference) → All Anything rs
  All-Anything [] = tt
  All-Anything (r ∷ rs) = (tt, All-Anything rs)

  All-Refers : (xs : List Ranked) → All (Refers env response.trace.query Anything) xs
  All-Refers [] = tt
  All-Refers (x ∷ xs) = (λ refs e. All-Anything refs, All-Refers xs)

  -- each result of the response is in the package, or an omission of the package names it
  abbrev pub IsAccountedFor : EvidencePackage → Type 0
  IsAccountedFor p =
      All (λ x. IsAnswered p.source_evidence p.derived_knowledge p.omissions x) results_of

  -- Where `assemble` returns a package, its context bytes are within its budget, which is the
  -- query's, and they are what its contexts have together. Each result of the response is in the
  -- package, or the package has the omission with the result's identity that says so, and the
  -- results in the package and the omissions are together as many as the response's results.
  pub assemble-bounded :
      (p : EvidencePackage)
      → assemble env response ≡ ok p
      → (p.bytes_used ≤ p.byte_budget)
        × (p.byte_budget ≡ response.trace.query.evidence_budget_bytes)
        × (p.bytes_used ≡ context_bytes p.contexts)
        × (length p.source_evidence + (length p.derived_knowledge + length p.omissions)
            ≡ length response.source_results + length response.knowledge_results)
        × IsAccountedFor p
  unfolding package_of
  assemble-bounded p e =
      let (a, is, count, whole, answers) = assembled Anything p (All-Refers results_of) e in
      let sources = length-map source response.source_results in
      let knowledge = length-map derived response.knowledge_results in
      let both =
        length-append (map source response.source_results)
          (map derived response.knowledge_results) in
      subst
        (λ (q : EvidencePackage).
          (q.bytes_used ≤ q.byte_budget)
          × (q.byte_budget ≡ response.trace.query.evidence_budget_bytes)
          × (q.bytes_used ≡ context_bytes q.contexts)
          × (length q.source_evidence + (length q.derived_knowledge + length q.omissions)
              ≡ length response.source_results + length response.knowledge_results)
          × IsAccountedFor q)
        whole
        (
          is.within,
          refl,
          is.counted ∙ sym (context_bytes-contexts_of a.contexts),
          omega (arith, count, sources, knowledge, both),
          answers,
        )

  -- a context of the reference's span, cut exactly around it
  abbrev pub IsContextOf : ProvenanceReference → ContextExcerpt → Type 0
  IsContextOf r c =
      (same_key (key_of c.provenance) (key_of r) ≡ true)
      × IsExact env response.trace.query.context_radius c

  found-IsContextOf :
      (P : ProvenanceReference → Type 0) (r : ProvenanceReference)
      (entries : List (Key × ContextExcerpt))
      → All (IsEntry env response.trace.query.context_radius P) entries
      → has_key (key_of r) entries ≡ true
      → Any (IsContextOf r) (contexts_of entries)
  found-IsContextOf P r [] h m = cc
  found-IsContextOf P r ((k, c) ∷ rest) h m = elim (Bool-cases (same_key k (key_of r))) [
    | inl same ↦ inl (sym (ap (λ j. same_key j (key_of r)) h.0.0) ∙ same, h.0.2)
    | inr other ↦ inr (found-IsContextOf P r rest h.1 (ground (arith, m, other)))
  ]

  -- the result has references, and the package a context of each
  pub record IsGrounded (p : EvidencePackage) (x : Ranked) : Type 0 where
    pub refs : List ProvenanceReference
    pub are : references x ≡ ok refs
    pub backed : All (λ r. Any (IsContextOf r) p.contexts) refs

  included-IsGrounded :
      (P : ProvenanceReference → Type 0) (a : Assembly) (x : Ranked)
      → IsAssembled env response.trace.query P a
      → HasContexts P a.contexts x
      → IsGrounded (package_of env response a) x
  unfolding package_of
  included-IsGrounded P a x is has = record {
    refs = has.refs;
    are = has.are;
    backed = All-map _ _ has.refs (λ r m. found-IsContextOf P r a.contexts is.entries m) has.there;
  }

  -- Where `assemble` returns a package, every result in it has references, and for each of them
  -- the package has a context that is cut, with the query's radius, around the span of an artifact
  -- whose digest is its identity, where the span has the digest that the reference asserts and
  -- the source object that the context names has this span.
  pub assemble-IsGrounded :
      (p : EvidencePackage)
      → assemble env response ≡ ok p
      → All (λ r. IsGrounded p (source r)) p.source_evidence
        × All (λ r. IsGrounded p (derived r)) p.derived_knowledge
  unfolding package_of
  assemble-IsGrounded p e =
      let (a, is, count, whole, answers) = assembled Anything p (All-Refers results_of) e in
      subst
        (λ (q : EvidencePackage).
          All (λ r. IsGrounded q (source r)) q.source_evidence
          × All (λ r. IsGrounded q (derived r)) q.derived_knowledge)
        whole
        (
          All-map _ _ a.source_results (λ r h. included-IsGrounded Anything a (source r) is h)
              is.sources,
          All-map _ _ a.knowledge_results (λ r h. included-IsGrounded Anything a (derived r) is h)
              is.knowledge,
        )
