-- ===== src/Intelligence/Gateway.antt =====
-- `PackageGateway` of intelligence/orchestration.py: the packages that the assembler of
-- retrieval/evidence.py makes, and `_validate_package`.
use rfi.Common.Lists.{Any-map}
use rfi.Common.{ℕ, ◌≡◌, refl, sym, ap, ◌∙◌, true, List, [], ◌∷◌, arith, leb, Bool-cases, inl, inr}
use mathlib.Core.Path.{subst}
use text.Mathlib.TextEquality.{starts_with_iff}
use rfi.Common.Lists.{All, All-map, All-both, Any, List-cases}
use rfi.Common.Errors.{Attempt, ok, raise, ◌>>=◌, bind_ok, ok_injective, raise_not_ok}
use rfi.Common.Text.{join}
use rfi.Retrieval.Contracts.{
  ProvenanceReference, SourceEvidenceResult, DerivedKnowledgeResult, RetrievalQuery,
  RetrievalResponse, ContextExcerpt, EvidencePackage,
}
use rfi.Retrieval.Ranked.{
  Sources, Ranked, source, derived, Key, key_of, same_key, has_key, references,
}
use rfi.Retrieval.Assemble.{Assembly}
use rfi.Retrieval.Package.{contexts_of, package_of, assemble}
use rfi.Retrieval.Exact.{IsEntry}
use rfi.Retrieval.Included.{HasContexts, IsAssembled, Refers}
use rfi.Retrieval.Bounded.{results_of, assembled}
use rfi.Intelligence.Contracts.{RetrievalStep}
use rfi.Intelligence.Equal.{same_query}
use rfi.Intelligence.Checks.{
  same_reference, in_contexts, check_sources, check_provenance, check_knowledge, validate_package,
}

-- `PackageGateway.retrieve`, for the call with the number
unfoldable pub gateway :
    Sources
    → (ℕ → RetrievalQuery → Attempt RetrievalResponse)
    → ℕ
    → RetrievalQuery
    → Attempt EvidencePackage
unfolding assemble
gateway env retrieve calls query = do response ← retrieve calls query; assemble env response

-- the reference is one of the response's results
abbrev pub IsReferredTo : RetrievalResponse → Sources → ProvenanceReference → Type 0
IsReferredTo response env r =
    Any (λ x. (refs : List ProvenanceReference) × (references x ≡ ok refs) × Any (λ s. s ≡ r) refs)
      (results_of env response)

-- References of the response with the same span are the same reference.
abbrev pub AreTold : RetrievalResponse → Sources → Type 0
AreTold response env =
    (r s : ProvenanceReference)
    → IsReferredTo response env r
    → IsReferredTo response env s
    → same_key (key_of r) (key_of s) ≡ true
    → same_reference r s ≡ true

All-Any : {A : Type 0} (xs : List A) → All (λ x. Any (λ y. y ≡ x) xs) xs
All-Any [] = tt
All-Any (x ∷ xs) = (inl refl, All-map _ _ xs (λ y h. inr h) (All-Any xs))

All-IsReferredTo :
    (response : RetrievalResponse) (env : Sources)
    → All (Refers env response.trace.query (IsReferredTo response env)) (results_of env response)
All-IsReferredTo response env =
    All-map _ _ (results_of env response)
      (λ x here refs are.
        All-map _ _ refs
          (λ r among.
            Any-map _ _ (results_of env response)
              (λ y same. (refs, ap references same ∙ are, among)) here)
          (All-Any refs))
      (All-Any (results_of env response))

references-nil :
    (d : DerivedKnowledgeResult)
    → d.derived_object.provenance ≡ []
    → references (derived d)
      ≡ raise (join "derived result has no provenance: " d.derived_object.object_id)
unfolding references
references-nil d e = rw (e, references) refl

references-cons :
    (d : DerivedKnowledgeResult) (p : ProvenanceReference) (ps : List ProvenanceReference)
    → d.derived_object.provenance ≡ p ∷ ps
    → references (derived d) ≡ ok (p ∷ ps)
unfolding references
references-cons d p ps e = rw (e, references) refl

module _ (env : Sources) (response : RetrievalResponse) (told : AreTold response env) where
  abbrev Known : ProvenanceReference → Type 0
  Known r = IsReferredTo response env r

  has_key-in_contexts :
      (r : ProvenanceReference) (entries : List (Key × ContextExcerpt))
      → Known r
      → All (IsEntry env response.trace.query.context_radius Known) entries
      → has_key (key_of r) entries ≡ true
      → in_contexts r (contexts_of entries) ≡ true
  has_key-in_contexts r [] k h e = cc
  has_key-in_contexts r ((j, c) ∷ rest) k h e = elim (Bool-cases (same_key j (key_of r))) [
    | inl same ↦
        let told_ =
          told c.provenance r h.0.1 k (sym (ap (λ i. same_key i (key_of r)) h.0.0) ∙ same) in
        ground (arith, told_)
    | inr other ↦
        let later = has_key-in_contexts r rest k h.1 (ground (arith, e, other)) in
        ground (arith, later)
  ]

  backed :
      (a : Assembly) (x : Ranked)
      → IsAssembled env response.trace.query Known a
      → (h : HasContexts Known a.contexts x)
      → All (λ r. in_contexts r (contexts_of a.contexts) ≡ true) h.refs
  backed a x is h =
      All-map _ _ h.refs (λ r k. has_key-in_contexts r a.contexts k.0 is.entries k.1)
        (All-both _ _ h.refs h.known h.there)

  check_sources_lem :
      (a : Assembly) (results : List SourceEvidenceResult)
      → IsAssembled env response.trace.query Known a
      → All (λ s. HasContexts Known a.contexts (source s)) results
      → check_sources (contexts_of a.contexts) results ≡ ok tt
  unfolding check_sources references
  check_sources_lem a [] is h = refl
  check_sources_lem a (s ∷ results) is h =
      let one = ok_injective h.0.are in
      let there =
        (subst (All (λ r. in_contexts r (contexts_of a.contexts) ≡ true)) (sym one)
          (backed a (source s) is h.0)).0 in
      rw there (check_sources_lem a results is h.1)

  check_provenance_lem :
      (contexts : List ContextExcerpt) (items : List ProvenanceReference)
      → All (λ r. in_contexts r contexts ≡ true) items
      → check_provenance contexts items ≡ ok tt
  unfolding check_provenance
  check_provenance_lem contexts [] h = refl
  check_provenance_lem contexts (item ∷ items) h =
      rw (h.0) (check_provenance_lem contexts items h.1)

  check_knowledge_lem :
      (a : Assembly) (results : List DerivedKnowledgeResult)
      → IsAssembled env response.trace.query Known a
      → All (λ d. HasContexts Known a.contexts (derived d)) results
      → check_knowledge (contexts_of a.contexts) results ≡ ok tt
  unfolding check_knowledge
  check_knowledge_lem a [] is h = refl
  check_knowledge_lem a (d ∷ results) is h = elim (List-cases d.derived_object.provenance) [
    | inl none_given ↦
        absurd (raise_not_ok _ h.0.refs (sym (references-nil d none_given) ∙ h.0.are))
    | inr (p, ps, given) ↦
        let one = ok_injective (sym h.0.are ∙ references-cons d p ps given) in
        let there =
          subst (All (λ r. in_contexts r (contexts_of a.contexts) ≡ true)) one
            (backed a (derived d) is h.0) in
        rw given (
          rw (check_provenance_lem (contexts_of a.contexts) (p ∷ ps) there)
            (check_knowledge_lem a results is h.1))
  ]

  package_of-accepted :
      (a : Assembly) (step : RetrievalStep)
      → IsAssembled env response.trace.query Known a
      → same_query response.trace.query step.query ≡ true
      → response.trace.failures ≡ []
      → validate_package (package_of env response a) step ≡ ok tt
  unfolding validate_package package_of join
  package_of-accepted a step is query clean =
      let sources = check_sources_lem a a.source_results is is.sources in
      let knowledge = check_knowledge_lem a a.knowledge_results is is.knowledge in
      let named =
        (starts_with_iff (package_of env response a).package_id "evidence-package-").1 (_, refl) in
      let within : leb a.bytes_used response.trace.query.evidence_budget_bytes ≡ true =
        let h = is.within in ground (arith, h) in
      rw (query, named, clean, within, sources, knowledge) refl

  -- Where the retrieval answers with a response to the step's query that reports no failure, and the
  -- references of its results are told apart by their spans, a package that the gateway returns
  -- passes `_validate_package` for the step.
  pub gateway-accepted :
      (retrieve : ℕ → RetrievalQuery → Attempt RetrievalResponse) (calls : ℕ) (step : RetrievalStep)
      (p : EvidencePackage)
      → retrieve calls step.query ≡ ok response
      → same_query response.trace.query step.query ≡ true
      → response.trace.failures ≡ []
      → gateway env retrieve calls step.query ≡ ok p
      → validate_package p step ≡ ok tt
  unfolding gateway
  gateway-accepted retrieve calls step p answered query clean e =
      let (found, got, e1) = bind_ok (retrieve calls step.query) (λ x. assemble env x) p e in
      let same : found ≡ response = ok_injective (sym got ∙ answered) in
      let (a, is, count, whole, answers) =
        assembled env response Known p (All-IsReferredTo response env)
          (subst (λ x. assemble env x ≡ ok p) same e1) in
      subst (λ q. validate_package q step ≡ ok tt) whole (package_of-accepted a step is query clean)
