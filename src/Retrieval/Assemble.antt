-- ===== src/Retrieval/Assemble.antt =====
-- The contexts and the loop of `EvidenceAssembler.assemble` in retrieval/evidence.py.
use rfi.Common.{
  ℕ, ◌+◌, ◌-◌, String, Bool, true, false, none, some, List, [], ◌∷◌, ◌++◌, ◌==◌, ◌&&◌, ◌||◌, ltb,
  leb, eqb, if◌then◌else◌,
}
use rfi.Common.Lists.{length, take, drop}
use rfi.Common.Errors.{Attempt, ok, raise, ◌>>=◌, require, ◌>>◌}
use rfi.Common.Assoc.{Dict, lookup, assign}
use rfi.Common.Text.{join}
use rfi.Retrieval.Contracts.{
  ProvenanceReference, SourceObject, RetrievalQuery, SourceEvidenceResult, DerivedKnowledgeResult,
  ContextExcerpt,
}
use rfi.Retrieval.Ranked.{
  Sources, Ranked, source, derived, name_of, Key, key_of, has_key, references,
}

-- `content[start:end]`
abbrev pub slice : ℕ → ℕ → List ℕ → List ℕ
slice start end_ content = take (end_ - start) (drop start content)

-- `observed == asserted`
abbrev pub is_asserted : SourceObject → ProvenanceReference → Bool
is_asserted s r =
    (s.document_id == r.document_id)
    && (s.artifact_id == r.artifact_id)
    && eqb s.byte_start r.byte_start
    && eqb s.byte_end r.byte_end
    && (s.content_sha256 == r.content_sha256)

abbrev pub min : ℕ → ℕ → ℕ
min a b = if leb a b then a else b

-- an exception of a call, under another text
abbrev pub rename_error {ℓ} : {A : Type ℓ} → String → Attempt A → Attempt A
rename_error text (ok a) = ok a
rename_error text (raise e) = raise text

-- what the loop over a result's references has: `pending`, `required` and the cache
pub record Collected : Type 0 where
  pub pending : List (Key × (ContextExcerpt × ℕ))
  pub required : ℕ
  pub cache : Dict (List ℕ)

-- a context that is neither there nor pending
abbrev pub pend : ProvenanceReference → Collected → (ContextExcerpt × ℕ) × Dict (List ℕ) → Collected
pend r c ((excerpt, size), cache) = record {
  pending = c.pending ++ (key_of r, (excerpt, size)) ∷ [];
  required = c.required + size;
  cache = cache;
}

-- what the loop over the ranked results has
pub record Assembly : Type 0 where
  pub contexts : List (Key × ContextExcerpt)
  pub source_results : List SourceEvidenceResult
  pub knowledge_results : List DerivedKnowledgeResult
  pub omissions : List String
  pub bytes_used : ℕ
  pub cache : Dict (List ℕ)

-- the pending excerpts, as contexts
unfoldable pub excerpts : List (Key × (ContextExcerpt × ℕ)) → List (Key × ContextExcerpt)
excerpts [] = []
excerpts ((k, (excerpt, _)) ∷ rest) = (k, excerpt) ∷ excerpts rest

-- a result with its contexts
unfoldable pub include : Ranked → Collected → Assembly → Assembly
unfolding excerpts
include (source r) c a = record {
  contexts = a.contexts ++ excerpts c.pending;
  source_results = a.source_results ++ r ∷ [];
  knowledge_results = a.knowledge_results;
  omissions = a.omissions;
  bytes_used = a.bytes_used + c.required;
  cache = c.cache;
}
include (derived r) c a = record {
  contexts = a.contexts ++ excerpts c.pending;
  source_results = a.source_results;
  knowledge_results = a.knowledge_results ++ r ∷ [];
  omissions = a.omissions;
  bytes_used = a.bytes_used + c.required;
  cache = c.cache;
}

-- A result that the budget leaves out. `_identity` has returned for it, as a sort key.
unfoldable pub omit : Ranked → Collected → Assembly → Assembly
unfolding join
omit x c a = record a {
  omissions =
      a.omissions
      ++ join (name_of x) " omitted: evidence budget cannot include all provenance context" ∷ [];
  cache = c.cache;
}

abbrev pub nothing_assembled : Assembly
nothing_assembled = record {
  contexts = [];
  source_results = [];
  knowledge_results = [];
  omissions = [];
  bytes_used = 0;
  cache = [];
}

module _ (env : Sources) where
  -- the artifact's bytes, and the cache with them
  unfoldable pub read_cached : String → Dict (List ℕ) → Attempt (List ℕ × Dict (List ℕ))
  unfolding lookup assign join
  read_cached artifact_id cache = elim (lookup artifact_id cache) [
    | some content ↦ ok (content, cache)
    | none ↦ do
      content ←
          rename_error (join "immutable artifact is unavailable: " artifact_id)
            (env.read_artifact artifact_id)
      ok (content, assign artifact_id content cache)
  ]

  -- the excerpt around a verified span, and its size
  unfoldable pub excerpt_of : ProvenanceReference → ℕ → List ℕ → ContextExcerpt × ℕ
  excerpt_of r radius content =
      let start = r.byte_start - radius in
      let stop = min (length content) (r.byte_end + radius) in
      let context = slice start stop content in
      (
        record {
          provenance = r;
          context_byte_start = start;
          context_byte_end = stop;
          text = env.decode context;
          context_sha256 = env.sha256 context;
        },
        length context,
      )

  -- `_context`
  unfoldable pub context :
      ProvenanceReference → ℕ → Dict (List ℕ) → Attempt ((ContextExcerpt × ℕ) × Dict (List ℕ))
  unfolding read_cached excerpt_of join
  context r radius cache = do
    observed ←
        rename_error (join "provenance source object is absent: " r.source_object_id)
          (env.get r.source_object_id)
    require (is_asserted observed r)
        (join "provenance inconsistency for source object: " r.source_object_id)
    read ← read_cached r.artifact_id cache
    require (join "artifact-" (env.sha256 read.0) == r.artifact_id)
        (join "immutable artifact identity mismatch: " r.artifact_id)
    require (env.sha256 (slice r.byte_start r.byte_end read.0) == r.content_sha256)
        (join "exact provenance content mismatch: " r.source_object_id)
    ok (excerpt_of r radius read.0, read.1)

  unfoldable pub collect :
      ℕ → List (Key × ContextExcerpt) → List ProvenanceReference → Collected → Attempt Collected
  unfolding context
  collect radius contexts [] c = ok c
  collect radius contexts (r ∷ rs) c =
      elim (has_key (key_of r) contexts || has_key (key_of r) c.pending) [
        | true ↦ collect radius contexts rs c
        | false ↦ do read ← context r radius c.cache; collect radius contexts rs (pend r c read)
      ]

  -- the loop over the ranked results
  unfoldable pub assemble_each : RetrievalQuery → List Ranked → Assembly → Attempt Assembly
  unfolding references collect include omit
  assemble_each query [] a = ok a
  assemble_each query (x ∷ xs) a = do
    refs ← references x
    c ←
        collect query.context_radius a.contexts refs
          (record { pending = []; required = 0; cache = a.cache })
    assemble_each query xs (
        if ltb query.evidence_budget_bytes (a.bytes_used + c.required)
        then omit x c a
        else include x c a)
