-- ===== src/Retrieval/Package.antt =====
-- `assemble` of retrieval/evidence.py: the package made from what the loop has.
use rfi.Common.Lists.{is_empty}
use rfi.Common.{String, Bool, true, false, List, [], ◌∷◌, ◌++◌, ◌==◌, ◌&&◌, not, map, if◌then◌else◌}
use rfi.Common.Lists.{mem}
use rfi.Common.Sorting.{sorted_set, unique}
use rfi.Common.Errors.{Attempt, ok, ◌>>=◌}
use rfi.Common.Text.{join}
use rfi.Retrieval.Contracts.{
  KnowledgeStatus, DerivedObject, DerivedKnowledgeResult, RetrievalResponse, ContextExcerpt,
  EvidencePackage,
}
use rfi.Retrieval.Ranked.{Material, Sources, source, derived, ranked_of, identities, Key}
use rfi.Retrieval.Assemble.{Assembly, assemble_each, nothing_assembled}

abbrev pub is_conflicted : KnowledgeStatus → Bool
is_conflicted KnowledgeStatus.conflicted = true
is_conflicted _ = false

-- `{KnowledgeStatus.UNCERTAIN, KnowledgeStatus.CONFLICTED}`, with the value of the status
abbrev pub open_status : KnowledgeStatus → List String
open_status KnowledgeStatus.uncertain = "uncertain" ∷ []
open_status KnowledgeStatus.conflicted = "conflicted" ∷ []
open_status _ = []

-- the payloads of the results with one type and semantic key, as `grouped` has them
pub record Grouped : Type 0 where
  pub object_type : String
  pub semantic_key : String
  pub payloads : List String

abbrev pub is_group_of : DerivedObject → Grouped → Bool
is_group_of item g = (g.object_type == item.object_type) && (g.semantic_key == item.semantic_key)

-- `len(payloads) > 1`: more than one distinct text
abbrev pub compete : List String → Bool
compete [] = false
compete (p ∷ ps) = if mem p ps then compete ps else not (is_empty ps)

abbrev pub omission_gap : List String → List String
omission_gap [] = []
omission_gap (_ ∷ _) = "evidence budget excluded one or more otherwise selected results" ∷ []

abbrev pub contexts_of : List (Key × ContextExcerpt) → List ContextExcerpt
contexts_of [] = []
contexts_of ((_, c) ∷ rest) = c ∷ contexts_of rest

module _ (env : Sources) where
  -- `grouped.setdefault(key, []).append(result)`
  unfoldable pub put_in_group : DerivedObject → List Grouped → List Grouped
  put_in_group item [] =
      record {
        object_type = item.object_type;
        semantic_key = item.semantic_key;
        payloads = env.canonical item.payload ∷ [];
      }
      ∷ []
  put_in_group item (g ∷ gs) = elim (is_group_of item g) [
    | true ↦ record g { payloads = g.payloads ++ env.canonical item.payload ∷ [] } ∷ gs
    | false ↦ g ∷ put_in_group item gs
  ]

  unfoldable pub group_results : List DerivedKnowledgeResult → List Grouped → List Grouped
  unfolding put_in_group
  group_results [] gs = gs
  group_results (r ∷ rs) gs = group_results rs (put_in_group r.derived_object gs)

  -- the conflicted results
  unfoldable pub conflicted_of : List DerivedKnowledgeResult → List String
  unfolding join
  conflicted_of [] = []
  conflicted_of (r ∷ rs) =
      let item = r.derived_object in
      let rest = conflicted_of rs in
      if is_conflicted item.status
      then join item.object_id (join " is explicitly conflicted: " (env.shown item.payload)) ∷ rest
      else rest

  unfoldable pub competing_of : List Grouped → List String
  unfolding join
  competing_of [] = []
  competing_of (g ∷ gs) =
      let rest = competing_of gs in
      if compete g.payloads
      then join "competing derived assertions for " (join g.object_type (join " " g.semantic_key))
        ∷ rest
      else rest

  -- `_contradictions`
  unfoldable pub contradictions_of : List DerivedKnowledgeResult → List String
  unfolding group_results conflicted_of competing_of sorted_set
  contradictions_of rs = sorted_set (conflicted_of rs ++ competing_of (group_results rs []))

  -- the gaps that the status of a result makes
  unfoldable pub status_gaps : List DerivedKnowledgeResult → List String
  unfolding join
  status_gaps [] = []
  status_gaps (r ∷ rs) =
      let item = r.derived_object in
      elim (open_status item.status) [
        | [] ↦ status_gaps rs
        | value ∷ _ ↦
            join item.object_id (join " has " (join value " interpretive status")) ∷ status_gaps rs
      ]

  -- the package of what was assembled
  unfoldable pub package_of : RetrievalResponse → Assembly → EvidencePackage
  unfolding contradictions_of status_gaps unique join
  package_of response a =
      let gaps = unique (
        response.trace.coverage_notes
        ++ (omission_gap a.omissions ++ status_gaps a.knowledge_results)) in
      let contradictions = contradictions_of a.knowledge_results in
      let material : Material = record {
        query = response.trace.query;
        source = a.source_results;
        knowledge = a.knowledge_results;
        contexts = contexts_of a.contexts;
        trace = response.trace;
        omissions = a.omissions;
        gaps = gaps;
        contradictions = contradictions;
      } in
      record {
        package_id = join "evidence-package-" (env.material_sha256 material);
        query = response.trace.query;
        source_evidence = a.source_results;
        derived_knowledge = a.knowledge_results;
        contexts = contexts_of a.contexts;
        trace = response.trace;
        omissions = a.omissions;
        coverage_gaps = gaps;
        contradictions = contradictions;
        complete = is_empty a.omissions && (is_empty gaps && is_empty response.trace.failures);
        byte_budget = response.trace.query.evidence_budget_bytes;
        bytes_used = a.bytes_used;
      }

  -- `assemble`
  unfoldable pub assemble : RetrievalResponse → Attempt EvidencePackage
  unfolding identities ranked_of assemble_each package_of
  assemble response = do
    names ←
        identities (map source response.source_results ++ map derived response.knowledge_results)
    a ←
        assemble_each env response.trace.query
          (ranked_of (map source response.source_results ++ map derived response.knowledge_results))
          nothing_assembled
    ok (package_of response a)
