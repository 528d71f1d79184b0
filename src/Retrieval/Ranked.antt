-- ===== src/Retrieval/Ranked.antt =====
-- The ranked results of retrieval/evidence.py and their references. What the assembler reads and
-- computes outside is in `Sources`.
use Prim.Native.Nat.{Ordering}
use Prim.Native.String.{compare}
use rfi.Common.{ℕ, String, Bool, true, false, List, [], ◌∷◌, ◌==◌, ◌&&◌, ltb, eqb, if◌then◌else◌}
use rfi.Common.Errors.{Attempt, ok, raise, ◌>>=◌}
use rfi.Common.Text.{join}
use rfi.Workspace.State.{Json}
use rfi.Retrieval.Contracts.{
  ResultClass, ProvenanceReference, SourceObject, RetrievalQuery, SourceEvidenceResult,
  DerivedKnowledgeResult, RetrievalTrace, ContextExcerpt,
}

-- `material`
pub record Material : Type 0 where
  pub query : RetrievalQuery
  pub source : List SourceEvidenceResult
  pub knowledge : List DerivedKnowledgeResult
  pub contexts : List ContextExcerpt
  pub trace : RetrievalTrace
  pub omissions : List String
  pub gaps : List String
  pub contradictions : List String

-- The source objects and artifacts that are read, the SHA-256 of bytes in hexadecimal, the decoding
-- of bytes with replacement, the canonical JSON of a payload, a payload as it is printed, and the
-- SHA-256 of the canonical JSON of a package's material.
pub record Sources : Type 0 where
  pub get : String → Attempt SourceObject
  pub read_artifact : String → Attempt (List ℕ)
  pub sha256 : List ℕ → String
  pub decode : List ℕ → String
  pub canonical : Json → String
  pub shown : Json → String
  pub material_sha256 : Material → String

-- `SourceEvidenceResult | DerivedKnowledgeResult`
pub data Ranked : Type 0 where
  source : SourceEvidenceResult → Ranked
  derived : DerivedKnowledgeResult → Ranked

-- what `_identity` returns where it returns
abbrev pub name_of : Ranked → String
name_of (source r) = r.source_object.source_object_id
name_of (derived r) = r.derived_object.object_id

-- `_identity`: the `assert` on the branch of `result_class` fails for a result of the other class.
unfoldable pub identity : Ranked → Attempt String
identity (source r) = elim r.result_class [
  | ResultClass.source_evidence ↦ ok (name_of (source r))
  | ResultClass.derived_knowledge ↦ raise "AssertionError"
]
identity (derived r) = elim r.result_class [
  | ResultClass.source_evidence ↦ raise "AssertionError"
  | ResultClass.derived_knowledge ↦ ok (name_of (derived r))
]

-- the identities that `sorted` computes for its keys, before it compares any of them
unfoldable pub identities : List Ranked → Attempt (List String)
unfolding identity
identities [] = ok []
identities (x ∷ xs) = do name ← identity x; names ← identities xs; ok (name ∷ names)

abbrev pub final_score : Ranked → ℕ
final_score (source r) = r.score.final
final_score (derived r) = r.score.final

-- the order of the sort keys, `(-item.score.final, self._identity(item))`, of results whose
-- identities were computed
unfoldable pub precedes : Ranked → Ranked → Bool
precedes a b =
    if ltb (final_score b) (final_score a)
    then true
    else if ltb (final_score a) (final_score b)
    then false
    else elim (compare (name_of a) (name_of b)) [
      | Ordering.lt ↦ true
      | Ordering.eq ↦ false
      | Ordering.gt ↦ false
    ]

-- `sorted`, which keeps the order of equal keys
unfoldable pub insert_ranked : Ranked → List Ranked → List Ranked
insert_ranked x [] = x ∷ []
insert_ranked x (y ∷ ys) = elim (precedes y x) [
  | true ↦ y ∷ insert_ranked x ys
  | false ↦ x ∷ y ∷ ys
]

unfoldable pub ranked_of : List Ranked → List Ranked
unfolding insert_ranked precedes
ranked_of [] = []
ranked_of (x ∷ xs) = insert_ranked x (ranked_of xs)

-- the key of a context
pub record Key : Type 0 where
  pub artifact_id : String
  pub byte_start : ℕ
  pub byte_end : ℕ
  pub content_sha256 : String

abbrev pub key_of : ProvenanceReference → Key
key_of r = record {
  artifact_id = r.artifact_id;
  byte_start = r.byte_start;
  byte_end = r.byte_end;
  content_sha256 = r.content_sha256;
}

abbrev pub same_key : Key → Key → Bool
same_key a b =
    (a.artifact_id == b.artifact_id)
    && eqb a.byte_start b.byte_start
    && eqb a.byte_end b.byte_end
    && (a.content_sha256 == b.content_sha256)

-- `key in contexts`
abbrev pub has_key {ℓ} : {A : Type ℓ} → Key → List (Key × A) → Bool
has_key k [] = false
has_key k ((j, _) ∷ rest) = if same_key j k then true else has_key k rest

-- `_references`
unfoldable pub references : Ranked → Attempt (List ProvenanceReference)
unfolding join
references (derived r) = elim r.derived_object.provenance [
  | [] ↦ raise (join "derived result has no provenance: " r.derived_object.object_id)
  | p ∷ ps ↦ ok (p ∷ ps)
]
references (source r) = ok (
    record {
      source_object_id = r.source_object.source_object_id;
      document_id = r.source_object.document_id;
      artifact_id = r.source_object.artifact_id;
      byte_start = r.source_object.byte_start;
      byte_end = r.source_object.byte_end;
      content_sha256 = r.source_object.content_sha256;
    }
    ∷ [])
