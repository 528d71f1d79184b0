-- ===== src/Retrieval/Sample.antt =====
-- A response of one mail and one claim, and what reads them.
use rfi.Common.{ℕ, String, false, none, List, [], ◌∷◌, ◌==◌, if◌then◌else◌}
use rfi.Common.Errors.{ok, raise}
use rfi.Common.Text.{join, decimal}
use rfi.Workspace.State.{Json}
use rfi.Retrieval.Contracts.{
  ResultClass, KnowledgeStatus, SourceObject, DerivedObject, RetrievalQuery, Score,
  RetrievalResponse, EvidencePackage,
}
use rfi.Retrieval.Ranked.{Sources}
use rfi.Retrieval.Assemble.{excerpt_of}
use rfi.Retrieval.Package.{package_of}

-- the bytes as digits, in the place of a digest
abbrev pub digits : List ℕ → String
digits [] = ""
digits (b ∷ bs) = join (decimal b) (digits bs)

abbrev pub mail : SourceObject
mail = record {
  source_object_id = "message-1";
  document_id = "document-1";
  artifact_id = "artifact-12345";
  kind = "email";
  role = "body";
  ordinal = 0;
  byte_start = 1;
  byte_end = 3;
  content_sha256 = "23";
  parent_id = none;
  attributes = [];
}

-- one artifact of five bytes, and a mail in it with its only part
abbrev pub env : Sources
env = record {
  get = λ i.
      if i == "message-1"
      then ok mail
      else if i == "part-1"
      then ok (record mail { source_object_id = "part-1" })
      else raise "absent";
  read_artifact =
      λ i. if i == "artifact-12345" then ok (1 ∷ 2 ∷ 3 ∷ 4 ∷ 5 ∷ []) else raise "absent";
  sha256 = digits;
  decode = digits;
  canonical = λ j. "{}";
  shown = λ j. "{}";
  material_sha256 = λ m. "0";
}

abbrev pub query : RetrievalQuery
query = record {
  text = "what changed";
  result_classes = ResultClass.source_evidence ∷ ResultClass.derived_knowledge ∷ [];
  constraints = record {
    document_ids = [];
    artifact_ids = [];
    entity_ids = [];
    document_types = [];
    source_kinds = [];
    source_roles = [];
    knowledge_types = [];
    knowledge_statuses = [];
    period_from = none;
    period_to = none;
    unsupported = [];
  };
  max_results = 10;
  candidate_limit = 50;
  context_radius = 1;
  evidence_budget_bytes = 4;
  minimum_score = 0;
}

abbrev pub score : ℕ → Score
score n = record { vector = n; lexical = n; final = n }

-- an uncertain claim on the same span of the mail
abbrev pub claim : DerivedObject
claim = record {
  object_id = "claim-1";
  version_id = "version-1";
  object_type = "change";
  semantic_key = "k";
  payload = Json.null;
  status = KnowledgeStatus.uncertain;
  confidence = 1;
  provenance =
      record {
        source_object_id = "message-1";
        document_id = "document-1";
        artifact_id = "artifact-12345";
        byte_start = 1;
        byte_end = 3;
        content_sha256 = "23";
      }
      ∷ [];
  derivation_id = "derivation-1";
  supersedes_version_id = none;
  annotations = [];
}

abbrev pub response : ℕ → RetrievalResponse
response budget = record {
  source_results =
      record {
        result_class = ResultClass.source_evidence;
        source_object = mail;
        score = score 2;
        rationale = [];
        metadata = [];
      }
      ∷ [];
  knowledge_results =
      record {
        result_class = ResultClass.derived_knowledge;
        derived_object = claim;
        score = score 3;
        rationale = [];
        metadata = [];
      }
      ∷ [];
  trace = record {
    trace_id = "trace-1";
    index_generation_id = "generation-1";
    authority_fingerprint = "fingerprint-1";
    query = record query { evidence_budget_bytes = budget };
    decisions = [];
    failures = [];
    coverage_notes = [];
    truncated = false;
  };
}

-- the mail and the claim, which share a context
abbrev pub assembled_mail : EvidencePackage
assembled_mail = package_of env (response 4) (record {
  contexts =
      (
        record {
          artifact_id = "artifact-12345";
          byte_start = 1;
          byte_end = 3;
          content_sha256 = "23";
        },
        (excerpt_of env
            (record {
              source_object_id = "message-1";
              document_id = "document-1";
              artifact_id = "artifact-12345";
              byte_start = 1;
              byte_end = 3;
              content_sha256 = "23";
            })
            1 (1 ∷ 2 ∷ 3 ∷ 4 ∷ 5 ∷ [])).0,
      )
      ∷ [];
  source_results = (response 4).source_results;
  knowledge_results = (response 4).knowledge_results;
  omissions = [];
  bytes_used = 4;
  cache = [];
})
