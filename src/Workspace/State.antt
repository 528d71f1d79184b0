-- ===== src/Workspace/State.antt =====
-- The data of workspace/contracts.py and the files of workspace/repository.py.
use rfi.Common.{ℕ, String, Bool, true, false, Option, List}
use rfi.Common.Assoc.{Dict}

pub data InvestigationStatus : Type 0 where
  open_ paused closed : InvestigationStatus

pub data AnnotationKind : Type 0 where
  observation correction follow_up interpretation conclusion : AnnotationKind

-- a JSON value, such as an execution's configuration
mutual
  pub data Json : Type 0 where
    null : Json
    bool : Bool → Json
    number : ℕ → Json
    text : String → Json
    array : Items → Json
    object : Fields → Json

  pub data Items : Type 0 where
    nil : Items
    cons : Json → Items → Items

  pub data Fields : Type 0 where
    end : Fields
    field : String → Json → Fields → Fields

-- The fields that `OperationalMetrics` always has.
pub record OperationalMetrics : Type 0 where
  pub execution_ms : ℕ
  pub evidence_bytes : ℕ
  pub retrieval_count : ℕ
  pub iteration_count : ℕ

-- An event's type with its payload. `record` of a completed execution is what
-- `_execution_projection` returns.
pub data Payload : Type 0 where
  investigation_created :
      (title purpose : String) (customer engagement : Option String) → InvestigationStatus → Payload
  investigation_status : InvestigationStatus → Payload
  operator_annotation :
      (annotation_id : String)
      → AnnotationKind
      → (text : String) (execution_id : Option String) → Payload
  execution_started : (execution_id question : String) (configuration : Json) → Payload
  execution_completed :
      (execution_id intelligence_execution_id : String) (projection : Json)
      → OperationalMetrics
      → Payload
  execution_failed :
      (execution_id : String) (interrupted : Bool) (reason : String)
      (metrics : Option OperationalMetrics)
      → Payload
  investigation_exported : (export_id relative_path sha256 : String) → Payload

-- an event without its hash: `material` of `_append`
pub record Material : Type 0 where
  pub sequence : ℕ
  pub event_id : String
  pub timestamp : String
  pub investigation_id : Option String
  pub payload : Payload
  pub previous_hash : Option String

pub record JournalEvent : Type 0 where
  pub material : Material
  pub open material use *
  pub event_hash : String

-- a file of the journal: `json.loads` reads it or not
pub data EventFile : Type 0 where
  unreadable : EventFile
  readable : JournalEvent → EventFile

-- `workspace.json`: missing, not readable, or its schema version and workspace identity
pub data Metadata : Type 0 where
  missing corrupt : Metadata
  present : (schema_version : ℕ) (workspace_id : String) → Metadata

-- The files under the workspace's root: the journal in the order of its file names, the partial
-- files beside it, the SHA-256 of each other file by its path, and the quarantined partial files.
-- The names of the journal's files are not modelled: each is taken to be the sequence number of its
-- event, as `_append` names it. `verify` reads the files in the order of their names and does not
-- compare a name with the event's number, so that a workspace whose files were renamed is not in the
-- model.
pub record Workspace : Type 0 where
  pub metadata : Metadata
  pub journal : List EventFile
  pub partials : List String
  pub files : Dict String
  pub quarantine : List String

-- The reasons in an integrity report.
pub data Failure : Type 0 where
  metadata_missing unsupported_schema identity_missing metadata_corrupt : Failure
  partial_writes : ℕ → Failure
  unreadable_event : Failure
  sequence_mismatch chain_mismatch digest_mismatch : ℕ → Failure
  export_missing export_digest_mismatch : Failure

pub record IntegrityReport : Type 0 where
  pub valid : Bool
  pub events_checked : ℕ
  pub files_checked : ℕ
  pub open_executions : List String
  pub failures : List Failure

pub record InvestigationSummary : Type 0 where
  pub investigation_id : String
  pub title : String
  pub purpose : String
  pub customer : Option String
  pub engagement : Option String
  pub status : InvestigationStatus
  pub created_at : String
  pub updated_at : String
  pub execution_ids : List String
  pub annotation_ids : List String
  pub export_ids : List String

-- the messages of `WorkspaceError`
pub data WorkspaceError : Type 0 where
  corrupt_journal partial_write unknown_investigation unknown_execution already_terminal :
      WorkspaceError
  blank_investigation bad_annotation unknown_annotated_execution : WorkspaceError
  closed_investigation blank_question question_differs blank_reason : WorkspaceError

pub data Result {ℓ} (A : Type ℓ) : Type ℓ where
  ok : A → Result A
  raise : WorkspaceError → Result A

infixl 5 ◌>>=◌
abbrev pub ◌>>=◌ {ℓ κ} : {A : Type ℓ} {B : Type κ} → Result A → (A → Result B) → Result B
ok a >>= f = f a
raise e >>= f = raise e

abbrev pub guard : Bool → WorkspaceError → Result (Unit {0})
guard b e = elim b [ true ↦ ok tt | false ↦ raise e ]

infixl 5 ◌>>◌
abbrev pub ◌>>◌ {ℓ} : {B : Type ℓ} → Result (Unit {0}) → Result B → Result B
m >> k = m >>= λ _. k
