-- ===== src/Workspace/Safety.antt =====
-- What holds of the journal of workspace/repository.py after any sequence of operations.
use rfi.Common.Text.{is_blank, strip}
use rfi.Common.{
  arith, ◌≤◌, String, ◌≡◌, inl, inr, refl, Bool, true, Option, none, some, [], not, ◌==◌,
}
use rfi.Common.Assoc.{Dict}
use rfi.Common.Text.{strip}
use rfi.Workspace.State.{
  InvestigationStatus, AnnotationKind, Json, OperationalMetrics, Payload, Material, Metadata,
  Workspace, WorkspaceError, Result, guard,
}
use rfi.Workspace.Redact.{redact}
use rfi.Workspace.Verify.{
  check_export, check_metadata, check_chain, check_exports, raw_events, terminal_id, raw_of,
  has_terminal, verify,
}
use rfi.Workspace.Journal.{Stamp, append}
use rfi.Workspace.Operations
use rfi.Workspace.Operations.{
  ExecutionRecord, checked, append_and_read, append_and_name, started_execution, check_open,
  question_of, creation_checks, creation, must_exist, annotation_checks, start_checks,
  terminal_checks,
}
use rfi.Workspace.Lifecycle.{
  bind_ok, has_started, terminals, IsSound, append-IsSound, checked-IsSound, began, still_open,
}

-- One call of an operation, with any arguments.
pub data Step (digest : Material → String) (lower : String → String)
    : Workspace → Workspace → Type 0 where
  create :
      (stamp : Stamp) (k title purpose : String) (customer engagement : Option String)
      (ws : Workspace)
      → Step digest lower ws
          (Operations.create_investigation digest stamp k title purpose customer engagement ws).1
  change_status :
      (stamp : Stamp) (k : String) (status : InvestigationStatus) (ws : Workspace)
      → Step digest lower ws (Operations.set_status digest stamp k status ws).1
  annotate :
      (stamp : Stamp) (a k : String) (kind : AnnotationKind) (text : String)
      (execution_id : Option String) (ws : Workspace)
      → Step digest lower ws
          (Operations.add_annotation digest stamp a k kind text execution_id ws).1
  begin :
      (stamp : Stamp) (x k question : String) (configuration : Json) (ws : Workspace)
      → Step digest lower ws
          (Operations.begin_execution digest lower stamp x k question configuration ws).1
  complete :
      (stamp : Stamp) (k x : String) (finished : ExecutionRecord) (metrics : OperationalMetrics)
      (ws : Workspace)
      → Step digest lower ws (Operations.complete_execution digest stamp k x finished metrics ws).1
  fail :
      (stamp : Stamp) (k x reason : String) (interrupted : Bool)
      (metrics : Option OperationalMetrics) (ws : Workspace)
      → Step digest lower ws
          (Operations.fail_execution digest stamp k x reason interrupted metrics ws).1

-- The workspaces that calls lead to from a given one.
pub data Reach (digest : Material → String) (lower : String → String) (start : Workspace)
    : Workspace → Type 0 where
  here : Reach digest lower start start
  after :
      {ws ws' : Workspace}
      → Reach digest lower start ws
      → Step digest lower ws ws'
      → Reach digest lower start ws'

-- a workspace just made: the metadata file and nothing else
abbrev pub fresh : Metadata → Workspace
fresh metadata = record {
  metadata = metadata;
  journal = [];
  partials = [];
  files = [];
  quarantine = [];
}

module _ (digest : Material → String) where
  -- a payload that ends no execution and names no export
  abbrev IsHarmless : Payload → Type 0
  IsHarmless payload =
      (terminal_id payload ≡ none) × ((files : Dict String) → check_export files payload ≡ [])

  named-IsSound :
      (checks : Result (Unit {0})) (stamp : Stamp) (k name : String) (payload : Payload)
      (ws : Workspace)
      → IsHarmless payload
      → IsSound digest ws
      → IsSound digest (checked digest checks (append_and_name digest stamp k name payload) ws).1
  named-IsSound checks stamp k name payload ws (ends, there) h =
      checked-IsSound digest checks (append_and_name digest stamp k name payload) ws h
        (λ passed. append-IsSound digest stamp k payload ws h (there ws.files) (inl ends))

  read-IsSound :
      (checks : Result (Unit {0})) (stamp : Stamp) (k : String) (payload : Payload) (ws : Workspace)
      → IsHarmless payload
      → IsSound digest ws
      → IsSound digest (checked digest checks (append_and_read digest stamp k payload) ws).1
  read-IsSound checks stamp k payload ws (ends, there) h =
      checked-IsSound digest checks (append_and_read digest stamp k payload) ws h
        (λ passed. append-IsSound digest stamp k payload ws h (there ws.files) (inl ends))

  terminal-IsSound :
      (stamp : Stamp) (k x : String) (last : Payload → Result (Unit {0})) (payload : Payload)
      (ws : Workspace)
      → terminal_id payload ≡ some x
      → check_export ws.files payload ≡ []
      → IsSound digest ws
      → IsSound digest
          (checked digest (terminal_checks digest k x last ws) (append digest stamp k payload) ws).1
  terminal-IsSound stamp k x last payload ws ends there h =
      checked-IsSound digest (terminal_checks digest k x last ws) (append digest stamp k payload) ws
        h
        (λ passed.
          let (started, found, more) = bind_ok (started_execution digest k x ws) _ tt passed in
          let (u, unended, rest) = bind_ok (check_open digest x ws) (λ u. last started) tt more in
          append-IsSound digest stamp k payload ws h there
            (inr (x, ends, still_open digest x ws unended, began digest k x ws started found)))

module _ (digest : Material → String) (lower : String → String) where
  step-IsSound :
      {ws ws' : Workspace} → Step digest lower ws ws' → IsSound digest ws → IsSound digest ws'
  unfolding Operations.create_investigation Operations.set_status Operations.add_annotation
      Operations.begin_execution Operations.complete_execution Operations.fail_execution
      check_export
  step-IsSound (create stamp k title purpose customer engagement ws) h =
      read-IsSound digest (creation_checks digest title purpose) stamp k
        (creation digest title purpose customer engagement) ws (refl, λ files. refl) h
  step-IsSound (change_status stamp k status ws) h =
      read-IsSound digest (must_exist digest k ws) stamp k (Payload.investigation_status status) ws
        (refl, λ files. refl) h
  step-IsSound (annotate stamp a k kind text execution_id ws) h =
      named-IsSound digest (annotation_checks digest k text execution_id ws) stamp k a
        (Payload.operator_annotation a kind (strip text) execution_id) ws (refl, λ files. refl) h
  step-IsSound (begin stamp x k question configuration ws) h =
      named-IsSound digest (start_checks digest k question ws) stamp k x
        (Payload.execution_started x (strip question) (redact lower configuration)) ws
        (refl, λ files. refl) h
  step-IsSound (complete stamp k x finished metrics ws) h =
      terminal-IsSound digest stamp k x
        (λ started.
          guard (finished.question == question_of started) WorkspaceError.question_differs)
        (Payload.execution_completed x finished.execution_id finished.projection metrics) ws refl
        refl h
  step-IsSound (fail stamp k x reason interrupted metrics ws) h =
      terminal-IsSound digest stamp k x
        (λ started. guard (not (is_blank reason)) WorkspaceError.blank_reason)
        (Payload.execution_failed x interrupted (strip reason) metrics) ws refl refl h

  fresh-IsSound :
      (metadata : Metadata) → check_metadata metadata ≡ [] → IsSound digest (fresh metadata)
  unfolding verify raw_events check_chain check_exports has_terminal
  fresh-IsSound metadata h = record {
    valid = rw (h, verify) refl;
    orderly = record { once = λ k. omega arith; started_first = λ k t. absurd (cc) };
  }

  Reach-IsSound :
      {metadata : Metadata} {ws : Workspace}
      → check_metadata metadata ≡ []
      → Reach digest lower (fresh metadata) ws
      → IsSound digest ws
  Reach-IsSound {metadata = metadata} made here = fresh-IsSound metadata made
  Reach-IsSound made (after r s) = step-IsSound s (Reach-IsSound made r)

  -- From a workspace with valid metadata and no event, any sequence of operations, with any
  -- arguments and whatever each returned, leaves a journal that verifies.
  pub Reach-verifies :
      {metadata : Metadata} {ws : Workspace}
      → check_metadata metadata ≡ []
      → Reach digest lower (fresh metadata) ws
      → (verify digest ws).valid ≡ true
  Reach-verifies made r = (Reach-IsSound made r).valid

  -- From a workspace with valid metadata and no event, after any sequence of operations, an
  -- execution has at most one terminal event, completed or failed, and has one
  -- only if it has a start event.
  pub Reach-terminal_once :
      {metadata : Metadata} {ws : Workspace} (k : String)
      → check_metadata metadata ≡ []
      → Reach digest lower (fresh metadata) ws
      → (terminals k (raw_of ws.journal) ≤ 1)
        × (has_terminal k (raw_of ws.journal) ≡ true → has_started k (raw_of ws.journal) ≡ true)
  Reach-terminal_once k made r =
      let h = (Reach-IsSound made r).orderly in (h.once k, h.started_first k)
