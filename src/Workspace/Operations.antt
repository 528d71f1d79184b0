-- ===== src/Workspace/Operations.antt =====
-- What operators call in workspace/repository.py. Each takes the stamp of the event that it may
-- append and the identifier that it may issue; each check comes before any write.
use rfi.Common.Text.{is_blank, strip}
use Prim.Native.String.{count}
use rfi.Common.{
  String, Bool, true, false, Option, none, some, List, ◌==◌, ◌||◌, ltb, not, if◌then◌else◌,
}
use rfi.Common.Lists.{mem}
use rfi.Common.Text.{strip}
use rfi.Workspace.State.{
  InvestigationStatus, AnnotationKind, Json, OperationalMetrics, Payload, Material, JournalEvent,
  Workspace, InvestigationSummary, WorkspaceError, Result, ok, raise, ◌>>=◌, guard, ◌>>◌,
}
use rfi.Workspace.Redact.{redact}
use rfi.Workspace.Verify.{has_terminal}
use rfi.Workspace.Journal.{Stamp, all_events, events, append, find_started, investigation}

-- `text.strip() if text else None`
abbrev pub strip_option : Option String → Option String
strip_option none = none
strip_option (some s) = if s == "" then none else some (strip s)

abbrev pub is_closed : InvestigationStatus → Bool
is_closed InvestigationStatus.closed = true
is_closed _ = false

-- `execution_id and execution_id not in execution_ids`, negated
abbrev pub is_known : Option String → List String → Bool
is_known none ids = true
is_known (some k) ids = if k == "" then true else mem k ids

-- what `complete_execution` reads of an `ExecutionRecord`
pub record ExecutionRecord : Type 0 where
  pub question : String
  pub execution_id : String
  pub projection : Json

-- `question` of a start event
abbrev pub question_of : Payload → String
question_of (Payload.execution_started _ question _) = question
question_of _ = ""

module _ (digest : Material → String) where
  -- the write behind the checks: it is made only if they pass
  abbrev pub checked {ℓ} :
      {A : Type ℓ}
      → Result (Unit {0})
      → (Workspace → Result A × Workspace)
      → Workspace
      → Result A × Workspace
  checked checks write ws = elim checks [ ok _ ↦ write ws | raise e ↦ (raise e, ws) ]

  -- an append that returns the investigation, as it is then
  abbrev pub append_and_read :
      Stamp → String → Payload → Workspace → Result InvestigationSummary × Workspace
  append_and_read stamp investigation_id payload ws =
      let (r, ws') = append digest stamp investigation_id payload ws in
      (r >>= λ _. investigation digest investigation_id ws', ws')

  -- an append that returns the identifier it was given
  abbrev pub append_and_name :
      Stamp → String → String → Payload → Workspace → Result String × Workspace
  append_and_name stamp investigation_id name payload ws =
      let (r, ws') = append digest stamp investigation_id payload ws in (r >>= λ _. ok name, ws')

  abbrev pub creation_checks : String → String → Result (Unit {0})
  creation_checks title purpose =
      guard (not (is_blank title || is_blank purpose)) WorkspaceError.blank_investigation

  abbrev pub creation : String → String → Option String → Option String → Payload
  creation title purpose customer engagement =
      Payload.investigation_created (strip title) (strip purpose) (strip_option customer)
        (strip_option engagement) InvestigationStatus.open_

  unfoldable pub create_investigation :
      Stamp
      → String
      → String
      → String
      → Option String
      → Option String
      → Workspace
      → Result InvestigationSummary × Workspace
  unfolding append investigation
  create_investigation stamp investigation_id title purpose customer engagement =
      checked (creation_checks title purpose)
        (append_and_read stamp investigation_id (creation title purpose customer engagement))

  -- `self.investigation(investigation_id)`, for the exception
  abbrev pub must_exist : String → Workspace → Result (Unit {0})
  must_exist investigation_id ws = do i ← investigation digest investigation_id ws; ok tt

  unfoldable pub set_status :
      Stamp → String → InvestigationStatus → Workspace → Result InvestigationSummary × Workspace
  unfolding append investigation
  set_status stamp investigation_id status ws =
      checked (must_exist investigation_id ws)
        (append_and_read stamp investigation_id (Payload.investigation_status status)) ws

  abbrev pub annotation_checks : String → String → Option String → Workspace → Result (Unit {0})
  annotation_checks investigation_id text execution_id ws = do
    i ← investigation digest investigation_id ws
    guard (not (is_blank text || ltb 20000 (count text))) WorkspaceError.bad_annotation
    guard (is_known execution_id i.execution_ids) WorkspaceError.unknown_annotated_execution

  unfoldable pub add_annotation :
      Stamp
      → String
      → String
      → AnnotationKind
      → String
      → Option String
      → Workspace
      → Result String × Workspace
  unfolding append investigation
  add_annotation stamp annotation_id investigation_id kind text execution_id ws =
      checked (annotation_checks investigation_id text execution_id ws)
        (append_and_name stamp investigation_id annotation_id
          (Payload.operator_annotation annotation_id kind (strip text) execution_id))
        ws

  abbrev pub start_checks : String → String → Workspace → Result (Unit {0})
  start_checks investigation_id question ws = do
    i ← investigation digest investigation_id ws
    guard (not (is_closed i.status)) WorkspaceError.closed_investigation
    guard (not (is_blank question)) WorkspaceError.blank_question

  unfoldable pub begin_execution :
      (String → String)
      → Stamp
      → String
      → String
      → String
      → Json
      → Workspace
      → Result String × Workspace
  unfolding append investigation redact
  begin_execution lower stamp execution_id investigation_id question configuration ws =
      checked (start_checks investigation_id question ws)
        (append_and_name stamp investigation_id execution_id
          (Payload.execution_started execution_id (strip question) (redact lower configuration)))
        ws

  -- `_started_execution`
  unfoldable pub started_execution : String → String → Workspace → Result Payload
  unfolding events find_started
  started_execution investigation_id execution_id ws = do
    es ← events digest investigation_id ws
    elim (find_started execution_id es) [
      | none ↦ raise WorkspaceError.unknown_execution
      | some e ↦ ok e.payload
    ]

  -- `self._terminal_execution(execution_id) is None`, or the exception
  unfoldable pub check_open : String → Workspace → Result (Unit {0})
  unfolding all_events
  check_open execution_id ws = do
    es ← all_events digest ws
    guard (not (has_terminal execution_id es)) WorkspaceError.already_terminal

  -- the checks of both terminal operations, with what each asks of the start event last
  abbrev pub terminal_checks :
      String → String → (Payload → Result (Unit {0})) → Workspace → Result (Unit {0})
  terminal_checks investigation_id execution_id last ws = do
    started ← started_execution investigation_id execution_id ws
    check_open execution_id ws
    last started

  unfoldable pub complete_execution :
      Stamp
      → String
      → String
      → ExecutionRecord
      → OperationalMetrics
      → Workspace
      → Result JournalEvent × Workspace
  unfolding append started_execution check_open
  complete_execution stamp investigation_id execution_id finished metrics ws =
      checked
        (terminal_checks investigation_id execution_id
          (λ started.
            guard (finished.question == question_of started) WorkspaceError.question_differs)
          ws)
        (append digest stamp investigation_id (
          Payload.execution_completed execution_id finished.execution_id finished.projection
            metrics))
        ws

  unfoldable pub fail_execution :
      Stamp
      → String
      → String
      → String
      → Bool
      → Option OperationalMetrics
      → Workspace
      → Result JournalEvent × Workspace
  unfolding append started_execution check_open
  fail_execution stamp investigation_id execution_id reason interrupted metrics ws =
      checked
        (terminal_checks investigation_id execution_id
          (λ started. guard (not (is_blank reason)) WorkspaceError.blank_reason) ws)
        (append digest stamp investigation_id
          (Payload.execution_failed execution_id interrupted (strip reason) metrics))
        ws
