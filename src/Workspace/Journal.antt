-- ===== src/Workspace/Journal.antt =====
-- `events` and `_append` of workspace/repository.py, and the projections of the journal.
use rfi.Common.{
  ◌+◌, String, Bool, false, Option, none, some, List, [], ◌∷◌, ◌++◌, ◌==◌, if◌then◌else◌,
}
use rfi.Common.Lists.{length}
use rfi.Workspace.State.{
  InvestigationStatus, Payload, Material, JournalEvent, readable, Workspace, InvestigationSummary,
  WorkspaceError, Result, ok, raise, ◌>>=◌,
}
use rfi.Workspace.Verify.{verify, raw_of, names, started_id}

-- What `_append` draws from outside: a new event identifier and the time.
pub record Stamp : Type 0 where
  pub event_id : String
  pub timestamp : String

abbrev pub last_hash : List JournalEvent → Option String
last_hash [] = none
last_hash (e ∷ []) = some e.event_hash
last_hash (e ∷ f ∷ es) = last_hash (f ∷ es)

-- `investigation_id is None or item.investigation_id == investigation_id`, at a given one
abbrev pub belongs : String → JournalEvent → Bool
belongs investigation_id e = elim e.investigation_id [
  | none ↦ false
  | some k ↦ k == investigation_id
]

unfoldable pub select : (JournalEvent → Bool) → List JournalEvent → List JournalEvent
select p [] = []
select p (e ∷ es) = let rest = select p es in if p e then e ∷ rest else rest

-- the event that `_append` writes behind the events `previous`
unfoldable pub next_event :
    (Material → String) → Stamp → Option String → Payload → List JournalEvent → JournalEvent
next_event digest stamp investigation_id payload previous =
    let material : Material = record {
      sequence = length previous + 1;
      event_id = stamp.event_id;
      timestamp = stamp.timestamp;
      investigation_id = investigation_id;
      payload = payload;
      previous_hash = last_hash previous;
    } in
    record { material = material; event_hash = digest material }

module _ (digest : Material → String) where
  -- `events()`: every event, of a journal that verifies
  unfoldable pub all_events : Workspace → Result (List JournalEvent)
  unfolding verify
  all_events ws =
      if (verify digest ws).valid
      then ok (raw_of ws.journal)
      else raise WorkspaceError.corrupt_journal

  -- `events(investigation_id)`
  unfoldable pub events : String → Workspace → Result (List JournalEvent)
  unfolding all_events select
  events investigation_id ws = do es ← all_events ws; ok (select (belongs investigation_id) es)

  -- `_append`. The event's file is put in place by one rename, so it is there whole or not at all. Its
  -- name is its sequence number, one more than there are files, so that it is the last of the journal
  -- where the names of the files before are their events' numbers, as `Workspace` takes for granted.
  unfoldable pub append : Stamp → String → Payload → Workspace → Result JournalEvent × Workspace
  unfolding verify next_event
  append stamp investigation_id payload ws =
      let e = next_event digest stamp (some investigation_id) payload (raw_of ws.journal) in
      if (verify digest ws).valid
      then (ok e, record ws { journal = ws.journal ++ readable e ∷ [] })
      else (raise WorkspaceError.corrupt_journal, ws)

-- The first event that creates the investigation, with its time.
unfoldable pub find_created : List JournalEvent → Option JournalEvent
find_created [] = none
find_created (e ∷ es) = elim e.payload [
  | Payload.investigation_created _ _ _ _ _ ↦ some e
  | _ ↦ find_created es
]

-- the last status among the events, or the given one
unfoldable pub last_status : InvestigationStatus → List JournalEvent → InvestigationStatus
last_status status [] = status
last_status status (e ∷ es) =
    last_status (elim e.payload [ Payload.investigation_status s ↦ s | _ ↦ status ]) es

-- `relevant[-1].timestamp`
unfoldable pub last_time : String → List JournalEvent → String
last_time time [] = time
last_time time (e ∷ es) = last_time e.timestamp es

-- what an event adds to a tuple of identifiers
unfoldable pub collect : (Payload → Option String) → List JournalEvent → List String
collect read [] = []
collect read (e ∷ es) = elim (read e.payload) [
  | none ↦ collect read es
  | some k ↦ k ∷ collect read es
]

abbrev pub annotation_id : Payload → Option String
annotation_id (Payload.operator_annotation k _ _ _) = some k
annotation_id _ = none

abbrev pub export_id : Payload → Option String
export_id (Payload.investigation_exported k _ _) = some k
export_id _ = none

-- the summary of an investigation from the payload of its creation event, that event's time and its
-- events
abbrev pub summary_of : String → String → Payload → List JournalEvent → Result InvestigationSummary
summary_of investigation_id time
      (Payload.investigation_created title purpose customer engagement status) relevant =
    ok (record {
      investigation_id = investigation_id;
      title = title;
      purpose = purpose;
      customer = customer;
      engagement = engagement;
      status = last_status status relevant;
      created_at = time;
      updated_at = last_time time relevant;
      execution_ids = collect started_id relevant;
      annotation_ids = collect annotation_id relevant;
      export_ids = collect export_id relevant;
    })
summary_of investigation_id time _ relevant = raise WorkspaceError.unknown_investigation

-- the first event that starts the execution
unfoldable pub find_started : String → List JournalEvent → Option JournalEvent
find_started execution_id [] = none
find_started execution_id (e ∷ es) =
    if names started_id execution_id e then some e else find_started execution_id es

module _ (digest : Material → String) where
  -- `investigation`
  unfoldable pub investigation : String → Workspace → Result InvestigationSummary
  unfolding events find_created last_status last_time collect
  investigation investigation_id ws = do
    relevant ← events digest investigation_id ws
    elim (find_created relevant) [
      | none ↦ raise WorkspaceError.unknown_investigation
      | some e ↦ summary_of investigation_id e.timestamp e.payload relevant
    ]
