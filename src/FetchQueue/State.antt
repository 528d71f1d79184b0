-- ===== src/FetchQueue/State.antt =====
-- The data of mailing_lists/queue.py: settings, jobs, events and the fields of the queue.
use rfi.Common.{ℕ, String, Bool, true, false, Option, List, ◌&&◌, ◌==◌}
use rfi.Common.Assoc.{Dict}

-- the texts that `FetchJob.state` takes
pub data JobState : Type 0 where
  queued running completed failed cancelled abandoned : JobState

-- the texts that `QueueEvent.event` takes
pub data EventKind : Type 0 where
  duplicate_ignored queued abandoned cancellation_requested started progress stalled : EventKind
  completed failed cancelled : EventKind

-- contracts.py
pub record FetchProgress : Type 0 where
  pub phase : String
  pub message : String
  pub window_start : Option String
  pub window_end : Option String
  pub windows_completed : ℕ
  pub discovery_offset : Option ℕ
  pub occurred_at : Option String

pub record FetchActivity : Type 0 where
  pub phase : String
  pub message : String

-- workflow.py
pub record FetchUpToDateResult : Type 0 where
  pub stream_id : String
  pub status : String
  pub window_start : String
  pub window_end : String
  pub windows_completed : ℕ
  pub acquisition_run_ids : List String
  pub effective_last_fetch_date : Option String
  pub message : String

-- the fields of `SavedMailingListWorkflow` that the queue reads
pub record SavedWorkflow : Type 0 where
  pub stream_id : String
  pub stream_name : String

pub record FetchJob : Type 0 where
  pub job_id : String
  pub stream_id : String
  pub stream_name : String
  pub state : JobState
  pub queued_at : String
  pub started_at : Option String
  pub finished_at : Option String
  pub message : String
  pub result : Option FetchUpToDateResult
  pub progress : Option FetchProgress
  pub latest_progress_message : Option String
  pub last_progress_at : Option String
  pub last_activity_at : Option String
  pub last_feedback_at : Option String
  pub latest_activity_message : Option String
  pub stalled_at : Option String
  pub cancellation_requested_at : Option String
  pub updated_at : Option String

pub record QueueEvent : Type 0 where
  pub sequence : ℕ
  pub occurred_at : String
  pub event : EventKind
  pub stream_id : Option String
  pub stream_name : Option String
  pub message : String

-- the arguments of `FetchHistoryStore.record_fetch_history`
pub record HistoryEntry : Type 0 where
  pub stream_id : String
  pub stream_name : String
  pub state : JobState
  pub message : String
  pub queued_at : String
  pub started_at : Option String
  pub finished_at : String
  pub windows_completed : ℕ
  pub result : Option FetchUpToDateResult

-- The constructor's arguments. `clock n` and `identifiers n` are what the calls of that number
-- return; `instant` is `datetime.fromisoformat` with a missing zone read as UTC, in microseconds (the
-- resolution of `datetime`), and `none` where it raises; `has_history` says whether a history store is given.
pub record Settings : Type 0 where
  pub clock : ℕ → String
  pub identifiers : ℕ → String
  pub instant : String → Option ℕ
  pub has_history : Bool
  pub event_limit : ℕ
  pub job_limit : ℕ
  pub stale_progress_seconds : ℕ
  pub activity_feedback_seconds : ℕ

-- `ticks` and `issued` count the calls of the clock and of the identifier factory so far;
-- `durable_events` and `durable_history` are the calls that the history store has received.
pub record FetchQueue : Type 0 where
  pub pending : List String
  pub jobs : Dict FetchJob
  pub job_order : List String
  pub events : List QueueEvent
  pub sequence : ℕ
  pub running_job_id : Option String
  pub running_cancel : Bool
  pub progress_updates_since_event : ℕ
  pub closing : Bool
  pub ticks : ℕ
  pub issued : ℕ
  pub durable_events : List QueueEvent
  pub durable_history : List HistoryEntry

-- What a call raises: `MailingListError` with its code and message, or `KeyError`.
pub data Error : Type 0 where
  mailing_list_error : String → String → Error
  key_error : String → Error

pub data Result {ℓ} (A : Type ℓ) : Type ℓ where
  ok : A → Result A
  raise : Error → Result A

-- `job.state == "queued"`
abbrev pub is_queued : JobState → Bool
is_queued JobState.queued = true
is_queued _ = false

-- `job.state == "running"`
abbrev pub is_running : JobState → Bool
is_running JobState.running = true
is_running _ = false

-- `job.state in {"queued", "running"}`
abbrev pub is_active : JobState → Bool
is_active JobState.queued = true
is_active JobState.running = true
is_active _ = false

-- the test of the duplicate search in `enqueue`
abbrev pub covers : String → FetchJob → Bool
covers stream_id job = job.stream_id == stream_id && is_active job.state

infixl 5 ◌>>=◌
abbrev pub ◌>>=◌ {ℓ κ} : {A : Type ℓ} {B : Type κ} → Result A → (A → Result B) → Result B
ok a >>= f = f a
raise e >>= f = raise e
