-- ===== src/FetchQueue/Worker.antt =====
-- The critical sections of `_work` in mailing_lists/queue.py: taking the next job, the two
-- callbacks of a fetch, a round of the monitor, and the end of a fetch. A section finds the
-- worker's job by its identifier. `_trim_jobs` deletes no active job, so where none is found the
-- worker's own object is terminal, and the sections but `conclude` leave such an object alone.
use rfi.Common.{
  ℕ, ◌+◌, ◌*◌, String, Bool, true, false, Option, none, some, List, [], ◌∷◌, ◌==◌, ltb,
  if◌then◌else◌, not, ◌&&◌, is_some,
}
use rfi.Common.Text.{join, contains}
use rfi.Common.Assoc.{lookup, assign}
use rfi.FetchQueue.State.{
  JobState, EventKind, FetchProgress, FetchActivity, FetchJob, Settings, FetchQueue, key_error,
  Result, ok, raise, is_queued, is_running,
}
use rfi.FetchQueue.Log.{record_event, seconds_since}

-- How the worker leaves the section that takes a job.
pub data Turn : Type 0 where
  waits exits skips : Turn
  takes : String → Turn

-- the job that the worker writes when it starts a fetch
abbrev pub started_job : Settings → FetchQueue → FetchJob → FetchJob
started_job c q job =
    let now = some (c.clock q.ticks) in
    record job {
      state = JobState.running;
      started_at = now;
      updated_at = now;
      last_activity_at = now;
      last_feedback_at = now;
      message = "Running bounded acquisition windows.";
    }

-- the start of a popped, queued job
unfoldable pub start : Settings → String → FetchJob → FetchQueue → FetchQueue
unfolding record_event
start c job_id job q =
    record_event c EventKind.started (some job.stream_id) (some job.stream_name)
      "Running bounded acquisition windows."
      (record q {
        running_job_id = some job_id;
        running_cancel = false;
        progress_updates_since_event = 0;
        ticks = q.ticks + 1;
        jobs = assign job_id (started_job c q job) q.jobs;
      })

-- the section behind the wait for a pending job
abbrev pub take_pending : Settings → List String → FetchQueue → Result Turn × FetchQueue
take_pending c [] q = (ok Turn.waits, q)
take_pending c (job_id ∷ rest) q =
    let popped = record q { pending = rest } in
    elim (lookup job_id q.jobs) [
      | none ↦ (raise (key_error job_id), popped)
      | some job ↦ elim (is_queued job.state) [
        | true ↦ (ok (Turn.takes job_id), start c job_id job popped)
        | false ↦ (ok Turn.skips, popped)
      ]
    ]

-- `if self._closing: return`
abbrev pub take_unless : Settings → Bool → FetchQueue → Result Turn × FetchQueue
take_unless c true q = (ok Turn.exits, q)
take_unless c false q = take_pending c q.pending q

-- The section at the head of the `while True` loop.
unfoldable pub take_next : Settings → FetchQueue → Result Turn × FetchQueue
unfolding start
take_next c q = take_unless c q.closing q

-- `_maybe_progress_event`, at the job that was written last
unfoldable pub maybe_progress_event : Settings → FetchJob → FetchQueue → FetchQueue
unfolding record_event
maybe_progress_event c job q =
    if ltb (q.progress_updates_since_event + 1) 3
    then record q { progress_updates_since_event = q.progress_updates_since_event + 1 }
    else record_event c EventKind.progress (some job.stream_id) (some job.stream_name) job.message
        (record q { progress_updates_since_event = 0 })

-- `self._running_job_id != job.job_id`, negated
abbrev pub is_current : String → Option String → Bool
is_current job_id none = false
is_current job_id (some running) = running == job_id

-- the job that `on_progress` writes
abbrev pub progressed_job : Settings → FetchQueue → FetchProgress → FetchJob → FetchJob
progressed_job c q snapshot job =
    let now = some (c.clock q.ticks) in
    record job {
      progress = some (record snapshot { occurred_at = now });
      last_progress_at = now;
      last_activity_at = now;
      last_feedback_at = now;
      updated_at = now;
      latest_progress_message = some snapshot.message;
      message = snapshot.message;
    }

-- `on_progress`
unfoldable pub on_progress : Settings → String → FetchProgress → FetchQueue → FetchQueue
unfolding maybe_progress_event
on_progress c job_id snapshot q = elim (lookup job_id q.jobs) [
  | none ↦ q
  | some job ↦ elim (is_current job_id q.running_job_id && is_running job.state) [
    | false ↦ q
    | true ↦
        let written = progressed_job c q snapshot job in
        maybe_progress_event c written
          (record q { ticks = q.ticks + 1; jobs = assign job_id written q.jobs })
  ]
]

-- a time in seconds, in the unit of `seconds_since`
abbrev pub micros : ℕ → ℕ
micros seconds = seconds * 1000000

-- `recovered_from_wait`
unfoldable pub recovered_from_wait : Option String → Bool
recovered_from_wait none = false
recovered_from_wait (some message) =
    not (message == "") && contains "waiting for the current bounded archive operation" message

-- The job that `on_activity` writes at the clock reading `at`, with the instant that `self.now()`
-- returns.
unfoldable pub active_job : Settings → ℕ → String → FetchActivity → FetchJob → FetchJob
unfolding recovered_from_wait
active_job c now at activity job =
    let seen = record job { last_activity_at = some at } in
    let told = join "Still acquiring the current window. " activity.message in
    if is_some job.stalled_at
    then seen
    else if not (recovered_from_wait job.latest_activity_message)
        && ltb (seconds_since c now job.last_feedback_at) (micros c.activity_feedback_seconds)
    then seen
    else record seen {
      last_feedback_at = some at;
      updated_at = some at;
      latest_activity_message = some told;
      message = told;
    }

-- `on_activity`
unfoldable pub on_activity : Settings → ℕ → String → FetchActivity → FetchQueue → FetchQueue
unfolding active_job
on_activity c now job_id activity q = elim (lookup job_id q.jobs) [
  | none ↦ q
  | some job ↦ elim (is_current job_id q.running_job_id && is_running job.state) [
    | false ↦ q
    | true ↦ record q {
      ticks = q.ticks + 1;
      jobs = assign job_id (active_job c now (c.clock q.ticks) activity job) q.jobs;
    }
  ]
]
