-- ===== src/FetchQueue/Monitor.antt =====
-- The monitor of `_work` in mailing_lists/queue.py, and the end of a fetch.
use rfi.Common.{
  ℕ, ◌+◌, String, true, false, Option, none, some, ◌==◌, ltb, leb, if◌then◌else◌, not, ◌&&◌,
  is_some,
}
use rfi.Common.Text.{join, decimal}
use rfi.Common.Assoc.{lookup, assign}
use rfi.FetchQueue.State.{
  JobState, EventKind, FetchUpToDateResult, FetchJob, Settings, FetchQueue, is_running,
}
use rfi.FetchQueue.Log.{record_event, persist_history, seconds_since, stale_seconds}
use rfi.FetchQueue.Worker.{micros}

-- The job after the first `if` of a monitor round, and the clock readings made: a job that has
-- been silent for a while, and not for so long that it is stale, is told to be waiting. `now` is
-- the instant of the second `self.now()`.
unfoldable pub waiting_job : Settings → ℕ → ℕ → ℕ → FetchJob → FetchJob × ℕ
waiting_job c stale now ticks job =
    let told : String =
      "Still acquiring the current window; waiting for the current bounded archive operation to reach a checkpoint." in
    if leb (micros c.activity_feedback_seconds) stale
      && ltb stale (micros c.stale_progress_seconds)
      && leb (micros c.activity_feedback_seconds) (seconds_since c now job.last_feedback_at)
    then (
      record job {
        last_feedback_at = some (c.clock ticks);
        updated_at = some (c.clock ticks);
        latest_activity_message = some told;
        message = told;
      },
      ticks + 1,
    )
    else (job, ticks)

-- the message of a stale fetch
unfoldable pub stalled_message : Settings → String
stalled_message c = join "No acquisition activity reached a checkpoint for " (
    join (decimal c.stale_progress_seconds)
      " seconds; cancellation was requested at the next safe checkpoint.")

-- the job that the monitor writes when it finds it stale
abbrev pub stalled_job : Settings → String → FetchJob → FetchJob
stalled_job c at job = record job {
  stalled_at = some at;
  cancellation_requested_at = some at;
  updated_at = some at;
  latest_activity_message = some (stalled_message c);
  message = stalled_message c;
}

-- One round of the monitor while the fetch is not done. `terminalized` is false then.
unfoldable pub monitor : Settings → ℕ → ℕ → String → FetchQueue → FetchQueue
unfolding waiting_job record_event stale_seconds
monitor c now now' job_id q = elim (lookup job_id q.jobs) [
  | none ↦ q
  | some job ↦ elim (is_running job.state && not q.running_cancel) [
    | false ↦ q
    | true ↦
        let stale = stale_seconds c now job in
        let (waiting, ticks) = waiting_job c stale now' q.ticks job in
        let stalled = stalled_job c (c.clock ticks) waiting in
        elim (ltb stale (micros c.stale_progress_seconds)) [
          | true ↦ record q { ticks = ticks; jobs = assign job_id waiting q.jobs }
          | false ↦
              record_event c EventKind.stalled (some job.stream_id) (some job.stream_name)
                stalled.message
                (record q {
                  running_cancel = true;
                  ticks = ticks + 1;
                  jobs = assign job_id stalled q.jobs;
                })
        ]
  ]
]

-- What `fetch_up_to_date` ended with: a result or none, a `MailingListError` with its code and
-- message, or another exception.
pub data FetchOutcome : Type 0 where
  returned : Option FetchUpToDateResult → FetchOutcome
  rejected : String → String → FetchOutcome
  failed : FetchOutcome

-- the job that `terminalize` writes
abbrev pub terminal_job : Settings → JobState → String → FetchQueue → FetchJob → FetchJob
terminal_job c state message q job = record job {
  state = state;
  finished_at = some (c.clock q.ticks);
  updated_at = some (c.clock q.ticks);
  message = message;
}

-- `terminalize`, the first time that it is called for the job
unfoldable pub terminalize :
    Settings → JobState → EventKind → String → String → FetchJob → FetchQueue → FetchQueue
unfolding record_event persist_history
terminalize c state event message job_id job q =
    let done = terminal_job c state message q job in
    persist_history c done (
      record_event c event (some job.stream_id) (some job.stream_name) message
        (record q { ticks = q.ticks + 1; jobs = assign job_id done q.jobs }))

unfoldable pub stale_failure_message : Settings → String
stale_failure_message c = join "Fetch stalled without acquisition activity for " (
    join (decimal c.stale_progress_seconds)
      " seconds; cancellation completed at a safe checkpoint.")

-- The state, event, message and result with which a fetch ends.
unfoldable pub verdict :
    Settings → FetchOutcome → FetchJob → JobState × EventKind × String × Option FetchUpToDateResult
unfolding stale_failure_message
verdict c (rejected code message) job =
    if code == "acquisition_cancelled"
    then (if is_some job.stalled_at
        then (JobState.failed, EventKind.failed, stale_failure_message c, job.result)
        else (
          JobState.cancelled, EventKind.cancelled,
          "Running fetch was cancelled at a safe checkpoint.", job.result,
        ))
    else (JobState.failed, EventKind.failed, message, job.result)
verdict c failed job = (
  JobState.failed, EventKind.failed, "Fetch failed unexpectedly; inspect server diagnostics.",
  job.result,
)
verdict c (returned none) job = (
  JobState.failed, EventKind.failed, "Fetch worker returned no result; inspect server diagnostics.",
  job.result,
)
verdict c (returned (some result)) job =
    (JobState.completed, EventKind.completed, result.message, some result)

-- The section behind the monitor loop. The worker's job is active, so it is among the jobs.
unfoldable pub conclude : Settings → FetchOutcome → String → FetchQueue → FetchQueue
unfolding terminalize verdict
conclude c outcome job_id q = elim (lookup job_id q.jobs) [
  | none ↦ q
  | some job ↦
      let (state, event, message, result) = verdict c outcome job in
      terminalize c state event message job_id (record job { result = result }) q
]

-- The section in `finally`: a job that is still running is failed, and the worker is free.
unfoldable pub release : Settings → String → FetchQueue → FetchQueue
unfolding terminalize
release c job_id q = elim (lookup job_id q.jobs) [
  | none ↦ record q { running_job_id = none }
  | some job ↦ elim (is_running job.state) [
    | false ↦ record q { running_job_id = none }
    | true ↦
        record (terminalize c JobState.failed EventKind.failed
          "Fetch worker exited without a terminal state; marked failed." job_id job q) {
            running_job_id = none;
          }
  ]
]
