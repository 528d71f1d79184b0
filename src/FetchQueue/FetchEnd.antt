-- ===== src/FetchQueue/FetchEnd.antt =====
-- How a fetch of mailing_lists/queue.py ends: the section that calls `terminalize`, and the one in
-- `finally` after an exception.
use rfi.Common.{
  ◌+◌, [], ◌∷◌, ◌++◌, String, ◌≡◌, ◌≢◌, inl, inr, refl, sym, Option, none, some, ◌==◌,
  if◌then◌else◌, Option-cases, text-cases,
}
use mathlib.Core.Path.{subst}
use rfi.Common.Text.{join, decimal}
use rfi.Common.Assoc.{lookup, lookup-assign, count_values}
use rfi.FetchQueue.State.{
  HistoryEntry, FetchUpToDateResult, FetchJob, JobState, EventKind, Settings, FetchQueue,
  is_running,
}
use rfi.FetchQueue.Log.{windows_of, finished_or_clock, persist_history, record_event}
use rfi.FetchQueue.Monitor.{
  FetchOutcome, stale_failure_message, verdict, terminal_job, terminalize, conclude, release,
}
use rfi.FetchQueue.System.{Worker}
use rfi.FetchQueue.Invariant.{IsValidAt, runs, found_of_state_at}
use rfi.FetchQueue.Occupancy.{conclude-Occupies}
use rfi.FetchQueue.WorkerValid.{release-IsValidAt}

-- The job `old` of a fetch has ended in the state, with the message and the result, at a time that
-- is its end time: nothing else of it has changed and no other job, and neither have the FIFO and the
-- worker's job; and the history store, if there is one, has received one entry, of this end.
pub record HasEnded (c : Settings) (job_id : String) (old : FetchJob) (state : JobState)
    (message : String) (result : Option FetchUpToDateResult) (q q' : FetchQueue) : Type 0 where
  pub job : FetchJob
  pub at : String
  pub job_is : job ≡ record old {
    state = state;
    message = message;
    result = result;
    finished_at = some at;
    updated_at = some at;
  }
  pub jobs : (k : String) → lookup k q'.jobs ≡ (if job_id == k then some job else lookup k q.jobs)
  pub pending : q'.pending ≡ q.pending
  pub running : q'.running_job_id ≡ q.running_job_id
  pub entry : HistoryEntry
  pub entry_is :
      (entry.stream_id ≡ old.stream_id)
      × (entry.state ≡ state)
      × (entry.message ≡ message)
      × (entry.result ≡ result)
  pub history :
      q'.durable_history
      ≡ (if c.has_history then q.durable_history ++ entry ∷ [] else q.durable_history)

terminalize-HasEnded :
    (c : Settings) (state : JobState) (event : EventKind) (message job_id : String) (old : FetchJob)
    (result : Option FetchUpToDateResult) (q : FetchQueue)
    → HasEnded c job_id old state message result q
        (terminalize c state event message job_id (record old { result = result }) q)
unfolding terminalize record_event persist_history
terminalize-HasEnded c state event message k old result q = record {
  job = terminal_job c state message q (record old { result = result });
  at = c.clock q.ticks;
  job_is = refl;
  jobs = λ j.
      lookup-assign k j (terminal_job c state message q (record old { result = result })) q.jobs;
  pending = refl;
  running = refl;
  entry = record {
    stream_id = old.stream_id;
    stream_name = old.stream_name;
    state = state;
    message = message;
    queued_at = old.queued_at;
    started_at = old.started_at;
    finished_at = (finished_or_clock c (q.ticks + 1 + 1) (some (c.clock q.ticks))).0;
    windows_completed = windows_of result;
    result = result;
  };
  entry_is = (refl, refl, refl, refl);
  history = refl;
}

-- The state, the message and the result in which a fetch ends: completed with a result, failed
-- without one or with an exception, and after a rejection failed with its message, but for that of a
-- cancellation, which is failed where the fetch was stalled and cancelled where it was not.
pub data EndsIn (c : Settings) (old : FetchJob)
    : FetchOutcome → JobState → String → Option FetchUpToDateResult → Type 0 where
  with_result :
      (result : FetchUpToDateResult)
      → EndsIn c old
          (FetchOutcome.returned (some result))
          JobState.completed
          result.message
          (some result)
  without_result :
      EndsIn c old
        (FetchOutcome.returned none)
        JobState.failed
        "Fetch worker returned no result; inspect server diagnostics."
        old.result
  unexpectedly :
      EndsIn c old FetchOutcome.failed JobState.failed
        "Fetch failed unexpectedly; inspect server diagnostics." old.result
  by_request :
      (message : String)
      → old.stalled_at ≡ none
      → EndsIn c old
          (FetchOutcome.rejected "acquisition_cancelled" message)
          JobState.cancelled
          "Running fetch was cancelled at a safe checkpoint."
          old.result
  by_stalling :
      (message at : String)
      → old.stalled_at ≡ some at
      → EndsIn c old
          (FetchOutcome.rejected "acquisition_cancelled" message)
          JobState.failed
          (join "Fetch stalled without acquisition activity for " (
            join
              (decimal c.stale_progress_seconds)
              " seconds; cancellation completed at a safe checkpoint."))
          old.result
  by_rejection :
      (code message : String)
      → code ≢ "acquisition_cancelled"
      → EndsIn c old (FetchOutcome.rejected code message) JobState.failed message old.result

cancelled-EndsIn :
    (c : Settings) (message : String) (old : FetchJob)
    → let (state, event, told, result) =
        verdict c (FetchOutcome.rejected "acquisition_cancelled" message) old in
      EndsIn c old (FetchOutcome.rejected "acquisition_cancelled" message) state told result
unfolding verdict stale_failure_message
cancelled-EndsIn c message old = elim (Option-cases old.stalled_at) [
  | inl e ↦ rw (e, verdict) (EndsIn.by_request message refl)
  | inr (at, e) ↦ rw (e, verdict) (EndsIn.by_stalling message at refl)
]

verdict-EndsIn :
    (c : Settings) (outcome : FetchOutcome) (old : FetchJob)
    → let (state, event, message, result) = verdict c outcome old in
      EndsIn c old outcome state message result
unfolding verdict stale_failure_message
verdict-EndsIn c (FetchOutcome.returned none) old = EndsIn.without_result
verdict-EndsIn c (FetchOutcome.returned (some result)) old = EndsIn.with_result result
verdict-EndsIn c FetchOutcome.failed old = EndsIn.unexpectedly
verdict-EndsIn c (FetchOutcome.rejected code message) old =
    elim (text-cases code "acquisition_cancelled") [
      | inr (e, apart) ↦ rw (e, verdict) (EndsIn.by_rejection code message apart)
      | inl (_, same) ↦
          subst
            (λ k.
              let (state, event, told, result) = verdict c (FetchOutcome.rejected k message) old in
              EndsIn c old (FetchOutcome.rejected k message) state told result)
            (sym same) (cancelled-EndsIn c message old)
    ]

-- From a valid state in which the fetch runs, the section behind the monitor loop ends its job in
-- the state, with the message and the result that its outcome calls for, with an end time; it
-- changes nothing else of the job, no other job, and neither the FIFO nor the worker's job; and the
-- history store, if there is one, receives one entry, with the stream, the state, the message and
-- the result of this end.
pub conclude-HasEnded :
    (c : Settings) (job_id : String) (outcome : FetchOutcome) (q : FetchQueue)
    → IsValidAt c (Worker.fetching job_id) q
    → (old : FetchJob) × (state : JobState) × (message : String) × (result : Option
        FetchUpToDateResult)
      × (lookup job_id q.jobs ≡ some old)
      × EndsIn c old outcome state message result
      × HasEnded c job_id old state message result q (conclude c outcome job_id q)
unfolding conclude
conclude-HasEnded c k outcome q valid =
    let (old, found, going) = found_of_state_at is_running k q.jobs valid.1.2 in
    let (state, event, message, result) = verdict c outcome old in
    rw (found, conclude)
      (
        old,
        state,
        message,
        result,
        refl,
        verdict-EndsIn c outcome old,
        terminalize-HasEnded c state event message k old result q,
      )

-- In a valid state in which an exception has cut the fetch off, the section in `finally` fails its
-- job, with an end time and the rest of it as it was, changes no other job and not the FIFO, leaves
-- no job that runs and frees the worker's place; and the history store, if there is one, receives one
-- entry, with the stream, the state, the message and the result of this end.
pub release-crashed :
    (c : Settings) (job_id : String) (q : FetchQueue)
    → IsValidAt c (Worker.crashed job_id) q
    → let q' = release c job_id q in
      ((old : FetchJob) × (lookup job_id q.jobs ≡ some old)
        × HasEnded c job_id old JobState.failed
            "Fetch worker exited without a terminal state; marked failed." old.result q
            (record q' { running_job_id = q.running_job_id }))
      × (q'.running_job_id ≡ none)
      × (count_values runs q'.jobs ≡ 0)
unfolding release
release-crashed c k q valid =
    let (old, found, going) = found_of_state_at is_running k q.jobs valid.1.2 in
    let message : String = "Fetch worker exited without a terminal state; marked failed." in
    let freed = release-IsValidAt c k q (valid.0, conclude-Occupies q.jobs k valid.1) in
    let ended =
      terminalize-HasEnded c JobState.failed EventKind.failed message k old old.result q in
    ((old, found, rw (found, going, release) ended), freed.1.0, freed.1.1)
