-- ===== src/FetchQueue/Cancel.antt =====
-- `cancel_all` and `close` of mailing_lists/queue.py.
use rfi.Common.{ℕ, ◌+◌, String, Bool, true, false, none, some, List, [], ◌∷◌}
use rfi.Common.Assoc.{lookup, assign}
use rfi.FetchQueue.State.{
  JobState, EventKind, FetchJob, Settings, FetchQueue, key_error, Result, ok, raise, is_queued,
  is_running,
}
use rfi.FetchQueue.Log.{record_event, persist_history}

-- the job that the loop of `cancel_all` writes
abbrev pub abandoned_job : Settings → FetchQueue → FetchJob → FetchJob
abandoned_job c q job = record job {
  state = JobState.abandoned;
  finished_at = some (c.clock q.ticks);
  message = "Queued fetch was abandoned before it started.";
}

-- one round of the loop of `cancel_all` at a queued job
unfoldable pub abandon : Settings → String → FetchJob → FetchQueue → FetchQueue
unfolding record_event persist_history
abandon c job_id job q =
    let done = abandoned_job c q job in
    let written = record q { ticks = q.ticks + 1; jobs = assign job_id done q.jobs } in
    persist_history c done (
      record_event c EventKind.abandoned (some job.stream_id) (some job.stream_name) done.message
        written)

-- the loop of `cancel_all` over the pending identifiers, with the number abandoned so far
unfoldable pub abandon_pending : Settings → List String → ℕ → FetchQueue → Result ℕ × FetchQueue
unfolding abandon
abandon_pending c [] abandoned q = (ok abandoned, record q { pending = [] })
abandon_pending c (job_id ∷ rest) abandoned q =
    let popped = record q { pending = rest } in
    elim (lookup job_id q.jobs) [
      | none ↦ (raise (key_error job_id), popped)
      | some job ↦ elim (is_queued job.state) [
        | false ↦ abandon_pending c rest abandoned popped
        | true ↦ abandon_pending c rest (abandoned + 1) (abandon c job_id job popped)
      ]
    ]

-- the job that `cancel_all` writes for the running fetch
abbrev pub cancelling_job : Settings → FetchQueue → FetchJob → FetchJob
cancelling_job c q job = record job {
  cancellation_requested_at = some (c.clock q.ticks);
  updated_at = some (c.clock q.ticks);
}

-- The part of `cancel_all` behind its loop: whether a cancellation was requested.
unfoldable pub cancel_running : Settings → FetchQueue → Result Bool × FetchQueue
unfolding record_event
cancel_running c q = elim q.running_job_id [
  | none ↦ (ok false, q)
  | some job_id ↦ elim (lookup job_id q.jobs) [
    | none ↦ (raise (key_error job_id), q)
    | some job ↦ elim (is_running job.state) [
      | false ↦ (ok false, q)
      | true ↦ (
        ok true,
        record_event c EventKind.cancellation_requested (some job.stream_id) (some job.stream_name)
            "Cancellation will take effect at the next safe acquisition checkpoint."
            (record q {
              running_cancel = true;
              ticks = q.ticks + 1;
              jobs = assign job_id (cancelling_job c q job) q.jobs;
            }),
      )
    ]
  ]
]

-- `cancel_all`: the number of abandoned fetches, and whether a cancellation was requested
unfoldable pub cancel_all : Settings → FetchQueue → Result (ℕ × Bool) × FetchQueue
unfolding abandon_pending cancel_running
cancel_all c q =
    let (r, q1) = abandon_pending c q.pending 0 q in
    elim r [
      | raise e ↦ (raise e, q1)
      | ok abandoned ↦
          let (requested, q2) = cancel_running c q1 in
          (elim requested [ ok b ↦ ok (abandoned, b) | raise e ↦ raise e ], q2)
    ]

-- the critical section of `close`
unfoldable pub close : FetchQueue → FetchQueue
close q = record q { closing = true; running_cancel = true }
