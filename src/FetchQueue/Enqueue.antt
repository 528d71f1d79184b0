-- ===== src/FetchQueue/Enqueue.antt =====
-- `enqueue` and `_trim_jobs` of mailing_lists/queue.py. A call is one critical
-- section; an exception leaves what was written before it.
use rfi.Common.{
  ℕ, suc, ◌+◌, String, Bool, true, false, Option, none, some, List, [], ◌∷◌, ◌++◌, ◌==◌, leb,
  if◌then◌else◌,
}
use rfi.Common.Lists.{length}
use rfi.Common.Text.{join}
use rfi.Common.Assoc.{Dict, lookup, assign, delete}
use rfi.FetchQueue.State.{
  JobState, EventKind, SavedWorkflow, FetchJob, Settings, FetchQueue, mailing_list_error, key_error,
  Result, ok, raise, is_active, covers,
}
use rfi.FetchQueue.Log.{record_event}

-- `next((item for item in saved if item.stream_id == stream_id), None)`
unfoldable pub find_saved : String → List SavedWorkflow → Option SavedWorkflow
find_saved stream_id [] = none
find_saved stream_id (item ∷ rest) =
    if item.stream_id == stream_id then some item else find_saved stream_id rest

-- the duplicate search over `self._jobs.values()`
unfoldable pub find_duplicate : String → Dict FetchJob → Option FetchJob
find_duplicate stream_id [] = none
find_duplicate stream_id ((_, job) ∷ rest) =
    if covers stream_id job then some job else find_duplicate stream_id rest

-- The loop of `_trim_jobs` over the job order: what is left of the order and of the jobs.
unfoldable pub trim_loop :
    ℕ → List String → Dict FetchJob → Result (Unit {0}) × List String × Dict FetchJob
trim_loop limit [] jobs = (ok tt, [], jobs)
trim_loop limit (candidate ∷ order) jobs =
    let longer : Result (Unit {0}) × List String × Dict FetchJob = elim (lookup candidate jobs) [
      | none ↦ (raise (key_error candidate), candidate ∷ order, jobs)
      | some job ↦ elim (is_active job.state) [
        | true ↦ (ok tt, candidate ∷ order, jobs)
        | false ↦ trim_loop limit order (delete candidate jobs)
      ]
    ] in
    if leb (suc (length order)) limit then (ok tt, candidate ∷ order, jobs) else longer

-- `_trim_jobs`
unfoldable pub trim_jobs : Settings → FetchQueue → Result (Unit {0}) × FetchQueue
unfolding trim_loop
trim_jobs c q =
    let (r, order, jobs) = trim_loop c.job_limit q.job_order q.jobs in
    (r, record q { job_order = order; jobs = jobs })

pub record EnqueueReply : Type 0 where
  pub accepted : Bool
  pub duplicate : Bool
  pub job : FetchJob

-- `FetchJob(...)` in `enqueue`, with the fields' defaults
unfoldable pub new_job : Settings → String → SavedWorkflow → FetchQueue → FetchJob
new_job c stream_id summary q = record {
  job_id = c.identifiers q.issued;
  stream_id = stream_id;
  stream_name = summary.stream_name;
  state = JobState.queued;
  queued_at = c.clock q.ticks;
  started_at = none;
  finished_at = none;
  message = "Waiting for the single acquisition worker.";
  result = none;
  progress = none;
  latest_progress_message = none;
  last_progress_at = none;
  last_activity_at = none;
  last_feedback_at = none;
  latest_activity_message = none;
  stalled_at = none;
  cancellation_requested_at = none;
  updated_at = none;
}

-- a new job in the jobs, the order and the FIFO
unfoldable pub add_job : FetchJob → FetchQueue → FetchQueue
add_job job q = record q {
  jobs = assign job.job_id job q.jobs;
  job_order = q.job_order ++ job.job_id ∷ [];
  pending = q.pending ++ job.job_id ∷ [];
}

-- the part of `enqueue` behind the duplicate test
unfoldable pub accept :
    Settings → String → SavedWorkflow → FetchQueue → Result EnqueueReply × FetchQueue
unfolding new_job add_job trim_jobs
accept c stream_id summary q =
    let job = new_job c stream_id summary q in
    let added = add_job job (record q { ticks = q.ticks + 1; issued = q.issued + 1 }) in
    let logged =
      record_event c EventKind.queued (some stream_id) (some summary.stream_name)
        "Fetch up to date was added to the FIFO queue." added in
    let (r, trimmed) = trim_jobs c logged in
    (
      elim r [
        | ok _ ↦ ok (record { accepted = true; duplicate = false; job = job })
        | raise e ↦ raise e
      ],
      trimmed,
    )

-- `enqueue`, with what `self.workflow.saved()` returns
unfoldable pub enqueue :
    Settings → List SavedWorkflow → String → FetchQueue → Result EnqueueReply × FetchQueue
unfolding find_saved find_duplicate accept
enqueue c saved stream_id q = elim (find_saved stream_id saved) [
  | none ↦ (
    raise (mailing_list_error "unknown_stream" (join "unknown mailing-list stream: " stream_id)),
    q,
  )
  | some summary ↦ elim (find_duplicate stream_id q.jobs) [
    | some job ↦ (
      ok (record { accepted = false; duplicate = true; job = job }),
      record_event c EventKind.duplicate_ignored (some stream_id) (some summary.stream_name)
          "A queued or running fetch already covers this stream." q,
    )
    | none ↦ accept c stream_id summary q
  ]
]
