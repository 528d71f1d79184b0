-- ===== src/FetchQueue/WorkerValid.antt =====
-- The worker's sections of mailing_lists/queue.py keep the jobs valid.
use rfi.Common.{
  ℕ, ◌+◌, String, ◌≡◌, inl, inr, refl, Bool, true, false, some, List, [], ◌∷◌, ◌&&◌, arith, eq_iff,
  ltb, not, Bool-cases, Option-cases,
}
use rfi.Common.Assoc.{lookup, assign, lookup-assign}
use rfi.FetchQueue.State.{
  FetchProgress, FetchActivity, FetchJob, JobState, EventKind, Settings, FetchQueue, is_queued,
  is_running, is_active,
}
use rfi.FetchQueue.Log.{stale_seconds}
use rfi.FetchQueue.Worker.{
  start, started_job, take_pending, take_unless, take_next, is_current, progressed_job,
  maybe_progress_event, on_progress, active_job, on_activity, micros,
}
use rfi.FetchQueue.Monitor.{
  waiting_job, stalled_job, monitor, FetchOutcome, verdict, terminal_job, terminalize, conclude,
  release,
}
use rfi.FetchQueue.System.{Worker, after_turn}
use rfi.FetchQueue.Pending.{state_at}
use rfi.FetchQueue.Invariant.{IsConsistent, Occupies, IsValidAt, found_of_state_at}
use rfi.FetchQueue.Consistent.{serve-IsConsistent}
use rfi.FetchQueue.Occupancy.{start-Occupies, conclude-Occupies, release-Occupies}
use rfi.FetchQueue.Rewrite.{touch-IsValidAt, end-IsValidAt}

module _ (c : Settings) where
  -- An idle worker that takes the head of the FIFO runs it.
  take_pending-IsValidAt :
      (pending : List String) (q : FetchQueue)
      → q.pending ≡ pending
      → IsConsistent c q.issued pending q.job_order q.jobs
      → Occupies Worker.idle q.running_job_id q.jobs
      → let (r, q') = take_pending c pending q in IsValidAt c (after_turn r) q'
  unfolding start
  take_pending-IsValidAt [] q e h o = (rw e h, o)
  take_pending-IsValidAt (k ∷ rest) q e h o =
      let (job, found, queued) = found_of_state_at is_queued k q.jobs h.all_queued.0 in
      let started = started_job c q job in
      rw (found, queued, take_pending)
        (
          serve-IsConsistent k job started h found refl refl,
          start-Occupies q.jobs k job started found o queued refl,
        )

  take_unless-IsValidAt :
      (closing : Bool) (q : FetchQueue)
      → IsValidAt c Worker.idle q
      → IsValidAt c (after_turn (take_unless c closing q).0) (take_unless c closing q).1
  take_unless-IsValidAt true q valid = (valid.0, valid.1)
  take_unless-IsValidAt false q valid = take_pending-IsValidAt q.pending q refl valid.0 valid.1

  -- The section that takes a job keeps the jobs valid, on every branch.
  pub take_next-IsValidAt :
      (q : FetchQueue)
      → IsValidAt c Worker.idle q
      → IsValidAt c (after_turn (take_next c q).0) (take_next c q).1
  unfolding take_next
  take_next-IsValidAt q valid = take_unless-IsValidAt q.closing q valid

module _ (c : Settings) (worker : Worker) where
  -- A progress report keeps the jobs valid, whenever it comes and whichever job it names.
  pub on_progress-IsValidAt :
      (job_id : String) (snapshot : FetchProgress) (q : FetchQueue)
      → IsValidAt c worker q
      → IsValidAt c worker (on_progress c job_id snapshot q)
  unfolding on_progress
  on_progress-IsValidAt k snapshot q valid = elim (Option-cases (lookup k q.jobs)) [
    | inl d ↦ rw (d, on_progress) valid
    | inr (job, d) ↦ elim (Bool-cases (is_current k q.running_job_id && is_running job.state)) [
      | inr r ↦ rw (d, r, on_progress) valid
      | inl r ↦
          let new = progressed_job c q snapshot job in
          let touched = touch-IsValidAt q k job new d (ground arith) refl worker refl valid in
          rw (d, r, on_progress)
            (elim (Bool-cases (ltb (q.progress_updates_since_event + 1) 3)) [
              | inl t ↦ rw (t, maybe_progress_event) touched
              | inr t ↦ rw (t, maybe_progress_event) touched
            ])
    ]
  ]

  active_job_same :
      (now : ℕ) (at : String) (activity : FetchActivity) (job : FetchJob)
      → ((active_job c now at activity job).stream_id ≡ job.stream_id)
        × ((active_job c now at activity job).state ≡ job.state)
  unfolding active_job
  active_job_same now at activity job = ground arith

  -- A sign of life keeps the jobs valid, whenever it comes and whichever job it names.
  pub on_activity-IsValidAt :
      (now : ℕ) (job_id : String) (activity : FetchActivity) (q : FetchQueue)
      → IsValidAt c worker q
      → IsValidAt c worker (on_activity c now job_id activity q)
  unfolding on_activity
  on_activity-IsValidAt now k activity q valid = elim (Option-cases (lookup k q.jobs)) [
    | inl d ↦ rw (d, on_activity) valid
    | inr (job, d) ↦ elim (Bool-cases (is_current k q.running_job_id && is_running job.state)) [
      | inr r ↦ rw (d, r, on_activity) valid
      | inl r ↦
          let same = active_job_same now (c.clock q.ticks) activity job in
          rw (d, r, on_activity)
            (touch-IsValidAt q k job (active_job c now (c.clock q.ticks) activity job) d
              (ground arith) same.0 worker same.1 valid)
    ]
  ]

  waiting_job_same :
      (stale now ticks : ℕ) (job : FetchJob)
      → ((waiting_job c stale now ticks job).0.stream_id ≡ job.stream_id)
        × ((waiting_job c stale now ticks job).0.state ≡ job.state)
  unfolding waiting_job
  waiting_job_same stale now ticks job = ground arith

  -- A round of the monitor keeps the jobs valid.
  pub monitor-IsValidAt :
      (now now' : ℕ) (job_id : String) (q : FetchQueue)
      → IsValidAt c worker q
      → IsValidAt c worker (monitor c now now' job_id q)
  unfolding monitor
  monitor-IsValidAt now now' k q valid = elim (Option-cases (lookup k q.jobs)) [
    | inl d ↦ rw (d, monitor) valid
    | inr (job, d) ↦ elim (Bool-cases (is_running job.state && not q.running_cancel)) [
      | inr r ↦ rw (d, r, monitor) valid
      | inl r ↦
          let stale = stale_seconds c now job in
          let waiting = waiting_job c stale now' q.ticks job in
          let same = waiting_job_same stale now' q.ticks job in
          let runs : is_running job.state ≡ true = ground arith in
          elim (Bool-cases (ltb stale (micros c.stale_progress_seconds))) [
            | inl t ↦
                rw (d, r, t, monitor)
                  (touch-IsValidAt q k job waiting.0 d runs same.0 worker same.1 valid)
            | inr t ↦
                rw (d, r, t, monitor)
                  (touch-IsValidAt q k job (stalled_job c (c.clock waiting.1) waiting.0) d runs
                    same.0 worker same.1 valid)
          ]
    ]
  ]

module _ (c : Settings) (job_id : String) where
  -- `terminalize` ends the job of a fetch that is over.
  terminalize-IsValidAt :
      (state : JobState) (event : EventKind) (message : String) (old job : FetchJob)
      (q : FetchQueue)
      → is_active state ≡ false
      → job.stream_id ≡ old.stream_id
      → lookup job_id q.jobs ≡ some old
      → is_running old.state ≡ true
      → IsValidAt c (Worker.concluded job_id) q
      → IsValidAt c (Worker.concluded job_id) (terminalize c state event message job_id job q)
  unfolding terminalize
  terminalize-IsValidAt state event message old job q ends same found runs valid =
      end-IsValidAt q job_id old (terminal_job c state message q job) found runs same ends valid

  -- every verdict ends the job
  verdict-ends :
      (outcome : FetchOutcome) (job : FetchJob) → is_active (verdict c outcome job).0 ≡ false
  unfolding verdict
  verdict-ends outcome job = ground arith

  -- The end of a fetch keeps the jobs valid, whatever it ended with.
  pub conclude-IsValidAt :
      (outcome : FetchOutcome) (q : FetchQueue)
      → IsValidAt c (Worker.fetching job_id) q
      → IsValidAt c (Worker.concluded job_id) (conclude c outcome job_id q)
  unfolding conclude
  conclude-IsValidAt outcome q valid =
      let (job, found, runs) = found_of_state_at is_running job_id q.jobs valid.1.2 in
      let (state, event, message, result) = verdict c outcome job in
      rw (found, conclude)
        (terminalize-IsValidAt state event message job (record job { result = result }) q
          (verdict-ends outcome job) refl found runs
          (valid.0, conclude-Occupies q.jobs job_id valid.1))

  -- The release leaves an idle worker and no job that runs.
  pub release-IsValidAt :
      (q : FetchQueue)
      → IsValidAt c (Worker.concluded job_id) q
      → IsValidAt c Worker.idle (release c job_id q)
  unfolding release
  release-IsValidAt q valid = elim (Option-cases (lookup job_id q.jobs)) [
    | inl d ↦ rw (d, release) (valid.0, release-Occupies q.jobs job_id valid.1 (rw (d, state_at)))
    | inr (job, d) ↦ elim (Bool-cases (is_running job.state)) [
      | inr r ↦
          rw (d, r, release) (valid.0, release-Occupies q.jobs job_id valid.1 (rw (d, state_at) r))
      | inl r ↦
          let message : String = "Fetch worker exited without a terminal state; marked failed." in
          let done = terminal_job c JobState.failed message q job in
          let ended = end-IsValidAt q job_id job done d r refl refl valid in
          rw (d, r, release)
            (
              ended.0,
              release-Occupies (assign job_id done q.jobs) job_id ended.1
                  (ground (arith, lookup-assign job_id job_id done q.jobs, eq_iff job_id job_id)),
            )
    ]
  ]
