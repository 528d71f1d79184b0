-- ===== src/FetchQueue/Occupancy.antt =====
-- The count of running jobs of mailing_lists/queue.py under each kind of change to the jobs.
use rfi.Common.{
  String, ◌≡◌, inl, inr, refl, sym, ap, true, false, Option, none, some, List, ◌∷◌, ◌∙◌, arith,
  eq_iff, one_if, text-cases,
}
use rfi.Common.Assoc.{
  Dict, lookup, assign, delete, keys, count_values, lookup-assign, lookup-delete_ne,
  count_values-assign, count_values-assign_new, count_values-delete, keys-delete_first,
}
use rfi.FetchQueue.State.{FetchJob, is_queued, is_running, is_active}
use rfi.FetchQueue.System.{Worker}
use rfi.FetchQueue.Pending.{state_at, mem, lookup_of_not_mem}
use rfi.FetchQueue.Invariant.{runs, Occupies}

-- `Occupies` reads the jobs by the count of those that run and by the state at an identifier.
Occupies-of_same :
    (worker : Worker) (running : Option String) (jobs jobs' : Dict FetchJob)
    → count_values runs jobs' ≡ count_values runs jobs
    → ((job_id : String) → state_at is_running job_id jobs' ≡ state_at is_running job_id jobs)
    → Occupies worker running jobs
    → Occupies worker running jobs'
Occupies-of_same Worker.idle running jobs jobs' e h o = (o.0, e ∙ o.1)
Occupies-of_same Worker.stopped running jobs jobs' e h o = (o.0, e ∙ o.1)
Occupies-of_same (Worker.fetching k) running jobs jobs' e h o = (o.0, e ∙ o.1, h k ∙ o.2)
Occupies-of_same (Worker.crashed k) running jobs jobs' e h o = (o.0, e ∙ o.1, h k ∙ o.2)
Occupies-of_same (Worker.concluded k) running jobs jobs' e h o =
    (o.0, e ∙ o.1 ∙ ap one_if (sym (h k)))

module _ (worker : Worker) (running : Option String) (jobs : Dict FetchJob) (job_id : String)
    (old new : FetchJob) (found : lookup job_id jobs ≡ some old) where
  -- a rewrite that keeps whether the job runs
  pub rewrite-Occupies :
      runs new ≡ runs old
      → Occupies worker running jobs
      → Occupies worker running (assign job_id new jobs)
  rewrite-Occupies same =
      Occupies-of_same worker running jobs (assign job_id new jobs)
        (ground (arith, count_values-assign runs job_id new old jobs found))
        (λ j. ground (arith, lookup-assign job_id j new jobs, eq_iff job_id j))

module _ (worker : Worker) (running : Option String) (jobs : Dict FetchJob) where
  pub add-Occupies :
      (job_id : String) (job : FetchJob)
      → lookup job_id jobs ≡ none
      → runs job ≡ false
      → Occupies worker running jobs
      → Occupies worker running (assign job_id job jobs)
  add-Occupies job_id job absent rests =
      Occupies-of_same worker running jobs (assign job_id job jobs)
        (ground (arith, count_values-assign_new runs job_id job jobs absent))
        (λ j. ground (arith, lookup-assign job_id j job jobs, eq_iff job_id j))

  pub delete-Occupies :
      (candidate : String) (order : List String) (job : FetchJob)
      → keys jobs ≡ candidate ∷ order
      → mem candidate order ≡ false
      → lookup candidate jobs ≡ some job
      → is_active job.state ≡ false
      → Occupies worker running jobs
      → Occupies worker running (delete candidate jobs)
  delete-Occupies candidate order job ordered once found rests =
      let gone : lookup candidate (delete candidate jobs) ≡ none =
        lookup_of_not_mem candidate (delete candidate jobs)
          (ap (mem candidate) (keys-delete_first candidate order jobs ordered) ∙ once) in
      Occupies-of_same worker running jobs (delete candidate jobs)
        (ground (arith, count_values-delete runs candidate job jobs found))
        (λ j. elim (text-cases candidate j) [
          | inl (_, e) ↦ ground arith
          | inr (_, e) ↦ rw (lookup-delete_ne candidate j jobs e, state_at) refl
        ])

module _ (jobs : Dict FetchJob) (job_id : String) (old new : FetchJob)
    (found : lookup job_id jobs ≡ some old) where
  -- an idle worker starts a queued job
  pub start-Occupies :
      {running : Option String}
      → Occupies Worker.idle running jobs
      → is_queued old.state ≡ true
      → runs new ≡ true
      → Occupies (Worker.fetching job_id) (some job_id) (assign job_id new jobs)
  start-Occupies o queued starts = (
    refl,
    ground (arith, count_values-assign runs job_id new old jobs found),
    ground (arith, lookup-assign job_id job_id new jobs, eq_iff job_id job_id),
  )

  -- the job of a fetch ends, or has ended
  pub end-Occupies :
      {running : Option String}
      → Occupies (Worker.concluded job_id) running jobs
      → runs new ≡ false
      → Occupies (Worker.concluded job_id) running (assign job_id new jobs)
  end-Occupies o ends = (
    o.0,
    ground (
      arith,
      count_values-assign runs job_id new old jobs found,
      lookup-assign job_id job_id new jobs,
      eq_iff job_id job_id,
    ),
  )

-- the fetch is over, and its job still runs
pub conclude-Occupies :
    (jobs : Dict FetchJob) (job_id : String) {running : Option String}
    → Occupies (Worker.fetching job_id) running jobs
    → Occupies (Worker.concluded job_id) running jobs
conclude-Occupies jobs job_id o = (o.0, ground arith)

-- the worker is free once the job of its fetch does not run
pub release-Occupies :
    (jobs : Dict FetchJob) (job_id : String) {running : Option String}
    → Occupies (Worker.concluded job_id) running jobs
    → state_at is_running job_id jobs ≡ false
    → Occupies Worker.idle none jobs
release-Occupies jobs job_id o rests = (refl, ground arith)
