-- ===== src/FetchQueue/EnqueueValid.antt =====
-- `enqueue` and `_trim_jobs` of mailing_lists/queue.py keep the jobs valid.
use rfi.Common.{
  ℕ, suc, ◌+◌, String, ◌≡◌, inl, inr, refl, true, false, Option, none, List, [], ◌∷◌, ◌++◌, arith,
  leb, Bool-cases, Option-cases,
}
use rfi.Common.Lists.{length}
use rfi.Common.Assoc.{Dict, assign, count_values, lookup-first}
use rfi.FetchQueue.State.{FetchJob, Settings, SavedWorkflow, FetchQueue, ok, is_active, covers}
use rfi.FetchQueue.Log.{record_event}
use rfi.FetchQueue.Enqueue.{find_saved, find_duplicate, trim_loop, new_job, accept, enqueue}
use rfi.FetchQueue.System.{Worker}
use rfi.FetchQueue.Invariant.{IsConsistent, Occupies, IsValidAt, AreDistinct}
use rfi.FetchQueue.Consistent.{delete-IsConsistent, add-IsConsistent}
use rfi.FetchQueue.Occupancy.{add-Occupies, delete-Occupies}

-- where the search finds no active job of the stream there is none
pub find_duplicate-none :
    (stream_id : String) (jobs : Dict FetchJob)
    → find_duplicate stream_id jobs ≡ none
    → count_values (covers stream_id) jobs ≡ 0
unfolding find_duplicate
find_duplicate-none stream_id [] h = refl
find_duplicate-none stream_id ((k, job) ∷ jobs) h =
    ground (arith, find_duplicate-none stream_id jobs)

module _ (c : Settings) (worker : Worker) (issued : ℕ) (pending : List String)
    (running : Option String) where
  -- The loop finds every job that the order names, and what it leaves is consistent.
  trim_loop-IsConsistent :
      (limit : ℕ) (order : List String) (jobs : Dict FetchJob)
      → IsConsistent c issued pending order jobs
      → Occupies worker running jobs
      → let (r, order', jobs') = trim_loop limit order jobs in
        IsConsistent c issued pending order' jobs' × Occupies worker running jobs' × (r ≡ ok tt)
  unfolding trim_loop
  trim_loop-IsConsistent limit [] jobs h o = (h, o, refl)
  trim_loop-IsConsistent limit (k ∷ order) jobs h o =
      let (job, found) = lookup-first k order jobs h.ordered in
      elim (Bool-cases (leb (suc (length order)) limit)) [
        | inl e ↦ rw e (h, o, refl)
        | inr e ↦ elim (Bool-cases (is_active job.state)) [
          | inl a ↦ rw (e, found, a) (h, o, refl)
          | inr a ↦
              rw (e, found, a)
                (trim_loop-IsConsistent limit order _ (delete-IsConsistent k job h found a) (
                  delete-Occupies worker running jobs k order job h.ordered h.distinct_order.0 found
                    a o))
        ]
      ]

module _ (c : Settings) (ids : AreDistinct c.identifiers) (worker : Worker) where
  -- `accept` keeps the jobs valid and raises nothing, where no active job has the stream.
  pub accept-IsValidAt :
      (stream_id : String) (summary : SavedWorkflow) (q : FetchQueue)
      → find_duplicate stream_id q.jobs ≡ none
      → IsValidAt c worker q
      → let job = new_job c stream_id summary q in
        IsValidAt c worker (accept c stream_id summary q).1
        × ((trim_loop c.job_limit (q.job_order ++ job.job_id ∷ []) (assign job.job_id job q.jobs)).0
            ≡ ok tt)
        × ((accept c stream_id summary q).0
            ≡ ok (record {
              accepted = true;
              duplicate = false;
              job = new_job c stream_id summary q;
            }))
  unfolding accept record_event
  accept-IsValidAt stream_id summary q h valid =
      let job : FetchJob = new_job c stream_id summary q in
      let absent = valid.0.unissued q.issued (omega arith) in
      let added =
        add-IsConsistent job valid.0 ids refl refl (find_duplicate-none stream_id q.jobs h) in
      let trimmed =
        trim_loop-IsConsistent c worker (q.issued + 1) _ q.running_job_id c.job_limit _ _ added
          (add-Occupies worker q.running_job_id q.jobs job.job_id job absent refl valid.1) in
      ((trimmed.0, trimmed.1), trimmed.2, rw (trimmed.2, accept))

  -- `enqueue` keeps the jobs valid, on every branch.
  pub enqueue-IsValidAt :
      (saved : List SavedWorkflow) (stream_id : String) (q : FetchQueue)
      → IsValidAt c worker q
      → IsValidAt c worker (enqueue c saved stream_id q).1
  unfolding enqueue record_event
  enqueue-IsValidAt saved stream_id q valid = elim (Option-cases (find_saved stream_id saved)) [
    | inl e ↦ rw (e, enqueue) valid
    | inr (summary, e) ↦ elim (Option-cases (find_duplicate stream_id q.jobs)) [
      | inl d ↦ rw (e, d, enqueue) (accept-IsValidAt stream_id summary q d valid).0
      | inr (job, d) ↦ rw (e, d, enqueue) valid
    ]
  ]
