-- ===== src/FetchQueue/CancelValid.antt =====
-- `cancel_all` of mailing_lists/queue.py keeps the jobs valid, and raises nothing while no fetch
-- stands between its end and the release of the worker.
use rfi.Common.{
  ℕ, ◌+◌, String, ◌≡◌, inl, inr, refl, ap, true, some, List, [], ◌∷◌, ◌∙◌, arith, Bool-cases, false,
  is_some, eq_iff, Option-cases,
}
use mathlib.Core.Path.{subst}
use rfi.Common.Lists.{length, mem, All}
use rfi.Common.Assoc.{Dict, lookup, lookup-assign}
use rfi.FetchQueue.Log.{record_event, persist_history}
use rfi.FetchQueue.State.{FetchJob, JobState, Settings, FetchQueue, ok, is_queued, is_running}
use rfi.FetchQueue.Cancel.{
  abandon, abandon_pending, cancel_running, cancel_all, abandoned_job, cancelling_job,
}
use rfi.FetchQueue.System.{Worker}
use rfi.FetchQueue.Invariant.{IsConsistent, Occupies, IsValidAt, found_of_state_at}
use rfi.FetchQueue.Rewrite.{touch-IsValidAt}
use rfi.FetchQueue.Consistent.{serve-IsConsistent}
use rfi.FetchQueue.Occupancy.{rewrite-Occupies}

-- the identifier has a job that was abandoned, which has ended
abbrev pub IsAbandoned : Dict FetchJob → String → Type 0
IsAbandoned jobs job_id =
    (job : FetchJob) × (lookup job_id jobs ≡ some job)
    × (job.state ≡ JobState.abandoned)
    × (is_some job.finished_at ≡ true)
    × (job.message ≡ "Queued fetch was abandoned before it started.")

module _ (c : Settings) (worker : Worker) where
  -- The loop abandons what it pops: each pending identifier has a queued job.
  pub abandon_pending-IsValidAt :
      (pending : List String) (n : ℕ) (q : FetchQueue)
      → IsConsistent c q.issued pending q.job_order q.jobs
      → Occupies worker q.running_job_id q.jobs
      → let (r, q') = abandon_pending c pending n q in
        IsValidAt c worker q'
        × (r ≡ ok (n + length pending))
        × (q'.pending ≡ [])
        × (q'.running_job_id ≡ q.running_job_id)
  unfolding abandon_pending
  abandon_pending-IsValidAt [] n q h o = ((h, o), ap ok (omega arith), refl, refl)
  abandon_pending-IsValidAt (k ∷ rest) n q h o =
      let (job, found, queued) = found_of_state_at is_queued k q.jobs h.all_queued.0 in
      let done = abandoned_job c q job in
      let later =
        abandon_pending-IsValidAt rest (n + 1) (abandon c k job (record q { pending = rest }))
          (serve-IsConsistent k job done h found refl refl)
          (rewrite-Occupies worker q.running_job_id q.jobs k job done found (ground arith) o) in
      rw (found, queued, abandon_pending) (later.0, later.1 ∙ ap ok (omega arith), later.2, later.3)

  -- The loop writes no job but those that it pops.
  pub abandon_pending-lookup :
      (pending : List String) (n : ℕ) (q : FetchQueue) (k : String)
      → mem k pending ≡ false
      → lookup k (abandon_pending c pending n q).1.jobs ≡ lookup k q.jobs
  unfolding abandon_pending abandon record_event persist_history
  abandon_pending-lookup [] n q k m = refl
  abandon_pending-lookup (j ∷ rest) n q k m = elim (Option-cases (lookup j q.jobs)) [
    | inl d ↦ rw (d, abandon_pending) refl
    | inr (job, d) ↦ elim (Bool-cases (is_queued job.state)) [
      | inl e ↦
          rw (d, e, abandon_pending)
            (abandon_pending-lookup rest (n + 1) (abandon c j job (record q { pending = rest })) k
                (ground (arith, m))
              ∙ ground (
                arith,
                m,
                lookup-assign j k (abandoned_job c (record q { pending = rest }) job) q.jobs,
                eq_iff j k,
              ))
      | inr e ↦
          rw (d, e, abandon_pending)
            (abandon_pending-lookup rest n (record q { pending = rest }) k (ground (arith, m)))
    ]
  ]

  -- Each identifier that the loop pops has an abandoned job afterwards.
  pub abandon_pending-IsAbandoned :
      (pending : List String) (n : ℕ) (q : FetchQueue)
      → IsConsistent c q.issued pending q.job_order q.jobs
      → All (IsAbandoned (abandon_pending c pending n q).1.jobs) pending
  unfolding abandon_pending abandon record_event persist_history
  abandon_pending-IsAbandoned [] n q h = tt
  abandon_pending-IsAbandoned (k ∷ rest) n q h =
      let (job, found, queued) = found_of_state_at is_queued k q.jobs h.all_queued.0 in
      let done = abandoned_job c q job in
      let q1 = abandon c k job (record q { pending = rest }) in
      let kept = abandon_pending-lookup rest (n + 1) q1 k h.distinct.0 in
      let there : lookup k q1.jobs ≡ some done =
        ground (arith, lookup-assign k k done q.jobs, eq_iff k k) in
      let popped : (abandon_pending c rest (n + 1) q1).1.jobs
          ≡ (abandon_pending c (k ∷ rest) n q).1.jobs =
        rw (found, queued, abandon_pending) refl in
      subst (λ jobs. All (IsAbandoned jobs) (k ∷ rest)) popped
        (
          (done, kept ∙ there, refl, refl, refl),
          abandon_pending-IsAbandoned rest (n + 1) q1
              (serve-IsConsistent k job done h found refl refl),
        )

  -- The running job is there, unless a fetch is between its end and the release.
  pub running_found :
      (q : FetchQueue) (job_id : String)
      → IsValidAt c (Worker.fetching job_id) q
      → (job : FetchJob) × (lookup job_id q.jobs ≡ some job) × (is_running job.state ≡ true)
  running_found q job_id valid = found_of_state_at is_running job_id q.jobs valid.1.2

  -- The request to the running fetch keeps the jobs valid, on every branch.
  pub cancel_running-IsValidAt :
      (q : FetchQueue) → IsValidAt c worker q → IsValidAt c worker (cancel_running c q).1
  unfolding cancel_running
  cancel_running-IsValidAt q valid = elim (Option-cases q.running_job_id) [
    | inl e ↦ rw (e, cancel_running) valid
    | inr (k, e) ↦ elim (Option-cases (lookup k q.jobs)) [
      | inl d ↦ rw (e, d, cancel_running) valid
      | inr (job, d) ↦ elim (Bool-cases (is_running job.state)) [
        | inl r ↦
            let touched =
              touch-IsValidAt q k job (cancelling_job c q job) d r refl worker refl valid in
            rw (e, d, r, cancel_running) touched
        | inr r ↦ rw (e, d, r, cancel_running) valid
      ]
    ]
  ]

  -- `cancel_all` keeps the jobs valid.
  pub cancel_all-IsValidAt :
      (q : FetchQueue) → IsValidAt c worker q → IsValidAt c worker (cancel_all c q).1
  unfolding cancel_all
  cancel_all-IsValidAt q valid =
      let looped = abandon_pending-IsValidAt q.pending 0 q valid.0 valid.1 in
      rw (looped.1, cancel_all) (cancel_running-IsValidAt _ looped.0)
