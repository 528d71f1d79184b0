-- ===== src/FetchQueue/Admission.antt =====
-- What `enqueue` of mailing_lists/queue.py promises.
use rfi.Common.{
  ℕ, suc, ◌≤◌, String, ◌≡◌, ◌≢◌, ◌⊎◌, inl, inr, refl, true, false, some, List, [], ◌∷◌, ◌++◌, ◌∙◌,
  arith, eq_iff, leb, Bool-cases, Option-cases,
}
use rfi.Common.Lists.{length}
use rfi.Common.Assoc.{Dict, lookup, delete, assign, count_values, lookup-assign, lookup-delete_ne}
use rfi.FetchQueue.State.{FetchJob, Settings, SavedWorkflow, FetchQueue, ok, is_active, covers}
use rfi.FetchQueue.Log.{record_event}
use rfi.FetchQueue.Enqueue.{find_saved, find_duplicate, trim_loop, new_job, enqueue}
use rfi.FetchQueue.System.{Worker}
use rfi.FetchQueue.Invariant.{IsValidAt, AreDistinct}
use rfi.FetchQueue.EnqueueValid.{accept-IsValidAt}

-- an active job survives the trimming
trim_loop_keeps :
    (limit : ℕ) (order : List String) (jobs : Dict FetchJob) (k : String) (job : FetchJob)
    → lookup k jobs ≡ some job
    → is_active job.state ≡ true
    → lookup k (trim_loop limit order jobs).2 ≡ some job
unfolding trim_loop
trim_loop_keeps limit [] jobs k job found active = found
trim_loop_keeps limit (j ∷ order) jobs k job found active =
    elim (Bool-cases (leb (suc (length order)) limit)) [
      | inl e ↦ rw (e, trim_loop) found
      | inr e ↦ elim (Option-cases (lookup j jobs)) [
        | inl d ↦ rw (e, d, trim_loop) found
        | inr (other, d) ↦ elim (Bool-cases (is_active other.state)) [
          | inl a ↦ rw (e, d, a, trim_loop) found
          | inr a ↦
              let apart : j ≢ k = λ p. ground arith in
              rw (e, d, a, trim_loop)
                (trim_loop_keeps limit order (delete j jobs) k job
                  (lookup-delete_ne j k jobs apart ∙ found) active)
        ]
      ]
    ]

-- what the trimming leaves is within the limit, or begins with an active job
trim_loop_bound :
    (limit : ℕ) (order : List String) (jobs : Dict FetchJob)
    → (trim_loop limit order jobs).0 ≡ ok tt
    → let (_, order', jobs') = trim_loop limit order jobs in
      (length order' ≤ limit)
      ⊎ ((k : String) × (job : FetchJob) × (rest : List String) × (order' ≡ k ∷ rest)
          × (lookup k jobs' ≡ some job)
          × (is_active job.state ≡ true))
unfolding trim_loop
trim_loop_bound limit [] jobs h = inl (omega arith)
trim_loop_bound limit (j ∷ order) jobs h = elim (Bool-cases (leb (suc (length order)) limit)) [
  | inl e ↦ rw (e, trim_loop) (inl (ground arith))
  | inr e ↦ elim (Option-cases (lookup j jobs)) [
    | inl d ↦ absurd (ground arith)
    | inr (job, d) ↦ elim (Bool-cases (is_active job.state)) [
      | inl a ↦ rw (e, d, a, trim_loop) (inr (j, job, order, refl, d, a))
      | inr a ↦
          rw (e, d, a, trim_loop)
            (trim_loop_bound limit order (delete j jobs) (rw (e, d, a, trim_loop) at h))
    ]
  ]
]

find_duplicate-some :
    (stream_id : String) (jobs : Dict FetchJob) (job : FetchJob)
    → find_duplicate stream_id jobs ≡ some job
    → 1 ≤ count_values (covers stream_id) jobs
unfolding find_duplicate
find_duplicate-some s [] job h = cc
find_duplicate-some s ((k, j) ∷ jobs) job h = ground (arith, find_duplicate-some s jobs job)

module _ (c : Settings) (ids : AreDistinct c.identifiers) (worker : Worker) where
  -- In a valid state, a saved stream that no queued or running job covers is accepted, if the
  -- identifier factory does not repeat itself: its job is the last of the FIFO and among the jobs,
  -- all other pending identifiers keep their places, and the jobs are within the limit or the
  -- oldest is active.
  pub enqueue_accepts :
      (saved : List SavedWorkflow) (stream_id : String) (summary : SavedWorkflow) (q : FetchQueue)
      → IsValidAt c worker q
      → find_saved stream_id saved ≡ some summary
      → count_values (covers stream_id) q.jobs ≡ 0
      → let (r, q') = enqueue c saved stream_id q in
        let job = new_job c stream_id summary q in
        (r ≡ ok (record { accepted = true; duplicate = false; job = job }))
        × (q'.pending ≡ q.pending ++ job.job_id ∷ [])
        × (lookup job.job_id q'.jobs ≡ some job)
        × ((length q'.job_order ≤ c.job_limit)
            ⊎ ((k : String) × (oldest : FetchJob) × (rest : List String) × (q'.job_order ≡ k ∷ rest)
                × (lookup k q'.jobs ≡ some oldest)
                × (is_active oldest.state ≡ true)))
  unfolding enqueue record_event
  enqueue_accepts saved stream_id summary q valid e none_active =
      elim (Option-cases (find_duplicate stream_id q.jobs)) [
        | inr (job, d) ↦ absurd (omega (arith, find_duplicate-some stream_id q.jobs job d))
        | inl d ↦
            let job = new_job c stream_id summary q in
            let order = q.job_order ++ job.job_id ∷ [] in
            let jobs = assign job.job_id job q.jobs in
            let (kept, trimmed, raised_none) =
              accept-IsValidAt c ids worker stream_id summary q d valid in
            let found : lookup job.job_id jobs ≡ some job = ground (
              arith,
              lookup-assign job.job_id job.job_id job q.jobs,
              eq_iff job.job_id job.job_id,
            ) in
            rw (e, d, enqueue)
              (
                raised_none,
                refl,
                trim_loop_keeps c.job_limit order jobs job.job_id job found refl,
                trim_loop_bound c.job_limit order jobs trimmed,
              )
      ]
