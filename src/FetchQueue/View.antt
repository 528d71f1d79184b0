-- ===== src/FetchQueue/View.antt =====
-- `snapshot` of mailing_lists/queue.py.
use rfi.Common.{ℕ, String, Bool, Option, none, some, List, [], ◌∷◌, if◌then◌else◌, not}
use mathlib.Core.List.{reverse}
use rfi.Common.Assoc.{Dict, lookup}
use rfi.FetchQueue.State.{
  JobState, FetchJob, QueueEvent, Settings, FetchQueue, key_error, Result, ok, raise, ◌>>=◌,
  is_queued, is_running, is_active,
}

-- The jobs of a sequence of identifiers that pass a test of their state, as the comprehensions of
-- `snapshot` collect them.
unfoldable pub select_jobs :
    (JobState → Bool) → List String → Dict FetchJob → Result (List FetchJob)
select_jobs test [] jobs = ok []
select_jobs test (job_id ∷ rest) jobs =
    let selected = select_jobs test rest jobs in
    elim (lookup job_id jobs) [
      | none ↦ raise (key_error job_id)
      | some job ↦ elim selected [
        | raise e ↦ raise e
        | ok found ↦ ok (if test job.state then job ∷ found else found)
      ]
    ]

-- `running` of `snapshot`
unfoldable pub running_job : FetchQueue → Result (Option FetchJob)
running_job q = elim q.running_job_id [
  | none ↦ ok none
  | some job_id ↦ elim (lookup job_id q.jobs) [
    | none ↦ raise (key_error job_id)
    | some job ↦ ok (if is_running job.state then some job else none)
  ]
]

pub record Snapshot : Type 0 where
  pub running : Option FetchJob
  pub queued : List FetchJob
  pub recent : List FetchJob
  pub events : List QueueEvent
  pub event_limit : ℕ

-- `snapshot`, without the durable history that it copies from the store
unfoldable pub snapshot : Settings → FetchQueue → Result Snapshot
unfolding select_jobs running_job
snapshot c q = do
  queued ← select_jobs is_queued q.pending q.jobs
  running ← running_job q
  recent ← select_jobs (λ state. not (is_active state)) (reverse q.job_order) q.jobs
  ok (record {
    running = running;
    queued = queued;
    recent = recent;
    events = q.events;
    event_limit = c.event_limit;
  })
