-- ===== src/FetchQueue/Invariant.antt =====
-- What holds of the jobs of mailing_lists/queue.py between two critical sections.
use rfi.Common.{
  ℕ, ◌≤◌, String, ◌≡◌, Bool, true, Option, none, some, List, arith, one_if, Option-cases, inl, inr,
}
use rfi.Common.Lists.{length}
use rfi.Common.Assoc.{Dict, lookup, keys, count_values}
use rfi.FetchQueue.State.{FetchJob, JobState, Settings, FetchQueue, is_queued, is_running, covers}
use rfi.FetchQueue.System.{Worker, System}
use rfi.FetchQueue.Pending.{state_at, Distinct, AllQueued}

-- the running test on a job
abbrev pub runs : FetchJob → Bool
runs job = is_running job.state

-- the queued test on a job
abbrev pub waits : FetchJob → Bool
waits job = is_queued job.state

-- The jobs, the FIFO and the order agree: no stream has two active jobs, the FIFO names the queued
-- jobs, all of them and without repetition, the order names each job once, and no job has an
-- identifier that is yet to be issued.
pub record IsConsistent (c : Settings) (issued : ℕ) (pending order : List String)
    (jobs : Dict FetchJob) : Type 0 where
  pub covered_once : (stream_id : String) → count_values (covers stream_id) jobs ≤ 1
  pub all_queued : AllQueued jobs pending
  pub counted : count_values waits jobs ≡ length pending
  pub distinct : Distinct pending
  pub unissued : (n : ℕ) → issued ≤ n → lookup (c.identifiers n) jobs ≡ none
  pub ordered : keys jobs ≡ order
  pub distinct_order : Distinct order

-- How many jobs run, by the worker's place.
abbrev pub Occupies : Worker → Option String → Dict FetchJob → Type 0
Occupies Worker.idle running jobs = (running ≡ none) × (count_values runs jobs ≡ 0)
Occupies Worker.stopped running jobs = (running ≡ none) × (count_values runs jobs ≡ 0)
Occupies (Worker.fetching job_id) running jobs =
    (running ≡ some job_id)
    × (count_values runs jobs ≡ 1)
    × (state_at is_running job_id jobs ≡ true)
Occupies (Worker.crashed job_id) running jobs =
    (running ≡ some job_id)
    × (count_values runs jobs ≡ 1)
    × (state_at is_running job_id jobs ≡ true)
Occupies (Worker.concluded job_id) running jobs =
    (running ≡ some job_id) × (count_values runs jobs ≡ one_if (state_at is_running job_id jobs))

-- The jobs are consistent, and they run as the worker's place says.
abbrev pub IsValidAt : Settings → Worker → FetchQueue → Type 0
IsValidAt c worker q =
    IsConsistent c q.issued q.pending q.job_order q.jobs × Occupies worker q.running_job_id q.jobs

abbrev pub IsValid : Settings → System → Type 0
IsValid c s = IsValidAt c s.worker s.queue

-- `uuid4` identifiers do not repeat.
abbrev pub AreDistinct : (ℕ → String) → Type 0
AreDistinct identifiers = (m n : ℕ) → identifiers m ≡ identifiers n → m ≡ n

pub found_of_state_at :
    (test : JobState → Bool) (job_id : String) (jobs : Dict FetchJob)
    → state_at test job_id jobs ≡ true
    → (job : FetchJob) × (lookup job_id jobs ≡ some job) × (test job.state ≡ true)
found_of_state_at test job_id jobs h = elim (Option-cases (lookup job_id jobs)) [
  | inl absent ↦ ground arith
  | inr (job, found) ↦ (job, found, ground arith)
]
