-- ===== src/FetchQueue/Rewrite.antt =====
-- The two ways in which a section of mailing_lists/queue.py writes a job that runs.
use rfi.Common.{String, ◌≡◌, true, false, some, arith}
use rfi.Common.Assoc.{lookup, assign}
use rfi.FetchQueue.State.{FetchJob, Settings, FetchQueue, is_queued, is_running, is_active}
use rfi.FetchQueue.System.{Worker}
use rfi.FetchQueue.Pending.{not_pending}
use rfi.FetchQueue.Invariant.{IsConsistent, IsValidAt}
use rfi.FetchQueue.Consistent.{rewrite-IsConsistent}
use rfi.FetchQueue.Occupancy.{rewrite-Occupies, end-Occupies}

module _ {c : Settings} (q : FetchQueue) (job_id : String) (old new : FetchJob)
    (found : lookup job_id q.jobs ≡ some old) (runs : is_running old.state ≡ true)
    (same_stream : new.stream_id ≡ old.stream_id) where
  -- the FIFO does not name a job that runs
  written-IsConsistent :
      is_queued new.state ≡ false
      → IsConsistent c q.issued q.pending q.job_order q.jobs
      → IsConsistent c q.issued q.pending q.job_order (assign job_id new q.jobs)
  written-IsConsistent served h =
      rewrite-IsConsistent h job_id old new found same_stream (λ e. ground arith) (ground arith)
        (not_pending job_id q.jobs q.pending h.all_queued (ground arith))

  -- a running job is written and still runs
  pub touch-IsValidAt :
      (worker : Worker)
      → new.state ≡ old.state
      → IsValidAt c worker q
      → IsValidAt c worker (record q { jobs = assign job_id new q.jobs })
  touch-IsValidAt worker same valid = (
    written-IsConsistent (ground arith) valid.0,
    rewrite-Occupies worker q.running_job_id q.jobs job_id old new found (ground arith) valid.1,
  )

  -- the job of a fetch that is over is written and runs no more
  pub end-IsValidAt :
      is_active new.state ≡ false
      → IsValidAt c (Worker.concluded job_id) q
      → IsValidAt c (Worker.concluded job_id) (record q { jobs = assign job_id new q.jobs })
  end-IsValidAt ends valid = (
    written-IsConsistent (ground arith) valid.0,
    end-Occupies q.jobs job_id old new found valid.1 (ground arith),
  )
