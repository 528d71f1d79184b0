-- ===== src/FetchQueue/Safety.antt =====
-- What holds of every reachable state of mailing_lists/queue.py, whatever the interleaving.
use rfi.Common.{◌≤◌, String, ◌≡◌, refl, arith}
use rfi.Common.Lists.{length}
use rfi.Common.Assoc.{lookup, keys, count_values}
use rfi.FetchQueue.State.{Settings, FetchQueue, covers}
use rfi.FetchQueue.Cancel
use rfi.FetchQueue.System.{Worker, System, initial, Step, Reach}
use rfi.FetchQueue.Pending.{AllQueued, Distinct}
use rfi.FetchQueue.Invariant.{runs, waits, IsValidAt, IsValid, AreDistinct}
use rfi.FetchQueue.EnqueueValid.{enqueue-IsValidAt}
use rfi.FetchQueue.CancelValid.{cancel_all-IsValidAt}
use rfi.FetchQueue.WorkerValid.{
  take_next-IsValidAt, on_progress-IsValidAt, on_activity-IsValidAt, monitor-IsValidAt,
  conclude-IsValidAt, release-IsValidAt,
}
use rfi.FetchQueue.Occupancy.{conclude-Occupies}

pub initial-IsValid : (c : Settings) → IsValid c initial
unfolding lookup
initial-IsValid c = (
  record {
    covered_once = λ s. omega arith;
    all_queued = tt;
    counted = refl;
    distinct = tt;
    unissued = λ n h. refl;
    ordered = refl;
    distinct_order = tt;
  },
  (refl, refl),
)

module _ (c : Settings) (ids : AreDistinct c.identifiers) where
  -- The worker of a valid state stands where an equation says.
  at_worker :
      (s : System) {worker : Worker} → s.worker ≡ worker → IsValid c s → IsValidAt c worker s.queue
  at_worker s e valid = (valid.0, rw e at valid.1)

  -- Every critical section keeps the state valid.
  pub Step-IsValid : {s t : System} → Step c s t → IsValid c s → IsValid c t
  unfolding Cancel.close
  Step-IsValid {s} (Step.enqueue saved stream_id) valid =
      enqueue-IsValidAt c ids s.worker saved stream_id s.queue valid
  Step-IsValid {s} Step.cancel_all valid = cancel_all-IsValidAt c s.worker s.queue valid
  Step-IsValid Step.close valid = (valid.0, valid.1)
  Step-IsValid {s} (Step.take e) valid = take_next-IsValidAt c s.queue (at_worker s e valid)
  Step-IsValid {s} (Step.progress k snapshot) valid =
      on_progress-IsValidAt c s.worker k snapshot s.queue valid
  Step-IsValid {s} (Step.activity now k activity) valid =
      on_activity-IsValidAt c s.worker now k activity s.queue valid
  Step-IsValid {s} (Step.monitor now now' k e) valid =
      monitor-IsValidAt c s.worker now now' k s.queue valid
  Step-IsValid {s} (Step.conclude outcome k e) valid =
      conclude-IsValidAt c k outcome s.queue (at_worker s e valid)
  Step-IsValid {s} (Step.crash k e) valid = at_worker s e valid
  Step-IsValid {s} (Step.release k e) valid = release-IsValidAt c k s.queue (at_worker s e valid)
  Step-IsValid {s} (Step.stop k e) valid =
      let crashed = at_worker s e valid in
      release-IsValidAt c k s.queue (crashed.0, conclude-Occupies s.queue.jobs k crashed.1)

  pub Reach-IsValid : {s : System} → Reach c s → IsValid c s
  Reach-IsValid Reach.here = initial-IsValid c
  Reach-IsValid (Reach.next r st) = Step-IsValid st (Reach-IsValid r)

  -- one fetch at most runs, wherever the worker stands
  runs-le : (worker : Worker) (q : FetchQueue) → IsValidAt c worker q → count_values runs q.jobs ≤ 1
  runs-le Worker.idle q valid = omega arith
  runs-le Worker.stopped q valid = omega arith
  runs-le (Worker.fetching k) q valid = omega arith
  runs-le (Worker.crashed k) q valid = omega arith
  runs-le (Worker.concluded k) q valid = ground arith

  -- In every reachable state at most one job runs, and at most one job of each stream is queued or
  -- running, if the identifier factory does not repeat itself.
  pub Reach-single_flight :
      {s : System}
      → Reach c s
      → (count_values runs s.queue.jobs ≤ 1)
        × ((stream_id : String) → count_values (covers stream_id) s.queue.jobs ≤ 1)
  Reach-single_flight {s} r =
      let valid = Reach-IsValid r in (runs-le s.worker s.queue valid, valid.0.covered_once)

  -- In every reachable state the FIFO names exactly the queued jobs: each identifier in it has a
  -- queued job, none stands in it twice, and there are as many as queued jobs; and the job order
  -- names the jobs in the order of the dict. The identifier factory does not repeat itself.
  pub Reach-fifo_complete :
      {s : System}
      → Reach c s
      → AllQueued s.queue.jobs s.queue.pending
        × Distinct s.queue.pending
        × (count_values waits s.queue.jobs ≡ length s.queue.pending)
        × (keys s.queue.jobs ≡ s.queue.job_order)
  Reach-fifo_complete r =
      let h = (Reach-IsValid r).0 in (h.all_queued, h.distinct, h.counted, h.ordered)
