-- ===== src/FetchQueue/System.antt =====
-- The interleavings of mailing_lists/queue.py: each step is one critical section, by an operator,
-- by the worker thread or by a callback of the fetch that runs.
use rfi.Common.{ℕ, false, String, ◌≡◌, none, List, []}
use rfi.FetchQueue.State.{
  SavedWorkflow, FetchProgress, FetchActivity, Settings, FetchQueue, Result, ok, raise,
}
use rfi.FetchQueue.Enqueue
use rfi.FetchQueue.Cancel
use rfi.FetchQueue.Worker.{Turn, take_next, on_progress, on_activity}
use rfi.FetchQueue.Monitor
use rfi.FetchQueue.Monitor.{FetchOutcome}

-- Where the worker thread stands: before the section that takes a job, in the monitor loop, before
-- the `finally` section after the end of the fetch or with an exception that leaves the `try`, or at
-- its end.
pub data Worker : Type 0 where
  idle stopped : Worker
  fetching concluded crashed : String → Worker

pub record System : Type 0 where
  pub queue : FetchQueue
  pub worker : Worker

-- the queue of `__init__`, with its worker
abbrev pub initial : System
initial = record {
  queue = record {
    pending = [];
    jobs = [];
    job_order = [];
    events = [];
    sequence = 0;
    running_job_id = none;
    running_cancel = false;
    progress_updates_since_event = 0;
    closing = false;
    ticks = 0;
    issued = 0;
    durable_events = [];
    durable_history = [];
  };
  worker = Worker.idle;
}

-- where the worker goes from the section that takes a job; an exception ends the thread
abbrev pub after_turn : Result Turn → Worker
after_turn (ok Turn.waits) = Worker.idle
after_turn (ok Turn.exits) = Worker.stopped
after_turn (ok Turn.skips) = Worker.idle
after_turn (ok (Turn.takes job_id)) = Worker.fetching job_id
after_turn (raise _) = Worker.stopped

-- `progress` and `activity` are not tied to the worker's place: a late callback is the callbacks'
-- own test to reject. `crash` is an exception before `terminalize`: the `try` has no `except`, so that
-- the `finally` section is the last of the thread.
pub data Step (c : Settings) (s : System) : System → Type 0 where
  enqueue :
      (saved : List SavedWorkflow) (stream_id : String)
      → Step c s (record s { queue = (Enqueue.enqueue c saved stream_id s.queue).1 })
  cancel_all : Step c s (record s { queue = (Cancel.cancel_all c s.queue).1 })
  close : Step c s (record s { queue = Cancel.close s.queue })
  take :
      s.worker ≡ Worker.idle
      → Step c s
          (record { queue = (take_next c s.queue).1; worker = after_turn (take_next c s.queue).0 })
  progress :
      (job_id : String) (snapshot : FetchProgress)
      → Step c s (record s { queue = on_progress c job_id snapshot s.queue })
  activity :
      (now : ℕ) (job_id : String) (activity : FetchActivity)
      → Step c s (record s { queue = on_activity c now job_id activity s.queue })
  monitor :
      (now now' : ℕ) (job_id : String)
      → s.worker ≡ Worker.fetching job_id
      → Step c s (record s { queue = Monitor.monitor c now now' job_id s.queue })
  conclude :
      (outcome : FetchOutcome) (job_id : String)
      → s.worker ≡ Worker.fetching job_id
      → Step c s (record {
        queue = Monitor.conclude c outcome job_id s.queue;
        worker = Worker.concluded job_id;
      })
  crash :
      (job_id : String)
      → s.worker ≡ Worker.fetching job_id
      → Step c s (record s { worker = Worker.crashed job_id })
  release :
      (job_id : String)
      → s.worker ≡ Worker.concluded job_id
      → Step c s (record { queue = Monitor.release c job_id s.queue; worker = Worker.idle })
  stop :
      (job_id : String)
      → s.worker ≡ Worker.crashed job_id
      → Step c s (record { queue = Monitor.release c job_id s.queue; worker = Worker.stopped })

pub data Reach (c : Settings) : System → Type 0 where
  here : Reach c initial
  next : {s t : System} → Reach c s → Step c s t → Reach c t
