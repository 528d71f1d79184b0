-- ===== src/FetchQueue/Tests.antt =====
-- Runs of the model of mailing_lists/queue.py, and the theorems at concrete states.
use rfi.Common.{
  ℕ, zero, suc, ◌≤◌, String, ◌≡◌, ◌⊎◌, refl, ap, true, false, none, some, List, [], ◌∷◌, ◌++◌,
  Option,
}
use rfi.Common.Lists.{length, All}
use rfi.FetchQueue.CancelValid.{IsAbandoned}
use rfi.Common.Assoc.{lookup, assign, delete, keys, count_values}
use rfi.FetchQueue.State.{
  JobState, FetchUpToDateResult, SavedWorkflow, FetchJob, Settings, ok, raise, key_error, covers,
  is_active,
}
use rfi.FetchQueue.Log.{record_event}
use rfi.FetchQueue.Enqueue
use rfi.FetchQueue.Cancel
use rfi.FetchQueue.Worker as WorkerThread
use rfi.FetchQueue.Monitor
use rfi.FetchQueue.Monitor.{FetchOutcome}
use rfi.FetchQueue.System.{Worker, System, initial, after_turn, Step, Reach}
use rfi.FetchQueue.Pending.{AllQueued, Distinct}
use rfi.FetchQueue.Invariant.{AreDistinct, runs, waits}
use rfi.FetchQueue.Safety.{Reach-IsValid, Reach-single_flight, Reach-fifo_complete}
use rfi.FetchQueue.Admission.{enqueue_accepts}
use rfi.FetchQueue.FetchEnd.{EndsIn, HasEnded, conclude-HasEnded, release-crashed}
use rfi.FetchQueue.Cancellation.{cancel_all_empties, cancel_all_faults}

abbrev tally : ℕ → String
tally zero = ""
tally (suc n) = String.◌∷◌ "|" (tally n)

-- "j", "j|", "j||", …
abbrev job_name : ℕ → String
job_name n = String.◌∷◌ "j" (tally n)

tally-injective : (m n : ℕ) → tally m ≡ tally n → m ≡ n
tally-injective zero zero e = refl
tally-injective zero (suc n) e = absurd (cc)
tally-injective (suc m) zero e = absurd (cc)
tally-injective (suc m) (suc n) e = ap suc (tally-injective m n (cc))

job_name-AreDistinct : AreDistinct job_name
job_name-AreDistinct m n e = tally-injective m n (cc)

-- one job is kept
abbrev settings : Settings
settings = record {
  clock = λ n. "2026-01-01T00:00:00+00:00";
  identifiers = job_name;
  instant = λ text. none;
  has_history = true;
  event_limit = 200;
  job_limit = 1;
  stale_progress_seconds = 180;
  activity_feedback_seconds = 60;
}

abbrev saved : List SavedWorkflow
saved =
    record { stream_id = "a"; stream_name = "A" }
    ∷ record { stream_id = "b"; stream_name = "B" }
    ∷ []

-- `a` is queued, taken and ended, and `b` is queued before the worker is released.
abbrev queued : System
queued = record initial { queue = (Enqueue.enqueue settings saved "a" initial.queue).1 }

abbrev taken : System
taken = record {
  queue = (WorkerThread.take_next settings queued.queue).1;
  worker = after_turn (WorkerThread.take_next settings queued.queue).0;
}

abbrev ended : System
ended = record {
  queue = Monitor.conclude settings (FetchOutcome.returned none) "j" taken.queue;
  worker = Worker.concluded "j";
}

abbrev overtaken : System
overtaken = record ended { queue = (Enqueue.enqueue settings saved "b" ended.queue).1 }

queued-Reach : Reach settings queued
queued-Reach = Reach.next Reach.here (Step.enqueue saved "a")

taken-Reach : Reach settings taken
taken-Reach = Reach.next queued-Reach (Step.take refl)

taken-worker : taken.worker ≡ Worker.fetching "j"
unfolding WorkerThread.take_next Enqueue.enqueue lookup assign
taken-worker = refl

overtaken-Reach : Reach settings overtaken
overtaken-Reach =
    Reach.next
      (Reach.next taken-Reach (Step.conclude (FetchOutcome.returned none) "j" taken-worker))
      (Step.enqueue saved "b")

-- `_trim_jobs` has deleted the job that the worker still names.
overtaken-gone : lookup "j" overtaken.queue.jobs ≡ none
unfolding Enqueue.enqueue WorkerThread.take_next Monitor.conclude lookup assign delete
overtaken-gone = refl

Reach-single_flight_example :
    (count_values runs overtaken.queue.jobs ≤ 1)
    × ((stream_id : String) → count_values (covers stream_id) overtaken.queue.jobs ≤ 1)
Reach-single_flight_example = Reach-single_flight settings job_name-AreDistinct overtaken-Reach

Reach-fifo_complete_example :
    AllQueued overtaken.queue.jobs overtaken.queue.pending
    × Distinct overtaken.queue.pending
    × (count_values waits overtaken.queue.jobs ≡ length overtaken.queue.pending)
    × (keys overtaken.queue.jobs ≡ overtaken.queue.job_order)
Reach-fifo_complete_example = Reach-fifo_complete settings job_name-AreDistinct overtaken-Reach

cancel_all_faults_example :
    let (r, q') = Cancel.cancel_all settings overtaken.queue in
    (r ≡ raise (key_error "j"))
    × All (IsAbandoned q'.jobs) overtaken.queue.pending
    × (q'.pending ≡ [])
    × (count_values waits q'.jobs ≡ 0)
cancel_all_faults_example =
    cancel_all_faults settings "j" overtaken.queue
      (Reach-IsValid settings job_name-AreDistinct overtaken-Reach) overtaken-gone

cancel_all_empties_example :
    let (r, q') = Cancel.cancel_all settings queued.queue in
    (r ≡ ok (1, false))
    × All (IsAbandoned q'.jobs) queued.queue.pending
    × (q'.pending ≡ [])
    × (count_values waits q'.jobs ≡ 0)
    × (q'.running_cancel ≡ queued.queue.running_cancel)
unfolding Enqueue.enqueue lookup assign record_event
cancel_all_empties_example =
    cancel_all_empties settings Worker.idle queued.queue refl
      (Reach-IsValid settings job_name-AreDistinct queued-Reach)

enqueue_accepts_example :
    let (r, q') = Enqueue.enqueue settings saved "b" queued.queue in
    let job =
      Enqueue.new_job settings "b" (record { stream_id = "b"; stream_name = "B" }) queued.queue in
    (r ≡ ok (record { accepted = true; duplicate = false; job = job }))
    × (q'.pending ≡ queued.queue.pending ++ job.job_id ∷ [])
    × (lookup job.job_id q'.jobs ≡ some job)
    × ((length q'.job_order ≤ 1)
        ⊎ ((k : String) × (oldest : FetchJob) × (rest : List String) × (q'.job_order ≡ k ∷ rest)
            × (lookup k q'.jobs ≡ some oldest)
            × (is_active oldest.state ≡ true)))
unfolding Enqueue.enqueue lookup assign record_event
enqueue_accepts_example =
    enqueue_accepts settings job_name-AreDistinct Worker.idle saved "b"
      (record { stream_id = "b"; stream_name = "B" }) queued.queue
      (Reach-IsValid settings job_name-AreDistinct queued-Reach) refl refl

-- The fetch is cancelled while it is not stalled.
conclude-HasEnded_example :
    let outcome = FetchOutcome.rejected "acquisition_cancelled" "cancelled" in
    (old : FetchJob) × (state : JobState) × (message : String) × (result : Option
      FetchUpToDateResult)
    × (lookup "j" taken.queue.jobs ≡ some old)
    × EndsIn settings old outcome state message result
    × HasEnded settings "j" old state message result taken.queue
        (Monitor.conclude settings outcome "j" taken.queue)
unfolding WorkerThread.take_next Enqueue.enqueue lookup assign
conclude-HasEnded_example =
    conclude-HasEnded settings "j" (FetchOutcome.rejected "acquisition_cancelled" "cancelled")
      taken.queue (Reach-IsValid settings job_name-AreDistinct taken-Reach)

abbrev broken : System
broken = record taken { worker = Worker.crashed "j" }

broken-Reach : Reach settings broken
broken-Reach = Reach.next taken-Reach (Step.crash "j" taken-worker)

release-crashed_example :
    let q' = Monitor.release settings "j" taken.queue in
    ((old : FetchJob) × (lookup "j" taken.queue.jobs ≡ some old)
      × HasEnded settings "j" old JobState.failed
          "Fetch worker exited without a terminal state; marked failed." old.result taken.queue
          (record q' { running_job_id = taken.queue.running_job_id }))
    × (q'.running_job_id ≡ none)
    × (count_values runs q'.jobs ≡ 0)
release-crashed_example =
    release-crashed settings "j" taken.queue
      (Reach-IsValid settings job_name-AreDistinct broken-Reach)
