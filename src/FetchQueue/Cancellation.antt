-- ===== src/FetchQueue/Cancellation.antt =====
-- What `cancel_all` of mailing_lists/queue.py promises, and where it breaks.
use rfi.Common.{
  if◌then◌else◌, ℕ, ◌+◌, String, ◌≡◌, ◌≢◌, eq_iff, inl, inr, refl, sym, ap, Bool, true, false, none,
  some, List, [], ◌∷◌, ◌∙◌, arith, Bool-cases, Option-cases,
}
use rfi.Common.Lists.{length, All, All-map}
use rfi.Common.Assoc.{lookup, assign, lookup-assign, count_values, keys}
use rfi.FetchQueue.State.{Settings, FetchQueue, ok, raise, key_error, is_queued, is_running}
use rfi.FetchQueue.Cancel.{abandon, abandon_pending, cancel_running, cancel_all, cancelling_job}
use rfi.FetchQueue.Log.{record_event}
use rfi.FetchQueue.System.{Worker}
use rfi.FetchQueue.Pending.{mem, mem-keys_of_none, lookup_of_not_mem}
use rfi.FetchQueue.Invariant.{IsValidAt, waits, found_of_state_at}
use rfi.FetchQueue.CancelValid.{
  IsAbandoned, abandon_pending-IsValidAt, abandon_pending-IsAbandoned, cancel_running-IsValidAt,
}

-- the job of a fetch runs
abbrev pub is_fetching : Worker → Bool
is_fetching (Worker.fetching _) = true
is_fetching (Worker.crashed _) = true
is_fetching _ = false

abbrev pub is_concluded : Worker → Bool
is_concluded (Worker.concluded _) = true
is_concluded _ = false

module _ (c : Settings) where
  -- the request to the running fetch, at each place of the worker but one
  cancel_running_settled :
      (worker : Worker) (q : FetchQueue)
      → is_concluded worker ≡ false
      → IsValidAt c worker q
      → let (r, q') = cancel_running c q in
        (r ≡ ok (is_fetching worker))
        × (q'.running_cancel ≡ (if is_fetching worker then true else q.running_cancel))
        × (q'.pending ≡ q.pending)
  unfolding cancel_running
  cancel_running_settled Worker.idle q e valid = rw (valid.1.0, cancel_running) (refl, refl, refl)
  cancel_running_settled Worker.stopped q e valid =
      rw (valid.1.0, cancel_running) (refl, refl, refl)
  cancel_running_settled (Worker.fetching k) q e valid =
      let (job, found, runs) = found_of_state_at is_running k q.jobs valid.1.2 in
      rw (valid.1.0, found, runs, cancel_running) (refl, refl, refl)
  cancel_running_settled (Worker.crashed k) q e valid =
      let (job, found, runs) = found_of_state_at is_running k q.jobs valid.1.2 in
      rw (valid.1.0, found, runs, cancel_running) (refl, refl, refl)
  cancel_running_settled (Worker.concluded k) q e valid = absurd (ground arith)

  -- The request to the running fetch writes no abandoned job.
  cancel_running-IsAbandoned :
      (q : FetchQueue) (j : String)
      → IsAbandoned q.jobs j
      → IsAbandoned (cancel_running c q).1.jobs j
  unfolding cancel_running record_event
  cancel_running-IsAbandoned q j (job, found, state, ended, message) =
      elim (Option-cases q.running_job_id) [
        | inl e ↦ rw (e, cancel_running) (job, found, state, ended, message)
        | inr (k, e) ↦ elim (Option-cases (lookup k q.jobs)) [
          | inl d ↦ rw (e, d, cancel_running) (job, found, state, ended, message)
          | inr (other, d) ↦ elim (Bool-cases (is_running other.state)) [
            | inr r ↦ rw (e, d, r, cancel_running) (job, found, state, ended, message)
            | inl r ↦
                let apart : k ≢ j = λ same.
                  let one = sym d ∙ ap (λ i. lookup i q.jobs) same ∙ found in ground arith in
                let kept : lookup j (assign k (cancelling_job c q other) q.jobs) ≡ some job =
                  ground (
                    arith,
                    lookup-assign k j (cancelling_job c q other) q.jobs,
                    eq_iff k j,
                    apart,
                    found,
                  ) in
                rw (e, d, r, cancel_running) (job, kept, state, ended, message)
          ]
        ]
      ]

  abandon_pending-job_order :
      (pending : List String) (n : ℕ) (q : FetchQueue)
      → (abandon_pending c pending n q).1.job_order ≡ q.job_order
  unfolding abandon_pending
  abandon_pending-job_order [] n q = refl
  abandon_pending-job_order (k ∷ rest) n q = elim (Option-cases (lookup k q.jobs)) [
    | inl d ↦ rw (d, abandon_pending) refl
    | inr (job, d) ↦ elim (Bool-cases (is_queued job.state)) [
      | inl e ↦
          rw (d, e, abandon_pending)
            (abandon_pending-job_order rest (n + 1) (abandon c k job (record q { pending = rest })))
      | inr e ↦
          rw (d, e, abandon_pending)
            (abandon_pending-job_order rest n (record q { pending = rest }))
    ]
  ]

  abandon_pending-running_cancel :
      (pending : List String) (n : ℕ) (q : FetchQueue)
      → (abandon_pending c pending n q).1.running_cancel ≡ q.running_cancel
  unfolding abandon_pending
  abandon_pending-running_cancel [] n q = refl
  abandon_pending-running_cancel (k ∷ rest) n q = elim (Option-cases (lookup k q.jobs)) [
    | inl d ↦ rw (d, abandon_pending) refl
    | inr (job, d) ↦ elim (Bool-cases (is_queued job.state)) [
      | inl e ↦
          rw (d, e, abandon_pending)
            (abandon_pending-running_cancel rest (n + 1)
              (abandon c k job (record q { pending = rest })))
      | inr e ↦
          rw (d, e, abandon_pending)
            (abandon_pending-running_cancel rest n (record q { pending = rest }))
    ]
  ]

  -- In a valid state in which no fetch stands between its end and its release, `cancel_all` raises
  -- nothing: it reports the number of pending fetches; each of them has the state abandoned
  -- afterwards, with an end time and the message that it had not started; no queued job is left and
  -- the FIFO is empty; and it asks for a cancellation exactly where the job
  -- of a fetch runs, and leaves the flag as it was where none does.
  pub cancel_all_empties :
      (worker : Worker) (q : FetchQueue)
      → is_concluded worker ≡ false
      → IsValidAt c worker q
      → let (r, q') = cancel_all c q in
        (r ≡ ok (length q.pending, is_fetching worker))
        × All (IsAbandoned q'.jobs) q.pending
        × (q'.pending ≡ [])
        × (count_values waits q'.jobs ≡ 0)
        × (q'.running_cancel ≡ (if is_fetching worker then true else q.running_cancel))
  unfolding cancel_all
  cancel_all_empties worker q settled valid =
      let looped = abandon_pending-IsValidAt c worker q.pending 0 q valid.0 valid.1 in
      let q1 = (abandon_pending c q.pending 0 q).1 in
      let asked = cancel_running_settled worker q1 settled looped.0 in
      let kept = cancel_running-IsValidAt c worker q1 looped.0 in
      let empty = asked.2 ∙ looped.2 in
      let abandoned =
        All-map _ _ q.pending (cancel_running-IsAbandoned q1)
          (abandon_pending-IsAbandoned c worker q.pending 0 q valid.0) in
      rw (looped.1, cancel_all)
        (
          rw asked.0 (ap ok (ground arith)),
          abandoned,
          empty,
          kept.0.counted ∙ ap length empty,
          asked.1
              ∙ ap (λ b. if is_fetching worker then true else b)
                  (abandon_pending-running_cancel q.pending 0 q),
        )

  -- In a valid state between the end of a fetch and its release, if `_trim_jobs` has deleted the job
  -- of the fetch in the meantime, `cancel_all` raises `KeyError`, and it has abandoned the pending
  -- fetches: each of them has the state abandoned, with an end time and the message that it had not
  -- started, no queued job is left and the FIFO is empty.
  pub cancel_all_faults :
      (k : String) (q : FetchQueue)
      → IsValidAt c (Worker.concluded k) q
      → lookup k q.jobs ≡ none
      → let (r, q') = cancel_all c q in
        (r ≡ raise (key_error k))
        × All (IsAbandoned q'.jobs) q.pending
        × (q'.pending ≡ [])
        × (count_values waits q'.jobs ≡ 0)
  unfolding cancel_all cancel_running
  cancel_all_faults k q valid gone =
      let worker = Worker.concluded k in
      let looped = abandon_pending-IsValidAt c worker q.pending 0 q valid.0 valid.1 in
      let q1 = (abandon_pending c q.pending 0 q).1 in
      let same : keys q1.jobs ≡ keys q.jobs =
        looped.0.0.ordered ∙ abandon_pending-job_order q.pending 0 q ∙ sym valid.0.ordered in
      let gone1 : lookup k q1.jobs ≡ none =
        lookup_of_not_mem k q1.jobs (ap (mem k) same ∙ mem-keys_of_none k q.jobs gone) in
      let running : q1.running_job_id ≡ some k = looped.3 ∙ valid.1.0 in
      let abandoned = abandon_pending-IsAbandoned c worker q.pending 0 q valid.0 in
      rw (looped.1, cancel_all)
        (rw (running, gone1, cancel_running)
          (refl, abandoned, looped.2, looped.0.0.counted ∙ ap length looped.2))
