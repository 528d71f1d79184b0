-- ===== src/FetchQueue/Consistent.antt =====
-- How the changes that the operations of mailing_lists/queue.py make to the jobs keep them
-- consistent: one lemma for each kind of change.
use rfi.Common.{
  ℕ, ◌+◌, ◌≤◌, String, ◌≡◌, inl, inr, sym, ap, true, false, none, some, List, [], ◌∷◌, ◌++◌, ◌∙◌,
  arith, eq_iff, one_if, text-cases,
}
use rfi.Common.Assoc.{
  Dict, lookup, assign, delete, count_values, lookup-assign, lookup-delete_ne, count_values-assign,
  count_values-assign_new, count_values-delete, keys-assign, keys-assign_new, keys-delete_first,
}
use rfi.FetchQueue.State.{FetchJob, JobState, Settings, is_queued, is_active, covers}
use rfi.FetchQueue.Pending.{
  state_at, mem, Distinct-append_one, not_pending, AllQueued-assign_absent, AllQueued-append_one,
  AllQueued-delete, mem-keys_of_none,
}
use rfi.FetchQueue.Invariant.{waits, IsConsistent}
use rfi.Common.Lists.{length-append}

-- A write at a key that has a job leaves unissued identifiers without one.
unissued-assign :
    (k j : String) (v w : FetchJob) (jobs : Dict FetchJob)
    → lookup k jobs ≡ some w
    → lookup j jobs ≡ none
    → lookup j (assign k v jobs) ≡ none
unissued-assign k j v w jobs e h = ground (arith, lookup-assign k j v jobs, eq_iff k j)

covers-le :
    (stream_id : String) (old new : FetchJob)
    → new.stream_id ≡ old.stream_id
    → (is_active new.state ≡ true → is_active old.state ≡ true)
    → one_if (covers stream_id new) ≤ one_if (covers stream_id old)
covers-le stream_id old new e h = ground arith

module _ {c : Settings} {issued : ℕ} {pending order : List String} {jobs : Dict FetchJob}
    (ok : IsConsistent c issued pending order jobs) (job_id : String) (old new : FetchJob)
    (found : lookup job_id jobs ≡ some old) (same_stream : new.stream_id ≡ old.stream_id) where
  -- A job that the FIFO does not name is rewritten; it is active only if it was.
  pub rewrite-IsConsistent :
      (is_active new.state ≡ true → is_active old.state ≡ true)
      → is_queued new.state ≡ is_queued old.state
      → mem job_id pending ≡ false
      → IsConsistent c issued pending order (assign job_id new jobs)
  rewrite-IsConsistent active same absent = record {
    covered_once = λ s. omega (
      arith,
      count_values-assign (covers s) job_id new old jobs found,
      covers-le s old new same_stream active,
      ok.covered_once s,
    );
    all_queued = AllQueued-assign_absent job_id new jobs pending absent ok.all_queued;
    counted = ground (arith, count_values-assign waits job_id new old jobs found, ok.counted);
    distinct = ok.distinct;
    unissued = λ n h. unissued-assign job_id (c.identifiers n) new old jobs found (ok.unissued n h);
    ordered = keys-assign job_id new old jobs found ∙ ok.ordered;
    distinct_order = ok.distinct_order;
  }

module _ {c : Settings} {issued : ℕ} {pending order : List String} {jobs : Dict FetchJob} where
  -- The head of the FIFO is popped, and its job is queued no more.
  pub serve-IsConsistent :
      (job_id : String) (old new : FetchJob)
      → IsConsistent c issued (job_id ∷ pending) order jobs
      → lookup job_id jobs ≡ some old
      → new.stream_id ≡ old.stream_id
      → is_queued new.state ≡ false
      → IsConsistent c issued pending order (assign job_id new jobs)
  serve-IsConsistent job_id old new ok found same_stream served =
      let queued : is_queued old.state ≡ true = rw (found, state_at) at ok.all_queued.0 in
      record {
        covered_once = λ s. omega (
          arith,
          count_values-assign (covers s) job_id new old jobs found,
          covers-le s old new same_stream (λ e. ground arith),
          ok.covered_once s,
        );
        all_queued = AllQueued-assign_absent job_id new jobs pending ok.distinct.0 ok.all_queued.1;
        counted = ground (arith, count_values-assign waits job_id new old jobs found, ok.counted);
        distinct = ok.distinct.1;
        unissued =
            λ n h. unissued-assign job_id (c.identifiers n) new old jobs found (ok.unissued n h);
        ordered = keys-assign job_id new old jobs found ∙ ok.ordered;
        distinct_order = ok.distinct_order;
      }

  -- the oldest job is deleted
  pub delete-IsConsistent :
      (candidate : String) (job : FetchJob)
      → IsConsistent c issued pending (candidate ∷ order) jobs
      → lookup candidate jobs ≡ some job
      → is_active job.state ≡ false
      → IsConsistent c issued pending order (delete candidate jobs)
  delete-IsConsistent candidate job ok found done = record {
    covered_once = λ s.
        omega (arith, count_values-delete (covers s) candidate job jobs found, ok.covered_once s);
    all_queued =
        AllQueued-delete candidate jobs pending
          (not_pending candidate jobs pending ok.all_queued (ground arith)) ok.all_queued;
    counted = ground (arith, count_values-delete waits candidate job jobs found, ok.counted);
    distinct = ok.distinct;
    unissued = λ n h.
        rw
          (lookup-delete_ne candidate (c.identifiers n) jobs (λ e. ground (arith, ok.unissued n h)))
          (ok.unissued n h);
    ordered = keys-delete_first candidate order jobs ok.ordered;
    distinct_order = ok.distinct_order.1;
  }

  -- A new queued job, under the identifier that was issued for it.
  pub add-IsConsistent :
      (job : FetchJob)
      → IsConsistent c issued pending order jobs
      → ((m n : ℕ) → c.identifiers m ≡ c.identifiers n → m ≡ n)
      → job.job_id ≡ c.identifiers issued
      → job.state ≡ JobState.queued
      → count_values (covers job.stream_id) jobs ≡ 0
      → IsConsistent c
          (issued + 1)
          (pending ++ job.job_id ∷ [])
          (order ++ job.job_id ∷ [])
          (assign job.job_id job jobs)
  add-IsConsistent job ok distinct_ids issued_id queued uncovered =
      let k = job.job_id in
      let absent : lookup k jobs ≡ none = rw issued_id (ok.unissued issued (omega arith)) in
      let fresh : mem k pending ≡ false =
        not_pending k jobs pending ok.all_queued (rw (absent, state_at)) in
      record {
        covered_once = λ s. elim (text-cases job.stream_id s) [
          | inl (_, e) ↦
              ground
                (arith, count_values-assign_new (covers s) k job jobs absent, ok.covered_once s)
          | inr (e, _) ↦
              ground
                (arith, count_values-assign_new (covers s) k job jobs absent, ok.covered_once s)
        ];
        all_queued =
            AllQueued-append_one k (assign k job jobs) pending
              (AllQueued-assign_absent k job jobs pending fresh ok.all_queued)
              (ground (arith, lookup-assign k k job jobs, eq_iff k k));
        counted = ground (
          arith,
          count_values-assign_new waits k job jobs absent,
          length-append pending (k ∷ []),
          ok.counted,
        );
        distinct = Distinct-append_one k pending ok.distinct fresh;
        unissued = λ n h. ground (
          arith,
          lookup-assign k (c.identifiers n) job jobs,
          eq_iff k (c.identifiers n),
          distinct_ids issued n,
          ok.unissued n,
        );
        ordered = keys-assign_new k job jobs absent ∙ ap (λ l. l ++ k ∷ []) ok.ordered;
        distinct_order =
            Distinct-append_one k order ok.distinct_order
              (ap (mem k) (sym ok.ordered) ∙ mem-keys_of_none k jobs absent);
      }
