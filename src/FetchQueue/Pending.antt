-- ===== src/FetchQueue/Pending.antt =====
-- The FIFO of identifiers against the jobs that they name.
use rfi.Common.{
  String, ◌≡◌, refl, Bool, true, false, none, some, List, [], ◌∷◌, ◌++◌, arith, ◌==◌, eq_iff,
  if◌then◌else◌, text-cases, inl, inr, sym,
}
pub use rfi.Common.Lists.{mem, Distinct}
use rfi.Common.Assoc.{Dict, lookup, assign, delete, keys, lookup-assign, lookup-delete_ne}
use rfi.FetchQueue.State.{FetchJob, JobState, is_queued}

-- the state test at an identifier; a missing job passes none
abbrev pub state_at : (JobState → Bool) → String → Dict FetchJob → Bool
state_at test job_id jobs = elim (lookup job_id jobs) [ none ↦ false | some job ↦ test job.state ]

-- Every identifier names a queued job.
abbrev pub AllQueued : Dict FetchJob → List String → Type 0
AllQueued jobs [] = Unit
AllQueued jobs (x ∷ xs) = (state_at is_queued x jobs ≡ true) × AllQueued jobs xs

pub mem-append_one :
    (a x : String) (xs : List String) → mem a (xs ++ x ∷ []) ≡ (if mem a xs then true else x == a)
mem-append_one a x [] = ground arith
mem-append_one a x (y ∷ xs) = ground (arith, mem-append_one a x xs)

pub Distinct-append_one :
    (x : String) (xs : List String) → Distinct xs → mem x xs ≡ false → Distinct (xs ++ x ∷ [])
Distinct-append_one x [] d m = (refl, tt)
Distinct-append_one x (y ∷ xs) d m = (
  ground (arith, mem-append_one y x xs, eq_iff x y, eq_iff y x),
  Distinct-append_one x xs d.1 (ground arith),
)

-- An identifier whose job is not queued is not in the FIFO.
pub not_pending :
    (job_id : String) (jobs : Dict FetchJob) (xs : List String)
    → AllQueued jobs xs
    → state_at is_queued job_id jobs ≡ false
    → mem job_id xs ≡ false
not_pending job_id jobs [] h e = refl
not_pending job_id jobs (x ∷ xs) h e = elim (text-cases x job_id) [
  | inl (_, same) ↦ ground arith
  | inr (differs, _) ↦ rw differs (not_pending job_id jobs xs h.1 e)
]

module _ (job_id : String) (job : FetchJob) (jobs : Dict FetchJob) where
  pub AllQueued-assign_absent :
      (xs : List String)
      → mem job_id xs ≡ false
      → AllQueued jobs xs
      → AllQueued (assign job_id job jobs) xs
  AllQueued-assign_absent [] m h = tt
  AllQueued-assign_absent (x ∷ xs) m h = (
    ground (arith, lookup-assign job_id x job jobs, eq_iff x job_id, eq_iff job_id x),
    AllQueued-assign_absent xs (ground arith) h.1,
  )

  pub AllQueued-assign_queued :
      (xs : List String)
      → is_queued job.state ≡ true
      → AllQueued jobs xs
      → AllQueued (assign job_id job jobs) xs
  AllQueued-assign_queued [] m h = tt
  AllQueued-assign_queued (x ∷ xs) m h =
      (ground (arith, lookup-assign job_id x job jobs), AllQueued-assign_queued xs m h.1)

pub AllQueued-append_one :
    (x : String) (jobs : Dict FetchJob) (xs : List String)
    → AllQueued jobs xs
    → state_at is_queued x jobs ≡ true
    → AllQueued jobs (xs ++ x ∷ [])
AllQueued-append_one x jobs [] h e = (e, tt)
AllQueued-append_one x jobs (y ∷ xs) h e = (h.0, AllQueued-append_one x jobs xs h.1 e)

pub AllQueued-delete :
    (job_id : String) (jobs : Dict FetchJob) (xs : List String)
    → mem job_id xs ≡ false
    → AllQueued jobs xs
    → AllQueued (delete job_id jobs) xs
AllQueued-delete job_id jobs [] m h = tt
AllQueued-delete job_id jobs (x ∷ xs) m h = elim (text-cases x job_id) [
  | inl (same, _) ↦ ground arith
  | inr (differs, apart) ↦ (
    rw (lookup-delete_ne job_id x jobs (λ e. apart (sym e)), state_at) h.0,
    AllQueued-delete job_id jobs xs (ground arith) h.1,
  )
]

pub mem-keys_of_none :
    (k : String) (jobs : Dict FetchJob) → lookup k jobs ≡ none → mem k (keys jobs) ≡ false
unfolding lookup
mem-keys_of_none k [] h = refl
mem-keys_of_none k ((j, w) ∷ jobs) h = ground (arith, mem-keys_of_none k jobs)

pub lookup_of_not_mem :
    (k : String) (jobs : Dict FetchJob) → mem k (keys jobs) ≡ false → lookup k jobs ≡ none
unfolding lookup
lookup_of_not_mem k [] h = refl
lookup_of_not_mem k ((j, w) ∷ jobs) h = ground (arith, lookup_of_not_mem k jobs)
