-- ===== src/Intelligence/Sound.antt =====
-- What the loop of `execute` in intelligence/orchestration.py keeps: numbered events, the budget's
-- bounds, and that what was asked and consumed passed its checks.
use rfi.Common.{ℕ, suc, ◌+◌, ◌≤◌, String, ◌≡◌, refl, Option, List, [], ◌∷◌, ◌++◌, arith}
use rfi.Common.Lists.{length, length-append, All, All-append}
use rfi.Common.Errors.{ok}
use rfi.Retrieval.Contracts.{RetrievalQuery, EvidencePackage}
use rfi.Intelligence.Contracts.{IntelligenceBudget, RetrievalStep, ExecutionEvent}
use rfi.Intelligence.Checks.{validate_step, validate_package}
use rfi.Intelligence.Run.{
  Run, add_event, note, fail, ask, consume, push_pending, with_pending, total_bytes,
}

-- the events are numbered from 1 in their order
abbrev pub IsNumberedFrom : ℕ → List ExecutionEvent → Type 0
IsNumberedFrom n [] = Unit
IsNumberedFrom n (e ∷ es) = (e.sequence ≡ n) × IsNumberedFrom (n + 1) es

IsNumberedFrom-append :
    (n : ℕ) (es : List ExecutionEvent) (e : ExecutionEvent)
    → IsNumberedFrom n es
    → e.sequence ≡ n + length es
    → IsNumberedFrom n (es ++ e ∷ [])
IsNumberedFrom-append n [] e h k = (omega arith, tt)
IsNumberedFrom-append n (x ∷ es) e h k = (h.0, IsNumberedFrom-append (n + 1) es e h.1 (omega arith))

pub add_event-IsNumberedFrom :
    (category detail : String) (step_id package_id : Option String) (es : List ExecutionEvent)
    → IsNumberedFrom 1 es
    → IsNumberedFrom 1 (add_event category detail step_id package_id es)
unfolding add_event
add_event-IsNumberedFrom category detail step_id package_id es h =
    IsNumberedFrom-append 1 es _ h (omega arith)

-- a step that passed its check
abbrev pub IsChecked : RetrievalStep → Type 0
IsChecked step = validate_step step ≡ ok tt

-- the query of a step that passed its check
abbrev pub IsAskedFor : RetrievalQuery → Type 0
IsAskedFor query = (step : RetrievalStep) × IsChecked step × (step.query ≡ query)

-- a package that passed its check for a step that did
abbrev pub IsConsumed : EvidencePackage → Type 0
IsConsumed package_ =
    (step : RetrievalStep) × IsChecked step × (validate_package package_ step ≡ ok tt)

total_bytes-append :
    (ps qs : List EvidencePackage) → total_bytes (ps ++ qs) ≡ total_bytes ps + total_bytes qs
total_bytes-append [] qs = omega arith
total_bytes-append (p ∷ ps) qs = omega (arith, total_bytes-append ps qs)

pub record IsSound (budget : IntelligenceBudget) (r : Run) : Type 0 where
  pub numbered : IsNumberedFrom 1 r.events
  pub paired : length r.completed ≡ length r.packages
  pub few_packages : length r.packages ≤ budget.max_packages
  pub few_steps : length r.completed ≤ budget.max_iterations
  pub few_bytes : total_bytes r.packages ≤ budget.max_total_evidence_bytes
  pub waiting : All IsChecked r.pending
  pub asked : All IsAskedFor r.queries
  pub consumed : All IsConsumed r.packages

module _ (budget : IntelligenceBudget) where
  pub note-IsSound :
      (category detail : String) (step_id package_id : Option String) (r : Run)
      → IsSound budget r
      → IsSound budget (note category detail step_id package_id r)
  unfolding note
  note-IsSound category detail step_id package_id r h = record {
    numbered = add_event-IsNumberedFrom category detail step_id package_id r.events h.numbered;
    paired = h.paired;
    few_packages = h.few_packages;
    few_steps = h.few_steps;
    few_bytes = h.few_bytes;
    waiting = h.waiting;
    asked = h.asked;
    consumed = h.consumed;
  }

  pub fail-IsSound : (text : String) (r : Run) → IsSound budget r → IsSound budget (fail text r)
  unfolding fail
  fail-IsSound text r h = record {
    numbered = h.numbered;
    paired = h.paired;
    few_packages = h.few_packages;
    few_steps = h.few_steps;
    few_bytes = h.few_bytes;
    waiting = h.waiting;
    asked = h.asked;
    consumed = h.consumed;
  }

  pub ask-IsSound :
      (step : RetrievalStep) (r : Run)
      → IsChecked step
      → IsSound budget r
      → IsSound budget (ask step r)
  unfolding ask
  ask-IsSound step r c h = record {
    numbered = h.numbered;
    paired = h.paired;
    few_packages = h.few_packages;
    few_steps = h.few_steps;
    few_bytes = h.few_bytes;
    waiting = h.waiting;
    asked = All-append IsAskedFor r.queries (step.query ∷ []) h.asked ((step, c, refl), tt);
    consumed = h.consumed;
  }

  pub consume-IsSound :
      (step : RetrievalStep) (package_ : EvidencePackage) (missing : List String) (r : Run)
      → IsChecked step
      → validate_package package_ step ≡ ok tt
      → suc (length r.packages) ≤ budget.max_packages
      → suc (length r.completed) ≤ budget.max_iterations
      → total_bytes r.packages + package_.bytes_used ≤ budget.max_total_evidence_bytes
      → IsSound budget r
      → IsSound budget (consume step package_ missing r)
  unfolding consume
  consume-IsSound step package_ missing r c v packages steps bytes h =
      let more_packages = length-append r.packages (package_ ∷ []) in
      let more_steps = length-append r.completed (step ∷ []) in
      let more_bytes = total_bytes-append r.packages (package_ ∷ []) in
      record {
        numbered = h.numbered;
        paired = omega (arith, more_packages, more_steps, h.paired);
        few_packages = omega (arith, more_packages);
        few_steps = omega (arith, more_steps);
        few_bytes = omega (arith, more_bytes);
        waiting = h.waiting;
        asked = h.asked;
        consumed = All-append IsConsumed r.packages (package_ ∷ []) h.consumed ((step, c, v), tt);
      }

  pub with_pending-IsSound :
      (steps : List RetrievalStep) (r : Run)
      → All IsChecked steps
      → IsSound budget r
      → IsSound budget (with_pending steps r)
  unfolding with_pending
  with_pending-IsSound steps r c h = record {
    numbered = h.numbered;
    paired = h.paired;
    few_packages = h.few_packages;
    few_steps = h.few_steps;
    few_bytes = h.few_bytes;
    waiting = c;
    asked = h.asked;
    consumed = h.consumed;
  }

  pub push_pending-IsSound :
      (step : RetrievalStep) (r : Run)
      → IsChecked step
      → IsSound budget r
      → IsSound budget (push_pending step r)
  unfolding push_pending with_pending
  push_pending-IsSound step r c h =
      with_pending-IsSound (r.pending ++ step ∷ []) r
        (All-append IsChecked r.pending (step ∷ []) h.waiting (c, tt)) h
