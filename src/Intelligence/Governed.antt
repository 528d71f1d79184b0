-- ===== src/Intelligence/Governed.antt =====
-- What the records of `execute` in intelligence/orchestration.py have, and how it ends.
use rfi.Common.{false, ◌≤◌, String, ◌≡◌, refl, sym, Option, none, ◌⊎◌, inl, inr, arith}
use mathlib.Core.Path.{subst}
use rfi.Common.Lists.{length, All}
use rfi.Common.Errors.{ok}
use rfi.Intelligence.Contracts.{
  InformationNeed, IntelligenceBudget, RetrievalPlan, ModelEvidence, ReasoningDraft,
  ExecutionRecord,
}
use rfi.Intelligence.Checks.{refuses}
use rfi.Intelligence.Project.{Rendering}
use rfi.Intelligence.Record.{failure_record, terminal_record}
use rfi.Intelligence.Run.{Providers, Run, note, add_event, total_bytes}
use rfi.Intelligence.Execute.{
  finish, planned, refusal, accepted_plan, Execution, recorded, raised, unfinished, execute,
}
use rfi.Intelligence.Sound.{
  IsNumberedFrom, add_event-IsNumberedFrom, IsAskedFor, IsConsumed, IsSound,
}
use rfi.Intelligence.Loop.{IsRejected}
use rfi.Intelligence.Made.{
  IsShort, project-IsShort, IsMade, failed, refused, finished, IsEnd, execute-IsEnd,
}

-- what the budget bounds
pub record IsWithin (budget : IntelligenceBudget) (made : ExecutionRecord) : Type 0 where
  pub few_packages : length made.trace.evidence_packages ≤ budget.max_packages
  pub few_iterations : made.trace.iterations ≤ budget.max_iterations
  pub few_bytes : total_bytes made.trace.evidence_packages ≤ budget.max_total_evidence_bytes
  pub few_chars : IsShort budget made.trace.model_input

-- what was asked and consumed passed its check
abbrev pub HasPassed : ExecutionRecord → Type 0
HasPassed made =
    All IsAskedFor made.trace.retrieval_queries × All IsConsumed made.trace.evidence_packages

-- what every record has
record IsGoverned (budget : IntelligenceBudget) (made : ExecutionRecord) : Type 0 where
  pub within : IsWithin budget made
  pub passed : HasPassed made
  pub numbered : IsNumberedFrom 1 made.trace.events

module _ (providers : Providers) (env : Rendering) (need : InformationNeed)
    (budget : IntelligenceBudget) where
  failure_record-IsGoverned :
      (id : String) (plan : Option RetrievalPlan) (model : Option ModelEvidence) (failure : String)
      (r : Run)
      → IsSound budget r
      → IsShort budget model
      → IsGoverned budget (failure_record env id need plan model failure r)
  unfolding failure_record
  failure_record-IsGoverned id plan model failure r h short = record {
    within = record {
      few_packages = h.few_packages;
      few_iterations = omega (arith, h.paired, h.few_steps);
      few_bytes = h.few_bytes;
      few_chars = short;
    };
    passed = (h.asked, h.consumed);
    numbered = add_event-IsNumberedFrom "failure" failure none none r.events h.numbered;
  }

  refusal-IsGoverned :
      (id : String) (plan : RetrievalPlan) → IsGoverned budget (refusal providers env need id plan)
  unfolding refusal terminal_record planned note add_event
  refusal-IsGoverned id plan = record {
    within = record {
      few_packages = omega arith;
      few_iterations = omega arith;
      few_bytes = omega arith;
      few_chars = tt;
    };
    passed = (tt, tt);
    numbered = (refl, (refl, tt));
  }

  finish-IsGoverned :
      (id : String) (plan : RetrievalPlan) (model : ModelEvidence) (draft : ReasoningDraft)
      (r : Run)
      → IsSound budget r
      → model.chars ≤ budget.max_model_input_chars
      → IsGoverned budget (finish env id need plan model draft r)
  unfolding finish terminal_record note
  finish-IsGoverned id plan model draft r h short = record {
    within = record {
      few_packages = h.few_packages;
      few_iterations = omega (arith, h.paired, h.few_steps);
      few_bytes = h.few_bytes;
      few_chars = short;
    };
    passed = (h.asked, h.consumed);
    numbered = add_event-IsNumberedFrom _ _ none none r.events h.numbered;
  }

  made-IsGoverned :
      (made : ExecutionRecord) → IsMade providers env need budget made → IsGoverned budget made
  made-IsGoverned made (failed plan model failure r h short e) =
      subst (IsGoverned budget) (sym e) (failure_record-IsGoverned _ plan model failure r h short)
  made-IsGoverned made (refused plan e) =
      subst (IsGoverned budget) (sym e) (refusal-IsGoverned _ plan)
  made-IsGoverned made (finished plan draft r h good e) = subst (IsGoverned budget) (sym e) (
      finish-IsGoverned _ plan _ draft r h
        (project-IsShort env r.packages budget.max_model_input_chars))

  pub recorded-IsMade :
      (made : ExecutionRecord)
      → execute providers env need budget ≡ recorded made
      → IsMade providers env need budget made
  recorded-IsMade made e =
      subst (IsEnd providers env need budget) e (execute-IsEnd providers env need budget)

  recorded-IsGoverned :
      (made : ExecutionRecord)
      → execute providers env need budget ≡ recorded made
      → IsGoverned budget made
  recorded-IsGoverned made e = made-IsGoverned made (recorded-IsMade made e)

  -- Where `execute` returns a record, its packages are at most as many as the budget allows, its
  -- iterations too, the context bytes of its packages together are within the budget's total, and
  -- where the model got evidence, its characters are within the budget's limit.
  pub execute-IsWithin :
      (made : ExecutionRecord)
      → execute providers env need budget ≡ recorded made
      → IsWithin budget made
  execute-IsWithin made e = (recorded-IsGoverned made e).within

  -- Where `execute` returns a record, each of its queries is that of a step that passes
  -- `_validate_step`, and each of its packages passes `_validate_package` for such a step.
  pub execute-HasPassed :
      (made : ExecutionRecord) → execute providers env need budget ≡ recorded made → HasPassed made
  execute-HasPassed made e = (recorded-IsGoverned made e).passed

  -- Where `execute` returns a record, its events are numbered 1, 2, 3 and so on in their order.
  pub execute-numbered :
      (made : ExecutionRecord)
      → execute providers env need budget ≡ recorded made
      → IsNumberedFrom 1 made.trace.events
  execute-numbered made e = (recorded-IsGoverned made e).numbered

  -- the plan was accepted and does not refuse, and the planner's follow-up to it was rejected with the message
  abbrev pub IsRejectedFollowUp : String → Type 0
  IsRejectedFollowUp error =
      (plan : RetrievalPlan) × (accepted_plan providers env need budget ≡ ok plan)
      × (refuses plan.refusal_reason ≡ false)
      × IsRejected providers env need plan budget error

  how_it_ends :
      (ends : Execution)
      → IsEnd providers env need budget ends
      → ((made : ExecutionRecord) × (ends ≡ recorded made))
        ⊎ ((error : String) × (ends ≡ raised error) × IsRejectedFollowUp error)
  how_it_ends (recorded made) h = inl (made, refl)
  how_it_ends (raised error) h = inr (error, refl, h)
  how_it_ends unfinished h = absurd h

  -- The loop of `execute` ends: it returns a record, or it raises the error with which
  -- `_validate_step` rejects a follow-up step that the planner gave for an accepted plan that does
  -- not refuse.
  pub execute-ends :
      ((made : ExecutionRecord) × (execute providers env need budget ≡ recorded made))
      ⊎ ((error : String) × (execute providers env need budget ≡ raised error)
          × IsRejectedFollowUp error)
  execute-ends =
      how_it_ends (execute providers env need budget) (execute-IsEnd providers env need budget)
