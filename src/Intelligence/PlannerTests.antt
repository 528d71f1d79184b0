-- ===== src/Intelligence/PlannerTests.antt =====
-- Runs of the model of intelligence/deterministic.py's planner, and the theorems at concrete needs.
use rfi.Common.{◌≡◌, refl, false, [], ◌∷◌, map, arith}
use rfi.Common.Errors.{ok, raise}
use rfi.Common.Text.{strip, is_blank, join, decimal, contains}
use rfi.Intelligence.Contracts.{InformationNeed, IntelligenceBudget, ExecutionRecord}
use rfi.Intelligence.Checks.{validate_plan, step_id_of}
use rfi.Intelligence.Project.{Rendering}
use rfi.Intelligence.Execute.{recorded, execute}
use rfi.Intelligence.Planner.{PlannerText, plan_of, plan_steps, comparing_plan}
use rfi.Intelligence.Guided.{guided, execute-guided}
use rfi.Intelligence.Accepted.{plan_of-accepted}

abbrev text : PlannerText
text = record {
  lower = λ s. s;
  refusal_digest = λ need. "0";
  plan_digest = λ need steps budget. "1";
}

abbrev need : InformationNeed
need = record { text = "compare seagate and wdc"; request_id = "" }

abbrev budget : IntelligenceBudget
budget = record {
  max_iterations = 4;
  max_packages = 4;
  max_total_evidence_bytes = 64000;
  max_model_input_chars = 80000;
}

two_steps :
    map step_id_of (plan_of text false need budget).steps ≡ "step-1-1137789" ∷ "step-2-106040" ∷ []
unfolding plan_of plan_steps comparing_plan contains join decimal
two_steps = refl

filled : is_blank need.text ≡ false
unfolding strip
filled = refl

plan_of-accepted_example : validate_plan (plan_of text false need budget) budget ≡ ok tt
plan_of-accepted_example =
    plan_of-accepted text false need budget filled (omega arith) (omega arith) (omega arith)

abbrev env : Rendering
env = record {
  searchable = λ sources knowledge texts. "";
  lower = λ s. s;
  rendered = λ items. "content";
  execution_identity = λ need budget. "execution-1";
  result_identity = λ id status response claims reason. "result-1";
  failure_identity = λ id failure. "result-1";
}

-- a gateway and a reasoner that are not there
execute-guided_example :
    (made : ExecutionRecord) × (execute
        (guided text false
          (λ need plan model. raise "no reasoner")
          (λ calls query. raise "no gateway"))
        env
        need
        budget
      ≡ recorded made)
execute-guided_example =
    execute-guided text false (λ need plan model. raise "no reasoner")
      (λ calls query. raise "no gateway") env need budget
