-- ===== src/Intelligence/Sample.antt =====
-- A need, a budget, a planner of one step and a reasoner of one claim.
use rfi.Common.{none, [], ◌∷◌}
use rfi.Common.Errors.{ok}
use rfi.Retrieval.Contracts.{ResultClass, RetrievalResponse}
use rfi.Retrieval.Sample
use rfi.Intelligence.Contracts.{
  CompletionStatus, ClaimKind, InformationNeed, IntelligenceBudget, RetrievalStep, RetrievalPlan,
  IntelligenceClaim,
}
use rfi.Intelligence.Draft.{one_place}
use rfi.Intelligence.Project.{Rendering}
use rfi.Intelligence.Run.{Providers}
use rfi.Intelligence.Gateway.{gateway}

abbrev pub env : Rendering
env = record {
  searchable = λ sources knowledge texts. "";
  lower = λ s. s;
  rendered = λ items. "content";
  execution_identity = λ need budget. "execution-1";
  result_identity = λ id status response claims reason. "result-1";
  failure_identity = λ id failure. "result-1";
}

abbrev pub need : InformationNeed
need = record { text = "what changed"; request_id = "request-1" }

abbrev pub budget : IntelligenceBudget
budget = record {
  max_iterations = 2;
  max_packages = 2;
  max_total_evidence_bytes = 4;
  max_model_input_chars = 20;
}

-- a response with the mail alone
abbrev pub mail_only : RetrievalResponse
mail_only = record (Sample.response 4) { knowledge_results = [] }

abbrev pub step : RetrievalStep
step = record {
  step_id = "step-1";
  purpose = "find the mail";
  query = mail_only.trace.query;
  required_result_classes = ResultClass.source_evidence ∷ [];
  required_terms = [];
}

abbrev pub wanting : RetrievalStep
wanting = record step { required_result_classes = ResultClass.derived_knowledge ∷ [] }

abbrev pub plan : RetrievalPlan
plan = record {
  plan_id = "plan-1";
  interpretation = "the mail says";
  steps = step ∷ [];
  budget = budget;
  refusal_reason = none;
}

abbrev pub claim : ClaimKind → IntelligenceClaim
claim kind = record {
  claim_id = "claim-1";
  text = "it changed";
  kind = kind;
  evidence_ids = "evidence-package-0:source:message-1" ∷ [];
  support_explanation = "the mail says so";
  confidence = one_place;
  uncertainty = none;
}

-- a planner that never follows up, a reasoner that makes one claim of the kind
abbrev pub providers : ClaimKind → Providers
providers kind = record {
  plan = λ n b. ok plan;
  follow_up = λ n p completed missing. ok none;
  reason = λ n p model. ok (record {
    response = "It changed.";
    claims = claim kind ∷ [];
    uncertainties = [];
    evidence_gaps = [];
    contradictions = [];
    requested_status = CompletionStatus.complete;
  });
  retrieve = gateway Sample.env (λ calls query. ok mail_only);
}
