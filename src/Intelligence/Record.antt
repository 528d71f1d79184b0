-- ===== src/Intelligence/Record.antt =====
-- The records that `execute` of intelligence/orchestration.py returns.
use rfi.Common.{String, true, false, Option, none, some, List, [], ◌∷◌, ◌++◌, map}
use rfi.Common.Lists.{length, mem}
use rfi.Retrieval.Contracts.{EvidencePackage}
use rfi.Intelligence.Contracts.{
  CompletionStatus, StopReason, InformationNeed, RetrievalPlan, EvidenceReference,
  IntelligenceClaim, ReasoningDraft, ContradictionReport, ModelEvidence, ExecutionRecord,
}
use rfi.Intelligence.Project.{Rendering, package_id_of}
use rfi.Intelligence.Run.{Run, add_event}

abbrev pub trace_id_of : EvidencePackage → String
trace_id_of package_ = package_.trace.trace_id

abbrev evidence_of : Option ModelEvidence → List EvidenceReference
evidence_of none = []
evidence_of (some model) = model.evidence

abbrev contradictions_in : Option ReasoningDraft → List ContradictionReport
contradictions_in none = []
contradictions_in (some draft) = draft.contradictions

-- `selected_ids`
unfoldable pub selected_ids : List IntelligenceClaim → List String
selected_ids [] = []
selected_ids (claim ∷ claims) = claim.evidence_ids ++ selected_ids claims

-- the items whose identifier is selected
unfoldable pub select : List String → List EvidenceReference → List EvidenceReference
select ids [] = []
select ids (item ∷ items) = elim (mem item.evidence_id ids) [
  | true ↦ item ∷ select ids items
  | false ↦ select ids items
]

-- what `_terminal_record` is called with beside the run
pub record Ending : Type 0 where
  pub model : Option ModelEvidence
  pub draft : Option ReasoningDraft
  pub claims : List IntelligenceClaim
  pub uncertainties : List String
  pub gaps : List String
  pub status : CompletionStatus
  pub response : String
  pub reason : StopReason

-- `_terminal_record`
unfoldable pub terminal_record :
    Rendering → String → InformationNeed → RetrievalPlan → Ending → Run → ExecutionRecord
unfolding selected_ids select
terminal_record env execution_id need plan ending r = record {
  result = record {
    result_id =
        env.result_identity execution_id ending.status ending.response ending.claims ending.reason;
    execution_id = execution_id;
    status = ending.status;
    response = ending.response;
    claims = ending.claims;
    evidence = select (selected_ids ending.claims) (evidence_of ending.model);
    uncertainties = ending.uncertainties;
    evidence_gaps = ending.gaps;
    contradictions = contradictions_in ending.draft;
    retrieval_trace_ids = map trace_id_of r.packages;
    evidence_package_ids = map package_id_of r.packages;
    stopping_reason = ending.reason;
  };
  trace = record {
    execution_id = execution_id;
    need = need;
    plan = some plan;
    events = r.events;
    retrieval_queries = r.queries;
    package_ids = map package_id_of r.packages;
    evidence_packages = r.packages;
    model_input = ending.model;
    raw_model_output = ending.draft;
    iterations = length r.packages;
    stop_reason = ending.reason;
    failures = r.failures;
  };
}

-- `_failure_record`, with the stop reason that its calls have and no draft
unfoldable pub failure_record :
    Rendering
    → String
    → InformationNeed
    → Option RetrievalPlan
    → Option ModelEvidence
    → String
    → Run
    → ExecutionRecord
unfolding add_event
failure_record env execution_id need plan model failure r = record {
  result = record {
    result_id = env.failure_identity execution_id failure;
    execution_id = execution_id;
    status = CompletionStatus.failed;
    response = "Unable to produce a governed result.";
    claims = [];
    evidence = [];
    uncertainties = "execution failed closed" ∷ [];
    evidence_gaps = failure ∷ [];
    contradictions = [];
    retrieval_trace_ids = map trace_id_of r.packages;
    evidence_package_ids = map package_id_of r.packages;
    stopping_reason = StopReason.failure;
  };
  trace = record {
    execution_id = execution_id;
    need = need;
    plan = plan;
    events = add_event "failure" failure none none r.events;
    retrieval_queries = r.queries;
    package_ids = map package_id_of r.packages;
    evidence_packages = r.packages;
    model_input = model;
    raw_model_output = none;
    iterations = length r.packages;
    stop_reason = StopReason.failure;
    failures = failure ∷ [];
  };
}
