-- ===== src/Intelligence/Planner.antt =====
-- `DeterministicPlanner` of intelligence/deterministic.py.
use rfi.Common.{
  ℕ, ◌+◌, String, Bool, true, false, Option, none, some, List, [], ◌∷◌, ◌++◌, ◌==◌, ◌&&◌, ◌||◌, not,
  if◌then◌else◌,
}
use rfi.Common.Lists.{mem, take, is_empty}
use rfi.Common.Text.{join, contains, decimal}
use rfi.Retrieval.Contracts.{ResultClass, MetadataConstraints}
use rfi.Retrieval.Assemble.{min}
use rfi.Intelligence.Contracts.{InformationNeed, IntelligenceBudget, RetrievalStep, RetrievalPlan}
use rfi.Intelligence.Draft.{zero_place}

-- `str.lower`, and the digests of the JSON of a refusal's and of a plan's material
pub record PlannerText : Type 0 where
  pub lower : String → String
  pub refusal_digest : InformationNeed → String
  pub plan_digest : InformationNeed → List RetrievalStep → IntelligenceBudget → String

-- `entity_aliases`
abbrev pub entity_aliases : List (String × String)
entity_aliases =
    ("seagate", "1137789")
    ∷ ("stx", "1137789")
    ∷ ("western digital", "106040")
    ∷ ("wdc", "106040")
    ∷ []

abbrev business_terms : List String
business_terms = "revenue" ∷ "profit" ∷ "market share" ∷ "guidance" ∷ []

-- `any(term in lowered for term in terms)`
unfoldable pub mentions_any : String → List String → Bool
unfolding contains
mentions_any lowered [] = false
mentions_any lowered (term ∷ terms) =
    let later = mentions_any lowered terms in if contains term lowered then true else later

-- the terms that are in the text
unfoldable pub mentioned : String → List String → List String
unfolding contains
mentioned lowered [] = []
mentioned lowered (term ∷ terms) =
    let later = mentioned lowered terms in if contains term lowered then term ∷ later else later

-- the entities that the aliases name, each once
unfoldable pub entities_from : String → List (String × String) → List String → List String
unfolding contains
entities_from lowered [] found = found
entities_from lowered ((alias, entity) ∷ aliases) found =
    entities_from lowered aliases
      (if contains alias lowered && not (mem entity found) then found ++ entity ∷ [] else found)

-- `entities`, with "" where no entity is named
unfoldable pub entities_of : String → List String
unfolding entities_from
entities_of lowered = elim (entities_from lowered entity_aliases []) [
  | [] ↦ "" ∷ []
  | e ∷ es ↦ e ∷ es
]

-- the defaults of `MetadataConstraints`
abbrev pub no_constraints : MetadataConstraints
no_constraints = record {
  document_ids = [];
  artifact_ids = [];
  entity_ids = [];
  document_types = [];
  source_kinds = [];
  source_roles = [];
  knowledge_types = [];
  knowledge_statuses = [];
  period_from = none;
  period_to = none;
  unsupported = [];
}

abbrev both_classes : List ResultClass
both_classes = ResultClass.source_evidence ∷ ResultClass.derived_knowledge ∷ []

-- one step of the plan
unfoldable pub step_of :
    Bool
    → InformationNeed
    → IntelligenceBudget
    → List String
    → List String
    → ℕ
    → String
    → RetrievalStep
unfolding join decimal
step_of alternate_wording need budget required_terms document_types number entity =
    let suffix = if entity == "" then "corpus" else entity in
    record {
      step_id = join "step-" (join (decimal number) (join "-" suffix));
      purpose =
          if alternate_wording
          then join "Inspect source and interpreted filing records for entity " (join suffix ".")
          else join "Collect governed annual-filing evidence for SEC entity " (join suffix ".");
      query = record {
        text = need.text;
        result_classes = both_classes;
        constraints = record no_constraints {
          entity_ids = if entity == "" then [] else entity ∷ [];
          document_types = document_types;
        };
        max_results = 8;
        candidate_limit = 50;
        context_radius = 96;
        evidence_budget_bytes = min 24000 budget.max_total_evidence_bytes;
        minimum_score = zero_place;
      };
      required_result_classes = both_classes;
      required_terms = required_terms;
    }

-- the loop over the entities, from a number
unfoldable pub steps_from : (ℕ → String → RetrievalStep) → ℕ → List String → List RetrievalStep
steps_from make number [] = []
steps_from make number (entity ∷ entities) =
    make number entity ∷ steps_from make (number + 1) entities

-- the steps of the plan
unfoldable pub plan_steps :
    PlannerText → Bool → InformationNeed → IntelligenceBudget → List RetrievalStep
unfolding mentions_any mentioned entities_of step_of steps_from
plan_steps env alternate_wording need budget =
    let lowered = env.lower need.text in
    let required_terms = mentioned lowered business_terms in
    let document_types =
      if mentions_any lowered ("annual" ∷ "10-k" ∷ "compare" ∷ "both" ∷ [])
      then "10-K" ∷ []
      else [] in
    steps_from (step_of alternate_wording need budget required_terms document_types) 1
      (entities_of lowered)

-- the plan that refuses
unfoldable pub refusing_plan : PlannerText → InformationNeed → IntelligenceBudget → RetrievalPlan
unfolding join
refusing_plan env need budget = record {
  plan_id = join "retrieval-plan-" (env.refusal_digest need);
  interpretation = "The request asks to bypass repository governance.";
  steps = [];
  budget = budget;
  refusal_reason = some "Unsupported request: governed evidence controls cannot be bypassed.";
}

-- the plan with steps
unfoldable pub comparing_plan :
    PlannerText → InformationNeed → IntelligenceBudget → List RetrievalStep → RetrievalPlan
unfolding join
comparing_plan env need budget steps = record {
  plan_id = join "retrieval-plan-" (env.plan_digest need steps budget);
  interpretation =
      "Compare named SEC issuers using exact source structures and separately labeled derived filing knowledge.";
  steps = steps;
  budget = budget;
  refusal_reason = none;
}

-- `plan`
unfoldable pub plan_of : PlannerText → Bool → InformationNeed → IntelligenceBudget → RetrievalPlan
unfolding mentions_any plan_steps refusing_plan comparing_plan
plan_of env alternate_wording need budget =
    if mentions_any (env.lower need.text) ("ignore governance" ∷ "exfiltrate" ∷ "show secret" ∷ [])
    then refusing_plan env need budget
    else comparing_plan env need budget (plan_steps env alternate_wording need budget)

-- a step with this identifier was completed
abbrev pub has_step : String → List RetrievalStep → Bool
has_step id [] = false
has_step id (step ∷ steps) = if step.step_id == id then true else has_step id steps

-- `" ".join(items)`
abbrev pub space_list : List String → String
space_list [] = ""
space_list (m ∷ ms) = elim ms [ [] ↦ m | _ ∷ _ ↦ join m (join " " (space_list ms)) ]

-- the requirements that are business terms
abbrev pub terms_among : List String → List String
terms_among [] = []
terms_among (item ∷ items) =
    if mem item business_terms then item ∷ terms_among items else terms_among items

-- the query that is wider
unfoldable pub broader_step : InformationNeed → RetrievalPlan → List String → RetrievalStep
unfolding join
broader_step need plan missing = record {
  step_id = "follow-up-coverage";
  purpose = "Attempt one broader governed retrieval for unmet evidence requirements.";
  query = record {
    text = join need.text (join " " (space_list (take 4 missing)));
    result_classes = both_classes;
    constraints = no_constraints;
    max_results = 8;
    candidate_limit = 50;
    context_radius = 64;
    evidence_budget_bytes = min 16000 plan.budget.max_total_evidence_bytes;
    minimum_score = zero_place;
  };
  required_result_classes = both_classes;
  required_terms = terms_among missing;
}

-- `follow_up`
unfoldable pub follow_up_of :
    InformationNeed → RetrievalPlan → List RetrievalStep → List String → Option RetrievalStep
unfolding broader_step
follow_up_of need plan completed_steps missing =
    if is_empty missing || has_step "follow-up-coverage" completed_steps
    then none
    else some (broader_step need plan missing)
