-- ===== src/Intelligence/Equal.antt =====
-- `==` of the retrieval queries and of the budgets that intelligence/orchestration.py compares,
-- field by field, as the dataclasses of retrieval/contracts.py and intelligence/contracts.py do.
use rfi.Common.{String, Bool, true, false, Option, none, some, List, [], ◌∷◌, ◌==◌, ◌&&◌, eqb}
use rfi.Retrieval.Contracts.{ResultClass, KnowledgeStatus, MetadataConstraints, RetrievalQuery}
use rfi.Intelligence.Contracts.{IntelligenceBudget}

-- two tuples, with the equality of their elements
unfoldable pub same_tuple : {A : Type 0} → (A → A → Bool) → List A → List A → Bool
same_tuple same [] [] = true
same_tuple same [] (_ ∷ _) = false
same_tuple same (_ ∷ _) [] = false
same_tuple same (x ∷ xs) (y ∷ ys) = same x y && same_tuple same xs ys

abbrev pub same_text : String → String → Bool
same_text a b = a == b

abbrev pub same_class : ResultClass → ResultClass → Bool
same_class ResultClass.source_evidence ResultClass.source_evidence = true
same_class ResultClass.derived_knowledge ResultClass.derived_knowledge = true
same_class _ _ = false

-- `_value_` of a status
abbrev status_value : KnowledgeStatus → String
status_value KnowledgeStatus.confirmed = "confirmed"
status_value KnowledgeStatus.uncertain = "uncertain"
status_value KnowledgeStatus.conflicted = "conflicted"
status_value KnowledgeStatus.superseded = "superseded"
status_value KnowledgeStatus.stale = "stale"

abbrev same_status : KnowledgeStatus → KnowledgeStatus → Bool
same_status a b = status_value a == status_value b

abbrev same_period : Option String → Option String → Bool
same_period none none = true
same_period none (some _) = false
same_period (some _) none = false
same_period (some a) (some b) = a == b

unfoldable pub same_constraints : MetadataConstraints → MetadataConstraints → Bool
unfolding same_tuple
same_constraints a b =
    same_tuple same_text a.document_ids b.document_ids
    && same_tuple same_text a.artifact_ids b.artifact_ids
    && same_tuple same_text a.entity_ids b.entity_ids
    && same_tuple same_text a.document_types b.document_types
    && same_tuple same_text a.source_kinds b.source_kinds
    && same_tuple same_text a.source_roles b.source_roles
    && same_tuple same_text a.knowledge_types b.knowledge_types
    && same_tuple same_status a.knowledge_statuses b.knowledge_statuses
    && same_period a.period_from b.period_from
    && same_period a.period_to b.period_to
    && same_tuple same_text a.unsupported b.unsupported

unfoldable pub same_query : RetrievalQuery → RetrievalQuery → Bool
unfolding same_tuple same_constraints
same_query a b =
    (a.text == b.text)
    && same_tuple same_class a.result_classes b.result_classes
    && same_constraints a.constraints b.constraints
    && eqb a.max_results b.max_results
    && eqb a.candidate_limit b.candidate_limit
    && eqb a.context_radius b.context_radius
    && eqb a.evidence_budget_bytes b.evidence_budget_bytes
    && eqb a.minimum_score b.minimum_score

abbrev pub same_budget : IntelligenceBudget → IntelligenceBudget → Bool
same_budget a b =
    eqb a.max_iterations b.max_iterations
    && eqb a.max_packages b.max_packages
    && eqb a.max_total_evidence_bytes b.max_total_evidence_bytes
    && eqb a.max_model_input_chars b.max_model_input_chars
