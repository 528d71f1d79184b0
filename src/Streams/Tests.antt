-- ===== src/Streams/Tests.antt =====
-- Runs of the model of streams/service.py, and the theorems at concrete graphs.
use rfi.Common.{String, ◌≡◌, ◌⊎◌, refl, true, List, [], ◌∷◌}
use rfi.Common.Lists.{mem}
use rfi.Common.Assoc.{Dict, lookup, assign}
use rfi.Streams.Graph.{ok, dependency_cycle, graph_of, topological_order}
use rfi.Streams.Topological.{IsClosed, reverse, topological_order-IsClosed}
use rfi.Streams.Fuel.{topological_order-total}
use rfi.Streams.Cycle.{DependsOn, topological_order-DependsOn}
use rfi.Common.{if◌then◌else◌, none, some, is_some, Bool, false, true, ap, sym, ◌==◌}
use text.Mathlib.Text.{starts_with}
use rfi.Common.Text.{strip, contains}
use rfi.Streams.Acyclic.{topological_order-acyclic}
use rfi.Streams.Policy.{
  Value, Node, Group, Nodes, SchemaCapability, supported_operators, validate_policy,
}
use rfi.Streams.Match.{ArtifactProjection, matches}
use rfi.Streams.Checks.{IsNamed}
use rfi.Streams.Validated.{matches-validated}

-- `digest` reads `patches` and `reports`, which both read `mail`
abbrev saved : Dict (List String)
saved = ("mail", []) ∷ ("patches", "mail" ∷ []) ∷ ("reports", "mail" ∷ []) ∷ []

order_found :
    topological_order saved "digest" ("patches" ∷ "reports" ∷ [])
    ≡ ok ("mail" ∷ "patches" ∷ "reports" ∷ "digest" ∷ [])
unfolding topological_order assign lookup
order_found = refl

cycle_found : topological_order saved "mail" ("patches" ∷ []) ≡ dependency_cycle "mail"
unfolding topological_order assign lookup
cycle_found = refl

topological_order-IsClosed_example :
    let found : List String = "mail" ∷ "patches" ∷ "reports" ∷ "digest" ∷ [] in
    IsClosed (graph_of saved "digest" ("patches" ∷ "reports" ∷ [])) (reverse found)
    × (mem "digest" (reverse found) ≡ true)
topological_order-IsClosed_example =
    topological_order-IsClosed saved "digest" ("patches" ∷ "reports" ∷ [])
      ("mail" ∷ "patches" ∷ "reports" ∷ "digest" ∷ []) order_found

topological_order-total_example :
    let result = topological_order saved "mail" ("patches" ∷ []) in
    ((order : List String) × (result ≡ ok order))
    ⊎ ((node : String) × (result ≡ dependency_cycle node))
topological_order-total_example = topological_order-total saved "mail" ("patches" ∷ [])

topological_order-DependsOn_example :
    DependsOn (graph_of saved "mail" ("patches" ∷ [])) "mail" "mail"
topological_order-DependsOn_example =
    topological_order-DependsOn saved "mail" ("patches" ∷ []) "mail" cycle_found

-- a schema with one field, and a policy on it
abbrev capability : SchemaCapability
capability = record { fields = ("title", "contains" ∷ "equals" ∷ []) ∷ []; attributes = [] }

abbrev policy : Node
policy = Node.all (
    Group.items (
      Nodes.next
        (Node.leaf (some "predicate") (some "title") (some "contains") (some (Value.one "patch")))
        (Nodes.next
          (Node.negation (
            Node.leaf (some "predicate") (some "title") (some "equals") (some (Value.one "patch"))))
          Nodes.end)))

abbrev projection : ArtifactProjection
projection = record {
  artifact_id = "a";
  document_id = "d";
  schema_id = "mail.message";
  source_id = "s";
  effective_at = none;
  title = "a patch";
  searchable_text = "";
  authors = [];
  attributes = [];
  context_id = none;
  context_depth = none;
  completeness = none;
}

abbrev casefold : String → String
casefold s = s

abbrev list_text : List String → String
list_text vs = ""

capability-no_field : supported_operators capability "" ≡ none
unfolding supported_operators lookup
capability-no_field = refl

no_empty_operator :
    (b c : Bool) (ops : List String)
    → (if b then none else (if c then some ("contains" ∷ "equals" ∷ []) else none)) ≡ some ops
    → mem "" ops ≡ false
no_empty_operator true c ops h = cc
no_empty_operator false true ops h = sym (ap (mem "") (operators_of h))
  where
    operators_of : {xs ys : List String} → some xs ≡ some ys → xs ≡ ys
    operators_of e = cc
no_empty_operator false false ops h = cc

capability-no_operator :
    (field : String) (ops : List String)
    → supported_operators capability field ≡ some ops
    → mem "" ops ≡ false
unfolding supported_operators lookup
capability-no_operator field ops h =
    no_empty_operator (starts_with field "attribute:") ("title" == field) ops h

capability-IsNamed : IsNamed capability
capability-IsNamed = record { fields = capability-no_field; operators = capability-no_operator }

policy-accepted : (validate_policy capability policy 0 0 "$.stream.selection").1 ≡ []
unfolding validate_policy lookup strip
policy-accepted = refl

policy-selects : matches casefold list_text policy projection ≡ some true
unfolding matches lookup contains
policy-selects = refl

matches-validated_example : is_some (matches casefold list_text policy projection) ≡ true
matches-validated_example =
    matches-validated casefold list_text capability capability-IsNamed projection policy
      policy-accepted

topological_order-acyclic_example :
    ¬ DependsOn (graph_of saved "digest" ("patches" ∷ "reports" ∷ [])) "patches" "patches"
topological_order-acyclic_example =
    topological_order-acyclic saved "digest" ("patches" ∷ "reports" ∷ [])
      ("mail" ∷ "patches" ∷ "reports" ∷ "digest" ∷ []) "patches" order_found refl
