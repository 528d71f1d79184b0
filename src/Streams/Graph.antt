-- ===== src/Streams/Graph.antt =====
-- `_topological_order` of streams/service.py: the depth-first search over the streams' dependencies.
use rfi.Common.{ℕ, zero, suc, ◌+◌, String, none, some, List, [], ◌∷◌, ◌++◌, ◌==◌, if◌then◌else◌}
use rfi.Common.Lists.{length, mem}
use rfi.Common.Assoc.{Dict, lookup, assign}

-- what is left of a search: the state, the node at which it met a cycle, or no more fuel
pub data Outcome {ℓ} (A : Type ℓ) : Type ℓ where
  ok : A → Outcome A
  dependency_cycle : String → Outcome A
  out_of_fuel : Outcome A

infixl 5 ◌>>=◌
abbrev pub ◌>>=◌ {ℓ κ} : {A : Type ℓ} {B : Type κ} → Outcome A → (A → Outcome B) → Outcome B
ok a >>= f = f a
dependency_cycle n >>= f = dependency_cycle n
out_of_fuel >>= f = out_of_fuel

-- `visiting`, `visited` and `order`, the sets as lists
pub record Search : Type 0 where
  pub visiting : List String
  pub visited : List String
  pub order : List String

-- `visiting.remove(node)`
unfoldable pub remove : String → List String → List String
remove a [] = []
remove a (x ∷ xs) = let rest = remove a xs in if x == a then xs else x ∷ rest

-- `graph.get(node, ())`
unfoldable pub dependencies : Dict (List String) → String → List String
dependencies graph node = elim (lookup node graph) [ none ↦ [] | some ds ↦ ds ]

-- the loop over the dependencies
unfoldable pub visit_all :
    (String → Search → Outcome Search) → List String → Search → Outcome Search
visit_all visitor [] s = ok s
visit_all visitor (d ∷ ds) s = do s1 ← visitor d s; visit_all visitor ds s1

-- `visiting.remove(node)`, `visited.add(node)` and `order.append(node)`
unfoldable pub leave : String → Search → Search
leave node s = record {
  visiting = remove node s.visiting;
  visited = node ∷ s.visited;
  order = s.order ++ node ∷ [];
}

-- `visit`
unfoldable pub visit : ℕ → Dict (List String) → String → Search → Outcome Search
unfolding remove dependencies visit_all leave
visit zero graph node s = out_of_fuel
visit (suc fuel) graph node s =
    let below =
      visit_all (visit fuel graph) (dependencies graph node)
        (record s { visiting = node ∷ s.visiting }) in
    if mem node s.visiting
    then dependency_cycle node
    else (if mem node s.visited then ok s else (below >>= λ t. ok (leave node t)))

-- `graph`: the saved streams' dependencies and those of the draft
abbrev pub graph_of : Dict (List String) → String → List String → Dict (List String)
graph_of saved stream_id input_ids = assign stream_id input_ids saved

abbrev pub nothing_visited : Search
nothing_visited = record { visiting = []; visited = []; order = [] }

-- `_topological_order`. No stack of visits is longer than the streams of the graph are many, and a
-- stream that is not in the graph has no dependencies.
unfoldable pub topological_order : Dict (List String) → String → List String → Outcome (List String)
unfolding visit
topological_order saved stream_id input_ids =
    let graph = graph_of saved stream_id input_ids in
    do s ← visit (length graph + 2) graph stream_id nothing_visited; ok s.order
