-- ===== src/Streams/Cycle.antt =====
-- That a cycle which `_topological_order` of streams/service.py reports is one.
use rfi.Common.{
  ℕ, zero, suc, ◌+◌, String, ◌≡◌, ◌≢◌, refl, sym, ap, ◌∙◌, true, List, [], ◌∷◌, eq_iff, arith,
  Bool-cases, text-cases, inl, inr,
}
use mathlib.Core.Path.{subst}
use rfi.Common.Lists.{length, mem}
use rfi.Common.Assoc.{Dict}
use rfi.Streams.Graph.{
  Outcome, ok, dependency_cycle, out_of_fuel, ◌>>=◌, Search, dependencies, visit_all, leave, visit,
  graph_of, nothing_visited, topological_order,
}
use rfi.Streams.Topological.{
  Good, Visits, Good-push, Good-start, visit-Visits, visit-cyclic, visit-visited, visit-new,
}
use rfi.Streams.Fuel.{outcome-cases}

-- The stream depends on the other, over one dependency or more.
pub data DependsOn (graph : Dict (List String)) : String → String → Type 0 where
  directly : {a b : String} → mem b (dependencies graph a) ≡ true → DependsOn graph a b
  further :
      {a b c : String}
      → DependsOn graph a b
      → mem c (dependencies graph b) ≡ true
      → DependsOn graph a c

-- each stream being visited was entered from the one below it
abbrev Entered : Dict (List String) → String → List String → Type 0
Entered graph a [] = Unit
Entered graph a (b ∷ rest) = (mem a (dependencies graph b) ≡ true) × Entered graph b rest

on_stack :
    (graph : Dict (List String)) (a n : String) (visiting : List String)
    → Entered graph a visiting
    → mem n visiting ≡ true
    → DependsOn graph n a
on_stack graph a n [] entered h = absurd (ground arith)
on_stack graph a n (b ∷ rest) entered h = elim (text-cases b n) [
  | inl (e, is) ↦ subst (λ x. DependsOn graph x a) is (directly entered.0)
  | inr (e, differs) ↦ further (on_stack graph b n rest entered.1 (ground (arith, e))) entered.0
]

abbrev FindsCycles : Dict (List String) → (String → Search → Outcome Search) → Type 0
FindsCycles graph visitor =
    (node n : String) (s : Search)
    → Good graph s
    → Entered graph node s.visiting
    → visitor node s ≡ dependency_cycle n
    → DependsOn graph n n

ok_not_cycle {ℓ} : {A : Type ℓ} (a : A) (n : String) → ok a ≢ dependency_cycle n
ok_not_cycle a n e = cc

out_not_cycle : (n : String) → ◌≢◌ {A = Outcome Search} out_of_fuel (dependency_cycle n)
out_not_cycle n e = cc

same_node :
    {m n : String} → ◌≡◌ {A = Outcome Search} (dependency_cycle m) (dependency_cycle n) → m ≡ n
same_node e = cc

visit_all-FindsCycles :
    (graph : Dict (List String)) (visitor : String → Search → Outcome Search)
    (visiting : List String)
    → Visits graph visitor
    → FindsCycles graph visitor
    → (ds : List String) (n : String) (s : Search)
    → ((d : String) → mem d ds ≡ true → Entered graph d visiting)
    → Good graph s
    → s.visiting ≡ visiting
    → visit_all visitor ds s ≡ dependency_cycle n
    → DependsOn graph n n
unfolding visit_all
visit_all-FindsCycles graph visitor visiting visits finds [] n s each good is h =
    absurd (ok_not_cycle s n h)
visit_all-FindsCycles graph visitor visiting visits finds (d ∷ ds) n s each good is h =
    let onward = λ (m : Outcome Search). m >>= visit_all visitor ds in
    elim (outcome-cases (visitor d s)) [
      | inl (s1, e) ↦
          let (good1, grown, seen) = visits d s s1 good e in
          visit_all-FindsCycles graph visitor visiting visits finds ds n s1
            (λ a m. each a (ground arith)) good1 (grown.same ∙ is) (sym (ap onward e) ∙ h)
      | inr (inl (m, e)) ↦
          let same : m ≡ n = same_node (sym (ap onward e) ∙ h) in
          finds d n s good
            (subst (Entered graph d) (sym is) (each d (rw ((eq_iff d d).1 refl) refl)))
            (e ∙ ap dependency_cycle same)
      | inr (inr e) ↦ absurd (out_not_cycle n (sym (ap onward e) ∙ h))
    ]

bind_cycle :
    (m : Outcome Search) (g : Search → Search) (n : String)
    → (m >>= λ u. ok (g u)) ≡ dependency_cycle n
    → m ≡ dependency_cycle n
bind_cycle (ok u) g n h = absurd (ok_not_cycle (g u) n h)
bind_cycle (dependency_cycle k) g n h = h
bind_cycle out_of_fuel g n h = h

visit-FindsCycles : (fuel : ℕ) (graph : Dict (List String)) → FindsCycles graph (visit fuel graph)
unfolding visit
visit-FindsCycles zero graph node n s good entered h = absurd (out_not_cycle n h)
visit-FindsCycles (suc fuel) graph node n s good entered h =
    elim (Bool-cases (mem node s.visiting)) [
      | inl cyclic ↦
          let same : node ≡ n = same_node (sym (visit-cyclic fuel graph node s cyclic) ∙ h) in
          subst (λ x. DependsOn graph x x) same (on_stack graph node node s.visiting entered cyclic)
      | inr fresh ↦ elim (Bool-cases (mem node s.visited)) [
        | inl visited ↦
            absurd (ok_not_cycle s n (sym (visit-visited fuel graph node s fresh visited) ∙ h))
        | inr new ↦
            let pushed : Search = record s { visiting = node ∷ s.visiting } in
            visit_all-FindsCycles graph (visit fuel graph) (node ∷ s.visiting)
              (visit-Visits fuel graph) (visit-FindsCycles fuel graph) (dependencies graph node) n
              pushed (λ d m. (m, entered)) (Good-push graph node s good new) refl
              (bind_cycle (visit_all (visit fuel graph) (dependencies graph node) pushed)
                (leave node) n (sym (visit-new fuel graph node s fresh new) ∙ h))
      ]
    ]

-- A stream that the search reports as on a dependency cycle depends on itself.
pub topological_order-DependsOn :
    (saved : Dict (List String)) (stream_id : String) (input_ids : List String) (node : String)
    → topological_order saved stream_id input_ids ≡ dependency_cycle node
    → DependsOn (graph_of saved stream_id input_ids) node node
unfolding topological_order
topological_order-DependsOn saved stream_id input_ids node h =
    let graph = graph_of saved stream_id input_ids in
    let fuel = length graph + 2 in
    elim (outcome-cases (visit fuel graph stream_id nothing_visited)) [
      | inl (s, e) ↦ absurd (ok_not_cycle s.order node (sym (ap onward e) ∙ h))
      | inr (inl (n, e)) ↦
          visit-FindsCycles fuel graph stream_id node nothing_visited (Good-start graph) tt
            (e ∙ ap dependency_cycle (same_name (sym (ap onward e) ∙ h)))
      | inr (inr e) ↦ absurd (out_never node (sym (ap onward e) ∙ h))
    ]
  where
    onward : Outcome Search → Outcome (List String)
    onward m = m >>= λ t. ok t.order

    same_name :
        {m n : String}
        → ◌≡◌ {A = Outcome (List String)} (dependency_cycle m) (dependency_cycle n)
        → m ≡ n
    same_name e = cc

    out_never : (n : String) → ◌≢◌ {A = Outcome (List String)} out_of_fuel (dependency_cycle n)
    out_never n e = cc
