-- ===== src/Streams/Fuel.antt =====
-- That the search of streams/service.py comes to an end within the fuel of `topological_order`.
use mathlib.Core.Path.{subst}
use rfi.Common.{
  ℕ, zero, suc, ◌+◌, ◌≤◌, String, ◌≡◌, ◌≢◌, ◌⊎◌, refl, sym, ap, ◌∙◌, true, false, none, some, List,
  [], ◌∷◌, eq_iff, arith, Bool-cases, Option-cases, text-cases, inl, inr,
}
use rfi.Common.Lists.{length, mem, Distinct}
use rfi.Common.Assoc.{Dict, lookup, keys}
use rfi.Streams.Graph.{
  Outcome, ok, dependency_cycle, out_of_fuel, ◌>>=◌, Search, remove, dependencies, visit_all, leave,
  visit, graph_of, nothing_visited, topological_order,
}
use rfi.Streams.Topological.{
  AllIn, Good, Visits, visit-Visits, Good-push, Good-start, visit-cyclic, visit-visited, visit-new,
}

length-remove :
    (x : String) (ys : List String) → mem x ys ≡ true → length ys ≡ suc (length (remove x ys))
unfolding remove
length-remove x [] h = absurd (ground arith)
length-remove x (y ∷ ys) h = ground (arith, length-remove x ys)

mem-remove :
    (x a : String) (ys : List String) → x ≢ a → mem a ys ≡ true → mem a (remove x ys) ≡ true
unfolding remove
mem-remove x a [] other h = h
mem-remove x a (y ∷ ys) other h = elim (text-cases y x) [
  | inl (e, is) ↦ elim (text-cases y a) [
    | inl (e2, is2) ↦ absurd (other (sym is ∙ is2))
    | inr (e2, differs) ↦ ground (arith, e, e2)
  ]
  | inr (e, differs) ↦ ground (arith, mem-remove x a ys other, e)
]

not_head : (x d : String) (ds : List String) → mem x (d ∷ ds) ≡ false → x ≢ d
not_head x d ds h e = ground (arith, eq_iff d x, sym e)

AllIn-remove :
    (x : String) (xs ys : List String) → mem x xs ≡ false → AllIn ys xs → AllIn (remove x ys) xs
AllIn-remove x [] ys h all = tt
AllIn-remove x (d ∷ ds) ys h all =
    (mem-remove x d ys (not_head x d ds h) all.0, AllIn-remove x ds ys (ground arith) all.1)

-- distinct names out of a list are no more than the list is long
length-Distinct : (xs ys : List String) → Distinct xs → AllIn ys xs → length xs ≤ length ys
length-Distinct [] ys d all = omega arith
length-Distinct (x ∷ xs) ys d all =
    let rest = length-Distinct xs (remove x ys) d.1 (AllIn-remove x xs ys d.0 all.1) in
    let shorter = length-remove x ys all.0 in omega arith

length-keys : (graph : Dict (List String)) → length (keys graph) ≡ length graph
length-keys [] = refl
length-keys (_ ∷ graph) = ap suc (length-keys graph)

mem-keys :
    (node : String) (graph : Dict (List String)) (ds : List String)
    → lookup node graph ≡ some ds
    → mem node (keys graph) ≡ true
unfolding lookup
mem-keys node [] ds h = absurd (ground arith)
mem-keys node ((k, v) ∷ graph) ds h = ground (arith, mem-keys node graph ds)

-- What is being visited are distinct streams of the graph, and fuel is left for the others.
record Fueled (graph : Dict (List String)) (fuel : ℕ) (visiting : List String) : Type 0 where
  distinct : Distinct visiting
  known : AllIn (keys graph) visiting
  enough : length graph + 1 ≤ fuel + length visiting

abbrev NeverOut : (String → Search → Outcome Search) → Dict (List String) → List String → Type 0
NeverOut visitor graph visiting =
    (node : String) (s : Search)
    → Good graph s
    → s.visiting ≡ visiting
    → visitor node s ≢ out_of_fuel

ok_not_out {ℓ} : {A : Type ℓ} (a : A) → ok a ≢ out_of_fuel
ok_not_out a e = cc

cycle_not_out {ℓ} : {A : Type ℓ} (n : String) → ◌≢◌ {A = Outcome A} (dependency_cycle n) out_of_fuel
cycle_not_out n e = cc

pub outcome-cases :
    (m : Outcome Search)
    → ((s : Search) × (m ≡ ok s)) ⊎ ((n : String) × (m ≡ dependency_cycle n)) ⊎ (m ≡ out_of_fuel)
outcome-cases (ok s) = inl (s, refl)
outcome-cases (dependency_cycle n) = inr (inl (n, refl))
outcome-cases out_of_fuel = inr (inr refl)

visit_all-NeverOut :
    (graph : Dict (List String)) (visitor : String → Search → Outcome Search)
    (visiting : List String)
    → Visits graph visitor
    → NeverOut visitor graph visiting
    → (ds : List String) (s : Search) → Good graph s
    → s.visiting ≡ visiting
    → visit_all visitor ds s ≢ out_of_fuel
unfolding visit_all
visit_all-NeverOut graph visitor visiting visits never [] s good is h = ok_not_out s h
visit_all-NeverOut graph visitor visiting visits never (d ∷ ds) s good is h =
    elim (outcome-cases (visitor d s)) [
      | inl (s1, e) ↦
          let (good1, grown, seen) = visits d s s1 good e in
          visit_all-NeverOut graph visitor visiting visits never ds s1 good1 (grown.same ∙ is)
            (sym (ap (λ m. m >>= visit_all visitor ds) e) ∙ h)
      | inr (inl (n, e)) ↦ cycle_not_out n (sym (ap (λ m. m >>= visit_all visitor ds) e) ∙ h)
      | inr (inr e) ↦ never d s good is e
    ]

-- what a visit of a new node asks of the visits below it
push :
    (graph : Dict (List String)) (fuel : ℕ) (node : String) (ds visiting : List String)
    → Fueled graph (suc fuel) visiting
    → mem node visiting ≡ false
    → lookup node graph ≡ some ds
    → Fueled graph fuel (node ∷ visiting)
push graph fuel node ds visiting h fresh there = record {
  distinct = (fresh, h.distinct);
  known = (mem-keys node graph ds there, h.known);
  enough = omega (arith, h.enough);
}

no_dependencies :
    (fuel : ℕ) (graph : Dict (List String)) (node : String) (s : Search)
    → lookup node graph ≡ none
    → visit_all (visit fuel graph) (dependencies graph node) s ≡ ok s
unfolding dependencies visit_all
no_dependencies fuel graph node s h = rw (h, dependencies) refl

bind_out :
    (m : Outcome Search) (g : Search → Search)
    → (m >>= λ u. ok (g u)) ≡ out_of_fuel
    → m ≡ out_of_fuel
bind_out (ok u) g h = absurd (ok_not_out (g u) h)
bind_out (dependency_cycle n) g h = absurd (cycle_not_out n h)
bind_out out_of_fuel g h = refl

below-NeverOut :
    (graph : Dict (List String)) (fuel : ℕ) (node : String) (s : Search)
    → Good graph s
    → mem node s.visiting ≡ false
    → mem node s.visited ≡ false
    → ((visiting : List String)
        → Fueled graph fuel visiting
        → NeverOut (visit fuel graph) graph visiting)
    → Fueled graph (suc fuel) s.visiting
    → visit (suc fuel) graph node s ≢ out_of_fuel
below-NeverOut graph fuel node s good fresh new never h out =
    let pushed : Search = record s { visiting = node ∷ s.visiting } in
    let below =
      bind_out (visit_all (visit fuel graph) (dependencies graph node) pushed) (leave node)
        (sym (visit-new fuel graph node s fresh new) ∙ out) in
    elim (Option-cases (lookup node graph)) [
      | inl leaf ↦ ok_not_out pushed (sym (no_dependencies fuel graph node pushed leaf) ∙ below)
      | inr (ds, there) ↦
          visit_all-NeverOut graph (visit fuel graph) (node ∷ s.visiting) (visit-Visits fuel graph)
            (never (node ∷ s.visiting) (push graph fuel node ds s.visiting h fresh there))
            (dependencies graph node) pushed (Good-push graph node s good new) refl below
    ]

visit-NeverOut :
    (graph : Dict (List String)) (fuel : ℕ) (visiting : List String)
    → Fueled graph fuel visiting
    → NeverOut (visit fuel graph) graph visiting
visit-NeverOut graph zero visiting h node s good is out =
    let short = length-Distinct visiting (keys graph) h.distinct h.known in
    let few = length-keys graph in absurd (omega (arith, h.enough))
visit-NeverOut graph (suc fuel) visiting h node s good is out =
    elim (Bool-cases (mem node s.visiting)) [
      | inl cyclic ↦ cycle_not_out node (sym (visit-cyclic fuel graph node s cyclic) ∙ out)
      | inr fresh ↦ elim (Bool-cases (mem node s.visited)) [
        | inl visited ↦ ok_not_out s (sym (visit-visited fuel graph node s fresh visited) ∙ out)
        | inr new ↦
            below-NeverOut graph fuel node s good fresh new (visit-NeverOut graph fuel)
              (subst (Fueled graph (suc fuel)) (sym is) h) out
      ]
    ]

-- The search always comes to an end: it returns an order or names a stream on a cycle.
pub topological_order-total :
    (saved : Dict (List String)) (stream_id : String) (input_ids : List String)
    → let result = topological_order saved stream_id input_ids in
      ((order : List String) × (result ≡ ok order))
      ⊎ ((node : String) × (result ≡ dependency_cycle node))
unfolding topological_order
topological_order-total saved stream_id input_ids =
    let graph = graph_of saved stream_id input_ids in
    let fuel = length graph + 2 in
    let start : Fueled graph fuel [] = record { distinct = tt; known = tt; enough = omega arith } in
    elim (outcome-cases (visit fuel graph stream_id nothing_visited)) [
      | inl (s, e) ↦ inl (s.order, ap (λ m. m >>= λ t. ok t.order) e)
      | inr (inl (n, e)) ↦ inr (n, ap (λ m. m >>= λ (t : Search). ok t.order) e)
      | inr (inr e) ↦
          absurd
            (visit-NeverOut graph fuel [] start stream_id nothing_visited (Good-start graph) refl e)
    ]
