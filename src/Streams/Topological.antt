-- ===== src/Streams/Topological.antt =====
-- What an order that `_topological_order` of streams/service.py returns is.
use mathlib.Core.Path.{subst}
use rfi.Common.{
  text-cases, ℕ, zero, suc, ◌+◌, String, ◌≡◌, ◌≢◌, refl, sym, ap, ◌∙◌, true, false, List, [], ◌∷◌,
  ◌++◌, ◌==◌, eq_iff, arith, if◌then◌else◌, Bool-cases, inl, inr,
}
use rfi.Common.Lists.{length, mem}
use rfi.Common.Assoc.{Dict}
use rfi.Streams.Graph.{
  Outcome, ok, dependency_cycle, out_of_fuel, ◌>>=◌, Search, remove, dependencies, visit_all, leave,
  visit, graph_of, nothing_visited, topological_order,
}

pub bind_ok {ℓ κ} :
    {A : Type ℓ} {B : Type κ} (m : Outcome A) (f : A → Outcome B) (b : B)
    → (m >>= f) ≡ ok b
    → (a : A) × (m ≡ ok a) × (f a ≡ ok b)
bind_ok (ok a) f b h = (a, refl, h)
bind_ok (dependency_cycle n) f b h = cc
bind_ok out_of_fuel f b h = cc

ok_injective {ℓ} : {A : Type ℓ} {a b : A} → ok a ≡ ok b → a ≡ b
ok_injective h = cc

-- every one of the names is in the list
abbrev pub AllIn : List String → List String → Type 0
AllIn xs [] = Unit
AllIn xs (d ∷ ds) = (mem d xs ≡ true) × AllIn xs ds

AllIn-mono :
    (xs ys ds : List String)
    → ((a : String) → mem a xs ≡ true → mem a ys ≡ true)
    → AllIn xs ds
    → AllIn ys ds
AllIn-mono xs ys [] grow h = tt
AllIn-mono xs ys (d ∷ ds) grow h = (grow d h.0, AllIn-mono xs ys ds grow h.1)

-- the list with its last element first
abbrev pub reverse : List String → List String
reverse [] = []
reverse (x ∷ xs) = reverse xs ++ x ∷ []

reverse-append_one : (xs : List String) (x : String) → reverse (xs ++ x ∷ []) ≡ x ∷ reverse xs
reverse-append_one [] x = refl
reverse-append_one (y ∷ xs) x = ap (λ zs. zs ++ y ∷ []) (reverse-append_one xs x)

-- Of a list with the last stream first: no stream stands in it twice, and the dependencies of each
-- come before it.
abbrev pub IsClosed : Dict (List String) → List String → Type 0
IsClosed graph [] = Unit
IsClosed graph (n ∷ ns) = (mem n ns ≡ false) × AllIn ns (dependencies graph n) × IsClosed graph ns

-- What holds of the search between two visits.
pub record Good (graph : Dict (List String)) (s : Search) : Type 0 where
  pub reversed : reverse s.order ≡ s.visited
  pub closed : IsClosed graph s.visited
  pub apart : (a : String) → mem a s.visiting ≡ true → mem a s.visited ≡ false

-- What a visit leaves behind: nothing else is being visited, and nothing visited is forgotten.
pub record Grown (s t : Search) : Type 0 where
  pub same : t.visiting ≡ s.visiting
  pub grow : (a : String) → mem a s.visited ≡ true → mem a t.visited ≡ true

abbrev pub Visits : Dict (List String) → (String → Search → Outcome Search) → Type 0
Visits graph visitor =
    (node : String) (s t : Search)
    → Good graph s
    → visitor node s ≡ ok t
    → Good graph t × Grown s t × (mem node t.visited ≡ true)

visit_all_lem :
    (graph : Dict (List String)) (visitor : String → Search → Outcome Search)
    → Visits graph visitor
    → (ds : List String) (s t : Search) → Good graph s
    → visit_all visitor ds s ≡ ok t
    → Good graph t × Grown s t × AllIn t.visited ds
unfolding visit_all
visit_all_lem graph visitor visits [] s t good h =
    subst (λ x. Good graph x × Grown s x × Unit) (ok_injective h)
      (good, record { same = refl; grow = λ a m. m }, tt)
visit_all_lem graph visitor visits (d ∷ ds) s t good h =
    let (s1, here, rest) = bind_ok (visitor d s) (visit_all visitor ds) t h in
    let (good1, grown1, seen) = visits d s s1 good here in
    let (good2, grown2, all) = visit_all_lem graph visitor visits ds s1 t good1 rest in
    (
      good2,
      record { same = grown2.same ∙ grown1.same; grow = λ a m. grown2.grow a (grown1.grow a m) },
      (grown2.grow d seen, all),
    )

remove-head : (a : String) (xs : List String) → remove a (a ∷ xs) ≡ xs
unfolding remove
remove-head a xs = rw ((eq_iff a a).1 refl) refl

pub Good-push :
    (graph : Dict (List String)) (node : String) (s : Search)
    → Good graph s
    → mem node s.visited ≡ false
    → Good graph (record s { visiting = node ∷ s.visiting })
Good-push graph node s good new = record {
  reversed = good.reversed;
  closed = good.closed;
  apart = λ a m. ground (arith, good.apart a, ap (λ x. mem x s.visited), eq_iff node a);
}

still_apart :
    (graph : Dict (List String)) (node : String) (s t : Search) (a : String)
    → mem node s.visiting ≡ false
    → Good graph t
    → t.visiting ≡ node ∷ s.visiting
    → mem a s.visiting ≡ true
    → (if node == a then true else mem a t.visited) ≡ false
still_apart graph node s t a fresh done same m = elim (text-cases node a) [
  | inl (e, is) ↦ absurd (ground (arith, ap (λ x. mem x s.visiting) is))
  | inr (e, differs) ↦ rw e (done.apart a (rw (same, e) m))
]

leave_lem :
    (graph : Dict (List String)) (node : String) (s t : Search)
    → Good graph s
    → mem node s.visiting ≡ false
    → Good graph t
    → Grown (record s { visiting = node ∷ s.visiting }) t
    → AllIn t.visited (dependencies graph node)
    → Good graph (leave node t) × Grown s (leave node t) × (mem node (leave node t).visited ≡ true)
unfolding leave
leave_lem graph node s t good fresh done grown all =
    let back : remove node t.visiting ≡ s.visiting =
      ap (remove node) grown.same ∙ remove-head node s.visiting in
    let itself : (node == node) ≡ true = (eq_iff node node).1 refl in
    let unvisited : mem node t.visited ≡ false = done.apart node (rw (grown.same, itself) refl) in
    (
      record {
        reversed = reverse-append_one t.order node ∙ ap (λ xs. node ∷ xs) done.reversed;
        closed = (unvisited, all, done.closed);
        apart =
            λ a m. still_apart graph node s t a fresh done grown.same (sym (ap (mem a) back) ∙ m);
      },
      record { same = back; grow = λ a m. ground (arith, grown.grow a m) },
      rw itself refl,
    )

pub visit-cyclic :
    (fuel : ℕ) (graph : Dict (List String)) (node : String) (s : Search)
    → mem node s.visiting ≡ true
    → visit (suc fuel) graph node s ≡ dependency_cycle node
unfolding visit
visit-cyclic fuel graph node s h = rw (h, visit) refl

pub visit-visited :
    (fuel : ℕ) (graph : Dict (List String)) (node : String) (s : Search)
    → mem node s.visiting ≡ false
    → mem node s.visited ≡ true
    → visit (suc fuel) graph node s ≡ ok s
unfolding visit
visit-visited fuel graph node s h k = rw (h, k, visit) refl

pub visit-new :
    (fuel : ℕ) (graph : Dict (List String)) (node : String) (s : Search)
    → mem node s.visiting ≡ false
    → mem node s.visited ≡ false
    → visit (suc fuel) graph node s ≡ (
        visit_all
          (visit fuel graph)
          (dependencies graph node)
          (record s { visiting = node ∷ s.visiting })
        >>= λ u. ok (leave node u))
unfolding visit
visit-new fuel graph node s h k = rw (h, k, visit) refl

fuel_not_ok : (t : Search) → out_of_fuel ≢ ok t
fuel_not_ok t e = cc

cycle_not_ok : (n : String) (t : Search) → dependency_cycle n ≢ ok t
cycle_not_ok n t e = cc

false_not_true : false ≢ true
false_not_true e = cc

pub Good-start : (graph : Dict (List String)) → Good graph nothing_visited
Good-start graph = record { reversed = refl; closed = tt; apart = λ a m. absurd (false_not_true m) }

pub visit-Visits : (fuel : ℕ) (graph : Dict (List String)) → Visits graph (visit fuel graph)
unfolding visit
visit-Visits zero graph node s t good h = absurd (fuel_not_ok t h)
visit-Visits (suc fuel) graph node s t good h = elim (Bool-cases (mem node s.visiting)) [
  | inl cyclic ↦ absurd (cycle_not_ok node t (sym (visit-cyclic fuel graph node s cyclic) ∙ h))
  | inr fresh ↦ elim (Bool-cases (mem node s.visited)) [
    | inl visited ↦
        subst (λ x. Good graph x × Grown s x × (mem node x.visited ≡ true))
          (ok_injective (sym (visit-visited fuel graph node s fresh visited) ∙ h))
          (good, record { same = refl; grow = λ a m. m }, visited)
    | inr new ↦
        let pushed : Search = record s { visiting = node ∷ s.visiting } in
        let (u, below, left) =
          bind_ok (visit_all (visit fuel graph) (dependencies graph node) pushed)
            (λ u. ok (leave node u)) t (sym (visit-new fuel graph node s fresh new) ∙ h) in
        let good1 = Good-push graph node s good new in
        let (done, grown, all) =
          visit_all_lem graph (visit fuel graph) (visit-Visits fuel graph) (dependencies graph node)
            pushed u good1 below in
        subst (λ x. Good graph x × Grown s x × (mem node x.visited ≡ true)) (ok_injective left)
          (leave_lem graph node s u good fresh done grown all)
  ]
]

-- The order that the search returns has the stream that it was asked for, no stream stands in it
-- twice, and the dependencies of each stream come before it.
pub topological_order-IsClosed :
    (saved : Dict (List String)) (stream_id : String) (input_ids order : List String)
    → topological_order saved stream_id input_ids ≡ ok order
    → IsClosed (graph_of saved stream_id input_ids) (reverse order)
      × (mem stream_id (reverse order) ≡ true)
unfolding topological_order
topological_order-IsClosed saved stream_id input_ids order h =
    let graph = graph_of saved stream_id input_ids in
    let (s, found, is) =
      bind_ok (visit (length graph + 2) graph stream_id nothing_visited) (λ s. ok s.order) order
        h in
    let (good, grown, seen) =
      visit-Visits (length graph + 2) graph stream_id nothing_visited s (Good-start graph) found in
    let same : s.visited ≡ reverse order = sym good.reversed ∙ ap reverse (ok_injective is) in
    (subst (IsClosed graph) same good.closed, subst (λ xs. mem stream_id xs ≡ true) same seen)
