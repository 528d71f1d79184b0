-- ===== src/Streams/Acyclic.antt =====
-- That the streams in an order of `_topological_order` of streams/service.py are on no cycle.
use mathlib.Core.Path.{subst}
use rfi.Common.{String, ◌≡◌, sym, ◌∙◌, true, false, List, [], ◌∷◌, arith, text-cases, inl, inr}
use rfi.Common.Lists.{mem}
use rfi.Common.Assoc.{Dict}
use rfi.Streams.Graph.{ok, dependencies, graph_of, topological_order}
use rfi.Streams.Topological.{AllIn, IsClosed, reverse, topological_order-IsClosed}
use rfi.Streams.Cycle.{DependsOn, directly, further}

mem-AllIn : (xs ds : List String) (d : String) → AllIn xs ds → mem d ds ≡ true → mem d xs ≡ true
mem-AllIn xs [] d all h = absurd (ground arith)
mem-AllIn xs (e ∷ ds) d all h = elim (text-cases e d) [
  | inl (q, is) ↦ subst (λ x. mem x xs ≡ true) is all.0
  | inr (q, differs) ↦ mem-AllIn xs ds d all.1 (ground (arith, q))
]

later : (x a : String) (xs : List String) → mem a xs ≡ true → mem a (x ∷ xs) ≡ true
later x a xs h = ground arith

-- a closed order has the dependencies of its streams
IsClosed-dependencies :
    (graph : Dict (List String)) (xs : List String) (b c : String)
    → IsClosed graph xs
    → mem b xs ≡ true
    → mem c (dependencies graph b) ≡ true
    → mem c xs ≡ true
IsClosed-dependencies graph [] b c closed h d = absurd (ground arith)
IsClosed-dependencies graph (n ∷ ns) b c closed h d = elim (text-cases n b) [
  | inl (q, is) ↦ later n c ns (
      mem-AllIn ns (dependencies graph n) c closed.1
        (subst (λ x. mem c (dependencies graph x) ≡ true) (sym is) d))
  | inr (q, differs) ↦
      later n c ns (IsClosed-dependencies graph ns b c closed.2 (ground (arith, q)) d)
]

-- what the last stream of a closed order depends on comes before it
comes_before :
    (graph : Dict (List String)) (n b : String) (ns : List String)
    → IsClosed graph (n ∷ ns)
    → DependsOn graph n b
    → mem b ns ≡ true
comes_before graph n b ns closed (directly d) = mem-AllIn ns (dependencies graph n) b closed.1 d
comes_before graph n b ns closed (further {b = m} r d) =
    IsClosed-dependencies graph ns m b closed.2 (comes_before graph n m ns closed r) d

IsClosed-acyclic :
    (graph : Dict (List String)) (xs : List String) (a : String)
    → IsClosed graph xs
    → mem a xs ≡ true
    → ¬ DependsOn graph a a
IsClosed-acyclic graph [] a closed h r = ground arith
IsClosed-acyclic graph (n ∷ ns) a closed h r = elim (text-cases n a) [
  | inl (q, is) ↦
      let own = comes_before graph n n ns closed (subst (λ x. DependsOn graph x x) (sym is) r) in
      contradiction (sym closed.0 ∙ own)
  | inr (q, differs) ↦ IsClosed-acyclic graph ns a closed.2 (ground (arith, q)) r
]
  where
    contradiction : false ≡ true → ⊥
    contradiction e = cc

-- If the search returns an order, no stream in it depends on itself.
pub topological_order-acyclic :
    (saved : Dict (List String)) (stream_id : String) (input_ids order : List String) (a : String)
    → topological_order saved stream_id input_ids ≡ ok order
    → mem a (reverse order) ≡ true
    → ¬ DependsOn (graph_of saved stream_id input_ids) a a
topological_order-acyclic saved stream_id input_ids order a h there =
    IsClosed-acyclic (graph_of saved stream_id input_ids) (reverse order) a
      (topological_order-IsClosed saved stream_id input_ids order h).0 there
