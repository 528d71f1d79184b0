-- ===== src/Common/Assoc.antt =====
-- A Python dict keyed by texts, in insertion order, as an association list.
use Prim.Native.Nat.{ℕ, ◌+◌}
use Prim.Native.String.{String}
use mathlib.Core.Path.{◌≡◌, refl, sym, ap, ◌∙◌}
use mathlib.Core.Logic.{◌≢◌, ◌⊎◌, inl, inr}
use mathlib.Core.Bool.{Bool}
use mathlib.Core.Option.{Option, none, some}
use mathlib.Core.List.{List, [], ◌∷◌, ◌++◌}
use native.Mathlib.Omega.{arith}
use text.Mathlib.Text.{◌==◌}
use text.Mathlib.TextEquality.{eq_iff}
use rfi.Common.Tests.{if◌then◌else◌, one_if, Bool-cases}
use rfi.Common.Lists.{Any}

abbrev pub Dict {ℓ} : Type ℓ → Type ℓ
Dict V = List (String × V)

module _ {ℓ} {V : Type ℓ} where
  -- `d.get(k)`
  unfoldable pub lookup : String → Dict V → Option V
  lookup k [] = none
  lookup k ((j, v) ∷ d) = if j == k then some v else lookup k d

  -- `d[k] = v`
  unfoldable pub assign : String → V → Dict V → Dict V
  assign k v [] = (k, v) ∷ []
  assign k v ((j, w) ∷ d) = if j == k then (j, v) ∷ d else (j, w) ∷ assign k v d

  -- `del d[k]`
  unfoldable pub delete : String → Dict V → Dict V
  delete k [] = []
  delete k ((j, w) ∷ d) = if j == k then d else (j, w) ∷ delete k d

  abbrev pub keys : Dict V → List String
  keys [] = []
  keys ((j, w) ∷ d) = j ∷ keys d

  -- how many of `d.values()` pass the test
  abbrev pub count_values : (V → Bool) → Dict V → ℕ
  count_values p [] = 0
  count_values p ((j, w) ∷ d) = one_if (p w) + count_values p d

  pub lookup-assign :
      (k j : String) (v : V) (d : Dict V)
      → lookup j (assign k v d) ≡ (if k == j then some v else lookup j d)
  unfolding lookup assign
  lookup-assign k j v [] = refl
  lookup-assign k j v ((i, w) ∷ d) =
      ground (arith, eq_iff k j, eq_iff i k, eq_iff i j, lookup-assign k j v d)

  pub lookup-delete_ne : (k j : String) (d : Dict V) → k ≢ j → lookup j (delete k d) ≡ lookup j d
  unfolding lookup delete
  lookup-delete_ne k j [] h = refl
  lookup-delete_ne k j ((i, w) ∷ d) h =
      ground (arith, eq_iff k j, eq_iff i k, eq_iff i j, lookup-delete_ne k j d h)

  pub count_values-assign_new :
      (p : V → Bool) (k : String) (v : V) (d : Dict V)
      → lookup k d ≡ none
      → count_values p (assign k v d) ≡ count_values p d + one_if (p v)
  unfolding lookup assign
  count_values-assign_new p k v [] h = omega arith
  count_values-assign_new p k v ((i, w) ∷ d) h =
      ground (arith, eq_iff i k, count_values-assign_new p k v d)

  pub count_values-assign :
      (p : V → Bool) (k : String) (v w : V) (d : Dict V)
      → lookup k d ≡ some w
      → count_values p (assign k v d) + one_if (p w) ≡ count_values p d + one_if (p v)
  unfolding lookup assign
  count_values-assign p k v w [] h = cc
  count_values-assign p k v w ((i, u) ∷ d) h =
      ground (arith, eq_iff i k, count_values-assign p k v w d)

  pub count_values-delete :
      (p : V → Bool) (k : String) (w : V) (d : Dict V)
      → lookup k d ≡ some w
      → count_values p (delete k d) + one_if (p w) ≡ count_values p d
  unfolding lookup delete
  count_values-delete p k w [] h = cc
  count_values-delete p k w ((i, u) ∷ d) h = ground (arith, eq_iff i k, count_values-delete p k w d)

  pub keys-assign_new :
      (k : String) (v : V) (d : Dict V) → lookup k d ≡ none → keys (assign k v d) ≡ keys d ++ k ∷ []
  unfolding lookup assign
  keys-assign_new k v [] h = refl
  keys-assign_new k v ((j, w) ∷ d) h = ground (arith, eq_iff j k, keys-assign_new k v d)

  pub keys-assign :
      (k : String) (v w : V) (d : Dict V) → lookup k d ≡ some w → keys (assign k v d) ≡ keys d
  unfolding lookup assign
  keys-assign k v w [] h = cc
  keys-assign k v w ((j, u) ∷ d) h = ground (arith, eq_iff j k, keys-assign k v w d)

  pub keys-delete_first :
      (k : String) (ks : List String) (d : Dict V) → keys d ≡ k ∷ ks → keys (delete k d) ≡ ks
  unfolding delete
  keys-delete_first k ks [] h = cc
  keys-delete_first k ks ((j, w) ∷ d) h = ground (arith, eq_iff j k)

  pub lookup-first :
      (k : String) (ks : List String) (d : Dict V)
      → keys d ≡ k ∷ ks
      → (v : V) × (lookup k d ≡ some v)
  unfolding lookup
  lookup-first k ks [] h = cc
  lookup-first k ks ((j, w) ∷ d) h = (w, ground (arith, eq_iff j k))

module _ {V : Type 0} where
  -- `{key(item): item for item in items}`, put into a dict
  unfoldable pub index_from : (V → String) → Dict V → List V → Dict V
  unfolding assign
  index_from key d [] = d
  index_from key d (x ∷ xs) = index_from key (assign (key x) x d) xs

  some_injective : {a b : V} → some a ≡ some b → a ≡ b
  some_injective h = cc

  -- What is found was there, or is an item with the key.
  pub lookup-index_from :
      (key : V → String) (k : String) (d : Dict V) (items : List V) (item : V)
      → lookup k (index_from key d items) ≡ some item
      → (lookup k d ≡ some item) ⊎ Any (λ x. (x ≡ item) × (key x ≡ k)) items
  unfolding index_from
  lookup-index_from key k d [] item e = inl e
  lookup-index_from key k d (x ∷ xs) item e =
      elim (lookup-index_from key k (assign (key x) x d) xs item e) [
        | inr later ↦ inr (inr later)
        | inl now ↦
            let put = sym (lookup-assign (key x) k x d) ∙ now in
            elim (Bool-cases (key x == k)) [
              | inl same ↦ inr (
                  inl (
                    some_injective (sym (ap (λ b. if b then some x else lookup k d) same) ∙ put),
                    (eq_iff (key x) k).0 same,
                  ))
              | inr other ↦ inl (sym (ap (λ b. if b then some x else lookup k d) other) ∙ put)
            ]
      ]
