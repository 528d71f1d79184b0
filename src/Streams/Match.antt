-- ===== src/Streams/Match.antt =====
-- `_matches` of streams/service.py: whether a projection is selected by a policy. `casefold` is
-- `str.casefold` and `list_text` is `str` of a list of texts.
use Prim.Native.Nat.{Ordering}
use Prim.Native.String.{compare, count}
use rfi.Common.{
  ℕ, zero, suc, String, Bool, true, false, Option, none, some, List, [], ◌∷◌, ◌==◌, ◌&&◌, not, eqb,
  if◌then◌else◌,
}
use rfi.Common.Lists.{mem}
use rfi.Common.Assoc.{Dict, lookup}
use rfi.Common.Text.{contains}
use rfi.Streams.Policy.{
  Value, one, many, Node, all, any, negation, leaf, not_an_object, not_a_list, items, Nodes, end,
  next, or_empty, after_colon,
}

pub record ArtifactProjection : Type 0 where
  pub artifact_id : String
  pub document_id : String
  pub schema_id : String
  pub source_id : String
  pub effective_at : Option String
  pub title : String
  pub searchable_text : String
  pub authors : List String
  pub attributes : Dict Value
  pub context_id : Option String
  pub context_depth : Option ℕ
  pub completeness : Option String

-- `actual`
unfoldable pub actual_of : String → ArtifactProjection → Value
unfolding after_colon lookup
actual_of field item =
    if field == "schema"
    then one item.schema_id
    else if field == "source"
    then one item.source_id
    else if field == "title"
    then one item.title
    else if field == "text"
    then one item.searchable_text
    else if field == "authors"
    then many item.authors
    else if field == "effective_at"
    then one (or_empty item.effective_at)
    else if field == "completeness"
    then one (or_empty item.completeness)
    else elim (lookup (after_colon field) item.attributes) [ none ↦ one "" | some v ↦ v ]

-- `text[:n]`
unfoldable pub take_text : ℕ → String → String
take_text zero s = String.[]
take_text (suc n) String.[] = String.[]
take_text (suc n) (String.◌∷◌ c s) = String.◌∷◌ c (take_text n s)

-- the characters of a text, over which a set comprehension goes
unfoldable pub characters : String → List String
characters String.[] = []
characters (String.◌∷◌ c s) = String.◌∷◌ c String.[] ∷ characters s

unfoldable pub any_contains : String → List String → Bool
any_contains needle [] = false
any_contains needle (v ∷ vs) =
    let rest = any_contains needle vs in if contains needle v then true else rest

unfoldable pub any_in : List String → List String → Bool
any_in accepted [] = false
any_in accepted (v ∷ vs) = let rest = any_in accepted vs in if mem v accepted then true else rest

abbrev pub is_at_most : String → String → Bool
is_at_most a b = elim (compare a b) [
  | Ordering.lt ↦ true
  | Ordering.eq ↦ true
  | Ordering.gt ↦ false
]

module _ (casefold : String → String) (list_text : List String → String) where
  unfoldable pub fold_all : List String → List String
  fold_all [] = []
  fold_all (v ∷ vs) = casefold v ∷ fold_all vs

  -- `values` and `scalar`
  unfoldable pub values_of : Value → List String
  unfolding fold_all
  values_of (one s) = []
  values_of (many vs) = fold_all vs

  unfoldable pub scalar_of : Value → String
  scalar_of (one s) = casefold s
  scalar_of (many vs) = ""

  -- `str(expected).casefold()`
  unfoldable pub needle_of : Value → String
  needle_of (one s) = casefold s
  needle_of (many vs) = casefold (list_text vs)

  unfoldable pub accepted_of : Value → List String
  unfolding fold_all characters
  accepted_of (one s) = fold_all (characters s)
  accepted_of (many vs) = fold_all vs

  -- `comparable`
  unfoldable pub comparable_of : String → String → String → String
  unfolding take_text
  comparable_of field target scalar =
      if (field == "effective_at") && eqb (count target) 10 then take_text 10 scalar else scalar

  -- the tests by operator
  unfoldable pub test : String → String → Value → ArtifactProjection → Bool
  unfolding actual_of values_of scalar_of needle_of accepted_of comparable_of any_contains any_in
  test field operator expected item =
      let actual = actual_of field item in
      let values = values_of actual in
      let scalar = scalar_of actual in
      let needle = needle_of expected in
      if operator == "contains"
      then elim values [ [] ↦ contains needle scalar | v ∷ vs ↦ any_contains needle (v ∷ vs) ]
      else if operator == "equals"
      then elim values [ [] ↦ scalar == needle | v ∷ vs ↦ mem needle (v ∷ vs) ]
      else if operator == "in"
      then elim values [
        | [] ↦ mem scalar (accepted_of expected)
        | v ∷ vs ↦ any_in (accepted_of expected) (v ∷ vs)
      ]
      else if operator == "after_or_on"
      then is_at_most needle (comparable_of field needle scalar)
      else if operator == "before_or_on"
      then is_at_most (comparable_of field needle scalar) needle
      else false

  -- the part of `_matches` for a predicate; none for the exception where a key is missing
  unfoldable pub match_leaf :
      Option String → Option String → Option Value → ArtifactProjection → Option Bool
  unfolding test
  match_leaf (some field) (some operator) (some expected) item =
      some (test field operator expected item)
  match_leaf _ _ _ item = none

  unfoldable mutual
    unfolding match_leaf

    -- `_matches`; none where it raises
    pub matches : Node → ArtifactProjection → Option Bool
    matches (all not_a_list) item = none
    matches (all (items xs)) item = matches_all xs item
    matches (any not_a_list) item = none
    matches (any (items xs)) item = matches_any xs item
    matches (negation x) item = elim (matches x item) [ none ↦ none | some b ↦ some (not b) ]
    matches (leaf none field operator value) item = none
    matches (leaf (some op) field operator value) item = match_leaf field operator value item
    matches not_an_object item = none

    -- `all` and `any` over the items: they stop where the answer is known
    pub matches_all : Nodes → ArtifactProjection → Option Bool
    matches_all end item = some true
    matches_all (next x xs) item = elim (matches x item) [
      | none ↦ none
      | some b ↦ if b then matches_all xs item else some false
    ]

    pub matches_any : Nodes → ArtifactProjection → Option Bool
    matches_any end item = some false
    matches_any (next x xs) item = elim (matches x item) [
      | none ↦ none
      | some b ↦ if b then some true else matches_any xs item
    ]
