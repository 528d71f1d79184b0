-- ===== src/Streams/Policy.antt =====
-- The selection policies of streams/service.py: `_validate_policy` and `_matches`. A value is a text
-- or a list of texts; `casefold` is `str.casefold` and `list_text` is `str` of a list.
use Prim.Native.String.{count}
use Prim.Native.Char.{code}
use text.Mathlib.Text.{starts_with}
use rfi.Common.{
  ℕ, ◌+◌, String, Bool, true, false, Option, none, some, List, [], ◌∷◌, ◌++◌, ◌==◌, ◌||◌, ◌&&◌, not,
  ltb, eqb, if◌then◌else◌,
}
use rfi.Common.Lists.{length, mem}
use rfi.Common.Assoc.{Dict, lookup}
use rfi.Common.Text.{strip, join, decimal}

pub data Value : Type 0 where
  one : String → Value
  many : List String → Value

-- A node of a policy as the draft has it: an object with a Boolean operation, an object with any
-- other `op` or without one, or no object. What is missing is none.
mutual
  pub data Node : Type 0 where
    all any : Group → Node
    negation : Node → Node
    leaf : (op field operator : Option String) (value : Option Value) → Node
    not_an_object : Node

  -- `items`
  pub data Group : Type 0 where
    not_a_list : Group
    items : Nodes → Group

  pub data Nodes : Type 0 where
    end : Nodes
    next : Node → Nodes → Nodes

pub record AttributeCapability : Type 0 where
  pub attribute_id : String
  pub operators : List String

pub record SchemaCapability : Type 0 where
  pub fields : Dict (List String)
  pub attributes : List AttributeCapability

-- What an entry of `errors` says of its path.
pub data Complaint : Type 0 where
  policy_limit requires_items item_not_an_object requires_one_item unsupported_operation : Complaint
  unsupported_predicate unsupported_operator value_count value_required : Complaint

pub record PolicyError : Type 0 where
  pub complaint : Complaint
  pub path : String

abbrev pub complain : Complaint → String → List PolicyError
complain c path = record { complaint = c; path = path } ∷ []

abbrev pub or_empty : Option String → String
or_empty none = ""
or_empty (some s) = s

-- `field.partition(":")[2]`
unfoldable pub after_colon : String → String
after_colon String.[] = String.[]
after_colon (String.◌∷◌ c s) = let rest = after_colon s in if eqb (code c) 58 then s else rest

unfoldable pub attribute_operators : String → List AttributeCapability → Option (List String)
attribute_operators k [] = none
attribute_operators k (a ∷ rest) =
    if a.attribute_id == k then some a.operators else attribute_operators k rest

-- `supported`
unfoldable pub supported_operators : SchemaCapability → String → Option (List String)
unfolding after_colon attribute_operators lookup
supported_operators capability field =
    if starts_with field "attribute:"
    then attribute_operators (after_colon field) capability.attributes
    else lookup field capability.fields

unfoldable pub check_operator : SchemaCapability → String → String → String → List PolicyError
unfolding supported_operators join
check_operator capability field operator path = elim (supported_operators capability field) [
  | none ↦ complain Complaint.unsupported_predicate (join path ".field")
  | some operators ↦
      if mem operator operators
      then []
      else complain Complaint.unsupported_operator (join path ".operator")
]

abbrev pub is_list_of_values : Option Value → Bool
is_list_of_values (some (many vs)) = ltb 0 (length vs) && not (ltb 50 (length vs))
is_list_of_values _ = false

abbrev pub is_filled_text : Option Value → Bool
is_filled_text (some (one s)) = not (strip s == "")
is_filled_text _ = false

unfoldable pub check_value : String → Option Value → String → List PolicyError
unfolding join
check_value operator value path =
    if operator == "in"
    then (if is_list_of_values value
        then []
        else complain Complaint.value_count (join path ".values"))
    else (if is_filled_text value
        then []
        else complain Complaint.value_required (join path ".value"))

abbrev pub is_predicate : Option String → Bool
is_predicate none = false
is_predicate (some op) = op == "predicate"

abbrev pub is_object : Node → Bool
is_object not_an_object = false
is_object _ = true

-- `count[0] > 50 or depth > 5`, after the count
abbrev pub within_limits : ℕ → ℕ → String → ℕ × List PolicyError → ℕ × List PolicyError
within_limits depth count path inner =
    if ltb 50 (count + 1) || ltb 5 depth
    then (count + 1, complain Complaint.policy_limit path)
    else inner

-- `f"{path}.{op}[{index}]"`
unfoldable pub item_path : String → String → ℕ → String
unfolding join decimal
item_path path op index = join path (join "." (join op (join "[" (join (decimal index) "]"))))

unfoldable mutual
  unfolding check_operator check_value item_path join

  -- `_validate_policy`, from the count before: the count and the errors behind it
  pub validate_policy : SchemaCapability → Node → ℕ → ℕ → String → ℕ × List PolicyError
  validate_policy capability (all g) depth count path =
      within_limits depth count path (validate_group capability "all" g depth (count + 1) path)
  validate_policy capability (any g) depth count path =
      within_limits depth count path (validate_group capability "any" g depth (count + 1) path)
  validate_policy capability (negation item) depth count path = within_limits depth count path (
      if is_object item
      then validate_policy capability item (depth + 1) (count + 1) (join path ".not")
      else (count + 1, complain Complaint.requires_one_item (join path ".not")))
  validate_policy capability (leaf op field operator value) depth count path =
      within_limits depth count path (
        count + 1,
        if is_predicate op
            then check_operator capability (or_empty field) (or_empty operator) path
              ++ check_value (or_empty operator) value path
            else complain Complaint.unsupported_operation (join path ".op"),
      )
  validate_policy capability not_an_object depth count path =
      within_limits depth count path
        (count + 1, complain Complaint.unsupported_operation (join path ".op"))

  pub validate_group : SchemaCapability → String → Group → ℕ → ℕ → String → ℕ × List PolicyError
  validate_group capability op not_a_list depth count path =
      (count, complain Complaint.requires_items path)
  validate_group capability op (items end) depth count path =
      (count, complain Complaint.requires_items path)
  validate_group capability op (items (next x xs)) depth count path =
      validate_nodes capability op (next x xs) 0 depth count path

  -- the loop over the items
  pub validate_nodes : SchemaCapability → String → Nodes → ℕ → ℕ → ℕ → String → ℕ × List PolicyError
  validate_nodes capability op end index depth count path = (count, [])
  validate_nodes capability op (next x xs) index depth count path =
      let (count1, errors) =
        if is_object x
        then validate_policy capability x (depth + 1) count (item_path path op index)
        else (count, complain Complaint.item_not_an_object (item_path path op index)) in
      let (count2, later) = validate_nodes capability op xs (index + 1) depth count1 path in
      (count2, errors ++ later)
