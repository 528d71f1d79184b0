-- ===== src/Streams/Checks.antt =====
-- What an empty list of errors says of the checks of `_validate_policy` in streams/service.py.
use rfi.Common.{
  ℕ, ◌+◌, ◌≤◌, String, ◌≡◌, ◌≢◌, refl, sym, ◌∙◌, Bool, true, false, Option, none, some, List, [],
  ◌∷◌, ◌++◌, ◌==◌, ◌||◌, arith, is_some, not, ltb, if◌then◌else◌, Bool-cases, Option-cases, inl,
  inr,
}
use rfi.Common.Lists.{mem}
use rfi.Common.Text.{join}
use rfi.Streams.Policy.{
  Value, SchemaCapability, Complaint, PolicyError, complain, or_empty, supported_operators,
  check_operator, check_value, within_limits,
}
use rfi.Streams.Match.{ArtifactProjection, match_leaf}

pub both_empty {ℓ} : {A : Type ℓ} (xs ys : List A) → xs ++ ys ≡ [] → (xs ≡ []) × (ys ≡ [])
both_empty [] ys h = (refl, h)
both_empty (x ∷ xs) ys h = cc

pub complained : (c : Complaint) (path : String) → complain c path ≢ []
complained c path e = cc

none_not_some {ℓ} : {A : Type ℓ} (a : A) → none ≢ some a
none_not_some a e = cc

false_not_true : false ≢ true
false_not_true e = cc

pub not_complained :
    (c : Complaint) (path : String) (b : Bool) (rest : List PolicyError)
    → (if b then rest else complain c path) ≡ []
    → (b ≡ true) × (rest ≡ [])
not_complained c path true rest h = (refl, h)
not_complained c path false rest h = absurd (complained c path h)

limit_step :
    (b : Bool) (n : ℕ) (path : String) (inner : ℕ × List PolicyError)
    → (if b then (n, complain Complaint.policy_limit path) else inner).1 ≡ []
    → (b ≡ false)
      × (inner.1 ≡ [])
      × ((if b then (n, complain Complaint.policy_limit path) else inner) ≡ inner)
limit_step true n path inner h = absurd (complained Complaint.policy_limit path h)
limit_step false n path inner h = (refl, h, refl)

pub within :
    (depth count : ℕ) (path : String) (inner : ℕ × List PolicyError)
    → (within_limits depth count path inner).1 ≡ []
    → (inner.1 ≡ [])
      × (count + 1 ≤ 50)
      × (depth ≤ 5)
      × (within_limits depth count path inner ≡ inner)
within depth count path inner h =
    let (fits, empty, same) =
      limit_step (ltb 50 (count + 1) || ltb 5 depth) (count + 1) path inner h in
    (empty, ground (arith, fits), ground (arith, fits), same)

check_operator_lem :
    (capability : SchemaCapability) (field operator path : String)
    → check_operator capability field operator path ≡ []
    → (ops : List String) × (supported_operators capability field ≡ some ops)
      × (mem operator ops ≡ true)
unfolding check_operator
check_operator_lem capability field operator path h =
    elim (Option-cases (supported_operators capability field)) [
      | inl missing ↦ absurd (
          complained Complaint.unsupported_predicate (join path ".field")
            (sym (rw (missing, check_operator) refl) ∙ h))
      | inr (ops, there) ↦
          let tested : (if mem operator ops
                then []
                else complain Complaint.unsupported_operator (join path ".operator"))
              ≡ [] =
            sym (rw (there, check_operator) refl) ∙ h in
          (
            ops,
            there,
            (not_complained Complaint.unsupported_operator (join path ".operator")
                (mem operator ops) [] tested).0,
          )
    ]

no_value : (operator path : String) → check_value operator none path ≢ []
unfolding check_value
no_value operator path h = elim (Bool-cases (operator == "in")) [
  | inl e ↦
      complained Complaint.value_count (join path ".values") (sym (rw (e, check_value) refl) ∙ h)
  | inr e ↦
      complained Complaint.value_required (join path ".value") (sym (rw (e, check_value) refl) ∙ h)
]

pub object_step :
    (b : Bool) (r : ℕ × List PolicyError) (n : ℕ) (c : Complaint) (path : String)
    → (if b then r else (n, complain c path)).1 ≡ []
    → (b ≡ true) × (r.1 ≡ [])
object_step true r n c path h = (refl, h)
object_step false r n c path h = absurd (complained c path h)

pub answered_not :
    (m : Option Bool)
    → is_some m ≡ true
    → is_some (elim m as (λ x. Option Bool) [ none ↦ none | some b ↦ some (not b) ]) ≡ true
answered_not none h = h
answered_not (some b) h = refl

pub answered_all :
    (m rest : Option Bool)
    → is_some m ≡ true
    → is_some rest ≡ true
    → is_some
        (elim m as (λ x. Option Bool) [ none ↦ none | some b ↦ if b then rest else some false ])
      ≡ true
answered_all none rest h k = h
answered_all (some true) rest h k = k
answered_all (some false) rest h k = refl

pub answered_any :
    (m rest : Option Bool)
    → is_some m ≡ true
    → is_some rest ≡ true
    → is_some
        (elim m as (λ x. Option Bool) [ none ↦ none | some b ↦ if b then some true else rest ])
      ≡ true
answered_any none rest h k = h
answered_any (some true) rest h k = refl
answered_any (some false) rest h k = k

-- No operator of the capability has the empty name, and neither has a field.
pub record IsNamed (capability : SchemaCapability) : Type 0 where
  pub fields : supported_operators capability "" ≡ none
  pub operators :
      (field : String) (ops : List String)
      → supported_operators capability field ≡ some ops
      → mem "" ops ≡ false

pub leaf_complete :
    (casefold : String → String) (list_text : List String → String) (capability : SchemaCapability)
    (field operator : Option String) (value : Option Value) (item : ArtifactProjection)
    (path : String)
    → IsNamed capability
    → check_operator capability (or_empty field) (or_empty operator) path ≡ []
    → check_value (or_empty operator) value path ≡ []
    → is_some (match_leaf casefold list_text field operator value item) ≡ true
unfolding match_leaf
leaf_complete casefold list_text capability none operator value item path named h k =
    let (ops, there, listed) = check_operator_lem capability "" (or_empty operator) path h in
    absurd (none_not_some ops (sym named.fields ∙ there))
leaf_complete casefold list_text capability (some f) none value item path named h k =
    let (ops, there, listed) = check_operator_lem capability f "" path h in
    absurd (false_not_true (sym (named.operators f ops there) ∙ listed))
leaf_complete casefold list_text capability (some f) (some o) none item path named h k =
    absurd (no_value o path k)
leaf_complete casefold list_text capability (some f) (some o) (some v) item path named h k = refl
