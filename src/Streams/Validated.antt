-- ===== src/Streams/Validated.antt =====
-- What a policy that `_validate_policy` of streams/service.py accepts is good for.
use rfi.Common.{
  ℕ, ◌+◌, String, ◌≡◌, refl, true, none, some, List, [], ◌++◌, ◌==◌, is_some, if◌then◌else◌,
}
use rfi.Common.Text.{join}
use rfi.Streams.Policy.{
  Node, all, any, negation, leaf, not_an_object, Group, not_a_list, items, Nodes, end, next,
  SchemaCapability, Complaint, PolicyError, complain, or_empty, check_operator, check_value,
  is_object, item_path, validate_policy, validate_group, validate_nodes,
}
use rfi.Streams.Match.{ArtifactProjection, matches, matches_all, matches_any}
use rfi.Streams.Checks.{
  both_empty, complained, not_complained, within, object_step, answered_not, answered_all,
  answered_any, leaf_complete, IsNamed,
}

module _ (casefold : String → String) (list_text : List String → String)
    (capability : SchemaCapability) (named : IsNamed capability) (item : ArtifactProjection) where
  mutual
    unfolding validate_policy matches

    answers :
        (x : Node) (depth count : ℕ) (path : String)
        → (validate_policy capability x depth count path).1 ≡ []
        → is_some (matches casefold list_text x item) ≡ true
    answers (all g) depth count path h =
        answers_all g depth (count + 1) path (within depth count path _ h).0
    answers (any g) depth count path h =
        answers_any g depth (count + 1) path (within depth count path _ h).0
    answers (negation x) depth count path h =
        let (object, clean) =
          object_step (is_object x)
            (validate_policy capability x (depth + 1) (count + 1) (join path ".not")) (count + 1)
            Complaint.requires_one_item (join path ".not") (within depth count path _ h).0 in
        answered_not (matches casefold list_text x item)
          (answers x (depth + 1) (count + 1) (join path ".not") clean)
    answers (leaf none field operator value) depth count path h = absurd (
        complained Complaint.unsupported_operation (join path ".op")
          (within depth count path _ h).0)
    answers (leaf (some op) field operator value) depth count path h =
        let clean =
          (not_complained Complaint.unsupported_operation (join path ".op") (op == "predicate")
            (check_operator capability (or_empty field) (or_empty operator) path
              ++ check_value (or_empty operator) value path)
            (within depth count path _ h).0).1 in
        let (fine, valued) =
          both_empty (check_operator capability (or_empty field) (or_empty operator) path)
            (check_value (or_empty operator) value path) clean in
        leaf_complete casefold list_text capability field operator value item path named fine valued
    answers not_an_object depth count path h = absurd (
        complained Complaint.unsupported_operation (join path ".op")
          (within depth count path _ h).0)

    answers_all :
        (g : Group) (depth count : ℕ) (path : String)
        → (validate_group capability "all" g depth count path).1 ≡ []
        → is_some (matches casefold list_text (all g) item) ≡ true
    answers_all not_a_list depth count path h = absurd (complained Complaint.requires_items path h)
    answers_all (items end) depth count path h = refl
    answers_all (items (next x xs)) depth count path h =
        all_nodes "all" (next x xs) 0 depth count path h

    answers_any :
        (g : Group) (depth count : ℕ) (path : String)
        → (validate_group capability "any" g depth count path).1 ≡ []
        → is_some (matches casefold list_text (any g) item) ≡ true
    answers_any not_a_list depth count path h = absurd (complained Complaint.requires_items path h)
    answers_any (items end) depth count path h = refl
    answers_any (items (next x xs)) depth count path h =
        any_nodes "any" (next x xs) 0 depth count path h

    all_nodes :
        (op : String) (xs : Nodes) (index depth count : ℕ) (path : String)
        → (validate_nodes capability op xs index depth count path).1 ≡ []
        → is_some (matches_all casefold list_text xs item) ≡ true
    all_nodes op end index depth count path h = refl
    all_nodes op (next x xs) index depth count path h =
        let here = item_path path op index in
        let checked : ℕ × List PolicyError =
          if is_object x
          then validate_policy capability x (depth + 1) count here
          else (count, complain Complaint.item_not_an_object here) in
        let (clean, later) =
          both_empty checked.1 (validate_nodes capability op xs (index + 1) depth checked.0 path).1
            h in
        let (object, own) =
          object_step (is_object x) (validate_policy capability x (depth + 1) count here) count
            Complaint.item_not_an_object here clean in
        answered_all (matches casefold list_text x item) (matches_all casefold list_text xs item)
          (answers x (depth + 1) count here own)
          (all_nodes op xs (index + 1) depth checked.0 path later)

    any_nodes :
        (op : String) (xs : Nodes) (index depth count : ℕ) (path : String)
        → (validate_nodes capability op xs index depth count path).1 ≡ []
        → is_some (matches_any casefold list_text xs item) ≡ true
    any_nodes op end index depth count path h = refl
    any_nodes op (next x xs) index depth count path h =
        let here = item_path path op index in
        let checked : ℕ × List PolicyError =
          if is_object x
          then validate_policy capability x (depth + 1) count here
          else (count, complain Complaint.item_not_an_object here) in
        let (clean, later) =
          both_empty checked.1 (validate_nodes capability op xs (index + 1) depth checked.0 path).1
            h in
        let (object, own) =
          object_step (is_object x) (validate_policy capability x (depth + 1) count here) count
            Complaint.item_not_an_object here clean in
        answered_any (matches casefold list_text x item) (matches_any casefold list_text xs item)
          (answers x (depth + 1) count here own)
          (any_nodes op xs (index + 1) depth checked.0 path later)

  -- A policy that `_validate_policy` accepts can be matched: `_matches` answers for every projection
  -- and raises nothing, if no field and no operator of the schema has the empty name.
  pub matches-validated :
      (policy : Node)
      → (validate_policy capability policy 0 0 "$.stream.selection").1 ≡ []
      → is_some (matches casefold list_text policy item) ≡ true
  matches-validated policy h = answers policy 0 0 "$.stream.selection" h
