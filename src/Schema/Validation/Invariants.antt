-- ===== src/Schema/Validation/Invariants.antt =====
-- pkg/apiserver/schema/validation.go: the invariants of the skeleton of a schema, and
-- ValidateStructural.
use apiextensions_apiserver.Schema.Validation.Checks.{
  is_root, is_nil_ref, validate_extensions, resource_errors,
}
use apiextensions_apiserver.Schema.Unfolding.{
  is_int_or_string_all_of_pattern, is_int_or_string_any_of_pattern,
}
use apiextensions_apiserver.Schema.ListType.{at_child, at_key, FieldPath}
use apiextensions_apiserver.Schema.Completeness.{
  validate_structural_completeness, ValidationOptions,
}
use apiextensions_apiserver.Schema.Validation.{
  incomplete, needed, forbidden, field_level, report, item_level, validate_optional_validation,
  root_level, Level, Violation,
}
use apiextensions_apiserver.Prelude.{
  ◌==◌, map, ◌++◌, [], if◌then◌else◌, false, ◌∷◌, ◌&&◌, List, true, Option, Bool,
}
use Prim.Native.String
use Prim.Native.Nat.{Ordering}
use Prim.Native.String.{String}
use apiextensions_apiserver.Schema.Structural.{
  no_properties, unset, nil, structural_or_bool, property, structural, Ref, Structural, Properties,
  StructuralOrBool, to,
}

module _ (compile : String → Option String) (opts : ValidationOptions) where
  unfoldable mutual
    unfolding resource_errors validate_extensions validate_optional_validation
        is_int_or_string_any_of_pattern is_int_or_string_all_of_pattern

    pub validate_node : Structural → Level → FieldPath → List Violation
    validate_node (structural i ps additional g x vx vv) lvl path =
        report (g.type == "array" && is_nil_ref i)
          (needed (at_child "items" ∷ path) "must be specified")
        ++ validate_structural_invariants i item_level (at_child "items" ∷ path)
        ++ validate_properties ps (at_child "properties" ∷ path)
        ++ validate_additional additional lvl (at_child "additionalProperties" ∷ path)
        ++ validate_extensions x path
        ++ validate_optional_validation compile vv (is_int_or_string_any_of_pattern vv)
            (is_int_or_string_all_of_pattern vv) path opts
        ++ resource_errors ps additional g x lvl path

    pub validate_structural_invariants : Ref → Level → FieldPath → List Violation
    validate_structural_invariants nil lvl path = []
    validate_structural_invariants (to s) lvl path = validate_node s lvl path

    pub validate_properties : Properties → FieldPath → List Violation
    validate_properties no_properties path = []
    validate_properties (property k s ps) path =
        validate_node s field_level (at_key k ∷ path) ++ validate_properties ps path

    pub validate_additional : StructuralOrBool → Level → FieldPath → List Violation
    validate_additional unset lvl path = []
    validate_additional (structural_or_bool s b) lvl path =
        report (is_root lvl) (forbidden path "must not be used at the root")
        ++ validate_structural_invariants s field_level path

  -- The errors before they are sorted by their texts.
  unfoldable pub validate_structural_unsorted : Ref → FieldPath → List Violation
  unfolding validate_structural_invariants validate_structural_completeness
  validate_structural_unsorted s path =
      validate_structural_invariants s root_level path
      ++ map incomplete (validate_structural_completeness opts s path)

-- `s <= t`
abbrev at_most : String → String → Bool
at_most s t = elim (String.compare s t) [ Ordering.gt ↦ false | _ ↦ true ]

-- `sort.Slice` by `text`, which is Error()
unfoldable pub insert_by : (Violation → String) → Violation → List Violation → List Violation
insert_by text err [] = err ∷ []
insert_by text err (e ∷ errs) =
    let rest = insert_by text err errs in
    if at_most (text err) (text e) then err ∷ e ∷ errs else e ∷ rest

unfoldable pub sort_by : (Violation → String) → List Violation → List Violation
unfolding insert_by
sort_by text [] = []
sort_by text (e ∷ errs) = insert_by text e (sort_by text errs)

unfoldable pub validate_structural_with_options :
    (compile : String → Option String) (text : Violation → String)
    → FieldPath
    → Ref
    → ValidationOptions
    → List Violation
unfolding validate_structural_unsorted sort_by
validate_structural_with_options compile text path s opts =
    sort_by text (validate_structural_unsorted compile opts s path)

-- The options of ValidateStructural.
abbrev pub only_plain : ValidationOptions
only_plain = record {
  allow_nested_additional_properties = false;
  allow_nested_x_validations = false;
  allow_validation_properties_with_additional_properties = false;
}

unfoldable pub validate_structural :
    (compile : String → Option String) (text : Violation → String)
    → FieldPath
    → Ref
    → List Violation
unfolding validate_structural_with_options
validate_structural compile text path s =
    validate_structural_with_options compile text path s only_plain
