-- ===== src/Schema/Unfolding/Tests.antt =====
-- Runs of Unfold of pkg/apiserver/schema/unfold.go.
use apiextensions_apiserver.Schema.Unfolding.Unfolded.{unfold_schema-IsRefUnfolded, IsRefUnfolded}
use apiextensions_apiserver.Schema.Unfolding.{
  all_of_int_or_string, of_type, int_or_string_any_of, is_int_or_string_any_of_pattern,
  unfold_schema,
}
use apiextensions_apiserver.Schema.Structural.{
  to, no_extensions, no_generic, nil_nested, unset, no_nested, no_properties, property, more_nested,
  nil, no_limits, value_validation, structural, ValueValidation, Ref, NestedList, Structural,
}
use apiextensions_apiserver.Prelude.{true, [], some, none, Option, ◌≡◌, refl}

abbrev int_or_string : Option ValueValidation → Structural
int_or_string vv =
    structural nil no_properties unset no_generic (record no_extensions { x_int_or_string = true })
      (record { x_validations = [] }) vv

abbrev with_any_of : NestedList → ValueValidation
with_any_of ys = value_validation no_limits no_nested no_nested ys nil_nested

abbrev object_of : Structural → Ref
object_of s = to (
    structural nil (property "port" s no_properties) unset no_generic no_extensions
      (record { x_validations = [] }) none)

any_of_is_free :
    unfold_schema (object_of (int_or_string none))
    ≡ object_of (int_or_string (some (with_any_of int_or_string_any_of)))
unfolding unfold_schema
any_of_is_free = refl

any_of_is_taken :
    unfold_schema
      (object_of (int_or_string (some (with_any_of (more_nested (of_type "integer") no_nested)))))
    ≡ object_of (
        int_or_string (
          some (
            value_validation no_limits
              (more_nested all_of_int_or_string no_nested)
              no_nested
              (more_nested (of_type "integer") no_nested)
              nil_nested)))
unfolding unfold_schema is_int_or_string_any_of_pattern
any_of_is_taken = refl

unfold_schema-IsRefUnfolded_example :
    IsRefUnfolded (unfold_schema (object_of (int_or_string none)))
    × (unfold_schema (unfold_schema (object_of (int_or_string none)))
        ≡ unfold_schema (object_of (int_or_string none)))
unfold_schema-IsRefUnfolded_example = unfold_schema-IsRefUnfolded (object_of (int_or_string none))
