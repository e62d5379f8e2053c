-- ===== src/Schema/Unfolding.antt =====
-- pkg/apiserver/schema/unfold.go, with the two patterns for a value that is an integer or a string,
-- of validation.go.
pub mod Unfolded
pub mod Tests
use apiextensions_apiserver.Crd.Helpers.{is_set}
use apiextensions_apiserver.Prelude.{
  is_empty, some, ◌&&◌, [], true, not, none, false, ◌==◌, ◌||◌, Bool, String, if◌then◌else◌, Option,
}
use apiextensions_apiserver.Schema.Structural.{
  no_limits, no_validation, nil, to, no_extensions, no_generic, no_nested_properties, nil_nested,
  to_nested, nested_property, no_nested, more_nested, value_validation, nested, Generic, Extensions,
  NestedProperties, ValueLimits, NestedValueValidation, ValueValidation, NestedList, NestedRef, Ref,
}
use apiextensions_apiserver.Schema.Json.{Json, null}
use apiextensions_apiserver.Schema.Visitor.{Callback, Visited, visit_structural}

-- NestedValueValidation{ForbiddenGenerics: Generic{Type: type}}
abbrev pub of_type : String → NestedValueValidation
of_type type =
    nested no_validation (record { x_validations = [] }) nil_nested no_nested_properties nil_nested
      (record no_generic { type = type }) no_extensions

-- intOrStringAnyOf
abbrev pub int_or_string_any_of : NestedList
int_or_string_any_of = more_nested (of_type "integer") (more_nested (of_type "string") no_nested)

abbrev pub is_nil_json : Json → Bool
is_nil_json null = true
is_nil_json _ = false

abbrev pub is_no_limits : ValueLimits → Bool
is_no_limits l =
    l.format == ""
    && not (is_set l.maximum)
    && not l.exclusive_maximum
    && not (is_set l.minimum)
    && not l.exclusive_minimum
    && not (is_set l.max_length)
    && not (is_set l.min_length)
    && l.pattern_ == ""
    && not (is_set l.max_items)
    && not (is_set l.min_items)
    && not l.unique_items
    && not (is_set l.multiple_of)
    && is_empty l.enum
    && not (is_set l.max_properties)
    && not (is_set l.min_properties)
    && is_empty l.required

abbrev pub is_no_nested : NestedList → Bool
is_no_nested no_nested = true
is_no_nested (more_nested v vs) = false

abbrev pub is_nil_nested : NestedRef → Bool
is_nil_nested nil_nested = true
is_nil_nested (to_nested v) = false

abbrev pub has_no_properties : NestedProperties → Bool
has_no_properties no_nested_properties = true
has_no_properties (nested_property k v ps) = false

-- The tests that reflect.DeepEqual makes when the other value has only its type.
abbrev pub is_no_validation : ValueValidation → Bool
is_no_validation (value_validation limits all_of one_of any_of not_) =
    is_no_limits limits
    && is_no_nested all_of
    && is_no_nested one_of
    && is_no_nested any_of
    && is_nil_nested not_

abbrev pub is_generic_of_type : String → Generic → Bool
is_generic_of_type type g =
    g.description == ""
    && g.type == type
    && g.title == ""
    && is_nil_json g.default
    && not g.nullable

abbrev pub is_no_extensions : Extensions → Bool
is_no_extensions x =
    not x.x_preserve_unknown_fields
    && not x.x_embedded_resource
    && not x.x_int_or_string
    && is_empty x.x_list_map_keys
    && not (is_set x.x_list_type)
    && not (is_set x.x_map_type)

abbrev pub is_of_type : String → NestedValueValidation → Bool
is_of_type type (nested v rules is ps additional g x) =
    is_no_validation v
    && is_empty rules.x_validations
    && is_nil_nested is
    && has_no_properties ps
    && is_nil_nested additional
    && is_generic_of_type type g
    && is_no_extensions x

-- reflect.DeepEqual(any_of, intOrStringAnyOf)
unfoldable pub is_int_or_string : NestedList → Bool
is_int_or_string no_nested = false
is_int_or_string (more_nested v no_nested) = false
is_int_or_string (more_nested v (more_nested w no_nested)) =
    is_of_type "integer" v && is_of_type "string" w
is_int_or_string (more_nested v (more_nested w (more_nested u vs))) = false

unfoldable pub is_int_or_string_any_of_pattern : Option ValueValidation → Bool
unfolding is_int_or_string
is_int_or_string_any_of_pattern none = false
is_int_or_string_any_of_pattern (some (value_validation limits all_of one_of any_of not_)) =
    is_int_or_string any_of

abbrev pub any_of_nested : NestedValueValidation → NestedList
any_of_nested (nested (value_validation l as_ os ys n) rules is ps additional g x) = ys

unfoldable pub is_int_or_string_all_of_pattern : Option ValueValidation → Bool
unfolding is_int_or_string
is_int_or_string_all_of_pattern none = false
is_int_or_string_all_of_pattern (some (value_validation l no_nested os ys n)) = false
is_int_or_string_all_of_pattern (some (value_validation l (more_nested v vs) os ys n)) =
    is_int_or_string (any_of_nested v)

abbrev pub all_of_int_or_string : NestedValueValidation
all_of_int_or_string =
    nested (value_validation no_limits no_nested no_nested int_or_string_any_of nil_nested)
      (record { x_validations = [] }) nil_nested no_nested_properties nil_nested no_generic
      no_extensions

-- The pattern goes to anyOf where that is free, and before the validations of allOf where not.
unfoldable pub with_pattern : Option ValueValidation → ValueValidation
with_pattern none = value_validation no_limits no_nested no_nested int_or_string_any_of nil_nested
with_pattern (some (value_validation l vs os no_nested n)) =
    value_validation l vs os int_or_string_any_of n
with_pattern (some (value_validation l vs os (more_nested w ws) n)) =
    value_validation l (more_nested all_of_int_or_string vs) os (more_nested w ws) n

abbrev pub has_pattern : Option ValueValidation → Bool
has_pattern vv = is_int_or_string_any_of_pattern vv || is_int_or_string_all_of_pattern vv

-- The callback of Unfold.
unfoldable pub unfold_node : Callback
unfolding is_int_or_string_any_of_pattern is_int_or_string_all_of_pattern with_pattern
unfold_node g x vv =
    if not x.x_int_or_string
    then record { generic_fields = g; validation = vv; changed = false }
    else if has_pattern vv
    then record { generic_fields = g; validation = vv; changed = false }
    else record { generic_fields = g; validation = some (with_pattern vv); changed = true }

unfoldable pub unfold_schema : Ref → Ref
unfolding visit_structural unfold_node
unfold_schema nil = nil
unfold_schema (to s) = to (visit_structural unfold_node s).0
