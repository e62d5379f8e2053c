-- ===== src/Schema/Validation/Checks.antt =====
-- pkg/apiserver/schema/validation.go: the checks of one node of a schema.
use apiextensions_apiserver.Schema.Json.{str, bool}
use apiextensions_apiserver.Schema.Unfolding.{is_no_extensions, is_no_validation}
use apiextensions_apiserver.Schema.ListType.{at_child, at_key, FieldPath}
use apiextensions_apiserver.Crd.Helpers.{is_set}
use apiextensions_apiserver.Schema.Validation.{
  needed, forbidden, field_level, bad, report, item_level, root_level, Level, Violation,
}
use apiextensions_apiserver.Prelude.{
  is_empty, none, ◌==◌, ◌++◌, nat_eq, not, suc, [], if◌then◌else◌, ◌||◌, false, ◌∷◌, ◌&&◌, some,
  List, true, ℕ, Option, Bool,
}
use Prim.Native.String.{String}
use apiextensions_apiserver.Schema.Structural.{
  no_properties, unset, nil, structural_or_bool, property, structural, generic, ValueValidation,
  lookup, Ref, Extensions, Generic, Structural, Properties, StructuralOrBool, to,
}

abbrev pub is_root : Level → Bool
is_root root_level = true
is_root _ = false

abbrev pub type_of : Structural → String
type_of s = (generic s).type

abbrev pub is_nil_ref : Ref → Bool
is_nil_ref nil = true
is_nil_ref (to s) = false

abbrev pub is_unset : StructuralOrBool → Bool
is_unset unset = true
is_unset (structural_or_bool s b) = false

unfoldable pub len_properties : Properties → ℕ
len_properties no_properties = 0
len_properties (property k s ps) = suc (len_properties ps)

unfoldable pub validate_extensions : Extensions → FieldPath → List Violation
validate_extensions x path =
    report (x.x_int_or_string && x.x_preserve_unknown_fields) (
      bad (at_child "x-kubernetes-preserve-unknown-fields" ∷ path)
        (bool x.x_preserve_unknown_fields) "must be false if x-kubernetes-int-or-string is true")
    ++ report (x.x_int_or_string && x.x_embedded_resource) (
        bad (at_child "x-kubernetes-embedded-resource" ∷ path) (bool x.x_embedded_resource)
          "must be false if x-kubernetes-int-or-string is true")

abbrev pub is_no_value_validation : Option ValueValidation → Bool
is_no_value_validation none = true
is_no_value_validation (some v) = is_no_validation v

-- Name and generateName are dropped from metadata that has no other property.
unfoldable pub other_metadata : Properties → Properties
unfolding lookup len_properties
other_metadata ps =
    let found_name = is_set (lookup "name" ps) in
    let found_generate_name = is_set (lookup "generateName" ps) in
    if found_name && found_generate_name && nat_eq (len_properties ps) 2
    then no_properties
    else if (found_name || found_generate_name) && nat_eq (len_properties ps) 1
    then no_properties
    else ps

-- What reflect.DeepEqual finds once the type and the default are reset.
unfoldable pub is_only_names : Structural → Bool
unfolding other_metadata len_properties
is_only_names (structural i ps additional g x vx vv) =
    is_nil_ref i
    && nat_eq (len_properties (other_metadata ps)) 0
    && is_unset additional
    && g.description == ""
    && g.title == ""
    && not g.nullable
    && is_no_extensions x
    && is_empty vx.x_validations
    && is_no_value_validation vv

unfoldable pub validate_structural_metadata_invariants :
    Structural → Bool → Level → FieldPath → List Violation
unfolding is_only_names
validate_structural_metadata_invariants s check_metadata lvl path =
    report (check_metadata && not (type_of s == "object"))
      (bad (at_child "type" ∷ path) (str (type_of s)) "must be object")
    ++ report (is_root lvl && not (is_only_names s)) (
        forbidden path
          "must not specify anything other than name and generateName, but metadata is implicitly specified")

abbrev pub not_empty_where : Level → String
not_empty_where root_level = "must not be empty at the root"
not_empty_where item_level = "must not be empty for specified array items"
not_empty_where field_level = "must not be empty for specified object fields"

unfoldable pub type_errors : Generic → Extensions → Level → FieldPath → List Violation
type_errors g x lvl path =
    if x.x_embedded_resource && not (g.type == "object")
    then (if g.type == ""
        then needed (at_child "type" ∷ path)
            "must be object if x-kubernetes-embedded-resource is true"
          ∷ []
        else bad (at_child "type" ∷ path) (str g.type)
            "must be object if x-kubernetes-embedded-resource is true"
          ∷ [])
    else report (g.type == "" && not x.x_int_or_string && not x.x_preserve_unknown_fields)
        (needed (at_child "type" ∷ path) (not_empty_where lvl))

abbrev pub string_property : Bool → String → Option Structural → FieldPath → List Violation
string_property check_metadata k none path = []
string_property check_metadata k (some s) path =
    report (check_metadata && not (type_of s == "string")) (
      bad (at_child "type" ∷ at_key k ∷ at_child "properties" ∷ path) (str (type_of s))
        "must be string")

abbrev pub metadata_property : Bool → Level → Option Structural → FieldPath → List Violation
metadata_property check_metadata lvl none path = []
metadata_property check_metadata lvl (some s) path =
    validate_structural_metadata_invariants s check_metadata lvl
      (at_key "metadata" ∷ at_child "properties" ∷ path)

-- The checks of a node behind those of its value validation.
unfoldable pub resource_errors :
    Properties → StructuralOrBool → Generic → Extensions → Level → FieldPath → List Violation
unfolding lookup len_properties type_errors validate_structural_metadata_invariants
resource_errors ps additional g x lvl path =
    let check_metadata = is_root lvl || x.x_embedded_resource in
    type_errors g x lvl path
    ++ report (x.x_embedded_resource && not (is_unset additional)) (
        forbidden (at_child "additionalProperties" ∷ path)
          "must not be used if x-kubernetes-embedded-resource is set")
    ++ report (is_root lvl && not (g.type == "") && not (g.type == "object"))
        (bad (at_child "type" ∷ path) (str g.type) "must be object at the root")
    ++ string_property check_metadata "kind" (lookup "kind" ps) path
    ++ string_property check_metadata "apiVersion" (lookup "apiVersion" ps) path
    ++ metadata_property check_metadata lvl (lookup "metadata" ps) path
    ++ report
        (x.x_embedded_resource && not x.x_preserve_unknown_fields && nat_eq (len_properties ps) 0)
        (needed (at_child "properties" ∷ path)
          "must not be empty if x-kubernetes-embedded-resource is true without x-kubernetes-preserve-unknown-fields")
