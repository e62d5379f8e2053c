-- ===== src/Internal/Document.antt =====
-- The conversion of a schema in pkg/apis/apiextensions/v1/conversion.go and zz_generated.conversion.go.
-- A schema is its JSON document on both sides, so what goes in is the same document; on the way out a
-- default and an example that are null go.
pub mod Kept
use apiextensions_apiserver.Schema.Json.{
  no_members, no_elems, null, member, Members, elem, Elems, arr, obj, Json,
}
use apiextensions_apiserver.Prelude.{
  if◌then◌else◌, ◌||◌, none, ok, ◌==◌, some, Option, Result, Bool, String,
}
use apiextensions_apiserver.Crd.{Validation}

-- The keywords of a schema that hold schemas, one or several, and those that hold a map of them.
abbrev pub holds_schemas : String → Bool
holds_schemas k =
    k == "items"
    || k == "allOf"
    || k == "oneOf"
    || k == "anyOf"
    || k == "not"
    || k == "additionalProperties"
    || k == "additionalItems"

abbrev pub holds_named_schemas : String → Bool
holds_named_schemas k =
    k == "properties" || k == "patternProperties" || k == "dependencies" || k == "definitions"

abbrev pub unless_null : Json → Members → Members → Members
unless_null null dropped kept = dropped
unless_null _ dropped kept = kept

unfoldable mutual
  -- A schema or a list of schemas; a Boolean, or a list of strings, stays.
  pub schema_out : Json → Json
  schema_out (obj ms) = obj (fields_out ms)
  schema_out (arr xs) = arr (schemas_out xs)
  schema_out v = v

  pub schemas_out : Elems → Elems
  schemas_out no_elems = no_elems
  schemas_out (elem v xs) = elem (schema_out v) (schemas_out xs)

  pub fields_out : Members → Members
  fields_out no_members = no_members
  fields_out (member k v ms) =
      let rest = fields_out ms in
      let schemas = schema_out v in
      let named = named_out v in
      if k == "default" || k == "example"
      then unless_null v rest (member k v rest)
      else if holds_schemas k
      then member k schemas rest
      else if holds_named_schemas k
      then member k named rest
      else member k v rest

  pub named_out : Json → Json
  named_out (obj ms) = obj (named_schemas_out ms)
  named_out v = v

  pub named_schemas_out : Members → Members
  named_schemas_out no_members = no_members
  named_schemas_out (member k v ms) = member k (schema_out v) (named_schemas_out ms)

-- A pointer to a schema that is nil stays so.
abbrev pub document_out : Option Json → Option Json
document_out none = none
document_out (some v) = some (schema_out v)

unfoldable pub validation_in : Validation → Result String Validation
validation_in v = ok v

unfoldable pub validation_out : Validation → Result String Validation
unfolding schema_out
validation_out v = ok (record v { open_api_v3_schema = document_out v.open_api_v3_schema })
