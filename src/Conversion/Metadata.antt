-- ===== src/Conversion/Metadata.antt =====
-- pkg/apiserver/conversion/webhook_converter.go, lines 390 to 479: what a webhook may change of an
-- object's metadata.

pub mod Panics
pub mod Restored
pub mod Valid
use apiextensions_apiserver.Conversion.{
  not_a_string, panics, uid_differs, invalid_metadata, invalid_field, invalid_original_field,
  namespace_differs, invalid_original_metadata, name_differs, invalid_strings, missing_metadata,
  kind_differs, ConversionError, Machinery,
}
use apiextensions_apiserver.Schema.Json.{
  null, len_members, assign, member, obj, find, remove, no_members, str, Json, Members,
}
use apiextensions_apiserver.Prelude.{
  none, err, ◌||◌, nat_eq, true, ◌>>=◌, false, [], ◌∷◌, ok, not, some, ◌==◌, Result, Bool,
  if◌then◌else◌, List, Option, String,
}

same_string : Option Json → String → Bool
same_string (some (str s)) t = s == t
same_string v t = false

-- The range over responseField: is a value new, unless one is no string.
pub changed_strings : String → Members → Members → Result ConversionError Bool
unfolding same_string
changed_strings fld original no_members = ok false
changed_strings fld original (member k (str s) ms) = changed_strings fld original ms >>= λ later.
    ok (if same_string (find k original) s then later else true)
changed_strings fld original (member k v ms) = err (not_a_string fld k)

-- v.(string) panics on a value that is no string.
unfoldable pub string_map : Members → Result ConversionError (List (String × String))
string_map no_members = ok []
string_map (member k (str s) ms) = string_map ms >>= λ later. ok ((k, s) ∷ later)
string_map (member k v ms) = err panics

-- convertedMetaData[fld].(map[string]interface{}), where a missing or null value is the empty map.
field_of_original : String → Option Json → Result ConversionError Members
field_of_original fld none = ok no_members
field_of_original fld (some null) = ok no_members
field_of_original fld (some (obj ms)) = ok ms
field_of_original fld (some v) = err (invalid_original_field fld)

guard : List String → Result ConversionError (Unit {0})
guard [] = ok tt
guard (e ∷ errs) = err (invalid_strings (e ∷ errs))

pub response_metadata : Option Json → Result ConversionError Members
response_metadata none = err missing_metadata
response_metadata (some (obj md)) = ok md
response_metadata (some v) = err invalid_metadata

pub original_metadata : Option Json → Result ConversionError Members
original_metadata none = ok no_members
original_metadata (some (obj md)) = ok md
original_metadata (some v) = err invalid_original_metadata

module _ (m : Machinery) where
  unfoldable pub validate_strings : String → List (String × String) → List String
  validate_strings fld strings =
      if fld == "labels" then m.validate_labels strings else m.validate_annotations strings

  check_changed : String → Bool → Members → Result ConversionError (Unit {0})
  unfolding validate_strings guard string_map
  check_changed fld true response = do
    strings ← string_map response
    guard (validate_strings fld strings)
  check_changed fld false response = ok tt

  restore_strings : String → Members → Members → Result ConversionError Members
  unfolding field_of_original changed_strings check_changed
  restore_strings fld response md = do
    original ← field_of_original fld (find fld md)
    changed ← changed_strings fld original response
    checked ←
        check_changed fld (not (nat_eq (len_members original) (len_members response)) || changed)
          response
    ok (assign fld (obj response) md)

  pub restore_value : String → Option Json → Members → Result ConversionError Members
  unfolding restore_strings
  restore_value fld none md = ok (remove fld md)
  restore_value fld (some null) md = ok (remove fld md)
  restore_value fld (some (obj response)) md = restore_strings fld response md
  restore_value fld (some v) md = err (invalid_field fld)

  restore_fields : List String → Members → Members → Result ConversionError Members
  unfolding restore_value
  restore_fields [] response md = ok md
  restore_fields (fld ∷ flds) response md =
      restore_value fld (find fld response) md >>= restore_fields flds response

  -- The converted object with the restored metadata.
  unfoldable pub restore_object_meta : Members → Members → Result ConversionError Members
  unfolding response_metadata original_metadata restore_fields
  restore_object_meta original converted = do
    response ← response_metadata (find "metadata" converted)
    md ← original_metadata (find "metadata" original)
    restored ← restore_fields ("labels" ∷ "annotations" ∷ []) response md
    ok (assign "metadata" (obj restored) converted)

  unfoldable pub validate_converted_object : Members → Members → Result ConversionError (Unit {0})
  validate_converted_object in_object out =
      if not (m.kind_of in_object == m.kind_of out)
      then err (kind_differs (m.kind_of in_object) (m.kind_of out))
      else if not (m.name_of in_object == m.name_of out)
      then err (name_differs (m.name_of in_object) (m.name_of out))
      else if not (m.namespace_of in_object == m.namespace_of out)
      then err (namespace_differs (m.namespace_of in_object) (m.namespace_of out))
      else if not (m.uid_of in_object == m.uid_of out)
      then err (uid_differs (m.uid_of in_object) (m.uid_of out))
      else ok tt
