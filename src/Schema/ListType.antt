-- ===== src/Schema/ListType.antt =====
-- pkg/apiserver/schema/listtype/validation.go
pub mod Keys
pub mod Same
pub mod Counting
pub mod Unique
pub mod Distinct
mod Tests
use apiextensions_apiserver.Schema.Structural.{
  nil, Properties, structural_or_bool, StructuralOrBool, to, Ref, properties, additional_properties,
  items, extensions, Structural, lookup,
}
use apiextensions_apiserver.Prelude.{
  length, map, ◌==◌, ◌++◌, leb, if◌then◌else◌, zero, some, none, suc, [], ◌∷◌, Option, List, ℕ,
  String,
}
use apiextensions_apiserver.Schema.Json.{
  arr, member, no_elems, elem, Members, no_members, null, obj, assign, find, Elems, Json,
}
use apiextensions_apiserver.Schema.ListType.Keys.{
  repeated, internal_error, validate_list_set, Verdict, unspecified, value, Item,
}

-- field.Path, innermost first, and field.Error
pub data Segment : Type 0 where
  at_child : String → Segment
  at_key : String → Segment
  at_index : ℕ → Segment

abbrev pub FieldPath : Type 0
FieldPath = List Segment

pub data FieldError : Type 0 where
  duplicate : FieldPath → Json → FieldError
  invalid : FieldPath → Json → String → FieldError

unfoldable pub to_list : Elems → List Json
to_list no_elems = []
to_list (elem v xs) = v ∷ to_list xs

-- xs[i], and null out of range, which no index here is
abbrev pub at : List Item → ℕ → Item
at [] i = value null
at (x ∷ xs) zero = x
at (x ∷ xs) (suc i) = at xs i

-- The key field of a duplicate, and {} for an unspecified one.
abbrev pub key_object : String → Item → Json
key_object key_field unspecified = obj no_members
key_object key_field (value v) = obj (member key_field v no_members)

abbrev pub plain : Item → Json
plain unspecified = null
plain (value v) = v

-- The first value that is neither nil nor an object, from index `i`.
unfoldable pub not_an_object : FieldPath → ℕ → List Json → Option FieldError
not_an_object path i [] = none
not_an_object path i (null ∷ xs) = not_an_object path (suc i) xs
not_an_object path i (obj ms ∷ xs) = not_an_object path (suc i) xs
not_an_object path i (x ∷ xs) =
    some (invalid (at_index i ∷ path) x "must be an object for an array of list-type map")

-- `x[keyField]`, where `x` may be nil
unfoldable pub single_key : String → Json → Item
unfolding find
single_key key_field (obj ms) = elim (find key_field ms) [ none ↦ unspecified | some v ↦ value v ]
single_key key_field x = unspecified

unfoldable pub key_members : List String → Members → Members → Members
unfolding find assign
key_members [] x key = key
key_members (key_field ∷ key_fields) x key = elim (find key_field x) [
  | none ↦ key_members key_fields x key
  | some k ↦ key_members key_fields x (assign key_field k key)
]

unfoldable pub multiple_key : List String → Json → Item
unfolding key_members
multiple_key key_fields (obj ms) = value (obj (key_members key_fields ms no_members))
multiple_key key_fields x = value (obj no_members)

-- The errors for the indices of a result of validateListSet.
abbrev pub duplicates : FieldPath → (Item → Json) → List Item → List ℕ → List FieldError
duplicates path show keys [] = []
duplicates path show keys (i ∷ is) =
    duplicate (at_index i ∷ path) (show (at keys i)) ∷ duplicates path show keys is

-- `marshal` is json.Marshal.
module _ (marshal : Json → Option String) where
  abbrev pub set_errors : FieldPath → (Item → Json) → List Item → Verdict → List FieldError
  set_errors path show keys (internal_error i) =
      invalid (at_index i ∷ path) (plain (at keys i)) "internal error" ∷ []
  set_errors path show keys (repeated is) = duplicates path show keys is

  -- One key field has a case of its own.
  unfoldable pub repeated_key_errors : FieldPath → List String → List Json → List FieldError
  unfolding single_key multiple_key validate_list_set
  repeated_key_errors path (key_field ∷ []) xs =
      let keys = map (single_key key_field) xs in
      set_errors path (key_object key_field) keys (validate_list_set marshal keys)
  repeated_key_errors path key_fields xs =
      let keys = map (multiple_key key_fields) xs in
      set_errors path plain keys (validate_list_set marshal keys)

  unfoldable pub validate_list_map : FieldPath → List String → List Json → List FieldError
  unfolding not_an_object repeated_key_errors
  validate_list_map path key_fields xs = elim (not_an_object path 0 xs) [
    | some e ↦ e ∷ []
    | none ↦ if leb (length xs) 1 then [] else repeated_key_errors path key_fields xs
  ]

  unfoldable pub list_type_errors : FieldPath → Structural → List Json → List FieldError
  unfolding validate_list_map validate_list_set
  list_type_errors path s xs = elim ((extensions s).x_list_type) [
    | none ↦ []
    | some list_type ↦
        if list_type == "set"
        then set_errors path plain (map value xs) (validate_list_set marshal (map value xs))
        else if list_type == "map"
        then validate_list_map path (extensions s).x_list_map_keys xs
        else []
  ]

  unfoldable mutual
    unfolding lookup list_type_errors to_list

    pub validation_list_set_and_maps : FieldPath → Structural → Json → List FieldError
    validation_list_set_and_maps path s (arr xs) =
        list_type_errors path s (to_list xs) ++ item_errors path (items s) 0 xs
    validation_list_set_and_maps path s (obj ms) =
        additional_errors path (additional_properties s) ms
        ++ property_errors path (properties s) ms
    validation_list_set_and_maps path s x = []

    pub item_errors : FieldPath → Ref → ℕ → Elems → List FieldError
    item_errors path nil i xs = []
    item_errors path (to s) i no_elems = []
    item_errors path (to s) i (elem v xs) =
        validation_list_set_and_maps (at_index i ∷ path) s v ++ item_errors path (to s) (suc i) xs

    pub additional_errors : FieldPath → StructuralOrBool → Members → List FieldError
    additional_errors path (structural_or_bool (to s) b) (member k v ms) =
        validation_list_set_and_maps (at_key k ∷ path) s v
        ++ additional_errors path (structural_or_bool (to s) b) ms
    additional_errors path ap ms = []

    pub property_errors : FieldPath → Properties → Members → List FieldError
    property_errors path ps no_members = []
    property_errors path ps (member k v ms) = elim (lookup k ps) [
      | none ↦ property_errors path ps ms
      | some sub ↦
          validation_list_set_and_maps (at_child k ∷ path) sub v ++ property_errors path ps ms
    ]

  -- `none` is a nil schema.
  unfoldable pub validate_list_sets_and_maps :
      FieldPath → Option Structural → Members → List FieldError
  unfolding additional_errors property_errors
  validate_list_sets_and_maps path none ms = []
  validate_list_sets_and_maps path (some s) ms =
      additional_errors path (additional_properties s) ms ++ property_errors path (properties s) ms
