-- ===== src/Schema/ListType/Tests.antt =====
-- Runs of the uniqueness checks, and the theorems about them at these inputs.
use apiextensions_apiserver.Schema.ListType.Distinct.{nothing_repeated_iff, Different}
use apiextensions_apiserver.Schema.ListType.Unique.{validate_list_set-eq, first_repeats}
use apiextensions_apiserver.Schema.ListType.{
  at_index, duplicate, to_list, single_key, not_an_object, repeated_key_errors, validate_list_map,
  list_type_errors, validation_list_set_and_maps,
}
use apiextensions_apiserver.Schema.Structural.{
  no_extensions, no_generic, unset, no_properties, nil, structural, Structural,
}
use apiextensions_apiserver.Schema.ListType.Keys.{
  same_scalar, count, compound, times_seen, count_key, times_of, value, scalar, repeated, Key,
  find_repeated, Item, key_of, validate_list_set,
}
use apiextensions_apiserver.Prelude.{
  refl, Pairwise, ◌↔◌, pos, String, ◌≡◌, Option, List, [], ◌∷◌, some, none,
}
use apiextensions_apiserver.Schema.Json.{
  member, no_members, elem, find, no_elems, Json, null, int, arr, obj,
}

-- json.Marshal of what the tests use
abbrev marshal : Json → Option String
marshal (arr no_elems) = some "[]"
marshal x = some "{}"

-- 1, [], 1, [], 1
abbrev values : List Item
values =
    value (int (pos 1))
    ∷ value (arr no_elems)
    ∷ value (int (pos 1))
    ∷ value (arr no_elems)
    ∷ value (int (pos 1))
    ∷ []

abbrev keys : List Key
keys =
    scalar (value (int (pos 1)))
    ∷ compound "[]"
    ∷ scalar (value (int (pos 1)))
    ∷ compound "[]"
    ∷ scalar (value (int (pos 1)))
    ∷ []

finds_repeated : validate_list_set marshal values ≡ repeated (2 ∷ 3 ∷ [])
unfolding validate_list_set find_repeated key_of times_of count_key times_seen count same_scalar
finds_repeated = refl

validate_list_set-eq_example : validate_list_set marshal values ≡ repeated (first_repeats 0 [] keys)
unfolding key_of
validate_list_set-eq_example =
    validate_list_set-eq marshal values keys (refl, (refl, (refl, (refl, (refl, tt)))))

nothing_repeated_iff_example :
    (validate_list_set marshal values ≡ repeated []) ↔ Pairwise Different keys
unfolding key_of
nothing_repeated_iff_example =
    nothing_repeated_iff marshal values keys (refl, (refl, (refl, (refl, (refl, tt)))))

-- A list-type map with the key "name": two objects without it are duplicates.
abbrev by_name : Structural
by_name =
    structural nil no_properties unset no_generic
      (record no_extensions { x_list_map_keys = "name" ∷ []; x_list_type = some "map" })
      (record { x_validations = [] }) none

reports_unspecified :
    validation_list_set_and_maps marshal [] by_name (
      arr (elem null (elem (obj no_members) (elem (obj (member "name" null no_members)) no_elems))))
    ≡ duplicate (at_index 1 ∷ []) (obj no_members) ∷ []
unfolding validation_list_set_and_maps list_type_errors validate_list_map repeated_key_errors
    not_an_object single_key find validate_list_set find_repeated key_of times_of count_key
    times_seen count same_scalar to_list
reports_unspecified = refl
