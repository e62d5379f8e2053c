-- ===== src/Schema/Pruning/Tests.antt =====
-- Runs of the pruning algorithm.
use apiextensions_apiserver.Prelude.{◌≡◌, refl, true, none, [], ◌∷◌, sort_strings, join, itoa}
use apiextensions_apiserver.Schema.Json.{
  Json, null, str, arr, obj, no_elems, elem, no_members, member,
}
use apiextensions_apiserver.Schema.Structural.{
  Structural, structural, empty_structural, Ref, nil, to, Properties, no_properties, property,
  unset, no_generic, no_extensions,
}
use apiextensions_apiserver.Schema.Options.{UnknownFieldPathOptions}
use apiextensions_apiserver.Schema.Pruning.{prune_with_options, field_of}

abbrev pub object_of : Properties → Structural
object_of ps = structural nil ps unset no_generic no_extensions (record { x_validations = [] }) none

abbrev pub array_of : Structural → Structural
array_of s =
    structural (to s) no_properties unset no_generic no_extensions (record { x_validations = [] })
      none

abbrev pub tracking : UnknownFieldPathOptions
tracking = record { track_unknown_field_paths = true; parent_path = []; unknown_field_paths = [] }

-- spec: an array of objects that have the field a
abbrev pub sample_schema : Ref
sample_schema = to (
    object_of (
      property "spec" (array_of (object_of (property "a" empty_structural no_properties)))
        no_properties))

abbrev pub sample : Json
sample = obj (
    member "kind" (str "Foo") (
      member "zzz" null (
        member "spec"
          (arr (
            elem (obj (member "a" null no_members))
              (elem (obj (member "b" null (member "a" null no_members))) no_elems)))
          no_members)))

abbrev pub sample_pruned : Json
sample_pruned = obj (
    member "kind" (str "Foo") (
      member "spec"
        (arr (
          elem (obj (member "a" null no_members))
            (elem (obj (member "a" null no_members)) no_elems)))
        no_members))

sample_prunes :
    prune_with_options sample sample_schema true tracking
    ≡ (sample_pruned, "spec[1].b" ∷ "zzz" ∷ [])
unfolding prune_with_options field_of sort_strings join itoa
sample_prunes = refl
