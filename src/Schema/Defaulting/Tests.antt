-- ===== src/Schema/Defaulting/Tests.antt =====
-- Runs of the two algorithms, and the theorems about them at these inputs.
use apiextensions_apiserver.Schema.Defaulting.Nulls.{
  described_by, field_left, find-prune_nulls_members, no_null_field,
}
use apiextensions_apiserver.Schema.Defaulting.Idem.{default_ref_idem}
use apiextensions_apiserver.Schema.Defaulting.Fields.{find-default, defaulted, walk_with}
use apiextensions_apiserver.Schema.Pruning.Fields.{members_of}
use apiextensions_apiserver.Prelude.{pos, none, [], true, some, refl, ◌≢◌, ◌≡◌}
use apiextensions_apiserver.Schema.Defaulting.{
  prune_nulls_members, is_non_nullable_non_defaultable_null, prune_nulls, get_schema_for_field,
  default, default_ref,
}
use apiextensions_apiserver.Schema.Structural.{
  no_extensions, no_generic, additional_properties, empty_structural, unset, properties,
  structural_or_bool, no_properties, property, nil, to, structural, Structural, lookup,
}
use apiextensions_apiserver.Schema.Json.{
  str, null, no_members, int, find, member, obj, Json, Members,
}
use mathlib.Core.Option

abbrev limit : Structural
limit =
    structural nil no_properties unset (record no_generic { default = int (pos 3) }) no_extensions
      (record { x_validations = [] }) none

-- replicas has the default 3; every other field is a non-nullable value
abbrev schema : Structural
schema =
    structural nil (property "replicas" limit no_properties)
      (structural_or_bool (to empty_structural) true) no_generic no_extensions
      (record { x_validations = [] }) none

abbrev stored : Members
stored = member "paused" null (member "replicas" null (member "image" (str "a") no_members))

abbrev defaulted_object : Json
defaulted_object = obj (member "replicas" (int (pos 3)) (member "image" (str "a") no_members))

prunes_then_defaults : default schema (prune_nulls (obj stored) (to schema)) ≡ defaulted_object
unfolding default prune_nulls get_schema_for_field is_non_nullable_non_defaultable_null
prunes_then_defaults = refl

adds_missing : default schema (obj no_members) ≡ obj (member "replicas" (int (pos 3)) no_members)
unfolding default
adds_missing = refl

default_ref_idem_example :
    default_ref (to schema) (default_ref (to schema) (obj stored))
    ≡ default_ref (to schema) (obj stored)
default_ref_idem_example = default_ref_idem (to schema) (obj stored)

find-default_example :
    find "replicas" (members_of (default schema (obj stored)))
    ≡ Option.map
        (walk_with (lookup "replicas" (properties schema)) (additional_properties schema))
        (defaulted (lookup "replicas" (properties schema)) (find "replicas" stored))
unfolding lookup
find-default_example = find-default "replicas" schema stored (refl, tt)

no_null_field_example :
    find "paused" (members_of (default schema (prune_nulls (obj stored) (to schema)))) ≢ some null
unfolding lookup get_schema_for_field find
no_null_field_example =
    no_null_field "paused" schema stored (refl, tt) (refl, (refl, (refl, tt))) refl refl

find-prune_nulls_members_example :
    find "paused" (prune_nulls_members stored (to schema))
    ≡ field_left
        (described_by (lookup "paused" (properties schema)) (additional_properties schema))
        (find "paused" stored)
unfolding find
find-prune_nulls_members_example =
    find-prune_nulls_members "paused" schema stored (refl, (refl, (refl, tt)))
