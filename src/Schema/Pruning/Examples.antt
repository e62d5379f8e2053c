-- ===== src/Schema/Pruning/Examples.antt =====
-- The theorems about pruning at a sample object.
use apiextensions_apiserver.Schema.Structural.{no_properties, empty_structural, property, to}
use apiextensions_apiserver.Schema.Pruning.Contract.{
  prune-eq-pruned, unknown_fields_iff, prune_object_idem,
}
use apiextensions_apiserver.Schema.Pruning.Spec.{removed, pruned}
use apiextensions_apiserver.Schema.Pruning.Fields.{find-prune_object, members_of}
use apiextensions_apiserver.Schema.Pruning.Tests.{object_of, tracking, sample_schema, sample}
use apiextensions_apiserver.Schema.Json.{no_members, null, member, obj, find}
use apiextensions_apiserver.Schema.Pruning.{prune_with_options, prune_object, field_of, prune}
use apiextensions_apiserver.Prelude.{none, ◌++◌, ◌↔◌, ◌≡◌, [], true, false}

prune-eq-pruned_example : prune sample sample_schema tracking ≡ (
  pruned sample sample_schema,
  record tracking { unknown_field_paths = [] ++ removed sample sample_schema [] },
)
prune-eq-pruned_example = prune-eq-pruned sample sample_schema tracking

prune_object_idem_example :
    prune_object (prune_object sample sample_schema true) sample_schema true
    ≡ prune_object sample sample_schema true
prune_object_idem_example = prune_object_idem sample sample_schema true

unknown_fields_iff_example :
    ((prune_with_options sample sample_schema true tracking).1 ≡ [])
    ↔ ((prune_with_options sample sample_schema true tracking).0 ≡ sample)
unknown_fields_iff_example = unknown_fields_iff sample sample_schema

-- The field "b" goes, as the schema does not have it.
find-prune_object_example :
    find "b" (
      members_of (
        prune_object
          (obj (member "b" null (member "a" null no_members)))
          (to (object_of (property "a" empty_structural no_properties)))
          false))
    ≡ none
unfolding field_of
find-prune_object_example =
    find-prune_object "b" (member "b" null (member "a" null no_members))
      (object_of (property "a" empty_structural no_properties))
