-- ===== src/Registry/Tests.antt =====
-- A CRD that is created, gets another storage version and then a status.
use apiextensions_apiserver.Registry.Resource.Separate.{
  WritesMetadata, AreSeparate, prepare_resource-AreSeparate,
}
use apiextensions_apiserver.Registry.Resource.{
  Accessors, prepare_resource_for_update, prepare_resource_status_for_update, take_status,
}
use apiextensions_apiserver.Schema.Json.{
  find-assign, assign, find, obj, str, int, null, member, no_members, Members,
}
use apiextensions_apiserver.Registry.{
  plus_one, spec_has_optional_old_self, drop_selectable_fields, spec_has_selectable_fields, Gates,
  prepare_for_create, prepare_for_update, prepare_status_for_update, storage_version,
  drop_disabled_fields,
}
use apiextensions_apiserver.Registry.Prepared.{IsUpdate, prepare_for_update-IsUpdate}
use apiextensions_apiserver.Registry.History.{
  History, created, updated, status_updated, contains-stored_versions,
}
use apiextensions_apiserver.Internal.{InternalCrd, InternalSpec}
use apiextensions_apiserver.Crd.Tests.{foo, served_v1}
use apiextensions_apiserver.Prelude.{
  ◌∙◌, ◌≡◌, Bool, contains, refl, some, none, false, [], ◌∷◌, pos,
}

abbrev no_gates : Gates
no_gates = record { ratcheting = false; field_selectors = false; observed_generation = false }

abbrev pub stores_v1 : InternalCrd
stores_v1 = record {
  name = "foos.k8s.io";
  generation = pos 0;
  spec = record {
    group = "k8s.io";
    version = "v1";
    names = foo.spec.names;
    scope = "Cluster";
    validation = none;
    subresources = none;
    versions = served_v1 ∷ [];
    additional_printer_columns = none;
    selectable_fields = none;
    conversion = none;
    preserve_unknown_fields = some false;
  };
  status = foo.status;
}

abbrev stores_v2 : InternalCrd
stores_v2 = record stores_v1 {
  spec = record stores_v1.spec {
    versions = record served_v1 { storage = false } ∷ record served_v1 { name = "v2" } ∷ [];
  };
}

never_same : InternalSpec → InternalSpec → Bool
never_same a b = false

abbrev first : InternalCrd
first = prepare_for_create no_gates stores_v1

abbrev second : InternalCrd
second = prepare_for_update no_gates never_same stores_v2 first

abbrev third : InternalCrd
third = prepare_status_for_update second second

prepare_for_update-IsUpdate_example :
    IsUpdate stores_v1 (prepare_for_update no_gates never_same stores_v2 stores_v1)
prepare_for_update-IsUpdate_example =
    prepare_for_update-IsUpdate no_gates never_same stores_v2 stores_v1

third-History : History no_gates never_same third ("v2" ∷ "v1" ∷ [])
unfolding prepare_for_create prepare_for_update prepare_status_for_update drop_disabled_fields
    storage_version spec_has_selectable_fields drop_selectable_fields spec_has_optional_old_self
third-History = status_updated second (updated stores_v2 (created stores_v1)) refl

contains-stored_versions_example :
    contains (third.status.stored_versions) "v1" ≡ contains ("v2" ∷ "v1" ∷ []) "v1"
contains-stored_versions_example =
    contains-stored_versions no_gates never_same third ("v2" ∷ "v1" ∷ []) third-History "v1"

-- Accessors that keep nothing else in the metadata.
abbrev plain_accessors : Accessors
plain_accessors = record {
  generation_of = λ ms. pos 3;
  set_generation = λ n ms. assign "metadata" (obj (member "generation" (int n) no_members)) ms;
  managed_fields_of = λ ms. null;
  set_managed_fields = λ v ms. assign "metadata" (obj (member "managedFields" v no_members)) ms;
  same_content = λ x y. false;
}

plain_accessors-WritesMetadata : WritesMetadata plain_accessors
plain_accessors-WritesMetadata = record {
  set_generation = λ n ms k h.
      find-assign "metadata" k (obj (member "generation" (int n) no_members)) ms ∙ rw h refl;
  set_managed_fields = λ v ms k h.
      find-assign "metadata" k (obj (member "managedFields" v no_members)) ms ∙ rw h refl;
}

abbrev written : Members
written = member "spec" (str "new") (member "status" (str "claimed") no_members)

abbrev stored_resource : Members
stored_resource = member "spec" (str "old") (member "status" (str "ready") no_members)

prepare_resource-AreSeparate_example :
    AreSeparate written stored_resource
      (member "spec" (str "new") (
        member "status"
          (str "ready")
          (member "metadata" (obj (member "generation" (int (pos 4)) no_members)) no_members)))
      (member "spec" (str "old") (
        member "status"
          (str "claimed")
          (member "metadata" (obj (member "managedFields" null no_members)) no_members)))
unfolding prepare_resource_for_update prepare_resource_status_for_update find assign take_status
    plus_one
prepare_resource-AreSeparate_example =
    prepare_resource-AreSeparate plain_accessors plain_accessors-WritesMetadata written
      stored_resource
