-- ===== src/Internal/Tests.antt =====
-- A spec with two versions that have the same schema but other fields, to the internal type and back.
use apiextensions_apiserver.Internal.Document.{schema_out, validation_in}
use apiextensions_apiserver.Internal.Helpers.Agree.{schema_for_version-spec_in}
use apiextensions_apiserver.Registry.Tests.{stores_v1}
use apiextensions_apiserver.Internal.Helpers.{schema_for_version}
use apiextensions_apiserver.Crd.Helpers.{find_version}
use apiextensions_apiserver.Internal.Strategy.{conversion_in}
use apiextensions_apiserver.Internal.Hoisting.{at_pointer, Peer, spec_in}
use apiextensions_apiserver.Internal.Hoisting.Versions.{Sound}
use apiextensions_apiserver.Internal.{InternalSpec}
use apiextensions_apiserver.Crd.Tests.{foo, served_v1}
use apiextensions_apiserver.Crd.{Version, CrdSpec, Validation, Subresources}
use apiextensions_apiserver.Schema.Json.{no_members, str, null, member, obj, Json}
use apiextensions_apiserver.Prelude.{
  ◌&&◌, Bool, ◌≡◌, is_empty, ap, ok, Option, List, or_nil, refl, some, none, true, false, [], ◌∷◌,
}

-- No documents, or not found equal.
same_document : Option Json → Option Json → Bool
same_document none none = true
same_document a b = false

same_schema : Option Validation → Option Validation → Bool
unfolding same_document
same_schema none none = true
same_schema (some v) (some w) = same_document (v.open_api_v3_schema) (w.open_api_v3_schema)
same_schema a b = false

no_subresources : Option Subresources → Option Subresources → Bool
no_subresources none none = true
no_subresources a b = false

abbrev both_empty {ℓ} : {A : Type ℓ} → Option (List A) → Option (List A) → Bool
both_empty a b = is_empty (or_nil a) && is_empty (or_nil b)

unfoldable pub peer : Peer
unfolding same_schema no_subresources
peer = record {
  same_subresources = no_subresources;
  same_schema = same_schema;
  same_columns = both_empty;
  same_fields = both_empty;
}

same_document-eq : (a b : Option Json) → same_document a b ≡ true → a ≡ b
unfolding same_document
same_document-eq none none h = refl
same_document-eq none (some b) h = cc
same_document-eq (some a) none h = cc
same_document-eq (some a) (some b) h = cc

same_schema-eq : (a b : Option Validation) → same_schema a b ≡ true → a ≡ b
unfolding same_schema
same_schema-eq none none h = refl
same_schema-eq none (some b) h = cc
same_schema-eq (some a) none h = cc
same_schema-eq (some a) (some b) h =
    ap (λ d. some (record { open_api_v3_schema = d }))
      (same_document-eq (a.open_api_v3_schema) (b.open_api_v3_schema) h)

no_subresources-eq : (a b : Option Subresources) → no_subresources a b ≡ true → a ≡ b
unfolding no_subresources
no_subresources-eq none none h = refl
no_subresources-eq none (some b) h = cc
no_subresources-eq (some a) none h = cc
no_subresources-eq (some a) (some b) h = cc

both_empty-eq {ℓ} : {A : Type ℓ} (xs ys : List A) → (is_empty xs && is_empty ys) ≡ true → xs ≡ ys
both_empty-eq [] [] h = refl
both_empty-eq [] (y ∷ ys) h = cc
both_empty-eq (x ∷ xs) ys h = cc

peer-Sound : Sound peer
unfolding peer
peer-Sound = record {
  subresources = no_subresources-eq;
  schema = same_schema-eq;
  columns = λ a b h. both_empty-eq (or_nil a) (or_nil b) h;
  fields = λ a b h. both_empty-eq (or_nil a) (or_nil b) h;
}

abbrev with_schema : Version
with_schema = record served_v1 { schema = some (record { open_api_v3_schema = none }) }

abbrev two_versions : CrdSpec
two_versions = record foo.spec {
  versions =
      with_schema
      ∷ record with_schema { name = "v2"; selectable_fields = some (".spec.a" ∷ []) }
      ∷ [];
}

-- The schema is hoisted, the fields are not.
abbrev two_hoisted : InternalSpec
two_hoisted = record {
  group = "k8s.io";
  version = "v1";
  names = foo.spec.names;
  scope = "Cluster";
  validation = some (record { open_api_v3_schema = none });
  subresources = none;
  versions =
      served_v1 ∷ record served_v1 { name = "v2"; selectable_fields = some (".spec.a" ∷ []) } ∷ [];
  additional_printer_columns = none;
  selectable_fields = none;
  conversion = none;
  preserve_unknown_fields = some false;
}

-- A null default of a property goes, and a default for null values stays.
nulls_go :
    schema_out (
      obj (
        member "properties"
          (obj (
            member "default"
              (obj (member "default" null (member "type" (str "string") no_members)))
              no_members))
          (member "default" (obj (member "a" null no_members)) no_members)))
    ≡ obj (
        member "properties"
          (obj (member "default" (obj (member "type" (str "string") no_members)) no_members))
          (member "default" (obj (member "a" null no_members)) no_members))
unfolding schema_out
nulls_go = refl

schema_for_version-spec_in_example :
    (schema : Option Validation) × (at_pointer validation_in
        (some (record { open_api_v3_schema = none }))
      ≡ ok schema)
    × (schema_for_version (record stores_v1 { spec = two_hoisted }) "v2" ≡ ok schema)
unfolding peer spec_in conversion_in find_version validation_in
schema_for_version-spec_in_example =
    schema_for_version-spec_in peer peer-Sound refl (record stores_v1 { spec = two_hoisted }) "v2"
      two_versions two_hoisted
      (record with_schema { name = "v2"; selectable_fields = some (".spec.a" ∷ []) }) refl refl refl
