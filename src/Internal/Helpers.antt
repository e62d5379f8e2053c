-- ===== src/Internal/Helpers.antt =====
-- pkg/apis/apiextensions/helpers.go: what a version of an internal CRD has, on top or on its own. The
-- loops over the versions are those of pkg/apihelpers/helpers.go, in Crd.Helpers.
pub mod Agree
use apiextensions_apiserver.Crd.Helpers.{
  is_set, has_per_version_subresources, find_version, has_per_version_schema,
  has_per_version_columns,
}
use apiextensions_apiserver.Internal.{InternalCrd}
use apiextensions_apiserver.Crd.{Version, Validation, Subresources, ColumnDefinition}
use apiextensions_apiserver.Prelude.{
  err, is_empty, or_nil, ok, not, ◌==◌, if◌then◌else◌, Bool, Result, String, Option, List, some,
  none, true, false, [], ◌∷◌, pos,
}

-- What the errors tell.
pub data VersionError : Type 0 where
  malformed : String → String → VersionError
  not_found : String → String → VersionError

of_version {ℓ} : {A : Type ℓ} → InternalCrd → String → (Version → A) → Result VersionError A
of_version crd version field = elim (find_version version (crd.spec.versions)) [
  | some v ↦ ok (field v)
  | none ↦ err (not_found version (crd.name))
]

unfoldable pub schema_for_version : InternalCrd → String → Result VersionError (Option Validation)
unfolding of_version
schema_for_version crd version =
    if not (has_per_version_schema (crd.spec.versions))
    then ok (crd.spec.validation)
    else if is_set (crd.spec.validation)
    then err (malformed (crd.name) version)
    else of_version crd version (λ v. v.schema)

unfoldable pub subresources_for_version :
    InternalCrd → String → Result VersionError (Option Subresources)
unfolding of_version
subresources_for_version crd version =
    if not (has_per_version_subresources (crd.spec.versions))
    then ok (crd.spec.subresources)
    else if is_set (crd.spec.subresources)
    then err (malformed (crd.name) version)
    else of_version crd version (λ v. v.subresources)

-- `age` is the description of creationTimestamp in the API documentation.
serve_default_columns_if_empty : String → List ColumnDefinition → List ColumnDefinition
serve_default_columns_if_empty age [] =
    (record {
      name = "Age";
      type = "date";
      format = "";
      description = age;
      priority = pos 0;
      json_path = ".metadata.creationTimestamp";
    })
    ∷ []
serve_default_columns_if_empty age (c ∷ cs) = c ∷ cs

unfoldable pub columns_for_version :
    String → InternalCrd → String → Result VersionError (List ColumnDefinition)
unfolding of_version serve_default_columns_if_empty
columns_for_version age crd version =
    if not (has_per_version_columns (crd.spec.versions))
    then ok (serve_default_columns_if_empty age (or_nil (crd.spec.additional_printer_columns)))
    else if not (is_empty (or_nil (crd.spec.additional_printer_columns)))
    then err (malformed (crd.name) version)
    else of_version crd version
        (λ v. serve_default_columns_if_empty age (or_nil (v.additional_printer_columns)))
