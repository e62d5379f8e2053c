-- ===== src/Internal/Hoisting.antt =====
-- pkg/apis/apiextensions/v1/conversion.go with the generated functions that it calls: a v1 spec to
-- the internal one, where what all versions share moves to the top, and back.
pub mod Versions
pub mod Found
pub mod RoundTrip
use apiextensions_apiserver.Internal.Document.{validation_in, validation_out}
use apiextensions_apiserver.Internal.Strategy.{conversion_in, conversion_out}
use apiextensions_apiserver.Crd.{
  Version, Validation, Subresources, ColumnDefinition, CrdSpec, Conversion, WebhookConversion,
  WebhookClientConfig, ServiceReference,
}
use apiextensions_apiserver.Internal.{
  InternalSpec, InternalConversion, InternalWebhookClientConfig, InternalServiceReference,
}
use apiextensions_apiserver.Prelude.{
  map, ◌&&◌, ◌==◌, [], if◌then◌else◌, ◌∷◌, ok, ◌>>=◌, ℤ, String, Option, Bool, Result, List, some,
  none, true, false, pos,
}

-- What is not here: apiequality.Semantic.DeepEqual at the types that are compared.
pub record Peer : Type 0 where
  pub same_subresources : Option Subresources → Option Subresources → Bool
  pub same_schema : Option Validation → Option Validation → Bool
  pub same_columns : Option (List ColumnDefinition) → Option (List ColumnDefinition) → Bool
  pub same_fields : Option (List String) → Option (List String) → Bool

-- A pointer is converted if it is not nil.
unfoldable pub at_pointer :
    (Validation → Result String Validation) → Option Validation → Result String (Option Validation)
at_pointer f none = ok none
at_pointer f (some v) = f v >>= λ w. ok (some w)

unfoldable pub convert_version :
    (Validation → Result String Validation) → Version → Result String Version
unfolding at_pointer
convert_version f v = do schema ← at_pointer f (v.schema); ok (record v { schema = schema })

unfoldable pub convert_versions :
    (Validation → Result String Validation) → List Version → Result String (List Version)
unfolding convert_version
convert_versions f [] = ok []
convert_versions f (v ∷ vs) = do w ← convert_version f v; ws ← convert_versions f vs; ok (w ∷ ws)

module _ {ℓ} {A : Type ℓ} where
  -- Is each version's field that of the first version?
  unfoldable pub identical : (A → A → Bool) → (Version → A) → A → List Version → Bool
  identical same field first [] = true
  identical same field first (v ∷ vs) = same (field v) first && identical same field first vs

  unfoldable pub unless : Bool → Option A → Option A
  unless true a = none
  unless false a = a

  unfoldable pub only_if : Bool → Option A → Option A
  only_if true a = a
  only_if false a = none

  -- `if top != nil { field = top }`
  or_own : Option A → Option A → Option A
  or_own none own = own
  or_own (some a) own = some a

-- The per-version fields that are cleared.
unfoldable pub clear : Bool → Bool → Bool → Bool → Version → Version
unfolding unless
clear subresources schema columns fields v = record v {
  subresources = unless subresources (v.subresources);
  schema = unless schema (v.schema);
  additional_printer_columns = unless columns (v.additional_printer_columns);
  selectable_fields = unless fields (v.selectable_fields);
}

-- The top-level fields where they are set.
pub overlay :
    Option Subresources
    → Option Validation
    → Option (List ColumnDefinition)
    → Option (List String)
    → Version
    → Version
unfolding or_own
overlay subresources schema columns fields v = record v {
  subresources = or_own subresources (v.subresources);
  schema = or_own schema (v.schema);
  additional_printer_columns = or_own columns (v.additional_printer_columns);
  selectable_fields = or_own fields (v.selectable_fields);
}

module _ (p : Peer) where
  unfoldable pub hoist : List Version → InternalSpec → InternalSpec
  unfolding identical only_if clear
  hoist [] spec = spec
  hoist (v ∷ vs) spec =
      let subresources =
        identical (p.same_subresources) (λ w. w.subresources) (v.subresources) (v ∷ vs) in
      let schema = identical (p.same_schema) (λ w. w.schema) (v.schema) (v ∷ vs) in
      let columns =
        identical (p.same_columns) (λ w. w.additional_printer_columns)
          (v.additional_printer_columns) (v ∷ vs) in
      let fields =
        identical (p.same_fields) (λ w. w.selectable_fields) (v.selectable_fields) (v ∷ vs) in
      record spec {
        version = v.name;
        subresources = only_if subresources (v.subresources);
        validation = only_if schema (v.schema);
        additional_printer_columns = only_if columns (v.additional_printer_columns);
        selectable_fields = only_if fields (v.selectable_fields);
        versions = map (clear subresources schema columns fields) (v ∷ vs);
      }

  unfoldable pub with_versions : CrdSpec → List Version → InternalSpec
  with_versions spec versions = record {
    group = spec.group;
    version = "";
    names = spec.names;
    scope = spec.scope;
    validation = none;
    subresources = none;
    versions = versions;
    additional_printer_columns = none;
    selectable_fields = none;
    conversion = conversion_in (spec.conversion);
    preserve_unknown_fields = some (spec.preserve_unknown_fields);
  }

  unfoldable pub spec_in : CrdSpec → Result String InternalSpec
  unfolding convert_versions hoist with_versions
  spec_in spec = do
    versions ← convert_versions validation_in (spec.versions)
    ok (hoist versions (with_versions spec versions))

  -- A spec without a list of versions has the one that it names.
  or_named : List Version → String → List Version
  or_named [] version =
      if version == ""
      then []
      else (record {
        name = version;
        served = true;
        storage = true;
        deprecated = false;
        deprecation_warning = none;
        schema = none;
        subresources = none;
        additional_printer_columns = none;
        selectable_fields = none;
      })
        ∷ []
  or_named (v ∷ vs) version = v ∷ vs

  is_true : Option Bool → Bool
  is_true (some b) = b
  is_true none = false

  unfoldable pub spec_out : InternalSpec → Result String CrdSpec
  unfolding convert_versions at_pointer or_named overlay is_true
  spec_out spec = do
    versions ← convert_versions validation_out (spec.versions)
    schema ← at_pointer validation_out (spec.validation)
    ok (record {
      group = spec.group;
      names = spec.names;
      scope = spec.scope;
      versions =
          map
            (overlay (spec.subresources) schema (spec.additional_printer_columns)
              (spec.selectable_fields))
            (or_named versions (spec.version));
      conversion = conversion_out (spec.conversion);
      preserve_unknown_fields = is_true (spec.preserve_unknown_fields);
    })
