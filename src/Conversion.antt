-- ===== src/Conversion.antt =====
-- pkg/apiserver/conversion: the conversion of custom resources between the versions of their CRD.
-- Here is its data; Metadata, Nop and Webhook are the converters, Converter what chooses one.
use apiextensions_apiserver.Schema.Json.{Json, Members, find, obj}
use apiextensions_apiserver.Prelude.{◌≡◌, ℕ, String, List, Option, none, some, Bool, ◌==◌, ◌&&◌}
pub mod Metadata
pub mod Panics
pub mod Nop
pub mod Review
pub mod Webhook
pub mod Converter
pub mod Samples
pub mod Tests

pub record Gv : Type 0 where
  pub group : String
  pub version : String

pub record Gvk : Type 0 where
  pub group : String
  pub version : String
  pub kind : String

abbrev pub group_version : Gvk → Gv
group_version gvk = record { group = gvk.group; version = gvk.version }

abbrev pub with_kind : Gv → String → Gvk
with_kind gv kind = record { group = gv.group; version = gv.version; kind = kind }

abbrev pub gv_eq : Gv → Gv → Bool
gv_eq a b = a.group == b.group && a.version == b.version

abbrev pub gvk_eq : Gvk → Gvk → Bool
gvk_eq a b = gv_eq (group_version a) (group_version b) && a.kind == b.kind

-- What the package calls of k8s.io/apimachinery: the accessors of unstructured objects,
-- GroupVersion.String, UnmarshalJSON, and the validation of labels and of annotations.
pub record Machinery : Type 0 where
  pub gvk_of : Members → Gvk
  pub set_gvk : Gvk → Members → Members
  pub api_version_of : Members → String
  pub set_api_version : String → Members → Members
  pub kind_of : Members → String
  pub name_of : Members → String
  pub namespace_of : Members → String
  pub uid_of : Members → String
  pub gv_string : Gv → String
  pub unmarshal : String → Option Members
  pub validate_labels : List (String × String) → List String
  pub validate_annotations : List (String × String) → List String

-- A runtime.Object: *unstructured.Unstructured, *unstructured.UnstructuredList with the object
-- around its items, or the typed *autoscaling.Scale.
pub data Object : Type 0 where
  single : Members → Object
  many : Members → List Members → Object
  typed_scale : Gvk → Members → Object

-- obj.GetObjectKind().GroupVersionKind()
unfoldable pub object_gvk : Machinery → Object → Gvk
object_gvk m (single ms) = m.gvk_of ms
object_gvk m (many ms items) = m.gvk_of ms
object_gvk m (typed_scale gvk ms) = gvk

-- runtime.RawExtension
pub record RawExtension : Type 0 where
  pub object : Option Object
  pub raw : String

-- What the errors tell; `panics` stands for a panic of the Go runtime.
pub data ConversionError : Type 0 where
  panics : ConversionError
  missing_metadata invalid_metadata invalid_original_metadata : ConversionError
  invalid_field invalid_original_field : String → ConversionError
  not_a_string : String → String → ConversionError
  invalid_strings : List String → ConversionError
  kind_differs name_differs namespace_differs uid_differs : String → String → ConversionError
  undecodable : ConversionError
  wrong_group_version : Gv → Gv → ConversionError
  wrong_kind : String → String → ConversionError
  wrong_type wrong_input_type : ConversionError
  invalid_object invalid_object_meta : ConversionError → ConversionError
  invalid_item invalid_item_meta : Gvk → ℕ → ConversionError → ConversionError
  no_review_version : ConversionError
  wrong_review : Gvk → ConversionError
  no_response : ConversionError
  wrong_uid : String → String → ConversionError
  webhook_message : String → ConversionError
  unsuccessful : String → ConversionError
  unrecognized_response : ConversionError
  call_failed : Gvk → String → ConversionError
  webhook_failed : Gvk → ConversionError → ConversionError
  wrong_count : Gvk → ℕ → ℕ → ConversionError
  no_objects_returned : ConversionError
  not_suitable invalid_to invalid_from : Gvk → ConversionError
  invalid_from_item : ℕ → Gv → ConversionError
  not_unstructured_in not_unstructured_out conversion_failed : ConversionError
  label_not_supported : String → ConversionError
  unknown_strategy : String → ConversionError
  no_hook_client : String → ConversionError

-- x["metadata"][k] of an object with metadata.
abbrev pub metadata_field : String → Members → Option Json
metadata_field k ms = elim (find "metadata" ms) [ some (obj md) ↦ find k md | _ ↦ none ]

-- What the accessors document: the fields that they read.
pub record Documented (m : Machinery) : Type 0 where
  pub kind_reads : (a b : Members) → find "kind" a ≡ find "kind" b → m.kind_of a ≡ m.kind_of b
  pub gvk_reads :
      (a b : Members)
      → find "apiVersion" a ≡ find "apiVersion" b
      → find "kind" a ≡ find "kind" b
      → m.gvk_of a ≡ m.gvk_of b
  pub name_reads :
      (a b : Members)
      → metadata_field "name" a ≡ metadata_field "name" b
      → m.name_of a ≡ m.name_of b
  pub namespace_reads :
      (a b : Members)
      → metadata_field "namespace" a ≡ metadata_field "namespace" b
      → m.namespace_of a ≡ m.namespace_of b
  pub uid_reads :
      (a b : Members) → metadata_field "uid" a ≡ metadata_field "uid" b → m.uid_of a ≡ m.uid_of b
