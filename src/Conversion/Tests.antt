-- ===== src/Conversion/Tests.antt =====
-- The theorems on the conversion of custom resources, applied to a list of them.
use apiextensions_apiserver.Conversion.Nop.Retargeted.{
  nop_convert-IsObjectRetargeted, IsObjectRetargeted,
}
use apiextensions_apiserver.Conversion.Samples.{
  machinery-Sets, machinery-Documented, v1, red, foos_in_v2, call, resource, foos, v2, machinery,
}
use apiextensions_apiserver.Conversion.Converter.Factory.Correct.{
  IsClient, new_converter-ConversionOutcome, Declares,
}
use apiextensions_apiserver.Conversion.Webhook.Called.{webhook_convert-IsCalled, IsCalled}
use apiextensions_apiserver.Crd.Tests.{foo}
use apiextensions_apiserver.Conversion.Webhook.Panics.{panicked-webhook_convert}
use apiextensions_apiserver.Conversion.Metadata.Valid.{
  restore_object_meta-IsValidField, IsValidField,
}
use apiextensions_apiserver.Conversion.Converter.Factory.{
  webhook_client_config_for_crd, new_webhook_converter, new_converter,
}
use apiextensions_apiserver.Conversion.Metadata.Restored.{restore_object_meta-Restored, Restored}
use apiextensions_apiserver.Conversion.Converter.Versions.{
  convert_to_version-IsDelegated, IsDelegated,
}
use apiextensions_apiserver.Crd.{Conversion, Crd}
use apiextensions_apiserver.Conversion.Nop.{nop_convert}
use apiextensions_apiserver.Conversion.Webhook.Correct.{AreFrom, ConversionOutcome}
use apiextensions_apiserver.Conversion.Panics.{panicked}
use apiextensions_apiserver.Conversion.Converter.{convert_to_version, CrConverter}
use apiextensions_apiserver.Conversion.Metadata.{restore_object_meta, validate_converted_object}
use apiextensions_apiserver.Conversion.Webhook.{convert_item, convert_items, webhook_convert}
use apiextensions_apiserver.Conversion.Review.{
  Review, ReviewRequest, items_to_convert, get_converted_objects_from_response,
  get_objects_to_convert, create_conversion_review_objects, is_empty_unstructured_object,
}
use apiextensions_apiserver.Conversion.{
  RawExtension, object_gvk, no_hook_client, with_kind, ConversionError, Object, group_version, Gvk,
}
use apiextensions_apiserver.Schema.Json.{
  str, Members, member, remove, len_members, obj, no_members, assign, find,
}
use apiextensions_apiserver.Prelude.{
  inl, List, String, ◌⊎◌, err, true, refl, ok, ◌≡◌, Result, Option, some, none, [], ◌∷◌, false,
}

nop_convert-IsObjectRetargeted_example :
    IsObjectRetargeted machinery v1 foos_in_v2 (nop_convert machinery foos_in_v2 v1)
nop_convert-IsObjectRetargeted_example =
    nop_convert-IsObjectRetargeted machinery v1 machinery-Sets foos_in_v2

restore_object_meta-Restored_example :
    Restored (resource v1 "a" no_members) (resource v2 "b" red) (resource v2 "a" red)
unfolding machinery restore_object_meta find assign remove len_members
restore_object_meta-Restored_example =
    restore_object_meta-Restored machinery (resource v1 "a" no_members) (resource v2 "b" red)
      (resource v2 "a" red) refl

abbrev only_labels : Members
only_labels = member "apiVersion" (str "example.com/v2") (
    member "kind" (str "Foo")
      (member "metadata" (obj (member "labels" (obj red) no_members)) no_members))

-- The annotations are not returned.
restore_object_meta-IsValidField_example :
    IsValidField machinery "labels" (some (obj no_members)) red
unfolding machinery restore_object_meta find assign remove len_members
restore_object_meta-IsValidField_example =
    restore_object_meta-IsValidField machinery "labels" (resource v1 "a" no_members) only_labels
      (assign "metadata"
        (obj
          (member "name" (str "a") (member "uid" (str "7") (member "labels" (obj red) no_members))))
        only_labels)
      red (inl refl) refl refl

panicked-webhook_convert_example :
    panicked (webhook_convert machinery call ("v1" ∷ []) "u" foos v2).1 ≡ false
panicked-webhook_convert_example = panicked-webhook_convert machinery call ("v1" ∷ []) "u" foos v2

webhook_convert-IsCalled_example :
    ((webhook_convert machinery call ("v1beta1" ∷ []) "u" foos v2).0 ≡ foos)
    × (IsCalled call
          ("v1beta1" ∷ [])
          "u"
          "example.com/v2"
          (get_objects_to_convert machinery foos "example.com/v2")
        ⊎ (e : ConversionError) × ((webhook_convert machinery call ("v1beta1" ∷ []) "u" foos v2).1
            ≡ err e))
unfolding machinery is_empty_unstructured_object get_objects_to_convert items_to_convert find
webhook_convert-IsCalled_example =
    webhook_convert-IsCalled machinery call ("v1beta1" ∷ []) "u" foos v2 refl refl

-- The CRD of the resources, whose webhook converts them.
abbrev foos_conversion : Conversion
foos_conversion = record {
  strategy = "Webhook";
  webhook = some (record {
    client_config =
        some (record { url = some "https://example.com"; service = none; ca_bundle = [] });
    conversion_review_versions = some ("v1beta1" ∷ []);
  });
}

abbrev foos_crd : Crd
foos_crd = record foo {
  spec = record foo.spec { group = "example.com"; conversion = some foos_conversion };
}

abbrev foos_converter : CrConverter
foos_converter = record {
  convert_scale = false;
  converter = λ in_object gv. webhook_convert machinery call ("v1beta1" ∷ []) "u" in_object gv;
  valid_versions = v1 ∷ v2 ∷ [];
  cluster_scoped = true;
  selectable_fields = [];
}

abbrev to_v2 : Gvk → Option Gvk
to_v2 gvk = some (with_kind v2 (gvk.kind))

abbrev scheme : Object → (Gvk → Option Gvk) → Object × Result ConversionError Object
scheme o target = (o, err (no_hook_client "no scale"))

convert_to_version-IsDelegated_example :
    IsDelegated machinery foos_converter foos to_v2
      (convert_to_version machinery scheme foos_converter foos to_v2)
    ⊎ (e : ConversionError) × (convert_to_version machinery scheme foos_converter foos to_v2
        ≡ (foos, err e))
convert_to_version-IsDelegated_example =
    convert_to_version-IsDelegated machinery scheme foos_converter foos to_v2 refl

new_converter-ConversionOutcome_example :
    (to : Gvk) × (to_v2 (object_gvk machinery foos) ≡ some to)
    × Declares foos_crd (group_version to)
    × Declares foos_crd (group_version (object_gvk machinery foos))
    × (client : ReviewRequest → Review → Result String Review) × IsClient machinery
        (λ config. ok call)
        (λ o gv. "u")
        foos_crd
        client
    × (versions : List String) × (objects : List RawExtension) × AreFrom machinery client versions
        "u"
        (group_version to)
        foos
        objects
    × ConversionOutcome machinery (group_version to) foos objects foos_in_v2
unfolding machinery new_converter new_webhook_converter webhook_client_config_for_crd
    convert_to_version webhook_convert call is_empty_unstructured_object
    create_conversion_review_objects get_objects_to_convert find get_converted_objects_from_response
    convert_items convert_item validate_converted_object restore_object_meta len_members assign
    remove
new_converter-ConversionOutcome_example =
    new_converter-ConversionOutcome machinery (λ config. ok call) (λ o gv. "u") machinery-Documented
      scheme false foos_crd foos_conversion foos_converter foos to_v2 foos_in_v2 refl refl refl refl
      refl refl
