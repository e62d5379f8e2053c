-- ===== src/Conversion/Review.antt =====
-- pkg/apiserver/conversion/webhook_converter.go, lines 122 to 234 and 481 to 498: what is asked of the
-- webhook and what is taken from its response.
pub mod Accepted
pub mod Panics
use apiextensions_apiserver.Schema.Json.{find, len_members, Json, Members}
use apiextensions_apiserver.Conversion.{
  unrecognized_response, wrong_uid, no_response, unsuccessful, webhook_message, wrong_review,
  gvk_eq, undecodable, group_version, no_review_version, single, many, RawExtension,
  ConversionError, Machinery, object_gvk, Gvk, Object,
}
use apiextensions_apiserver.Prelude.{
  ◌≡◌, [], ◌&&◌, none, false, ◌==◌, not, true, ok, nat_eq, some, if◌then◌else◌, ◌∷◌, err, Bool,
  String, Option, Result, List,
}

is_some : Option Json → Bool
is_some (some v) = true
is_some none = false

-- v1.ConversionRequest and v1beta1.ConversionRequest
pub record ConversionRequest : Type 0 where
  pub objects : List RawExtension
  pub desired_api_version : String
  pub uid : String

-- v1.ConversionResponse and v1beta1.ConversionResponse, with the status and message of their
-- result.
pub record ConversionResponse : Type 0 where
  pub uid : String
  pub converted_objects : List RawExtension
  pub status : String
  pub message : String

pub data ReviewRequest : Type 0 where
  v1_request v1beta1_request : ConversionRequest → ReviewRequest

-- The object that the webhook's answer is decoded into, the v1 one with its group, version and
-- kind.
pub data Review : Type 0 where
  v1_review : Gvk → Option ConversionResponse → Review
  v1beta1_review : Option ConversionResponse → Review
  other_review : Review

abbrev no_gvk : Gvk
no_gvk = record { group = ""; version = ""; kind = "" }

abbrev pub review_gvk : Gvk
review_gvk = record { group = "apiextensions.k8s.io"; version = "v1"; kind = "ConversionReview" }

get_raw : Machinery → Option Object → String → Result ConversionError Object
get_raw m (some o) raw = ok o
get_raw m none raw = elim (m.unmarshal raw) [ some ms ↦ ok (single ms) | none ↦ err undecodable ]

unfoldable pub get_raw_extension_object : Machinery → RawExtension → Result ConversionError Object
unfolding get_raw
get_raw_extension_object m rx = get_raw m (rx.object) (rx.raw)

-- Items of a list that are not yet in the desired version.
unfoldable pub items_to_convert : Machinery → String → List Members → List RawExtension
items_to_convert m api_version [] = []
items_to_convert m api_version (item ∷ items) =
    let rest = items_to_convert m api_version items in
    if not (m.api_version_of item == api_version)
    then (record { object = some (single item); raw = "" }) ∷ rest
    else rest

unfoldable pub get_objects_to_convert : Machinery → Object → String → List RawExtension
unfolding items_to_convert object_gvk
get_objects_to_convert m (many ms items) api_version = items_to_convert m api_version items
get_objects_to_convert m o api_version =
    if not (m.gv_string (group_version (object_gvk m o)) == api_version)
    then (record { object = some o; raw = "" }) ∷ []
    else []

conversion_request : List RawExtension → String → String → ConversionRequest
conversion_request objects api_version request_uid = record {
  objects = objects;
  desired_api_version = api_version;
  uid = request_uid;
}

unfoldable pub create_conversion_review_objects :
    List String
    → List RawExtension
    → String
    → String
    → Result ConversionError (ReviewRequest × Review)
unfolding conversion_request
create_conversion_review_objects [] objects api_version request_uid = err no_review_version
create_conversion_review_objects (version ∷ versions) objects api_version request_uid =
    let rest = create_conversion_review_objects versions objects api_version request_uid in
    let request = conversion_request objects api_version request_uid in
    if version == "v1beta1"
    then ok (v1beta1_request request, v1beta1_review none)
    else if version == "v1"
    then ok (v1_request request, v1_review no_gvk none)
    else rest

-- The test of response.result.status, the same for the two versions.
successful : ConversionResponse → Result ConversionError (List RawExtension)
successful response =
    if not (response.status == "Success")
    then (if not (response.message == "")
        then err (webhook_message (response.message))
        else err (unsuccessful (response.status)))
    else ok (response.converted_objects)

unfoldable pub get_converted_objects_from_response :
    String → Review → Result ConversionError (List RawExtension)
unfolding successful
get_converted_objects_from_response expected_uid (v1_review gvk none) =
    if not (gvk_eq gvk review_gvk) then err (wrong_review gvk) else err no_response
get_converted_objects_from_response expected_uid (v1_review gvk (some response)) =
    if not (gvk_eq gvk review_gvk)
    then err (wrong_review gvk)
    else if not (response.uid == expected_uid)
    then err (wrong_uid expected_uid (response.uid))
    else successful response
get_converted_objects_from_response expected_uid (v1beta1_review none) = err no_response
get_converted_objects_from_response expected_uid (v1beta1_review (some response)) =
    successful response
get_converted_objects_from_response expected_uid other_review = err unrecognized_response

unfoldable pub is_empty_unstructured_object : Object → Bool
unfolding is_some
is_empty_unstructured_object (single ms) =
    nat_eq (len_members ms) 2 && is_some (find "kind" ms) && is_some (find "apiVersion" ms)
is_empty_unstructured_object o = false

module _ (m : Machinery) (api_version : String) (item : Members) (items : List Members) where
  pub items_to_convert-in_version :
      (m.api_version_of item == api_version) ≡ true
      → items_to_convert m api_version (item ∷ items) ≡ items_to_convert m api_version items
  unfolding items_to_convert
  items_to_convert-in_version e = rw e

  pub items_to_convert-other_version :
      (m.api_version_of item == api_version) ≡ false
      → items_to_convert m api_version (item ∷ items)
        ≡ record { object = some (single item); raw = "" } ∷ items_to_convert m api_version items
  unfolding items_to_convert
  items_to_convert-other_version e = rw e
