-- ===== src/Conversion/Review/Panics.antt =====
-- pkg/apiserver/conversion/webhook_converter.go: the request and the response lead to no panic.
use apiextensions_apiserver.Conversion.{RawExtension, Machinery, Object}
use apiextensions_apiserver.Conversion.Review.{
  Review, create_conversion_review_objects, ConversionResponse, get_converted_objects_from_response,
  get_raw, successful, get_raw_extension_object, v1_review, v1beta1_review, other_review,
}
use apiextensions_apiserver.Conversion.Panics.{panicked}
use apiextensions_apiserver.Prelude.{
  inr, inl, Option-cases, arith, List, String, ◌≡◌, Option, refl, [], ◌∷◌, some, none, false,
}

panicked-get_raw :
    (m : Machinery) (o : Option Object) (raw : String) → panicked (get_raw m o raw) ≡ false
unfolding get_raw panicked
panicked-get_raw m (some o) raw = refl
panicked-get_raw m none raw = elim (Option-cases (m.unmarshal raw)) [
  | inl e ↦ rw (panicked, get_raw, e)
  | inr (ms, e) ↦ rw (panicked, get_raw, e)
]

pub panicked-get_raw_extension_object :
    (m : Machinery) (rx : RawExtension) → panicked (get_raw_extension_object m rx) ≡ false
unfolding get_raw_extension_object
panicked-get_raw_extension_object m rx = panicked-get_raw m (rx.object) (rx.raw)

pub panicked-create_conversion_review_objects :
    (versions : List String) (objects : List RawExtension) (api_version request_uid : String)
    → panicked (create_conversion_review_objects versions objects api_version request_uid) ≡ false
unfolding create_conversion_review_objects panicked
panicked-create_conversion_review_objects [] objects api_version request_uid = refl
panicked-create_conversion_review_objects (v ∷ vs) objects api_version request_uid =
    ground (arith, panicked-create_conversion_review_objects vs objects api_version request_uid)

panicked-successful : (response : ConversionResponse) → panicked (successful response) ≡ false
unfolding successful panicked
panicked-successful response = ground arith

pub panicked-get_converted_objects_from_response :
    (uid : String) (review : Review)
    → panicked (get_converted_objects_from_response uid review) ≡ false
unfolding get_converted_objects_from_response panicked
panicked-get_converted_objects_from_response uid (v1_review gvk none) = ground arith
panicked-get_converted_objects_from_response uid (v1_review gvk (some response)) =
    ground (arith, panicked-successful response)
panicked-get_converted_objects_from_response uid (v1beta1_review none) = refl
panicked-get_converted_objects_from_response uid (v1beta1_review (some response)) =
    panicked-successful response
panicked-get_converted_objects_from_response uid other_review = refl
