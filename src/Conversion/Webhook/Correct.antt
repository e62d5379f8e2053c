-- ===== src/Conversion/Webhook/Correct.antt =====
-- pkg/apiserver/conversion/webhook_converter.go: Convert returns what a conversion may return.
use apiextensions_apiserver.Conversion.Webhook.Called.{IsCalled, is_called}
use apiextensions_apiserver.Conversion.Webhook.Outcome.{
  ok-wrap, ok-as_unstructured, IsConverted-restored, Turned-convert_items, Turned-items_to_convert,
}
use apiextensions_apiserver.Conversion.Metadata.{restore_object_meta, validate_converted_object}
use apiextensions_apiserver.Conversion.Webhook.Outcome.{IsConverted, Turned}
use apiextensions_apiserver.Schema.Json.{Members}
use mathlib.Core.Path.{subst}
use apiextensions_apiserver.Conversion.Webhook.{
  wrap, check_gvk, as_unstructured, convert_items, convert_single, convert_response, checked_count,
  called, nothing_to_convert, webhook_answer, webhook_convert,
}
use apiextensions_apiserver.Conversion.Review.{
  get_converted_objects_from_response, create_conversion_review_objects,
  is_empty_unstructured_object, get_objects_to_convert, get_raw_extension_object, Review,
  ReviewRequest,
}
use apiextensions_apiserver.Conversion.{
  webhook_failed, invalid_object_meta, invalid_object, group_version, wrong_type, RawExtension, Gvk,
  object_gvk, Gv, Documented, single, many, typed_scale, Object, Machinery,
}
use apiextensions_apiserver.Prelude.{
  ap, ◌∙◌, eq_iff, inr, arith, inl, nat_eq, Bool-cases, ok_injective, ◌⊎◌, sym, ◌≢◌, >>=-eq-ok, ◌≡◌,
  List, String, length, Result, refl, [], ◌∷◌, false, ok,
}

module _ (m : Machinery) where
  -- A list has its version set and its items turned by the returned objects; a single object that is
  -- not in the version is converted by the only one; a typed Scale cannot be converted.
  abbrev pub ConversionOutcome : Gv → Object → List RawExtension → Object → Type 0
  ConversionOutcome gv (many ms items) objects result =
      (turned : List Members) × (result ≡ many (m.set_api_version (m.gv_string gv) ms) turned)
      × Turned m gv items objects turned
  ConversionOutcome gv (single ms) objects result =
      (m.gv_string (group_version (m.gvk_of ms)) ≡ m.gv_string gv) × (result ≡ single ms)
      ⊎ (rx : RawExtension) × (item : Members) × (objects ≡ rx ∷ [])
        × (result ≡ single item)
        × IsConverted m gv rx ms item
  ConversionOutcome gv (typed_scale gvk ms) objects result =
      (m.gv_string (group_version gvk) ≡ m.gv_string gv) × (result ≡ typed_scale gvk ms)

  -- The objects are those of the webhook's answer to a request for what is to be converted, or there
  -- are none and the webhook is not needed.
  abbrev pub AreFrom :
      (ReviewRequest → Review → Result String Review)
      → List String
      → String
      → Gv
      → Object
      → List RawExtension
      → Type 0
  AreFrom call versions request_uid gv in_object objects =
      (objects ≡ [])
      ⊎ (is_called : IsCalled call versions request_uid (m.gv_string gv)
          (get_objects_to_convert m in_object (m.gv_string gv)))
        × (is_called.objects ≡ objects)

  nothing_to_convert-ConversionOutcome :
      (gv : Gv) (in_object : Object)
      → length (get_objects_to_convert m in_object (m.gv_string gv)) ≡ 0
      → ConversionOutcome gv in_object [] (nothing_to_convert m gv in_object)
  unfolding nothing_to_convert get_objects_to_convert object_gvk
  nothing_to_convert-ConversionOutcome gv (many ms items) h =
      (items, refl, Turned-items_to_convert m gv items h)
  nothing_to_convert-ConversionOutcome gv (single ms) h =
      inl (
        ground (arith, h, eq_iff (m.gv_string (group_version (m.gvk_of ms))) (m.gv_string gv)),
        refl,
      )
  nothing_to_convert-ConversionOutcome gv (typed_scale gvk ms) h =
      (ground (arith, h, eq_iff (m.gv_string (group_version gvk)) (m.gv_string gv)), refl)

  module _ (documented : Documented m) where
    convert_single-ConversionOutcome :
        (gv : Gv) (ms : Members) (objects : List RawExtension) (result : Object)
        → convert_single m gv (single ms) objects ≡ ok result
        → ConversionOutcome gv (single ms) objects result
    unfolding convert_single as_unstructured
    convert_single-ConversionOutcome gv ms [] result h = cc
    convert_single-ConversionOutcome gv ms (rx ∷ other ∷ objects) result h = cc
    convert_single-ConversionOutcome gv ms (rx ∷ []) result h =
        let (converted, e, h₁) = >>=-eq-ok (get_raw_extension_object m rx) _ h in
        let (done, e₁, h₂) = >>=-eq-ok (check_gvk m gv (single ms) converted) _ h₁ in
        let (out, e₂, h₃) = >>=-eq-ok (as_unstructured wrong_type converted) _ h₂ in
        let (valid, e₃, h₄) =
          >>=-eq-ok (wrap invalid_object (validate_converted_object m ms out)) _ h₃ in
        let (item, e₄, h₅) =
          >>=-eq-ok (wrap invalid_object_meta (restore_object_meta m ms out)) _ h₄ in
        let is_single = ok-as_unstructured m wrong_type converted out e₂ in
        inr (
          rx,
          item,
          refl,
          sym (ok_injective h₅),
          IsConverted-restored m documented gv rx ms out item done valid (e ∙ ap ok is_single)
              (subst (λ o. check_gvk m gv (single ms) o ≡ ok done) is_single e₁)
              (ok-wrap m invalid_object (validate_converted_object m ms out) valid e₃)
              (ok-wrap m invalid_object_meta (restore_object_meta m ms out) item e₄),
        )

    convert_single-typed_scale :
        (gv : Gv) (gvk : Gvk) (ms : Members) (objects : List RawExtension) (result : Object)
        → convert_single m gv (typed_scale gvk ms) objects ≢ ok result
    unfolding convert_single as_unstructured
    convert_single-typed_scale gv gvk ms [] result h = cc
    convert_single-typed_scale gv gvk ms (rx ∷ other ∷ objects) result h = cc
    convert_single-typed_scale gv gvk ms (rx ∷ []) result h =
        let (converted, e, h₁) = >>=-eq-ok (get_raw_extension_object m rx) _ h in
        let (done, e₁, h₂) = >>=-eq-ok (check_gvk m gv (typed_scale gvk ms) converted) _ h₁ in
        let (out, e₂, h₃) = >>=-eq-ok (as_unstructured wrong_type converted) _ h₂ in cc

    convert_response-ConversionOutcome :
        (gv : Gv) (in_object : Object) (objects : List RawExtension) (result : Object)
        → convert_response m gv in_object objects ≡ ok result
        → ConversionOutcome gv in_object objects result
    unfolding convert_response
    convert_response-ConversionOutcome gv (many ms items) objects result h =
        let (turned, e, h₁) = >>=-eq-ok (convert_items m (m.gvk_of ms) gv objects 0 items) _ h in
        (
          turned,
          sym (ok_injective h₁),
          Turned-convert_items m documented (m.gvk_of ms) gv objects 0 items turned e,
        )
    convert_response-ConversionOutcome gv (single ms) objects result h =
        convert_single-ConversionOutcome gv ms objects result h
    convert_response-ConversionOutcome gv (typed_scale gvk ms) objects result h =
        elim (convert_single-typed_scale gv gvk ms objects result h) [ ]

    webhook_answer-ConversionOutcome :
        (call : ReviewRequest → Review → Result String Review) (versions : List String)
        (request_uid : String) (in_object : Object) (gv : Gv) (result : Object)
        → webhook_answer m call versions request_uid in_object gv ≡ ok result
        → (objects : List RawExtension) × AreFrom call versions request_uid gv in_object objects
          × ConversionOutcome gv in_object objects result
    unfolding webhook_answer
    webhook_answer-ConversionOutcome call versions request_uid in_object gv result h =
        let to_convert = get_objects_to_convert m in_object (m.gv_string gv) in
        let in_gvk = object_gvk m in_object in
        let (review, e, h₁) =
          >>=-eq-ok
            (create_conversion_review_objects versions to_convert (m.gv_string gv) request_uid) _
            h in
        elim (Bool-cases (nat_eq (length to_convert) 0)) [
          | inl none_to_convert ↦ (
            [],
            inl refl,
            subst (ConversionOutcome gv in_object []) (ok_injective (rw none_to_convert at h₁)) (
                nothing_to_convert-ConversionOutcome gv in_object
                  (ground (arith, none_to_convert))),
          )
          | inr some_to_convert ↦
              let (response, e₁, h₂) =
                >>=-eq-ok (called m call versions request_uid in_gvk (review.0) (review.1)) _
                  (rw some_to_convert at h₁) in
              let (objects, e₂, h₃) =
                >>=-eq-ok
                  (wrap (webhook_failed in_gvk)
                    (get_converted_objects_from_response request_uid response))
                  _ h₂ in
              let (done, e₃, h₄) =
                >>=-eq-ok (checked_count m in_gvk (length to_convert) objects) _ h₃ in
              (
                objects,
                inr (
                    is_called m call versions request_uid in_object gv (review.0) (review.1)
                      response objects done e e₁ e₂ e₃),
                convert_response-ConversionOutcome gv in_object objects result h₄,
              )
        ]

    -- Whatever the webhook responds: when an object that is not empty is converted without an error,
    -- what is returned is an outcome of the conversion by the objects of the webhook's answer.
    pub webhook_convert-ConversionOutcome :
        (call : ReviewRequest → Review → Result String Review) (versions : List String)
        (request_uid : String) (in_object : Object) (gv : Gv) (result : Object)
        → is_empty_unstructured_object in_object ≡ false
        → (webhook_convert m call versions request_uid in_object gv).1 ≡ ok result
        → (objects : List RawExtension) × AreFrom call versions request_uid gv in_object objects
          × ConversionOutcome gv in_object objects result
    unfolding webhook_convert
    webhook_convert-ConversionOutcome call versions request_uid in_object gv result not_empty h =
        webhook_answer-ConversionOutcome call versions request_uid in_object gv result
          (rw (webhook_convert, not_empty) at h)
