-- ===== src/Conversion/Webhook/Called.antt =====
-- pkg/apiserver/conversion/webhook_converter.go: the call behind a conversion that succeeds.
use apiextensions_apiserver.Conversion.Webhook.{
  wrap, checked_count, called, webhook_answer, webhook_convert,
}
use apiextensions_apiserver.Conversion.Webhook.Outcome.{ok-wrap}
use apiextensions_apiserver.Conversion.Webhook.Panics.{length-checked_count}
use apiextensions_apiserver.Conversion.Review.Accepted.{
  Accepted, Requests, Accepted-get_converted_objects_from_response,
  Requests-create_conversion_review_objects,
}
use apiextensions_apiserver.Conversion.Review.{
  is_empty_unstructured_object, get_converted_objects_from_response,
  create_conversion_review_objects, get_objects_to_convert, Review, ReviewRequest,
}
use apiextensions_apiserver.Conversion.{
  webhook_failed, object_gvk, RawExtension, Gvk, Gv, ConversionError, Object, Machinery,
}
use apiextensions_apiserver.Prelude.{
  refl, ok_injective, ap, inr, ◌∙◌, >>=-eq-ok, inl, ◌⊎◌, Result-cases, length, nat_eq, ◌≡◌, List,
  String, Result, false, ok, err,
}

-- The webhook was asked for the objects and its answer was accepted, with an object for each.
pub record IsCalled (call : ReviewRequest → Review → Result String Review) (versions : List String)
    (request_uid api_version : String) (to_convert : List RawExtension) : Type 0 where
  pub request : ReviewRequest
  pub empty : Review
  pub response : Review
  pub objects : List RawExtension
  pub requests : Requests versions to_convert api_version request_uid request
  pub answers : call request empty ≡ ok response
  pub accepted : Accepted request_uid response objects
  pub complete : length objects ≡ length to_convert

module _ (m : Machinery) (call : ReviewRequest → Review → Result String Review)
    (versions : List String) (request_uid : String) where
  ok-called :
      (gvk : Gvk) (request : ReviewRequest) (review response : Review)
      → called m call versions request_uid gvk request review ≡ ok response
      → call request review ≡ ok response
  unfolding called
  ok-called gvk request review response h = elim (Result-cases (call request review)) [
    | inl (r, e) ↦ e ∙ ap ok (ok_injective (rw (called, e) at h))
    | inr (f, e) ↦ cc (rw (called, e) at h)
  ]

  -- The steps of a conversion up to the count of the objects.
  pub is_called :
      (in_object : Object) (gv : Gv) (request : ReviewRequest) (review response : Review)
      (objects : List RawExtension) (done : Unit {0})
      → create_conversion_review_objects versions
          (get_objects_to_convert m in_object (m.gv_string gv))
          (m.gv_string gv)
          request_uid
        ≡ ok (request, review)
      → called m call versions request_uid (object_gvk m in_object) request review ≡ ok response
      → wrap
          (webhook_failed (object_gvk m in_object))
          (get_converted_objects_from_response request_uid response)
        ≡ ok objects
      → checked_count m
          (object_gvk m in_object)
          (length (get_objects_to_convert m in_object (m.gv_string gv)))
          objects
        ≡ ok done
      → (c : IsCalled call versions request_uid
          (m.gv_string gv)
          (get_objects_to_convert m in_object (m.gv_string gv)))
        × (c.objects ≡ objects)
  is_called in_object gv request review response objects done e e₁ e₂ e₃ =
      let to_convert = get_objects_to_convert m in_object (m.gv_string gv) in
      let in_gvk = object_gvk m in_object in
      (
        record {
          request = request;
          empty = review;
          response = response;
          objects = objects;
          requests =
              Requests-create_conversion_review_objects versions to_convert (m.gv_string gv)
                request_uid request review e;
          answers = ok-called in_gvk request review response e₁;
          accepted = Accepted-get_converted_objects_from_response request_uid response objects (
              ok-wrap m (webhook_failed in_gvk)
                (get_converted_objects_from_response request_uid response) objects e₂);
          complete = length-checked_count m in_gvk (length to_convert) objects done e₃;
        },
        refl,
      )

  IsCalled-webhook_answer :
      (in_object : Object) (gv : Gv) (result : Object)
      → nat_eq (length (get_objects_to_convert m in_object (m.gv_string gv))) 0 ≡ false
      → webhook_answer m call versions request_uid in_object gv ≡ ok result
      → IsCalled call versions request_uid
          (m.gv_string gv)
          (get_objects_to_convert m in_object (m.gv_string gv))
  unfolding webhook_answer
  IsCalled-webhook_answer in_object gv result some_to_convert h =
      let to_convert = get_objects_to_convert m in_object (m.gv_string gv) in
      let in_gvk = object_gvk m in_object in
      let (review, e, h₁) =
        >>=-eq-ok
          (create_conversion_review_objects versions to_convert (m.gv_string gv) request_uid) _ h in
      let (response, e₁, h₂) =
        >>=-eq-ok (called m call versions request_uid in_gvk (review.0) (review.1)) _
          (rw some_to_convert at h₁) in
      let (objects, e₂, h₃) =
        >>=-eq-ok
          (wrap (webhook_failed in_gvk) (get_converted_objects_from_response request_uid response))
          _ h₂ in
      let (done, e₃, h₄) = >>=-eq-ok (checked_count m in_gvk (length to_convert) objects) _ h₃ in
      (is_called in_object gv (review.0) (review.1) response objects done e e₁ e₂ e₃).0

  -- When anything is to convert in an object that is not empty, the conversion succeeds only by a call:
  -- a request of a version in the CRD's list for exactly those objects, whose answer is accepted and has
  -- as many objects. So a failed call, another UID or kind in v1, a status other than Success, and a
  -- wrong number of objects are errors, and the argument is never changed.
  pub webhook_convert-IsCalled :
      (in_object : Object) (gv : Gv)
      → is_empty_unstructured_object in_object ≡ false
      → nat_eq (length (get_objects_to_convert m in_object (m.gv_string gv))) 0 ≡ false
      → ((webhook_convert m call versions request_uid in_object gv).0 ≡ in_object)
        × (IsCalled call versions request_uid
              (m.gv_string gv)
              (get_objects_to_convert m in_object (m.gv_string gv))
            ⊎ (e : ConversionError) × ((webhook_convert m call versions request_uid in_object gv).1
                ≡ err e))
  unfolding webhook_convert
  webhook_convert-IsCalled in_object gv not_empty some_to_convert = (
    rw not_empty,
    elim (Result-cases (webhook_answer m call versions request_uid in_object gv)) [
      | inl (result, e) ↦ inl (IsCalled-webhook_answer in_object gv result some_to_convert e)
      | inr (f, e) ↦ inr (f, rw (webhook_convert, not_empty) e)
    ],
  )
