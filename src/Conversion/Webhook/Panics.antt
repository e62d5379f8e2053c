-- ===== src/Conversion/Webhook/Panics.antt =====
-- pkg/apiserver/conversion/webhook_converter.go: whatever the webhook responds, the conversion does
-- not panic.
use apiextensions_apiserver.Conversion.Metadata.Panics.{
  panicked-restore_object_meta, panicked-validate_converted_object,
}
use apiextensions_apiserver.Conversion.Metadata.{restore_object_meta, validate_converted_object}
use apiextensions_apiserver.Conversion.Review.Panics.{
  panicked-get_converted_objects_from_response, panicked-create_conversion_review_objects,
  panicked-get_raw_extension_object,
}
use apiextensions_apiserver.Schema.Json.{Members}
use apiextensions_apiserver.Conversion.Review.{
  get_converted_objects_from_response, create_conversion_review_objects,
  items_to_convert-other_version, is_empty_unstructured_object, items_to_convert-in_version,
  get_raw_extension_object, ReviewRequest, Review, items_to_convert, get_objects_to_convert,
}
use apiextensions_apiserver.Conversion.Webhook.{
  webhook_answer, webhook_convert, wrap, check_gvk, as_unstructured, get_elem, convert_item,
  convert_items, convert_single, convert_response, checked_count, called,
}
use apiextensions_apiserver.Conversion.{
  webhook_failed, invalid_object_meta, object_gvk, invalid_object, wrong_input_type,
  invalid_item_meta, wrong_type, invalid_item, Gvk, Gv, RawExtension, Machinery, single, many,
  typed_scale, ConversionError, Object,
}
use apiextensions_apiserver.Conversion.Panics.{is_panic, panicked, panicked-bind}
use apiextensions_apiserver.Prelude.{
  nat_eq, Result-cases, String, ap, inr, inl, ◌==◌, Bool-cases, ◌≤◌, length, ◌+◌, ◌<◌, arith, ℕ,
  ◌∙◌, ◌≡◌, Result, List, refl, [], ◌∷◌, false, ok, err, zero, suc,
}

panicked-wrap {ℓ} :
    {A : Type ℓ} (f : ConversionError → ConversionError) (r : Result ConversionError A)
    → ((e : ConversionError) → is_panic (f e) ≡ is_panic e)
    → panicked r ≡ false
    → panicked (wrap f r) ≡ false
unfolding wrap panicked
panicked-wrap f (ok a) keeps h = refl
panicked-wrap f (err e) keeps h = keeps e ∙ h

panicked-as_unstructured :
    (e : ConversionError) (o : Object) → is_panic e ≡ false → panicked (as_unstructured e o) ≡ false
unfolding as_unstructured panicked
panicked-as_unstructured e (single ms) h = refl
panicked-as_unstructured e (many ms items) h = h
panicked-as_unstructured e (typed_scale gvk ms) h = h

panicked-get_elem :
    (xs : List RawExtension) (i : ℕ) → i < length xs → panicked (get_elem xs i) ≡ false
unfolding get_elem panicked
panicked-get_elem [] i h = ground (arith, h)
panicked-get_elem (x ∷ xs) zero h = refl
panicked-get_elem (x ∷ xs) (suc i) h = panicked-get_elem xs i (omega (arith, h))

module _ (m : Machinery) where
  panicked-check_gvk :
      (gv : Gv) (original converted : Object) → panicked (check_gvk m gv original converted) ≡ false
  unfolding check_gvk panicked is_panic
  panicked-check_gvk gv original converted = ground arith

  panicked-convert_item :
      (in_gvk : Gvk) (gv : Gv) (i : ℕ) (original : Members) (rx : RawExtension)
      → panicked (convert_item m in_gvk gv i original rx) ≡ false
  unfolding convert_item is_panic
  panicked-convert_item in_gvk gv i original rx =
      let at = invalid_item in_gvk i in
      panicked-bind (wrap at (get_raw_extension_object m rx)) _
        (panicked-wrap at _ (λ e. refl) (panicked-get_raw_extension_object m rx))
        (λ converted e.
          panicked-bind (wrap at (check_gvk m gv (single original) converted)) _
            (panicked-wrap at _ (λ e. refl) (panicked-check_gvk gv (single original) converted))
            (λ checked e₁.
              panicked-bind (wrap at (as_unstructured wrong_type converted)) _
                (panicked-wrap at _ (λ e. refl)
                  (panicked-as_unstructured wrong_type converted refl))
                (λ out e₂.
                  panicked-bind (wrap at (validate_converted_object m original out)) _
                    (panicked-wrap at _ (λ e. refl)
                      (panicked-validate_converted_object m original out))
                    (λ valid e₃.
                      panicked-wrap (invalid_item_meta in_gvk i) _ (λ e. refl)
                        (panicked-restore_object_meta m original out)))))

  -- There is an object in the response for each item that is not in the version.
  panicked-convert_items :
      (in_gvk : Gvk) (gv : Gv) (objects : List RawExtension) (i : ℕ) (items : List Members)
      → i + length (items_to_convert m (m.gv_string gv) items) ≤ length objects
      → panicked (convert_items m in_gvk gv objects i items) ≡ false
  unfolding convert_items items_to_convert panicked
  panicked-convert_items in_gvk gv objects i [] h = refl
  panicked-convert_items in_gvk gv objects i (original ∷ items) h =
      elim (Bool-cases (m.api_version_of original == m.gv_string gv)) [
        | inl e ↦
            let size =
              ap length (items_to_convert-in_version m (m.gv_string gv) original items e) in
            rw (convert_items, e)
              (panicked-bind (convert_items m in_gvk gv objects i items) _
                (panicked-convert_items in_gvk gv objects i items (omega (arith, h, size)))
                (λ rest e₁. refl))
        | inr e ↦
            let size =
              ap length (items_to_convert-other_version m (m.gv_string gv) original items e) in
            rw (convert_items, e)
              (panicked-bind (get_elem objects i) _
                (panicked-get_elem objects i (omega (arith, h, size)))
                (λ rx e₁.
                  panicked-bind (convert_item m in_gvk gv i original rx) _
                    (panicked-convert_item in_gvk gv i original rx)
                    (λ converted e₂.
                      panicked-bind (convert_items m in_gvk gv objects (suc i) items) _
                        (panicked-convert_items in_gvk gv objects (suc i) items
                          (omega (arith, h, size)))
                        (λ rest e₃. refl))))
      ]

  panicked-convert_single :
      (gv : Gv) (in_object : Object) (objects : List RawExtension)
      → panicked (convert_single m gv in_object objects) ≡ false
  unfolding convert_single panicked is_panic
  panicked-convert_single gv in_object [] = refl
  panicked-convert_single gv in_object (rx ∷ other ∷ objects) = refl
  panicked-convert_single gv in_object (rx ∷ []) =
      panicked-bind (get_raw_extension_object m rx) _ (panicked-get_raw_extension_object m rx)
        (λ converted e.
          panicked-bind (check_gvk m gv in_object converted) _
            (panicked-check_gvk gv in_object converted)
            (λ checked e₁.
              panicked-bind (as_unstructured wrong_type converted) _
                (panicked-as_unstructured wrong_type converted refl)
                (λ out e₂.
                  panicked-bind (as_unstructured wrong_input_type in_object) _
                    (panicked-as_unstructured wrong_input_type in_object refl)
                    (λ original e₃.
                      panicked-bind (wrap invalid_object (validate_converted_object m original out))
                        _
                        (panicked-wrap invalid_object (validate_converted_object m original out)
                          (λ e. refl) (panicked-validate_converted_object m original out))
                        (λ valid e₄.
                          panicked-bind
                            (wrap invalid_object_meta (restore_object_meta m original out)) _
                            (panicked-wrap invalid_object_meta (restore_object_meta m original out)
                              (λ e. refl) (panicked-restore_object_meta m original out))
                            (λ restored e₅. refl))))))

  panicked-convert_response :
      (gv : Gv) (in_object : Object) (objects : List RawExtension)
      → length (get_objects_to_convert m in_object (m.gv_string gv)) ≤ length objects
      → panicked (convert_response m gv in_object objects) ≡ false
  unfolding convert_response get_objects_to_convert panicked
  panicked-convert_response gv (many ms items) objects h =
      panicked-bind (convert_items m (m.gvk_of ms) gv objects 0 items) _
        (panicked-convert_items (m.gvk_of ms) gv objects 0 items (omega (arith, h)))
        (λ converted e. refl)
  panicked-convert_response gv (single ms) objects h =
      panicked-convert_single gv (single ms) objects
  panicked-convert_response gv (typed_scale gvk ms) objects h =
      panicked-convert_single gv (typed_scale gvk ms) objects

  panicked-checked_count :
      (in_gvk : Gvk) (n : ℕ) (objects : List RawExtension)
      → panicked (checked_count m in_gvk n objects) ≡ false
  unfolding checked_count panicked is_panic
  panicked-checked_count in_gvk n objects = ground arith

  pub length-checked_count :
      (in_gvk : Gvk) (n : ℕ) (objects : List RawExtension) (done : Unit {0})
      → checked_count m in_gvk n objects ≡ ok done
      → length objects ≡ n
  unfolding checked_count
  length-checked_count in_gvk n objects done h = ground (arith, h)

module _ (m : Machinery) (call : ReviewRequest → Review → Result String Review)
    (versions : List String) (request_uid : String) where
  panicked-called :
      (in_gvk : Gvk) (request : ReviewRequest) (review : Review)
      → panicked (called m call versions request_uid in_gvk request review) ≡ false
  unfolding called panicked is_panic
  panicked-called in_gvk request review = elim (Result-cases (call request review)) [
    | inl (a, e) ↦ rw (panicked, called, e)
    | inr (e', e) ↦ rw (panicked, called, e)
  ]

  panicked-webhook_answer :
      (in_object : Object) (gv : Gv)
      → panicked (webhook_answer m call versions request_uid in_object gv) ≡ false
  unfolding webhook_answer panicked
  panicked-webhook_answer in_object gv =
      let to_convert = get_objects_to_convert m in_object (m.gv_string gv) in
      let in_gvk = object_gvk m in_object in
      panicked-bind
        (create_conversion_review_objects versions to_convert (m.gv_string gv) request_uid) _
        (panicked-create_conversion_review_objects versions to_convert (m.gv_string gv) request_uid)
        (λ review e. elim (Bool-cases (nat_eq (length to_convert) 0)) [
          | inl none_to_convert ↦ rw none_to_convert
          | inr some_to_convert ↦ rw some_to_convert (
              panicked-bind (called m call versions request_uid in_gvk (review.0) (review.1)) _
                (panicked-called in_gvk (review.0) (review.1))
                (λ response e₁.
                  panicked-bind
                    (wrap (webhook_failed in_gvk)
                      (get_converted_objects_from_response request_uid response))
                    _
                    (panicked-wrap (webhook_failed in_gvk)
                      (get_converted_objects_from_response request_uid response) (λ e. refl)
                      (panicked-get_converted_objects_from_response request_uid response))
                    (λ objects e₂.
                      panicked-bind (checked_count m in_gvk (length to_convert) objects) _
                        (panicked-checked_count m in_gvk (length to_convert) objects)
                        (λ done e₃. panicked-convert_response m gv in_object objects (
                          omega (
                            arith,
                            length-checked_count m in_gvk (length to_convert) objects done e₃,
                          ))))))
        ])

  -- Whatever the webhook responds, the conversion returns an object or an error that is no panic:
  -- convertedObjects[convertedIndex] is in range and the labels that are cast are strings.
  pub panicked-webhook_convert :
      (in_object : Object) (gv : Gv)
      → panicked (webhook_convert m call versions request_uid in_object gv).1 ≡ false
  unfolding webhook_convert panicked
  panicked-webhook_convert in_object gv =
      elim (Bool-cases (is_empty_unstructured_object in_object)) [
        | inl e ↦ rw e
        | inr e ↦ rw e (panicked-webhook_answer in_object gv)
      ]
