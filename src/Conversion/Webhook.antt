-- ===== src/Conversion/Webhook.antt =====
-- pkg/apiserver/conversion/webhook_converter.go: the conversion by a webhook. Metrics and traces
-- are left out, and the web call is a parameter.
pub mod Called
pub mod Correct
pub mod Outcome
pub mod Panics
use apiextensions_apiserver.Schema.Json.{Members}
use apiextensions_apiserver.Conversion.Review.{
  get_converted_objects_from_response, create_conversion_review_objects, get_objects_to_convert,
  is_empty_unstructured_object, Review, get_raw_extension_object, ReviewRequest,
}
use apiextensions_apiserver.Conversion.{
  no_objects_returned, invalid_object_meta, invalid_object, invalid_item_meta, webhook_failed,
  wrong_input_type, wrong_kind, invalid_item, wrong_count, wrong_group_version, wrong_type,
  object_gvk, group_version, gv_eq, panics, call_failed, single, many, Gv, RawExtension, Gvk,
  Object, Machinery, ConversionError,
}
use apiextensions_apiserver.Conversion.Nop.{nop_convert}
use apiextensions_apiserver.Conversion.Metadata.{restore_object_meta, validate_converted_object}
use apiextensions_apiserver.Prelude.{
  zero, false, [], ◌>>=◌, length, suc, true, nat_eq, not, String, ◌==◌, err, ℕ, if◌then◌else◌, ◌∷◌,
  ok, Result, List,
}

-- xs[i], which panics out of range.
get_elem : List RawExtension → ℕ → Result ConversionError RawExtension
get_elem [] i = err panics
get_elem (x ∷ xs) zero = ok x
get_elem (x ∷ xs) (suc i) = get_elem xs i

pub as_unstructured : ConversionError → Object → Result ConversionError Members
as_unstructured e (single ms) = ok ms
as_unstructured e o = err e

-- The text that wraps an error.
pub wrap {ℓ} :
    {A : Type ℓ}
    → (ConversionError → ConversionError)
    → Result ConversionError A
    → Result ConversionError A
wrap f (ok a) = ok a
wrap f (err e) = err (f e)

module _ (m : Machinery) where
  -- `converted` must have the target's group and version and the original's kind.
  pub check_gvk : Gv → Object → Object → Result ConversionError (Unit {0})
  check_gvk gv original converted =
      if not (gv_eq gv (group_version (object_gvk m converted)))
      then err (wrong_group_version gv (group_version (object_gvk m converted)))
      else if not ((object_gvk m original).kind == (object_gvk m converted).kind)
      then err (wrong_kind (object_gvk m original).kind (object_gvk m converted).kind)
      else ok tt

  -- One turn of the loop that takes the items of a list from the response.
  unfoldable pub convert_item :
      Gvk → Gv → ℕ → Members → RawExtension → Result ConversionError Members
  unfolding get_raw_extension_object check_gvk as_unstructured wrap
  convert_item in_gvk gv i original rx = do
    converted ← wrap (invalid_item in_gvk i) (get_raw_extension_object m rx)
    checked ← wrap (invalid_item in_gvk i) (check_gvk gv (single original) converted)
    unstructured ← wrap (invalid_item in_gvk i) (as_unstructured wrong_type converted)
    valid ← wrap (invalid_item in_gvk i) (validate_converted_object m original unstructured)
    wrap (invalid_item_meta in_gvk i) (restore_object_meta m original unstructured)

  -- The loop, with convertedIndex.
  unfoldable pub convert_items :
      Gvk → Gv → List RawExtension → ℕ → List Members → Result ConversionError (List Members)
  unfolding get_elem
  convert_items in_gvk gv objects i [] = ok []
  convert_items in_gvk gv objects i (original ∷ items) =
      elim (m.api_version_of original == m.gv_string gv) [
        | true ↦ convert_items in_gvk gv objects i items >>= λ rest. ok (original ∷ rest)
        | false ↦ do
          rx ← get_elem objects i
          converted ← convert_item in_gvk gv i original rx
          rest ← convert_items in_gvk gv objects (suc i) items
          ok (converted ∷ rest)
      ]

  convert_single : Gv → Object → List RawExtension → Result ConversionError Object
  unfolding get_raw_extension_object check_gvk as_unstructured wrap
  convert_single gv in_object (rx ∷ []) = do
    converted ← get_raw_extension_object m rx
    checked ← check_gvk gv in_object converted
    unstructured ← as_unstructured wrong_type converted
    original ← as_unstructured wrong_input_type in_object
    valid ← wrap invalid_object (validate_converted_object m original unstructured)
    restored ← wrap invalid_object_meta (restore_object_meta m original unstructured)
    ok (single restored)
  convert_single gv in_object objects = err no_objects_returned

  -- The checked objects of the response take their places.
  convert_response : Gv → Object → List RawExtension → Result ConversionError Object
  convert_response gv (many ms items) objects = do
    converted ← convert_items (m.gvk_of ms) gv objects 0 items
    ok (many (m.set_api_version (m.gv_string gv) ms) converted)
  convert_response gv in_object objects = convert_single gv in_object objects

  nothing_to_convert : Gv → Object → Object
  nothing_to_convert gv (many ms items) = many (m.set_api_version (m.gv_string gv) ms) items
  nothing_to_convert gv in_object = in_object

  pub checked_count : Gvk → ℕ → List RawExtension → Result ConversionError (Unit {0})
  checked_count in_gvk n objects =
      if not (nat_eq (length objects) n) then err (wrong_count in_gvk (length objects) n) else ok tt

  module _ (call : ReviewRequest → Review → Result String Review) (versions : List String)
      (request_uid : String) where
    pub called : Gvk → ReviewRequest → Review → Result ConversionError Review
    called in_gvk request response = elim (call request response) [
      | ok review ↦ ok review
      | err e ↦ err (call_failed in_gvk e)
    ]

    -- The part of Convert after the case of an empty object, which does not change the argument.
    unfoldable pub webhook_answer : Object → Gv → Result ConversionError Object
    unfolding convert_response convert_single nothing_to_convert checked_count called wrap
    webhook_answer in_object gv = do
      let desired = m.gv_string gv
      let to_convert = get_objects_to_convert m in_object desired
      let in_gvk = object_gvk m in_object
      review ← create_conversion_review_objects versions to_convert desired request_uid
      if nat_eq (length to_convert) 0 then ok (nothing_to_convert gv in_object) else do
        response ← called in_gvk (review.0) (review.1)
        objects ←
            wrap (webhook_failed in_gvk) (get_converted_objects_from_response request_uid response)
        counted ← checked_count in_gvk (length to_convert) objects
        convert_response gv in_object objects

    -- The argument afterwards, and what is returned.
    unfoldable pub webhook_convert : Object → Gv → Object × Result ConversionError Object
    unfolding webhook_answer
    webhook_convert in_object gv =
        if is_empty_unstructured_object in_object
        then (nop_convert m in_object gv, ok (nop_convert m in_object gv))
        else (in_object, webhook_answer in_object gv)
