-- ===== src/Conversion/Metadata/Panics.antt =====
-- pkg/apiserver/conversion/webhook_converter.go: restoreObjectMeta does not panic.
use apiextensions_apiserver.Conversion.{Machinery}
use apiextensions_apiserver.Schema.Json.{
  len_members, find, Members, Json, null, bool, int, float, str, arr, obj, no_members, member,
}
use apiextensions_apiserver.Conversion.Metadata.{
  validate_strings, restore_object_meta, validate_converted_object, changed_strings, string_map,
  check_changed, field_of_original, restore_strings, restore_value, restore_fields, guard,
  response_metadata, original_metadata,
}
use apiextensions_apiserver.Conversion.Panics.{panicked, panicked-bind}
use apiextensions_apiserver.Prelude.{
  ◌||◌, nat_eq, not, >>=-eq-ok, arith, ◌≡◌, Bool, List, String, Option, refl, [], ◌∷◌, some, none,
  true, false, ok,
}

-- Strings that have been looked at can be cast.
pub string_map-changed_strings :
    (fld : String) (original response : Members) (b : Bool)
    → changed_strings fld original response ≡ ok b
    → (strings : List (String × String)) × (string_map response ≡ ok strings)
unfolding changed_strings string_map
string_map-changed_strings fld original no_members b h = ([], refl)
string_map-changed_strings fld original (member k (str s) ms) b h =
    let (later, e, h₁) = >>=-eq-ok (changed_strings fld original ms) _ h in
    let (strings, e₁) = string_map-changed_strings fld original ms later e in
    ((k, s) ∷ strings, rw e₁)
string_map-changed_strings fld original (member k null ms) b h = cc
string_map-changed_strings fld original (member k (bool v) ms) b h = cc
string_map-changed_strings fld original (member k (int v) ms) b h = cc
string_map-changed_strings fld original (member k (float v) ms) b h = cc
string_map-changed_strings fld original (member k (arr v) ms) b h = cc
string_map-changed_strings fld original (member k (obj v) ms) b h = cc

panicked-changed_strings :
    (fld : String) (original response : Members)
    → panicked (changed_strings fld original response) ≡ false
unfolding changed_strings panicked
panicked-changed_strings fld original no_members = refl
panicked-changed_strings fld original (member k (str s) ms) =
    panicked-bind (changed_strings fld original ms) _ (panicked-changed_strings fld original ms)
      (λ a e. refl)
panicked-changed_strings fld original (member k null ms) = refl
panicked-changed_strings fld original (member k (bool v) ms) = refl
panicked-changed_strings fld original (member k (int v) ms) = refl
panicked-changed_strings fld original (member k (float v) ms) = refl
panicked-changed_strings fld original (member k (arr v) ms) = refl
panicked-changed_strings fld original (member k (obj v) ms) = refl

panicked-field_of_original :
    (fld : String) (v : Option Json) → panicked (field_of_original fld v) ≡ false
unfolding field_of_original panicked
panicked-field_of_original fld none = refl
panicked-field_of_original fld (some null) = refl
panicked-field_of_original fld (some (bool v)) = refl
panicked-field_of_original fld (some (int v)) = refl
panicked-field_of_original fld (some (float v)) = refl
panicked-field_of_original fld (some (str v)) = refl
panicked-field_of_original fld (some (arr v)) = refl
panicked-field_of_original fld (some (obj v)) = refl

panicked-response_metadata : (v : Option Json) → panicked (response_metadata v) ≡ false
unfolding response_metadata panicked
panicked-response_metadata none = refl
panicked-response_metadata (some null) = refl
panicked-response_metadata (some (bool v)) = refl
panicked-response_metadata (some (int v)) = refl
panicked-response_metadata (some (float v)) = refl
panicked-response_metadata (some (str v)) = refl
panicked-response_metadata (some (arr v)) = refl
panicked-response_metadata (some (obj v)) = refl

panicked-original_metadata : (v : Option Json) → panicked (original_metadata v) ≡ false
unfolding original_metadata panicked
panicked-original_metadata none = refl
panicked-original_metadata (some null) = refl
panicked-original_metadata (some (bool v)) = refl
panicked-original_metadata (some (int v)) = refl
panicked-original_metadata (some (float v)) = refl
panicked-original_metadata (some (str v)) = refl
panicked-original_metadata (some (arr v)) = refl
panicked-original_metadata (some (obj v)) = refl

panicked-guard : (errs : List String) → panicked (guard errs) ≡ false
unfolding guard panicked
panicked-guard [] = refl
panicked-guard (e ∷ errs) = refl

module _ (m : Machinery) where
  panicked-check_changed :
      (fld : String) (b : Bool) (response : Members) (strings : List (String × String))
      → string_map response ≡ ok strings
      → panicked (check_changed m fld b response) ≡ false
  unfolding check_changed panicked
  panicked-check_changed fld true response strings h =
      rw (h, panicked-guard (validate_strings m fld strings))
  panicked-check_changed fld false response strings h = refl

  panicked-restore_strings :
      (fld : String) (response md : Members) → panicked (restore_strings m fld response md) ≡ false
  unfolding restore_strings panicked
  panicked-restore_strings fld response md =
      panicked-bind (field_of_original fld (find fld md)) _
        (panicked-field_of_original fld (find fld md))
        (λ original e.
          panicked-bind (changed_strings fld original response) _
            (panicked-changed_strings fld original response)
            (λ changed e₁.
              panicked-bind
                (check_changed m fld
                  (not (nat_eq (len_members original) (len_members response)) || changed) response)
                _
                (let (strings, e₂) = string_map-changed_strings fld original response changed e₁ in
                  panicked-check_changed fld _ response strings e₂)
                (λ checked e₃. refl)))

  panicked-restore_value :
      (fld : String) (v : Option Json) (md : Members) → panicked (restore_value m fld v md) ≡ false
  unfolding restore_value panicked
  panicked-restore_value fld none md = refl
  panicked-restore_value fld (some null) md = refl
  panicked-restore_value fld (some (obj ms)) md = panicked-restore_strings fld ms md
  panicked-restore_value fld (some (bool v)) md = refl
  panicked-restore_value fld (some (int v)) md = refl
  panicked-restore_value fld (some (float v)) md = refl
  panicked-restore_value fld (some (str v)) md = refl
  panicked-restore_value fld (some (arr v)) md = refl

  panicked-restore_fields :
      (flds : List String) (response md : Members)
      → panicked (restore_fields m flds response md) ≡ false
  unfolding restore_fields panicked
  panicked-restore_fields [] response md = refl
  panicked-restore_fields (fld ∷ flds) response md =
      panicked-bind (restore_value m fld (find fld response) md) _
        (panicked-restore_value fld (find fld response) md)
        (λ md' e. panicked-restore_fields flds response md')

  pub panicked-restore_object_meta :
      (original converted : Members) → panicked (restore_object_meta m original converted) ≡ false
  unfolding restore_object_meta panicked
  panicked-restore_object_meta original converted =
      panicked-bind (response_metadata (find "metadata" converted)) _
        (panicked-response_metadata (find "metadata" converted))
        (λ response e.
          panicked-bind (original_metadata (find "metadata" original)) _
            (panicked-original_metadata (find "metadata" original))
            (λ md e₁.
              panicked-bind (restore_fields m ("labels" ∷ "annotations" ∷ []) response md) _
                (panicked-restore_fields ("labels" ∷ "annotations" ∷ []) response md)
                (λ restored e₂. refl)))

  pub panicked-validate_converted_object :
      (original out : Members) → panicked (validate_converted_object m original out) ≡ false
  unfolding validate_converted_object panicked
  panicked-validate_converted_object original out = ground arith
