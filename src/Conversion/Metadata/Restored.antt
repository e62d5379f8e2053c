-- ===== src/Conversion/Metadata/Restored.antt =====
-- pkg/apiserver/conversion/webhook_converter.go: what restoreObjectMeta keeps and restores.
use apiextensions_apiserver.Schema.Json.{
  len_members, null, bool, int, float, str, arr, obj, find-assign, find-remove,
}
use apiextensions_apiserver.Conversion.{metadata_field}
use apiextensions_apiserver.Conversion.Metadata.{
  restore_object_meta, original_metadata, restore_strings, restore_value, restore_fields,
  field_of_original, changed_strings, check_changed, response_metadata,
}
use apiextensions_apiserver.Schema.Json.{obj, find, Json, Members}
use apiextensions_apiserver.Conversion.{metadata_field, Machinery}
use apiextensions_apiserver.Prelude.{
  ok_injective, ◌||◌, ◌∙◌, nat_eq, sym, not, ap, eq_iff, >>=-eq-ok, [], if◌then◌else◌, arith, ◌∷◌,
  ok, false, ◌==◌, String, none, ◌≡◌, some, Option,
}

-- The labels or annotations that the webhook returned, where null stands for none.
abbrev pub kept : Option Json → Option Json
kept (some null) = none
kept v = v

-- In `result`, everything but the metadata is the webhook's, and everything in the metadata but the
-- labels and the annotations is the original's.
pub record Restored (original converted result : Members) : Type 0 where
  pub metadata : Members
  pub has_metadata : find "metadata" result ≡ some (obj metadata)
  pub elsewhere : (k : String) → ("metadata" == k) ≡ false → find k result ≡ find k converted
  pub other_metadata :
      (k : String)
      → ("labels" == k) ≡ false
      → ("annotations" == k) ≡ false
      → find k metadata ≡ metadata_field k original
  pub labels : find "labels" metadata ≡ kept (metadata_field "labels" converted)
  pub annotations : find "annotations" metadata ≡ kept (metadata_field "annotations" converted)

pub original_metadata-field :
    (k : String) (v : Option Json) (md : Members)
    → original_metadata v ≡ ok md
    → find k md ≡ (elim v [ some (obj ms) ↦ find k ms | _ ↦ none ])
unfolding original_metadata find
original_metadata-field k none md h = ground (arith, h)
original_metadata-field k (some (obj ms)) md h = ground (arith, h)
original_metadata-field k (some null) md h = cc
original_metadata-field k (some (bool b)) md h = cc
original_metadata-field k (some (int n)) md h = cc
original_metadata-field k (some (float n)) md h = cc
original_metadata-field k (some (str t)) md h = cc
original_metadata-field k (some (arr xs)) md h = cc

pub response_metadata-field :
    (k : String) (v : Option Json) (md : Members)
    → response_metadata v ≡ ok md
    → find k md ≡ (elim v [ some (obj ms) ↦ find k ms | _ ↦ none ])
unfolding response_metadata find
response_metadata-field k none md h = cc
response_metadata-field k (some (obj ms)) md h = ground (arith, h)
response_metadata-field k (some null) md h = cc
response_metadata-field k (some (bool b)) md h = cc
response_metadata-field k (some (int n)) md h = cc
response_metadata-field k (some (float n)) md h = cc
response_metadata-field k (some (str t)) md h = cc
response_metadata-field k (some (arr xs)) md h = cc

module _ (m : Machinery) where
  find-restore_strings :
      (fld j : String) (response md result : Members)
      → restore_strings m fld response md ≡ ok result
      → find j result ≡ (if fld == j then some (obj response) else find j md)
  unfolding restore_strings
  find-restore_strings fld j response md result h =
      let (original, e, h₁) = >>=-eq-ok (field_of_original fld (find fld md)) _ h in
      let (changed, e₂, h₂) = >>=-eq-ok (changed_strings fld original response) _ h₁ in
      let (checked, e₃, h₃) =
        >>=-eq-ok
          (check_changed m fld
            (not (nat_eq (len_members original) (len_members response)) || changed) response)
          _ h₂ in
      ap (find j) (sym (ok_injective h₃)) ∙ find-assign fld j (obj response) md

  pub find-restore_value :
      (fld j : String) (v : Option Json) (md result : Members)
      → restore_value m fld v md ≡ ok result
      → find j result ≡ (if fld == j then kept v else find j md)
  unfolding restore_value
  find-restore_value fld j none md result h =
      ap (find j) (sym (ok_injective h)) ∙ find-remove fld j md
  find-restore_value fld j (some null) md result h =
      ap (find j) (sym (ok_injective h)) ∙ find-remove fld j md
  find-restore_value fld j (some (obj ms)) md result h = find-restore_strings fld j ms md result h
  find-restore_value fld j (some (bool b)) md result h = cc
  find-restore_value fld j (some (int n)) md result h = cc
  find-restore_value fld j (some (float n)) md result h = cc
  find-restore_value fld j (some (str t)) md result h = cc
  find-restore_value fld j (some (arr xs)) md result h = cc

  find-restore_fields :
      (j : String) (response md result : Members)
      → restore_fields m ("labels" ∷ "annotations" ∷ []) response md ≡ ok result
      → find j result ≡ (
          if "labels" == j
          then kept (find "labels" response)
          else if "annotations" == j
          then kept (find "annotations" response)
          else find j md)
  unfolding restore_fields
  find-restore_fields j response md result h =
      let (md₁, e₁, h₁) = >>=-eq-ok (restore_value m "labels" (find "labels" response) md) _ h in
      let (md₂, e₂, h₂) =
        >>=-eq-ok (restore_value m "annotations" (find "annotations" response) md₁) _ h₁ in
      let first = find-restore_value "labels" j (find "labels" response) md md₁ e₁ in
      let second = find-restore_value "annotations" j (find "annotations" response) md₁ md₂ e₂ in
      let last = ok_injective h₂ in
      ground (arith, eq_iff "labels" j, eq_iff "annotations" j, first, second, last)

  -- Whatever the webhook returned: when the metadata is restored, the result is the returned object
  -- with the original's metadata, in which the labels and the annotations are the returned ones.
  pub restore_object_meta-Restored :
      (original converted result : Members)
      → restore_object_meta m original converted ≡ ok result
      → Restored original converted result
  unfolding restore_object_meta
  restore_object_meta-Restored original converted result h =
      let (response, e₁, h₁) = >>=-eq-ok (response_metadata (find "metadata" converted)) _ h in
      let (md, e₂, h₂) = >>=-eq-ok (original_metadata (find "metadata" original)) _ h₁ in
      let (restored, e₃, h₃) =
        >>=-eq-ok (restore_fields m ("labels" ∷ "annotations" ∷ []) response md) _ h₂ in
      let last = ok_injective h₃ in
      record {
        metadata = restored;
        has_metadata =
            ap (find "metadata") (sym last)
            ∙ find-assign "metadata" "metadata" (obj restored) converted;
        elsewhere = λ k ne.
            ap (find k) (sym last) ∙ find-assign "metadata" k (obj restored) converted ∙ (rw ne);
        other_metadata = λ k no_label no_annotation.
            find-restore_fields k response md restored e₃
            ∙ (rw (
              no_label,
              no_annotation,
              original_metadata-field k (find "metadata" original) md e₂,
            ));
        labels =
            find-restore_fields "labels" response md restored e₃
            ∙ ap kept (response_metadata-field "labels" (find "metadata" converted) response e₁);
        annotations =
            find-restore_fields "annotations" response md restored e₃
            ∙ ap kept
                (response_metadata-field "annotations" (find "metadata" converted) response e₁);
      }

pub metadata_field-Restored :
    (original converted result : Members) (k : String)
    → Restored original converted result
    → ("labels" == k) ≡ false
    → ("annotations" == k) ≡ false
    → metadata_field k result ≡ metadata_field k original
metadata_field-Restored original converted result k r no_label no_annotation =
    rw (metadata_field, r.has_metadata) (r.other_metadata k no_label no_annotation)
