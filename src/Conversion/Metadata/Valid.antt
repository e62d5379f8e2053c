-- ===== src/Conversion/Metadata/Valid.antt =====
-- pkg/apiserver/conversion/webhook_converter.go: the labels and annotations that restoreObjectMeta
-- lets through.
use mathlib.Core.Path.{subst}
use apiextensions_apiserver.Conversion.Metadata.Restored.{
  response_metadata-field, original_metadata-field, find-restore_value,
}
use apiextensions_apiserver.Conversion.Metadata.Panics.{string_map-changed_strings}
use apiextensions_apiserver.Schema.Json.{
  len_members, find, Json, Members, null, bool, int, float, str, arr, obj, no_members, member,
}
use apiextensions_apiserver.Conversion.Metadata.{
  original_metadata, response_metadata, restore_fields, restore_strings, restore_value,
  restore_object_meta, same_string, changed_strings, string_map, check_changed, field_of_original,
  guard, validate_strings,
}
use apiextensions_apiserver.Conversion.{metadata_field, Machinery}
use apiextensions_apiserver.Prelude.{
  sym, ◌∙◌, inr, eq_iff, ◌||◌, inl, nat_eq, arith, Bool-cases, >>=-eq-ok, not, ◌⊎◌, ok_injective,
  ap, ◌≡◌, Bool, List, Option, String, refl, [], ◌∷◌, some, none, true, false, ok,
}

-- Each entry of the second map is one of the first.
abbrev pub IsIn : Members → Members → Type 0
IsIn original no_members = Unit
IsIn original (member k v ms) = (find k original ≡ some v) × IsIn original ms

abbrev pub fields_of : Option Json → Members
fields_of (some (obj ms)) = ms
fields_of v = no_members

field_of_original-eq :
    (fld : String) (v : Option Json) (ms : Members)
    → field_of_original fld v ≡ ok ms
    → fields_of v ≡ ms
unfolding field_of_original
field_of_original-eq fld none ms h = ok_injective h
field_of_original-eq fld (some null) ms h = ok_injective h
field_of_original-eq fld (some (obj x)) ms h = ok_injective h
field_of_original-eq fld (some (bool x)) ms h = cc
field_of_original-eq fld (some (int x)) ms h = cc
field_of_original-eq fld (some (float x)) ms h = cc
field_of_original-eq fld (some (str x)) ms h = cc
field_of_original-eq fld (some (arr x)) ms h = cc

same_string-eq : (v : Option Json) (s : String) → same_string v s ≡ true → v ≡ some (str s)
unfolding same_string
same_string-eq none s h = cc
same_string-eq (some (str t)) s h = ap (λ u. some (str u)) (ground (arith, h, eq_iff t s))
same_string-eq (some null) s h = cc
same_string-eq (some (obj x)) s h = cc
same_string-eq (some (bool x)) s h = cc
same_string-eq (some (int x)) s h = cc
same_string-eq (some (float x)) s h = cc
same_string-eq (some (arr x)) s h = cc

IsIn-changed_strings :
    (fld : String) (original response : Members)
    → changed_strings fld original response ≡ ok false
    → IsIn original response
unfolding changed_strings
IsIn-changed_strings fld original no_members h = tt
IsIn-changed_strings fld original (member k (str s) ms) h =
    let (later, e, h₁) = >>=-eq-ok (changed_strings fld original ms) _ h in
    elim (Bool-cases (same_string (find k original) s)) [
      | inl same ↦ (
        same_string-eq (find k original) s same,
        IsIn-changed_strings fld original ms (e ∙ ap ok (ok_injective (rw same at h₁))),
      )
      | inr other ↦ cc (rw other at h₁)
    ]
IsIn-changed_strings fld original (member k null ms) h = cc
IsIn-changed_strings fld original (member k (bool v) ms) h = cc
IsIn-changed_strings fld original (member k (int v) ms) h = cc
IsIn-changed_strings fld original (member k (float v) ms) h = cc
IsIn-changed_strings fld original (member k (arr v) ms) h = cc
IsIn-changed_strings fld original (member k (obj v) ms) h = cc

fields_of_obj : (a b : Members) → some (obj a) ≡ some (obj b) → a ≡ b
fields_of_obj a b h = cc

ok-guard : (errs : List String) (done : Unit {0}) → guard errs ≡ ok done → errs ≡ []
unfolding guard
ok-guard [] done h = refl
ok-guard (e ∷ errs) done h = cc

module _ (m : Machinery) where
  -- The values are strings, and validation has no complaint about them, or they are the original's.
  pub record IsValidField (fld : String) (original : Option Json) (response : Members)
      : Type 0 where
    pub strings : List (String × String)
    pub are_strings : string_map response ≡ ok strings
    pub accepted :
        (validate_strings m fld strings ≡ [])
        ⊎ (len_members (fields_of original) ≡ len_members response)
          × IsIn (fields_of original) response

  ok-check_changed :
      (fld : String) (original response : Members) (changed : Bool)
      (strings : List (String × String)) (done : Unit {0})
      → string_map response ≡ ok strings
      → changed_strings fld original response ≡ ok changed
      → check_changed m fld
          (not (nat_eq (len_members original) (len_members response)) || changed)
          response
        ≡ ok done
      → (validate_strings m fld strings ≡ [])
        ⊎ (len_members original ≡ len_members response) × IsIn original response
  unfolding check_changed
  ok-check_changed fld original response changed strings done s c h =
      elim (Bool-cases (not (nat_eq (len_members original) (len_members response)) || changed)) [
        | inl t ↦
            inl (ok-guard (validate_strings m fld strings) done (rw (check_changed, t, s) at h))
        | inr f ↦ inr (
          ground (arith, f),
          IsIn-changed_strings fld original response (c ∙ ap ok (ground (arith, f))),
        )
      ]

  ok-restore_value :
      (fld : String) (v : Option Json) (response md result : Members)
      → v ≡ some (obj response)
      → restore_value m fld v md ≡ ok result
      → IsValidField fld (find fld md) response
  unfolding restore_value restore_strings
  ok-restore_value fld (some (obj r)) response md result e h =
      let (original, e₁, h₁) = >>=-eq-ok (field_of_original fld (find fld md)) _ h in
      let (changed, e₂, h₂) = >>=-eq-ok (changed_strings fld original r) _ h₁ in
      let (done, e₃, h₃) =
        >>=-eq-ok
          (check_changed m fld (not (nat_eq (len_members original) (len_members r)) || changed) r) _
          h₂ in
      let (strings, e₄) = string_map-changed_strings fld original r changed e₂ in
      let fields = field_of_original-eq fld (find fld md) original e₁ in
      subst (IsValidField fld (find fld md)) (fields_of_obj r response e) (record {
        strings = strings;
        are_strings = e₄;
        accepted =
            subst
              (λ o.
                (validate_strings m fld strings ≡ []) ⊎ (len_members o ≡ len_members r) × IsIn o r)
              (sym fields) (ok-check_changed fld original r changed strings done e₄ e₂ e₃);
      })
  ok-restore_value fld none response md result e h = cc
  ok-restore_value fld (some null) response md result e h = cc
  ok-restore_value fld (some (bool x)) response md result e h = cc
  ok-restore_value fld (some (int x)) response md result e h = cc
  ok-restore_value fld (some (float x)) response md result e h = cc
  ok-restore_value fld (some (str x)) response md result e h = cc
  ok-restore_value fld (some (arr x)) response md result e h = cc

  -- When the metadata is restored and the webhook returned an object under labels or under annotations,
  -- its values are strings, and either the validation of labels, or of annotations, accepts them or they
  -- are those of the original. That the other of the two is returned is not asked.
  pub restore_object_meta-IsValidField :
      (fld : String) (original converted result response : Members)
      → (fld ≡ "labels") ⊎ (fld ≡ "annotations")
      → restore_object_meta m original converted ≡ ok result
      → metadata_field fld converted ≡ some (obj response)
      → IsValidField fld (metadata_field fld original) response
  unfolding restore_object_meta restore_fields
  restore_object_meta-IsValidField fld original converted result response which h found =
      let (returned, e₁, h₁) = >>=-eq-ok (response_metadata (find "metadata" converted)) _ h in
      let (md, e₂, h₂) = >>=-eq-ok (original_metadata (find "metadata" original)) _ h₁ in
      let (restored, e₃, h₃) =
        >>=-eq-ok (restore_fields m ("labels" ∷ "annotations" ∷ []) returned md) _ h₂ in
      let (md₁, e₄, h₄) = >>=-eq-ok (restore_value m "labels" (find "labels" returned) md) _ e₃ in
      let (md₂, e₅, h₅) =
        >>=-eq-ok (restore_value m "annotations" (find "annotations" returned) md₁) _ h₄ in
      let kept_annotations =
        find-restore_value m "labels" "annotations" (find "labels" returned) md md₁ e₄ in
      let at_original =
        λ (k : String). original_metadata-field k (find "metadata" original) md e₂ in
      let at_returned =
        λ (k : String). response_metadata-field k (find "metadata" converted) returned e₁ in
      elim which [
        | inl is_labels ↦
            subst
              (λ k.
                metadata_field k converted ≡ some (obj response)
                → IsValidField k (metadata_field k original) response)
              (sym is_labels)
              (λ l.
                subst (λ o. IsValidField "labels" o response) (at_original "labels")
                  (ok-restore_value "labels" (find "labels" returned) response md md₁
                    (at_returned "labels" ∙ l) e₄))
              found
        | inr is_annotations ↦
            subst
              (λ k.
                metadata_field k converted ≡ some (obj response)
                → IsValidField k (metadata_field k original) response)
              (sym is_annotations)
              (λ a.
                subst (λ o. IsValidField "annotations" o response)
                  (kept_annotations ∙ at_original "annotations")
                  (ok-restore_value "annotations" (find "annotations" returned) response md₁ md₂
                    (at_returned "annotations" ∙ a) e₅))
              found
      ]
