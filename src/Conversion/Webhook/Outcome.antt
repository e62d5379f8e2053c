-- ===== src/Conversion/Webhook/Outcome.antt =====
-- pkg/apiserver/conversion/webhook_converter.go: what a conversion by a webhook may return.
use mathlib.Core.Path.{subst}
use apiextensions_apiserver.Schema.Json.{Members}
use apiextensions_apiserver.Conversion.Metadata.{restore_object_meta, validate_converted_object}
use apiextensions_apiserver.Conversion.Webhook.{
  wrap, check_gvk, as_unstructured, get_elem, convert_item, convert_items,
}
use apiextensions_apiserver.Conversion.Review.{
  items_to_convert, items_to_convert-in_version, items_to_convert-other_version,
  get_raw_extension_object,
}
use apiextensions_apiserver.Conversion.Metadata.Restored.{
  metadata_field-Restored, Restored, restore_object_meta-Restored,
}
use apiextensions_apiserver.Conversion.{
  undecodable, invalid_item_meta, wrong_type, invalid_item, RawExtension, Gvk, group_version, gv_eq,
  object_gvk, Gv, Documented, single, many, typed_scale, ConversionError, Object, Machinery,
}
use apiextensions_apiserver.Prelude.{
  none, some, zero, Option-cases, Option, >>=-eq-ok, ℕ, ◌∙◌, ◌==◌, sym, length, inr, inl,
  ok_injective, eq_iff, Bool-cases, ◌≢◌, ap, ◌⊎◌, arith, ◌≡◌, List, Result, refl, [], ◌∷◌, true, ok,
  err, suc,
}

unmarshalled :
    (text : Option Members) (returned : Members)
    → (elim text [ some ms ↦ ok (single ms) | none ↦ err undecodable ]) ≡ ok (single returned)
    → text ≡ some returned
unmarshalled none returned h = cc
unmarshalled (some ms) returned h = cc

module _ (m : Machinery) where
  -- What the webhook returned in a place of its response: an object, or the text of one.
  abbrev pub IsReturned : RawExtension → Members → Type 0
  IsReturned rx returned =
      (rx.object ≡ some (single returned))
      ⊎ (rx.object ≡ none) × (m.unmarshal rx.raw ≡ some returned)

  -- `item` is what the webhook returned, with the original's metadata but for labels and annotations.
  -- It is in the target version, and both are the same object as the original.
  pub record IsConverted (gv : Gv) (rx : RawExtension) (original item : Members) : Type 0 where
    pub returned : Members
    pub is_returned : IsReturned rx returned
    pub restored : Restored original returned item
    pub returned_name : m.name_of returned ≡ m.name_of original
    pub returned_namespace : m.namespace_of returned ≡ m.namespace_of original
    pub returned_uid : m.uid_of returned ≡ m.uid_of original
    pub version : gv_eq gv (group_version (m.gvk_of item)) ≡ true
    pub kind : m.kind_of item ≡ m.kind_of original
    pub name : m.name_of item ≡ m.name_of original
    pub namespace : m.namespace_of item ≡ m.namespace_of original
    pub uid : m.uid_of item ≡ m.uid_of original

  -- An item that was in the version already is the same; each other one is converted by the next of
  -- the returned objects.
  abbrev pub Turned : Gv → List Members → List RawExtension → List Members → Type 0
  Turned gv [] objects [] = Unit
  Turned gv [] objects (x ∷ xs) = ⊥
  Turned gv (o ∷ os) objects [] = ⊥
  Turned gv (o ∷ os) objects (x ∷ xs) =
      (m.api_version_of o ≡ m.gv_string gv) × (x ≡ o) × Turned gv os objects xs
      ⊎ (m.api_version_of o ≢ m.gv_string gv)
        × (rx : RawExtension) × (rest : List RawExtension) × (objects ≡ rx ∷ rest)
        × IsConverted gv rx o x
        × Turned gv os rest xs

  ok-get_raw_extension_object :
      (rx : RawExtension) (returned : Members)
      → get_raw_extension_object m rx ≡ ok (single returned)
      → IsReturned rx returned
  unfolding get_raw_extension_object
  ok-get_raw_extension_object rx returned h = elim (Option-cases rx.object) [
    | inl e ↦
        inr (e, unmarshalled (m.unmarshal rx.raw) returned (rw (get_raw_extension_object, e) at h))
    | inr (o, e) ↦ inl (e ∙ ap some (ok_injective (rw (get_raw_extension_object, e) at h)))
  ]

  -- The objects from an index on.
  abbrev from : ℕ → List RawExtension → List RawExtension
  from zero xs = xs
  from (suc n) [] = []
  from (suc n) (x ∷ xs) = from n xs

  get_elem-from :
      (objects : List RawExtension) (i : ℕ) (rx : RawExtension)
      → get_elem objects i ≡ ok rx
      → from i objects ≡ rx ∷ from (suc i) objects
  unfolding get_elem
  get_elem-from [] i rx h = cc
  get_elem-from (x ∷ xs) zero rx h = ap (λ y. y ∷ xs) (ok_injective h)
  get_elem-from (x ∷ xs) (suc i) rx h = get_elem-from xs i rx h

  pub ok-wrap {ℓ} :
      {A : Type ℓ} (f : ConversionError → ConversionError) (r : Result ConversionError A) (a : A)
      → wrap f r ≡ ok a
      → r ≡ ok a
  unfolding wrap
  ok-wrap f (ok b) a h = h
  ok-wrap f (err e) a h = cc

  pub ok-as_unstructured :
      (e : ConversionError) (o : Object) (ms : Members)
      → as_unstructured e o ≡ ok ms
      → o ≡ single ms
  unfolding as_unstructured
  ok-as_unstructured e (single ms) out h = ap single (ok_injective h)
  ok-as_unstructured e (many ms items) out h = cc
  ok-as_unstructured e (typed_scale gvk ms) out h = cc

  ok-check_gvk :
      (gv : Gv) (original : Object) (converted : Members) (done : Unit {0})
      → check_gvk m gv original (single converted) ≡ ok done
      → gv_eq gv (group_version (m.gvk_of converted)) ≡ true
  unfolding check_gvk object_gvk
  ok-check_gvk gv original converted done h =
      elim (Bool-cases (gv_eq gv (group_version (m.gvk_of converted)))) [
        | inl e ↦ e
        | inr e ↦ cc (rw (check_gvk, object_gvk, e) at h)
      ]

  ok-validate_converted_object :
      (original out : Members) (done : Unit {0})
      → validate_converted_object m original out ≡ ok done
      → (m.kind_of original ≡ m.kind_of out)
        × (m.name_of original ≡ m.name_of out)
        × (m.namespace_of original ≡ m.namespace_of out)
        × (m.uid_of original ≡ m.uid_of out)
  unfolding validate_converted_object
  ok-validate_converted_object original out done h =
      let kind = eq_iff (m.kind_of original) (m.kind_of out) in
      let name = eq_iff (m.name_of original) (m.name_of out) in
      let namespace = eq_iff (m.namespace_of original) (m.namespace_of out) in
      let uid = eq_iff (m.uid_of original) (m.uid_of out) in
      (
        ground (arith, h, kind),
        ground (arith, h, name),
        ground (arith, h, namespace),
        ground (arith, h, uid),
      )

  module _ (documented : Documented m) where
    pub IsConverted-restored :
        (gv : Gv) (rx : RawExtension) (original out item : Members) (done valid : Unit {0})
        → get_raw_extension_object m rx ≡ ok (single out)
        → check_gvk m gv (single original) (single out) ≡ ok done
        → validate_converted_object m original out ≡ ok valid
        → restore_object_meta m original out ≡ ok item
        → IsConverted gv rx original item
    IsConverted-restored gv rx original out item done valid g c v r =
        let (kind, name, namespace, uid) = ok-validate_converted_object original out valid v in
        let restored = restore_object_meta-Restored m original out item r in
        let gvk =
          documented.gvk_reads item out (restored.elsewhere "apiVersion" refl)
            (restored.elsewhere "kind" refl) in
        record {
          returned = out;
          is_returned = ok-get_raw_extension_object rx out g;
          restored = restored;
          returned_name = sym name;
          returned_namespace = sym namespace;
          returned_uid = sym uid;
          version =
              subst (λ k. gv_eq gv (group_version k) ≡ true) (sym gvk)
                (ok-check_gvk gv (single original) out done c);
          kind = documented.kind_reads item out (restored.elsewhere "kind" refl) ∙ sym kind;
          name =
              documented.name_reads item original
                (metadata_field-Restored original out item "name" restored refl refl);
          namespace =
              documented.namespace_reads item original
                (metadata_field-Restored original out item "namespace" restored refl refl);
          uid =
              documented.uid_reads item original
                (metadata_field-Restored original out item "uid" restored refl refl);
        }

    ok-convert_item :
        (in_gvk : Gvk) (gv : Gv) (i : ℕ) (original : Members) (rx : RawExtension) (item : Members)
        → convert_item m in_gvk gv i original rx ≡ ok item
        → IsConverted gv rx original item
    unfolding convert_item
    ok-convert_item in_gvk gv i original rx item h =
        let at = invalid_item in_gvk i in
        let (converted, e, h₁) = >>=-eq-ok (wrap at (get_raw_extension_object m rx)) _ h in
        let (done, e₁, h₂) =
          >>=-eq-ok (wrap at (check_gvk m gv (single original) converted)) _ h₁ in
        let (out, e₂, h₃) = >>=-eq-ok (wrap at (as_unstructured wrong_type converted)) _ h₂ in
        let (valid, e₃, h₄) = >>=-eq-ok (wrap at (validate_converted_object m original out)) _ h₃ in
        let is_single =
          ok-as_unstructured wrong_type converted out
            (ok-wrap at (as_unstructured wrong_type converted) out e₂) in
        IsConverted-restored gv rx original out item done valid
          (ok-wrap at (get_raw_extension_object m rx) converted e ∙ ap ok is_single)
          (subst (λ o. check_gvk m gv (single original) o ≡ ok done) is_single
            (ok-wrap at (check_gvk m gv (single original) converted) done e₁))
          (ok-wrap at (validate_converted_object m original out) valid e₃)
          (ok-wrap (invalid_item_meta in_gvk i) (restore_object_meta m original out) item h₄)

    pub Turned-convert_items :
        (in_gvk : Gvk) (gv : Gv) (objects : List RawExtension) (i : ℕ) (items result : List Members)
        → convert_items m in_gvk gv objects i items ≡ ok result
        → Turned gv items (from i objects) result
    unfolding convert_items
    Turned-convert_items in_gvk gv objects i [] result h =
        subst (Turned gv [] (from i objects)) (ok_injective h) tt
    Turned-convert_items in_gvk gv objects i (o ∷ os) result h =
        elim (Bool-cases (m.api_version_of o == m.gv_string gv)) [
          | inl e ↦
              let (rest, e₁, h₁) =
                >>=-eq-ok (convert_items m in_gvk gv objects i os) _ (rw (convert_items, e) at h) in
              subst (Turned gv (o ∷ os) (from i objects)) (ok_injective h₁) (
                inl (
                  ground (arith, e, eq_iff (m.api_version_of o) (m.gv_string gv)),
                  refl,
                  Turned-convert_items in_gvk gv objects i os rest e₁,
                ))
          | inr e ↦
              let (rx, e₁, h₁) = >>=-eq-ok (get_elem objects i) _ (rw (convert_items, e) at h) in
              let (item, e₂, h₂) = >>=-eq-ok (convert_item m in_gvk gv i o rx) _ h₁ in
              let (rest, e₃, h₃) = >>=-eq-ok (convert_items m in_gvk gv objects (suc i) os) _ h₂ in
              subst (Turned gv (o ∷ os) (from i objects)) (ok_injective h₃) (
                inr (
                  ground (arith, e, eq_iff (m.api_version_of o) (m.gv_string gv)),
                  rx,
                  from (suc i) objects,
                  get_elem-from objects i rx e₁,
                  ok-convert_item in_gvk gv i o rx item e₂,
                  Turned-convert_items in_gvk gv objects (suc i) os rest e₃,
                ))
        ]

  -- With nothing to convert, every item is in the version.
  pub Turned-items_to_convert :
      (gv : Gv) (items : List Members)
      → length (items_to_convert m (m.gv_string gv) items) ≡ 0
      → Turned gv items [] items
  Turned-items_to_convert gv [] h = tt
  Turned-items_to_convert gv (o ∷ os) h = elim (Bool-cases (m.api_version_of o == m.gv_string gv)) [
    | inl e ↦ inl (
      ground (arith, e, eq_iff (m.api_version_of o) (m.gv_string gv)),
      refl,
      Turned-items_to_convert gv os
          (sym (ap length (items_to_convert-in_version m (m.gv_string gv) o os e)) ∙ h),
    )
    | inr e ↦
        ground (arith, h, ap length (items_to_convert-other_version m (m.gv_string gv) o os e))
  ]
