-- ===== src/Conversion/Converter/Versions.antt =====
-- pkg/apiserver/conversion/converter.go: ConvertToVersion converts between the CRD's versions only.
use apiextensions_apiserver.Schema.Json.{Members}
use apiextensions_apiserver.Conversion.Converter.{
  CrConverter, has_version, delegate, invalid_in_list, invalid_item_version, convert_to_version,
  is_scale,
}
use apiextensions_apiserver.Conversion.{
  invalid_from, invalid_to, not_suitable, invalid_from_item, group_version, Gv, Gvk, single, many,
  typed_scale, Object, Machinery, ConversionError, object_gvk,
}
use apiextensions_apiserver.Prelude.{
  suc, inr, inl, Option-cases, Bool-cases, ◌⊎◌, ◌&&◌, All, Result, ℕ, ◌≡◌, Option, List, [], ◌∷◌,
  true, false, none, some, err,
}

module _ (m : Machinery) where
  abbrev pub IsValidItem : List Gv → Members → Type 0
  IsValidItem valid item = has_version valid (group_version (m.gvk_of item)) ≡ true

  abbrev pub HasValidItems : List Gv → Object → Type 0
  HasValidItems valid (many ms items) = All (IsValidItem valid) items
  HasValidItems valid o = Unit

  HasValidItems-invalid_item_version :
      (valid : List Gv) (i : ℕ) (items : List Members)
      → invalid_item_version m valid i items ≡ none
      → All (IsValidItem valid) items
  unfolding invalid_item_version
  HasValidItems-invalid_item_version valid i [] h = tt
  HasValidItems-invalid_item_version valid i (x ∷ xs) h =
      elim (Bool-cases (has_version valid (group_version (m.gvk_of x)))) [
        | inl e ↦ (
          e,
          HasValidItems-invalid_item_version valid (suc i) xs (rw (invalid_item_version, e) at h),
        )
        | inr e ↦ cc (rw (invalid_item_version, e) at h)
      ]

  HasValidItems-invalid_in_list :
      (valid : List Gv) (o : Object) → invalid_in_list m valid o ≡ none → HasValidItems valid o
  unfolding invalid_in_list
  HasValidItems-invalid_in_list valid (many ms items) h =
      HasValidItems-invalid_item_version valid 0 items h
  HasValidItems-invalid_in_list valid (single ms) h = tt
  HasValidItems-invalid_in_list valid (typed_scale gvk ms) h = tt

  -- What a conversion that was not refused did.
  pub record IsDelegated (c : CrConverter) (in_object : Object) (target : Gvk → Option Gvk)
      (returned : Object × Result ConversionError Object) : Type 0 where
    pub to : Gvk
    pub suitable : target (object_gvk m in_object) ≡ some to
    pub valid_to : has_version (c.valid_versions) (group_version to) ≡ true
    pub valid_from : has_version (c.valid_versions) (group_version (object_gvk m in_object)) ≡ true
    pub valid_items : HasValidItems (c.valid_versions) in_object
    pub delegated : returned ≡ c.converter in_object (group_version to)

  module _ (scheme : Object → (Gvk → Option Gvk) → Object × Result ConversionError Object)
      (c : CrConverter) (in_object : Object) (target : Gvk → Option Gvk) where
    delegate-IsDelegated :
        (gv : Gv)
        → HasValidItems (c.valid_versions) in_object
            × (delegate m c in_object gv ≡ c.converter in_object gv)
          ⊎ (e : ConversionError) × (delegate m c in_object gv ≡ (in_object, err e))
    unfolding delegate
    delegate-IsDelegated gv = elim (Option-cases (invalid_in_list m (c.valid_versions) in_object)) [
      | inl e ↦ inl (HasValidItems-invalid_in_list (c.valid_versions) in_object e, rw (delegate, e))
      | inr ((i, expected), e) ↦ inr (invalid_from_item i expected, rw (delegate, e))
    ]

    -- Of anything but a Scale of a resource with that subresource: the conversion is refused, and the
    -- argument is as it was, or the target, the argument and the items of a list are in versions of
    -- the CRD, and the converter does what the strategy says.
    pub convert_to_version-IsDelegated :
        (c.convert_scale && is_scale in_object) ≡ false
        → IsDelegated c in_object target (convert_to_version m scheme c in_object target)
          ⊎ (e : ConversionError) × (convert_to_version m scheme c in_object target
              ≡ (in_object, err e))
    unfolding convert_to_version
    convert_to_version-IsDelegated no_scale =
        elim (Option-cases (target (object_gvk m in_object))) [
          | inl e ↦ inr (not_suitable (object_gvk m in_object), rw (convert_to_version, e))
          | inr (to, e) ↦ elim (Bool-cases (has_version (c.valid_versions) (group_version to))) [
            | inr f ↦ inr (invalid_to to, rw (convert_to_version, e, no_scale, f))
            | inl t ↦
                elim (Bool-cases
                  (has_version (c.valid_versions) (group_version (object_gvk m in_object)))) [
                    | inr f ↦ inr (
                      invalid_from (object_gvk m in_object),
                      rw (convert_to_version, e, no_scale, t, f),
                    )
                    | inl t₂ ↦ elim (delegate-IsDelegated (group_version to)) [
                      | inl (items, d) ↦ inl (record {
                        to = to;
                        suitable = e;
                        valid_to = t;
                        valid_from = t₂;
                        valid_items = items;
                        delegated = rw (convert_to_version, e, no_scale, t, t₂) d;
                      })
                      | inr (failure, d) ↦
                          inr (failure, rw (convert_to_version, e, no_scale, t, t₂) d)
                    ]
                  ]
          ]
        ]
