-- ===== src/Conversion/Converter/Factory/Correct.antt =====
-- pkg/apiserver/conversion/converter.go: the converter that NewConverter makes for a CRD.
use apiextensions_apiserver.Conversion.Webhook.{webhook_convert}
use apiextensions_apiserver.Conversion.Review.{is_empty_unstructured_object, Review, ReviewRequest}
use mathlib.Core.Path.{subst}
use apiextensions_apiserver.Crd.{Crd, Version, Conversion}
use apiextensions_apiserver.Conversion.Converter.Factory.{
  hooked, new_converter, new_webhook_converter, converter_of, crd_version, deref, ClientConfig,
  webhook_client_config_for_crd,
}
use apiextensions_apiserver.Conversion.Converter.{
  CrConverter, Converter, has_version, convert_to_version, is_scale,
}
use apiextensions_apiserver.Conversion.Converter.Versions.{convert_to_version-IsDelegated}
use apiextensions_apiserver.Conversion.Webhook.Correct.{
  AreFrom, ConversionOutcome, webhook_convert-ConversionOutcome,
}
use apiextensions_apiserver.Conversion.{
  RawExtension, group_version, object_gvk, Gvk, gv_eq, Gv, Object, Machinery, ConversionError,
  Documented,
}
use apiextensions_apiserver.Prelude.{
  Result-cases, or_nil, none, inr, sym, ap, eq_iff, ◌&&◌, arith, ok_injective, ◌∙◌, inl, >>=-eq-ok,
  Option, Bool, Bool-cases, Any, ◌≡◌, map, String, List, Result, [], ◌∷◌, true, false, some, ok,
}

-- The group is the CRD's and it has a version of the name.
abbrev pub Declares : Crd → Gv → Type 0
Declares crd gv = (crd.spec.group ≡ gv.group) × Any (λ v. v.name ≡ gv.version) (crd.spec.versions)

Declares-has_version :
    (crd : Crd) (versions : List Version) (gv : Gv)
    → has_version (map (crd_version crd) versions) gv ≡ true
    → (crd.spec.group ≡ gv.group) × Any (λ v. v.name ≡ gv.version) versions
Declares-has_version crd [] gv h = cc
Declares-has_version crd (v ∷ vs) gv h = elim (Bool-cases (gv_eq (crd_version crd v) gv)) [
  | inl e ↦ (
    ground (arith, e, eq_iff (crd.spec.group) (gv.group)),
    inl (ground (arith, e, eq_iff (v.name) (gv.version))),
  )
  | inr e ↦
      let (group, later) = Declares-has_version crd vs gv (ground (arith, e, h)) in
      (group, inr later)
]

deref-eq {ℓ} : {A : Type ℓ} (o : Option A) (a b : A) → o ≡ some a → deref o ≡ ok b → b ≡ a
unfolding deref
deref-eq none a b h k = cc
deref-eq (some x) a b h k = cc

module _ (m : Machinery)
    (hook_client : ClientConfig → Result String (ReviewRequest → Review → Result String Review))
    (new_uid : Object → Gv → String) where
  -- The client for the webhook of the CRD.
  abbrev pub IsClient : Crd → (ReviewRequest → Review → Result String Review) → Type 0
  IsClient crd call =
      (config : ClientConfig) × (webhook_client_config_for_crd crd ≡ ok config)
      × (hook_client config ≡ ok call)

  client_found :
      (config : ClientConfig) (call : ReviewRequest → Review → Result String Review)
      → hooked m hook_client new_uid config ≡ ok call
      → hook_client config ≡ ok call
  unfolding hooked
  client_found config call h = elim (Result-cases (hook_client config)) [
    | inl (c, e) ↦ e ∙ ap ok (ok_injective (rw (hooked, e) at h))
    | inr (f, e) ↦ cc (rw (hooked, e) at h)
  ]

  -- The converter of the webhook strategy.
  ok-new_webhook_converter :
      (crd : Crd) (converter : Converter)
      → new_webhook_converter m hook_client new_uid crd ≡ ok converter
      → (call : ReviewRequest → Review → Result String Review) × (versions : List String) × IsClient
          crd call
        × ((λ in_object gv. webhook_convert m call versions (new_uid in_object gv) in_object gv)
            ≡ converter)
  unfolding new_webhook_converter
  ok-new_webhook_converter crd converter h =
      let (config, e, h₁) = >>=-eq-ok (webhook_client_config_for_crd crd) _ h in
      let (call, e₁, h₂) = >>=-eq-ok (hooked m hook_client new_uid config) _ h₁ in
      let (conversion, e₂, h₃) = >>=-eq-ok (deref (crd.spec.conversion)) _ h₂ in
      let (webhook, e₃, h₄) = >>=-eq-ok (deref (conversion.webhook)) _ h₃ in
      (
        call,
        or_nil (webhook.conversion_review_versions),
        (config, e, client_found config call e₁),
        ok_injective h₄,
      )

  ok-new_converter :
      (selectors : Bool) (crd : Crd) (conversion : Conversion) (c : CrConverter)
      → crd.spec.conversion ≡ some conversion
      → new_converter m hook_client new_uid selectors crd ≡ ok c
      → (converter_of m hook_client new_uid crd (conversion.strategy) ≡ ok (c.converter))
        × (c.valid_versions ≡ map (crd_version crd) (crd.spec.versions))
  unfolding new_converter deref
  ok-new_converter selectors crd conversion c s h =
      let (found, e, h₁) = >>=-eq-ok (deref (crd.spec.conversion)) _ h in
      let (converter, e₁, h₂) =
        >>=-eq-ok (converter_of m hook_client new_uid crd (found.strategy)) _ h₁ in
      let same = deref-eq (crd.spec.conversion) conversion found s e in
      (
        subst (λ k. converter_of m hook_client new_uid crd (k.strategy) ≡ ok (c.converter)) same
            (e₁ ∙ ap (λ (k : CrConverter). ok (k.converter)) (ok_injective h₂)),
        sym (ap (λ (k : CrConverter). k.valid_versions) (ok_injective h₂)),
      )

  -- Of a CRD with the webhook strategy: an object that is neither empty nor a Scale with its
  -- subresource is refused, or it is converted to a version that the CRD declares from one that it
  -- declares. Then what is in the version already is the same, and each other object comes from its
  -- place in the accepted answer of the CRD's webhook to a request for exactly these objects. The
  -- returned object has the name, namespace and UID of the original, and what is made of it is in the
  -- target version, is of the same kind, name, namespace and UID, and has the original's metadata, with
  -- labels and annotations of the webhook.
  pub new_converter-ConversionOutcome :
      (documented : Documented m)
      (scheme : Object → (Gvk → Option Gvk) → Object × Result ConversionError Object)
      (selectors : Bool) (crd : Crd) (conversion : Conversion) (c : CrConverter)
      (in_object : Object) (target : Gvk → Option Gvk) (result : Object)
      → crd.spec.conversion ≡ some conversion
      → conversion.strategy ≡ "Webhook"
      → new_converter m hook_client new_uid selectors crd ≡ ok c
      → (c.convert_scale && is_scale in_object) ≡ false
      → is_empty_unstructured_object in_object ≡ false
      → (convert_to_version m scheme c in_object target).1 ≡ ok result
      → (to : Gvk) × (target (object_gvk m in_object) ≡ some to)
        × Declares crd (group_version to)
        × Declares crd (group_version (object_gvk m in_object))
        × (call : ReviewRequest → Review → Result String Review) × IsClient crd call
        × (versions : List String) × (objects : List RawExtension) × AreFrom m call versions
            (new_uid in_object (group_version to))
            (group_version to)
            in_object
            objects
        × ConversionOutcome m (group_version to) in_object objects result
  unfolding converter_of
  new_converter-ConversionOutcome documented scheme selectors crd conversion c in_object target
        result s w made no_scale not_empty h =
      let (of_strategy, versions) = ok-new_converter selectors crd conversion c s made in
      let (call, reviews, is_client, is_webhook) =
        ok-new_webhook_converter crd (c.converter) (rw (converter_of, w) at of_strategy) in
      elim (convert_to_version-IsDelegated m scheme c in_object target no_scale) [
        | inr (e, refused) ↦ cc (sym (ap (λ r. r.1) refused) ∙ h)
        | inl d ↦
            let declared = λ (gv : Gv) (v : has_version (c.valid_versions) gv ≡ true).
              Declares-has_version crd (crd.spec.versions) gv
                (subst (λ vs. has_version vs gv ≡ true) versions v) in
            let outcome =
              webhook_convert-ConversionOutcome m documented call reviews
                (new_uid in_object (group_version (d.to))) in_object (group_version (d.to)) result
                not_empty
                (ap (λ (k : Converter). (k in_object (group_version (d.to))).1) is_webhook
                  ∙ sym (ap (λ r. r.1) (d.delegated))
                  ∙ h) in
            (
              d.to,
              d.suitable,
              declared (group_version (d.to)) (d.valid_to),
              declared (group_version (object_gvk m in_object)) (d.valid_from),
              call,
              is_client,
              reviews,
              outcome.0,
              outcome.1,
              outcome.2,
            )
      ]
