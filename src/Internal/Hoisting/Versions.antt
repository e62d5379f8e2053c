-- ===== src/Internal/Hoisting/Versions.antt =====
-- pkg/apis/apiextensions/v1/conversion.go: the versions of a spec, whose common fields are hoisted and
-- put back.
use apiextensions_apiserver.Internal.Document.{document_out, validation_in, validation_out}
use mathlib.Core.Path.{subst}
use apiextensions_apiserver.Internal.Hoisting.{
  clear, convert_version, convert_versions, overlay, Peer, at_pointer, identical, unless, only_if,
  or_own,
}
use apiextensions_apiserver.Crd.{Version, Validation, ColumnDefinition, Subresources}
use apiextensions_apiserver.Prelude.{
  ap, ap₂, Result, map, >>=-eq-ok, arith, ok_injective, String, All, ok, sym, or_nil, Bool, List,
  Option, ◌≡◌, refl, some, none, true, false, [], ◌∷◌,
}

-- What the conversion relies on: values that are found equal are, where nil and empty slices are the
-- same.
pub record Sound (p : Peer) : Type 0 where
  pub subresources : (a b : Option Subresources) → p.same_subresources a b ≡ true → a ≡ b
  pub schema : (a b : Option Validation) → p.same_schema a b ≡ true → a ≡ b
  pub columns :
      (a b : Option (List ColumnDefinition)) → p.same_columns a b ≡ true → or_nil a ≡ or_nil b
  pub fields : (a b : Option (List String)) → p.same_fields a b ≡ true → or_nil a ≡ or_nil b

-- A schema without the defaults and the examples in it that are null.
abbrev pub without_nulls : Option Validation → Option Validation
without_nulls none = none
without_nulls (some v) = some (record v { open_api_v3_schema = document_out v.open_api_v3_schema })

abbrev pub version_without_nulls : Version → Version
version_without_nulls v = record v { schema = without_nulls v.schema }

-- The same version, up to nil and empty slices.
pub record SameVersion (a b : Version) : Type 0 where
  pub rest :
      record a {
        additional_printer_columns = b.additional_printer_columns;
        selectable_fields = b.selectable_fields;
      }
      ≡ b
  pub columns : or_nil (a.additional_printer_columns) ≡ or_nil (b.additional_printer_columns)
  pub fields : or_nil (a.selectable_fields) ≡ or_nil (b.selectable_fields)

abbrev pub SameVersions : List Version → List Version → Type 0
SameVersions [] [] = Unit
SameVersions (a ∷ before) (b ∷ after) = SameVersion a b × SameVersions before after
SameVersions before after = ⊥

module _ {ℓ} {A : Type ℓ} where
  pub All-identical :
      (same : A → A → Bool) (field : Version → A) (first : A) (vs : List Version)
      → identical same field first vs ≡ true
      → All (λ v. same (field v) first ≡ true) vs
  unfolding identical
  All-identical same field first [] h = tt
  All-identical same field first (v ∷ vs) h =
      (ground (arith, h), All-identical same field first vs (ground (arith, h)))

  -- A field that is hoisted and put back.
  or_own-unless :
      (b : Bool) (own first : Option A)
      → (b ≡ true → own ≡ first)
      → or_own (only_if b first) (unless b own) ≡ own
  unfolding or_own only_if unless
  or_own-unless true own none h = sym (h refl)
  or_own-unless true own (some a) h = sym (h refl)
  or_own-unless false own first h = refl

  or_nil-or_own :
      (b : Bool) (own first : Option (List A))
      → (b ≡ true → or_nil own ≡ or_nil first)
      → or_nil own ≡ or_nil (or_own (only_if b first) (unless b own))
  unfolding or_own only_if unless
  or_nil-or_own true own none h = h refl
  or_nil-or_own true own (some a) h = h refl
  or_nil-or_own false own first h = refl

SameVersion-overlay :
    (b₁ b₂ b₃ b₄ : Bool) (v₀ v : Version)
    → (b₁ ≡ true → v.subresources ≡ v₀.subresources)
    → (b₂ ≡ true → v.schema ≡ v₀.schema)
    → (b₃ ≡ true → or_nil (v.additional_printer_columns) ≡ or_nil (v₀.additional_printer_columns))
    → (b₄ ≡ true → or_nil (v.selectable_fields) ≡ or_nil (v₀.selectable_fields))
    → SameVersion v (
        overlay
          (only_if b₁ (v₀.subresources))
          (only_if b₂ (v₀.schema))
          (only_if b₃ (v₀.additional_printer_columns))
          (only_if b₄ (v₀.selectable_fields))
          (clear b₁ b₂ b₃ b₄ v))
unfolding overlay clear
SameVersion-overlay b₁ b₂ b₃ b₄ v₀ v s d c f = record {
  rest =
      ap₂
        (λ subresources schema. record v {
          subresources = subresources;
          schema = schema;
          additional_printer_columns =
              or_own (only_if b₃ (v₀.additional_printer_columns))
                (unless b₃ (v.additional_printer_columns));
          selectable_fields =
              or_own (only_if b₄ (v₀.selectable_fields)) (unless b₄ (v.selectable_fields));
        })
        (sym (or_own-unless b₁ (v.subresources) (v₀.subresources) s))
        (sym (or_own-unless b₂ (v.schema) (v₀.schema) d));
  columns = or_nil-or_own b₃ (v.additional_printer_columns) (v₀.additional_printer_columns) c;
  fields = or_nil-or_own b₄ (v.selectable_fields) (v₀.selectable_fields) f;
}

module _ (p : Peer) (sound : Sound p) where
  in_place : (v x : Validation) → validation_in v ≡ ok x → v ≡ x
  unfolding validation_in
  in_place v x e = ok_injective e

  pub at_pointer-at_pointer :
      (v w : Option Validation)
      → at_pointer validation_in v ≡ ok w
      → at_pointer validation_out w ≡ ok (without_nulls v)
  unfolding at_pointer validation_out
  at_pointer-at_pointer none w h =
      subst (λ w. at_pointer validation_out w ≡ ok none) (ok_injective h) refl
  at_pointer-at_pointer (some v) w h =
      let (x, e, h₁) = >>=-eq-ok (validation_in v) _ h in
      subst (λ w. at_pointer validation_out w ≡ ok (without_nulls (some v))) (ok_injective h₁)
        (ap (λ y. ok (without_nulls (some y))) (sym (in_place v x e)))

  -- A version is converted by its schema.
  ok-convert_version :
      (f : Validation → Result String Validation) (v w : Version)
      → convert_version f v ≡ ok w
      → (schema : Option Validation) × (at_pointer f (v.schema) ≡ ok schema)
        × (record v { schema = schema } ≡ w)
  unfolding convert_version
  ok-convert_version f v w h =
      let (schema, e, h₁) = >>=-eq-ok (at_pointer f (v.schema)) _ h in (schema, e, ok_injective h₁)

  at_pointer-unless :
      (b : Bool) (v w : Option Validation)
      → at_pointer validation_in v ≡ ok w
      → at_pointer validation_out (unless b w) ≡ ok (unless b (without_nulls v))
  unfolding unless at_pointer
  at_pointer-unless true v w h = refl
  at_pointer-unless false v w h = at_pointer-at_pointer v w h

  pub at_pointer-only_if :
      (b : Bool) (v w : Option Validation)
      → at_pointer validation_in v ≡ ok w
      → at_pointer validation_out (only_if b w) ≡ ok (only_if b (without_nulls v))
  unfolding only_if at_pointer
  at_pointer-only_if true v w h = at_pointer-at_pointer v w h
  at_pointer-only_if false v w h = refl

  convert_version-clear :
      (b₁ b₂ b₃ b₄ : Bool) (v w : Version)
      → convert_version validation_in v ≡ ok w
      → convert_version validation_out (clear b₁ b₂ b₃ b₄ w)
        ≡ ok (clear b₁ b₂ b₃ b₄ (version_without_nulls v))
  unfolding convert_version clear
  convert_version-clear b₁ b₂ b₃ b₄ v w h =
      let (schema, e, same) = ok-convert_version validation_in v w h in
      subst
        (λ w.
          convert_version validation_out (clear b₁ b₂ b₃ b₄ w)
          ≡ ok (clear b₁ b₂ b₃ b₄ (version_without_nulls v)))
        same (rw (at_pointer-unless b₂ (v.schema) schema e))

  pub convert_versions-clear :
      (b₁ b₂ b₃ b₄ : Bool) (vs ws : List Version)
      → convert_versions validation_in vs ≡ ok ws
      → convert_versions validation_out (map (clear b₁ b₂ b₃ b₄) ws)
        ≡ ok (map (clear b₁ b₂ b₃ b₄) (map version_without_nulls vs))
  unfolding convert_versions
  convert_versions-clear b₁ b₂ b₃ b₄ [] ws h =
      subst (λ ws. convert_versions validation_out (map (clear b₁ b₂ b₃ b₄) ws) ≡ ok [])
        (ok_injective h) refl
  convert_versions-clear b₁ b₂ b₃ b₄ (v ∷ vs) ws h =
      let (w, e, h₁) = >>=-eq-ok (convert_version validation_in v) _ h in
      let (rest, e₁, h₂) = >>=-eq-ok (convert_versions validation_in vs) _ h₁ in
      subst
        (λ ws.
          convert_versions validation_out (map (clear b₁ b₂ b₃ b₄) ws)
          ≡ ok (map (clear b₁ b₂ b₃ b₄) (map version_without_nulls (v ∷ vs))))
        (ok_injective h₂)
        (rw
          (convert_version-clear b₁ b₂ b₃ b₄ v w e, convert_versions-clear b₁ b₂ b₃ b₄ vs rest e₁))

  -- What holds of the converted versions, whatever their schemas, holds of the versions.
  pub All-convert_versions :
      (P Q : Version → Type 0)
      → ((v : Version) (schema : Option Validation)
          → at_pointer validation_in (v.schema) ≡ ok schema
          → P (record v { schema = schema })
          → Q v)
      → (vs ws : List Version) → convert_versions validation_in vs ≡ ok ws
      → All P ws
      → All Q vs
  unfolding convert_versions
  All-convert_versions P Q back [] ws h a = tt
  All-convert_versions P Q back (v ∷ vs) ws h a =
      let (w, e, h₁) = >>=-eq-ok (convert_version validation_in v) _ h in
      let (rest, e₁, h₂) = >>=-eq-ok (convert_versions validation_in vs) _ h₁ in
      let (first, later) = subst (All P) (sym (ok_injective h₂)) a in
      let (schema, e₂, same) = ok-convert_version validation_in v w e in
      (back v schema e₂ (subst P (sym same) first), All-convert_versions P Q back vs rest e₁ later)

  -- When the hoisted fields are those of all versions, putting them back gives the versions.
  pub SameVersions-overlay :
      (b₁ b₂ b₃ b₄ : Bool) (v₀ : Version) (vs : List Version)
      → All (λ v. b₁ ≡ true → v.subresources ≡ v₀.subresources) vs
      → All (λ v. b₂ ≡ true → v.schema ≡ v₀.schema) vs
      → All
          (λ v.
            b₃ ≡ true
            → or_nil (v.additional_printer_columns) ≡ or_nil (v₀.additional_printer_columns))
          vs
      → All (λ v. b₄ ≡ true → or_nil (v.selectable_fields) ≡ or_nil (v₀.selectable_fields)) vs
      → SameVersions vs (
          map
            (overlay
              (only_if b₁ (v₀.subresources))
              (only_if b₂ (v₀.schema))
              (only_if b₃ (v₀.additional_printer_columns))
              (only_if b₄ (v₀.selectable_fields)))
            (map (clear b₁ b₂ b₃ b₄) vs))
  SameVersions-overlay b₁ b₂ b₃ b₄ v₀ [] h₁ h₂ h₃ h₄ = tt
  SameVersions-overlay b₁ b₂ b₃ b₄ v₀ (v ∷ vs) (s, h₁) (d, h₂) (c, h₃) (f, h₄) = (
    SameVersion-overlay b₁ b₂ b₃ b₄ v₀ v s d c f,
    SameVersions-overlay b₁ b₂ b₃ b₄ v₀ vs h₁ h₂ h₃ h₄,
  )
