-- ===== src/Internal/Hoisting/Found.antt =====
-- pkg/apis/apiextensions/v1/conversion.go: a version that is found among those that are converted.
use mathlib.Core.Path.{subst}
use apiextensions_apiserver.Internal.Hoisting.{
  unless, convert_version, at_pointer, convert_versions, identical, clear,
}
use apiextensions_apiserver.Crd.Helpers.{find_version, has_per_version_schema, is_set}
use apiextensions_apiserver.Crd.{Version, Validation}
use apiextensions_apiserver.Prelude.{
  arith, ◌&&◌, ◌∙◌, sym, ◌==◌, inr, if◌then◌else◌, ok_injective, Bool-cases, inl, >>=-eq-ok, ap, ok,
  All, map, List, Bool, String, ◌≡◌, Result, Option, refl, some, none, true, false, [], ◌∷◌,
}

some_eq {ℓ} : {A : Type ℓ} (a b : A) → some a ≡ some b → a ≡ b
some_eq a b h = cc

pub All-find_version {κ} :
    (P : Version → Type κ) (version : String) (vs : List Version) (v : Version)
    → All P vs
    → find_version version vs ≡ some v
    → P v
unfolding find_version
All-find_version P version [] v a h = cc
All-find_version P version (x ∷ xs) v (first, later) h = elim (Bool-cases (version == x.name)) [
  | inl e ↦ subst P (some_eq x v (rw (find_version, e) at h)) first
  | inr e ↦ All-find_version P version xs v later (rw (find_version, e) at h)
]

pub find_version-clear :
    (b₁ b₂ b₃ b₄ : Bool) (version : String) (vs : List Version) (v : Version)
    → find_version version vs ≡ some v
    → find_version version (map (clear b₁ b₂ b₃ b₄) vs) ≡ some (clear b₁ b₂ b₃ b₄ v)
unfolding find_version clear
find_version-clear b₁ b₂ b₃ b₄ version [] v h = cc
find_version-clear b₁ b₂ b₃ b₄ version (x ∷ xs) v h = elim (Bool-cases (version == x.name)) [
  | inl e ↦
      rw (find_version, e)
        (ap (λ y. some (clear b₁ b₂ b₃ b₄ y)) (some_eq x v (rw (find_version, e) at h)))
  | inr e ↦
      rw (find_version, e) (find_version-clear b₁ b₂ b₃ b₄ version xs v (rw (find_version, e) at h))
]

module _ (f : Validation → Result String Validation) where
  pub find_version-convert_versions :
      (version : String) (vs ws : List Version) (v : Version)
      → convert_versions f vs ≡ ok ws
      → find_version version vs ≡ some v
      → (schema : Option Validation) × (at_pointer f (v.schema) ≡ ok schema)
        × (find_version version ws ≡ some (record v { schema = schema }))
  unfolding convert_versions convert_version find_version
  find_version-convert_versions version [] ws v h found = cc
  find_version-convert_versions version (x ∷ xs) ws v h found =
      let (w, e, h₁) = >>=-eq-ok (convert_version f x) _ h in
      let (rest, e₁, h₂) = >>=-eq-ok (convert_versions f xs) _ h₁ in
      let (schema, e₂, h₃) = >>=-eq-ok (at_pointer f (x.schema)) _ e in
      let whole = ok_injective h₂ in
      elim (Bool-cases (version == x.name)) [
        | inl t ↦
            let same = some_eq x v (rw (find_version, t) at found) in
            (
              schema,
              ap (λ (y : Version). at_pointer f (y.schema)) (sym same) ∙ e₂,
              ap (find_version version) (sym whole)
                  ∙ ap (λ y. find_version version (y ∷ rest)) (sym (ok_injective h₃))
                  ∙ rw (find_version, t)
                      (ap (λ (y : Version). some (record y { schema = schema })) same),
            )
        | inr n ↦
            let (s, e₃, found₁) =
              find_version-convert_versions version xs rest v e₁ (rw (find_version, n) at found) in
            (
              s,
              e₃,
              ap (find_version version) (sym whole)
                  ∙ ap (λ y. find_version version (y ∷ rest)) (sym (ok_injective h₃))
                  ∙ rw (find_version, n) found₁,
            )
      ]

pub none_left :
    (b₁ b₃ b₄ : Bool) (vs : List Version)
    → has_per_version_schema (map (clear b₁ true b₃ b₄) vs) ≡ false
unfolding has_per_version_schema clear unless
none_left b₁ b₃ b₄ [] = refl
none_left b₁ b₃ b₄ (v ∷ vs) = none_left b₁ b₃ b₄ vs

pub all_left :
    (b₁ b₃ b₄ : Bool) (vs : List Version)
    → has_per_version_schema (map (clear b₁ false b₃ b₄) vs) ≡ has_per_version_schema vs
unfolding has_per_version_schema clear unless
all_left b₁ b₃ b₄ [] = refl
all_left b₁ b₃ b₄ (v ∷ vs) =
    ap (λ rest. if is_set (v.schema) then true else rest) (all_left b₁ b₃ b₄ vs)

pub neither-set {ℓ} :
    {A : Type ℓ} (o : Option A) (rest : Bool)
    → (if is_set o then true else rest) ≡ false
    → (o ≡ none) × (rest ≡ false)
neither-set none rest h = (refl, h)
neither-set (some a) rest h = cc

both_true : {a b : Bool} → a ≡ true → b ≡ true → (a && b) ≡ true
both_true h k = ground (arith, h, k)

-- With no schema anywhere the schemas are identical.
pub identical-none :
    (same : Option Validation → Option Validation → Bool) (vs : List Version)
    → same none none ≡ true
    → has_per_version_schema vs ≡ false
    → identical same (λ v. v.schema) none vs ≡ true
unfolding has_per_version_schema identical
identical-none same [] r h = refl
identical-none same (v ∷ vs) r h =
    let (none_here, none_later) = neither-set (v.schema) (has_per_version_schema vs) h in
    both_true (ap (λ s. same s none) none_here ∙ r) (identical-none same vs r none_later)
