-- ===== src/Prelude/Results.antt =====
-- What a function with a second result of type error returns: a value, or the error.
use mathlib.Core.Path.{◌≡◌, refl, sym, ap, ◌∙◌}
use mathlib.Core.Logic.{◌⊎◌, inl, inr}

pub data Result {ℓ} (E : Type 0) (A : Type ℓ) : Type ℓ where
  err : E → Result E A
  ok : A → Result E A

module _ {E : Type 0} where
  -- `if err != nil { return err }` before the rest.
  infixl 5 ◌>>=◌
  abbrev pub ◌>>=◌ {ℓ κ} :
      {A : Type ℓ} {B : Type κ} (first : Result E A) (rest : A → Result E B) → Result E B
  err why >>= rest = err why
  ok value >>= rest = rest value

  pub Result-cases {ℓ} :
      {A : Type ℓ} (r : Result E A) → ((a : A) × (r ≡ ok a)) ⊎ ((e : E) × (r ≡ err e))
  Result-cases (err why) = inr (why, refl)
  Result-cases (ok value) = inl (value, refl)

  pub ok_injective {ℓ} : {A : Type ℓ} {a b : A} → ◌≡◌ {A = Result E A} (ok a) (ok b) → a ≡ b
  ok_injective h = cc

  -- A chain that has come to a value has done so at every step.
  pub >>=-eq-ok {ℓ κ} :
      {A : Type ℓ} {B : Type κ} {last : B} (first : Result E A) (rest : A → Result E B)
      → (first >>= rest) ≡ ok last
      → (value : A) × (first ≡ ok value) × (rest value ≡ ok last)
  >>=-eq-ok first rest h = elim (Result-cases first) [
    | inl (value, e) ↦ (value, e, ap (λ r. r >>= rest) (sym e) ∙ h)
    | inr (why, e) ↦ cc (ap (λ r. r >>= rest) (sym e) ∙ h)
  ]
