-- ===== src/Schema/ListType/Counting.antt =====
-- A map from keys to counters, for any sameness of keys.
use Prim.Native.Nat.{suc}
use mathlib.Core.Bool.{false≢true}
use apiextensions_apiserver.Schema.ListType.Keys.{count, times_seen}
use apiextensions_apiserver.Prelude.{
  inr, suc, if◌then◌else◌, sym, ◌∙◌, List, inl, Bool-cases, Bool, Option, [], ◌∷◌, some, none, true,
  false, true, ◌≡◌, ℕ, refl,
}

abbrev pub or_zero : Option ℕ → ℕ
or_zero none = 0
or_zero (some n) = n

module _ {K : Type 0} (same : K → K → Bool) (same-sym : (k l : K) → same k l ≡ same l k)
    (same_trans : (k l m : K) → same k l ≡ true → same l m ≡ true → same k m ≡ true) where
  pub same-of : (j k q : K) → same j k ≡ true → same j q ≡ same k q
  same-of j k q h = elim (Bool-cases (same k q)) [
    | inl e ↦ same_trans j k q h e ∙ sym e
    | inr e ↦ elim (Bool-cases (same j q)) [
      | inl f ↦ absurd (false≢true (sym e ∙ same_trans k j q (same-sym k j ∙ h) f))
      | inr f ↦ f ∙ sym e
    ]
  ]

  pub times_seen-count :
      (q k : K) (seen : List (K × ℕ))
      → times_seen same q (count same k seen) ≡ (
          if same k q
          then some (suc (or_zero (times_seen same k seen)))
          else times_seen same q seen)
  unfolding times_seen count
  times_seen-count q k [] = refl
  times_seen-count q k ((j, n) ∷ seen) = elim (Bool-cases (same j k)) [
    | inl e ↦
        rw (e, same-of j k q e)
          (elim (Bool-cases (same k q)) [ inl f ↦ rw f refl | inr f ↦ rw f refl ])
    | inr e ↦ elim (Bool-cases (same j q)) [
      | inl f ↦ rw (e, f, not-same e f) refl
      | inr f ↦ rw (e, f) (times_seen-count q k seen)
    ]
  ]
    where
      not-same : same j k ≡ false → same j q ≡ true → same k q ≡ false
      not-same e f = elim (Bool-cases (same k q)) [
        | inl g ↦ absurd (false≢true (sym e ∙ same_trans j q k f (same-sym q k ∙ g)))
        | inr g ↦ g
      ]
