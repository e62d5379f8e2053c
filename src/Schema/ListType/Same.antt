-- ===== src/Schema/ListType/Same.antt =====
-- That sameness of keys is an equivalence, but for the NaNs.
use mathlib.Core.Bool.{false≢true}
use apiextensions_apiserver.Schema.ListType.Keys.{
  same_key, Key, value, unspecified, scalar, compound, same_float, Item, same_scalar,
}
use apiextensions_apiserver.Schema.Json.{null, bool, int, float, str}
use apiextensions_apiserver.Prelude.{
  inr, sym, ◌∙◌, inl, Bool-cases, eq_iff, true, false, arith, true, ◌≡◌, ℕ, pos, negsuc, refl,
}

same_float-sym : (a b : ℕ) → same_float a b ≡ same_float b a
same_float-sym a b = ground arith

same_float_trans :
    (a b c : ℕ) → same_float a b ≡ true → same_float b c ≡ true → same_float a c ≡ true
same_float_trans a b c h k = ground arith

same_scalar-flip : (x y : Item) → same_scalar x y ≡ true → same_scalar y x ≡ true
unfolding same_scalar
same_scalar-flip (value (bool true)) (value (bool b)) h = rw h refl
same_scalar-flip (value (bool false)) (value (bool false)) h = refl
same_scalar-flip (value (int (pos a))) (value (int (pos b))) h = ground arith
same_scalar-flip (value (int (negsuc a))) (value (int (negsuc b))) h = ground arith
same_scalar-flip (value (float a)) (value (float b)) h = same_float-sym b a ∙ h
same_scalar-flip (value (str a)) (value (str b)) h = ground (arith, eq_iff a b, eq_iff b a)
same_scalar-flip unspecified unspecified h = refl
same_scalar-flip (value null) (value null) h = refl
same_scalar-flip _ _ h = cc

pub same_scalar-sym : (x y : Item) → same_scalar x y ≡ same_scalar y x
same_scalar-sym x y = elim (Bool-cases (same_scalar x y)) [
  | inl e ↦ e ∙ sym (same_scalar-flip x y e)
  | inr e ↦ elim (Bool-cases (same_scalar y x)) [
    | inl f ↦ absurd (false≢true (sym e ∙ same_scalar-flip y x f))
    | inr f ↦ e ∙ sym f
  ]
]

pub same_scalar_trans :
    (x y z : Item) → same_scalar x y ≡ true → same_scalar y z ≡ true → same_scalar x z ≡ true
unfolding same_scalar
same_scalar_trans (value (float a)) (value (float b)) (value (float c)) h k =
    same_float_trans a b c h k
same_scalar_trans (value (str a)) (value (str b)) (value (str c)) h k =
    ground (arith, eq_iff a b, eq_iff b c, eq_iff a c)
same_scalar_trans (value (int (pos a))) (value (int (pos b))) (value (int (pos c))) h k =
    ground arith
same_scalar_trans (value (int (negsuc a))) (value (int (negsuc b))) (value (int (negsuc c))) h k =
    ground arith
same_scalar_trans (value (bool true)) (value (bool true)) (value (bool c)) h k = k
same_scalar_trans (value (bool false)) (value (bool false)) (value (bool c)) h k = k
same_scalar_trans unspecified unspecified unspecified h k = refl
same_scalar_trans (value null) (value null) (value null) h k = refl
same_scalar_trans _ _ _ h k = cc

pub same_key-sym : (k l : Key) → same_key k l ≡ same_key l k
same_key-sym (scalar x) (scalar y) = same_scalar-sym x y
same_key-sym (compound s) (compound t) = ground (arith, eq_iff s t, eq_iff t s)
same_key-sym _ _ = refl

pub same_key_trans : (k l m : Key) → same_key k l ≡ true → same_key l m ≡ true → same_key k m ≡ true
same_key_trans (scalar x) (scalar y) (scalar z) h k = same_scalar_trans x y z h k
same_key_trans (compound s) (compound t) (compound u) h k =
    ground (arith, eq_iff s t, eq_iff t u, eq_iff s u)
same_key_trans _ _ _ h k = cc
