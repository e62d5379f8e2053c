-- ===== src/Schema/Defaulting/Nullness.antt =====
-- Defaulting makes no value null.
use apiextensions_apiserver.Prelude.{
  ap, ◌==◌, String, sym, ◌∙◌, inr, inl, refl, Bool-cases, true, false, ◌≡◌,
}
use apiextensions_apiserver.Schema.Json.{arr, obj, null, Json}
use apiextensions_apiserver.Schema.Structural.{
  no_properties, unset, structural_or_bool, property, StructuralOrBool, Properties, nil, structural,
  to, Ref, Structural,
}
use apiextensions_apiserver.Schema.Defaulting.{
  default_property, or_else, default_additional, default_ref, is_null, fill, default,
}

-- A walk into a value leaves it null, or not null, as it was.
pub is_null-default : (s : Structural) (v : Json) → is_null (default s v) ≡ is_null v
unfolding default
is_null-default (structural i ps ap g x vx vv) (obj ms) = refl
is_null-default (structural i ps ap g x vx vv) (arr xs) = refl
is_null-default (structural i ps ap g x vx vv) _ = refl

pub is_null-default_ref : (s : Ref) (v : Json) → is_null (default_ref s v) ≡ is_null v
unfolding default
is_null-default_ref nil v = refl
is_null-default_ref (to s) v = is_null-default s v

pub is_null-fill : (s : Ref) (v : Json) → is_null v ≡ false → fill s v ≡ v
unfolding fill
is_null-fill s v h = rw h refl

pub null-eq : (v : Json) → is_null v ≡ true → v ≡ null
null-eq null h = refl
null-eq _ h = cc

pub default_ref-null : (s : Ref) → default_ref s null ≡ null
unfolding default
default_ref-null nil = refl
default_ref-null (to (structural i ps ap g x vx vv)) = refl

-- After a fill and a walk, a second fill changes nothing.
pub fill-default_ref :
    (s : Ref) (v : Json) → fill s (default_ref s (fill s v)) ≡ default_ref s (fill s v)
fill-default_ref s v = elim (Bool-cases (is_null (fill s v))) [
  | inl e ↦ let n : fill s v ≡ null = null-eq _ e in rw (n, default_ref-null s) (fill-null s v n)
  | inr e ↦ is_null-fill s _ (is_null-default_ref s _ ∙ e)
]
  where
    fill-null : (s : Ref) (v : Json) → fill s v ≡ null → fill s null ≡ null
    fill-null s null n = n
    fill-null s v n = cc (sym (is_null-fill s v refl) ∙ n)

-- The walk that an object does at a key.
abbrev pub walk : Properties → StructuralOrBool → String → Json → Json
walk ps ap k v = or_else (default_property ps k v) (default_additional ap v)

not-null-additional :
    (ap : StructuralOrBool) (v : Json)
    → is_null v ≡ false
    → is_null (default_additional ap v) ≡ false
unfolding default
not-null-additional unset v h = h
not-null-additional (structural_or_bool s b) v h =
    is_null-default_ref s (fill s v) ∙ ap is_null (is_null-fill s v h) ∙ h

pub not-null-walk :
    (ps : Properties) (ap : StructuralOrBool) (k : String) (v : Json)
    → is_null v ≡ false
    → is_null (walk ps ap k v) ≡ false
unfolding default
not-null-walk no_properties ap k v h = not-null-additional ap v h
not-null-walk (property j s ps) ap k v h = elim (Bool-cases (j == k)) [
  | inl e ↦ rw (e, default_property) (is_null-default s v ∙ h)
  | inr e ↦ rw (e, default_property) (not-null-walk ps ap k v h)
]
