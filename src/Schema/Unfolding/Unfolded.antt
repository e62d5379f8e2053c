-- ===== src/Schema/Unfolding/Unfolded.antt =====
-- pkg/apiserver/schema/unfold.go: what unfolding leaves, and that it leaves that as it is.
use mathlib.Core.Path.{subst}
use apiextensions_apiserver.Schema.Visitor.{Visited}
use apiextensions_apiserver.Prelude.{
  ◌∙◌, sym, if◌then◌else◌, ◌||◌, Bool, refl, none, ap₂, true, not, some, ap, false, ◌&&◌, arith,
  ◌≡◌, Option,
}
use apiextensions_apiserver.Schema.Unfolding.{
  is_int_or_string, has_pattern, with_pattern, is_int_or_string_all_of_pattern,
  is_int_or_string_any_of_pattern, unfold_schema, unfold_node,
}
use apiextensions_apiserver.Schema.Visitor.Stripped.{
  at_every_additional, visit-eq-at_every_node, at_every_property, at_every_ref, Honest,
  at_every_node,
}
use apiextensions_apiserver.Schema.Structural.{
  unset, no_properties, nil, to, no_nested, structural_or_bool, StructuralOrBool, more_nested,
  value_validation, property, Properties, ValueValidation, structural, Generic, Extensions, Ref,
  Structural,
}

-- A node for a value that is an integer or a string has one of the patterns.
abbrev IsNodeUnfolded : Extensions → Option ValueValidation → Type 0
IsNodeUnfolded x vv = (x.x_int_or_string && not (has_pattern vv)) ≡ false

abbrev mutual
  pub IsUnfolded : Structural → Type 0
  IsUnfolded (structural i ps additional g x vx vv) =
      IsNodeUnfolded x vv
      × IsRefUnfolded i
      × ArePropertiesUnfolded ps
      × IsAdditionalUnfolded additional

  pub IsRefUnfolded : Ref → Type 0
  IsRefUnfolded nil = Unit
  IsRefUnfolded (to s) = IsUnfolded s

  pub ArePropertiesUnfolded : Properties → Type 0
  ArePropertiesUnfolded no_properties = Unit
  ArePropertiesUnfolded (property k s ps) = IsUnfolded s × ArePropertiesUnfolded ps

  pub IsAdditionalUnfolded : StructuralOrBool → Type 0
  IsAdditionalUnfolded unset = Unit
  IsAdditionalUnfolded (structural_or_bool s b) = IsRefUnfolded s

or_true : (b : Bool) → (b || true) ≡ true
or_true true = refl
or_true false = refl

has_pattern-with_pattern :
    (vv : Option ValueValidation) → has_pattern (some (with_pattern vv)) ≡ true
unfolding is_int_or_string is_int_or_string_any_of_pattern is_int_or_string_all_of_pattern
    with_pattern
has_pattern-with_pattern none = refl
has_pattern-with_pattern (some (value_validation l vs os no_nested n)) = refl
has_pattern-with_pattern (some (value_validation l vs os (more_nested w ws) n)) =
    or_true (is_int_or_string (more_nested w ws))

unfold_node-IsNodeUnfolded :
    (g : Generic) (x : Extensions) (vv : Option ValueValidation)
    → IsNodeUnfolded x (unfold_node g x vv).validation
unfolding unfold_node
unfold_node-IsNodeUnfolded g x vv = ground (arith, has_pattern-with_pattern vv)

abbrev chosen : Bool → Bool → Generic → Option ValueValidation → Visited
chosen for_both has g vv =
    if not for_both
    then record { generic_fields = g; validation = vv; changed = false }
    else if has
    then record { generic_fields = g; validation = vv; changed = false }
    else record { generic_fields = g; validation = some (with_pattern vv); changed = true }

unchanged :
    (for_both has : Bool) (g : Generic) (vv : Option ValueValidation)
    → (chosen for_both has g vv).changed ≡ false
    → ((chosen for_both has g vv).generic_fields ≡ g) × ((chosen for_both has g vv).validation ≡ vv)
unchanged false has g vv e = (refl, refl)
unchanged true true g vv e = (refl, refl)
unchanged true false g vv e = cc

Honest-unfold_node : Honest unfold_node
unfolding unfold_node
Honest-unfold_node g x vv e = unchanged (x.x_int_or_string) (has_pattern vv) g vv e

kept_node :
    (g : Generic) (x : Extensions) (vv : Option ValueValidation)
    → IsNodeUnfolded x vv
    → unfold_node g x vv ≡ record { generic_fields = g; validation = vv; changed = false }
unfolding unfold_node
kept_node g x vv h = ground arith

mutual
  unfolding at_every_node

  every-IsUnfolded : (s : Structural) → IsUnfolded (at_every_node unfold_node s)
  every-IsUnfolded (structural i ps additional g x vx vv) = (
    unfold_node-IsNodeUnfolded g x vv,
    every-IsRefUnfolded i,
    every-ArePropertiesUnfolded ps,
    every-IsAdditionalUnfolded additional,
  )

  every-IsRefUnfolded : (s : Ref) → IsRefUnfolded (at_every_ref unfold_node s)
  every-IsRefUnfolded nil = tt
  every-IsRefUnfolded (to s) = every-IsUnfolded s

  every-ArePropertiesUnfolded :
      (ps : Properties) → ArePropertiesUnfolded (at_every_property unfold_node ps)
  every-ArePropertiesUnfolded no_properties = tt
  every-ArePropertiesUnfolded (property k s ps) =
      (every-IsUnfolded s, every-ArePropertiesUnfolded ps)

  every-IsAdditionalUnfolded :
      (additional : StructuralOrBool)
      → IsAdditionalUnfolded (at_every_additional unfold_node additional)
  every-IsAdditionalUnfolded unset = tt
  every-IsAdditionalUnfolded (structural_or_bool s b) = every-IsRefUnfolded s

mutual
  unfolding at_every_node

  every_fixed : (s : Structural) → IsUnfolded s → at_every_node unfold_node s ≡ s
  every_fixed (structural i ps additional g x vx vv) (here, h, k, l) =
      rw
        (kept_node g x vv here, ref_fixed i h, properties_fixed ps k, additional_fixed additional l)
        refl

  ref_fixed : (s : Ref) → IsRefUnfolded s → at_every_ref unfold_node s ≡ s
  ref_fixed nil h = refl
  ref_fixed (to s) h = ap to (every_fixed s h)

  properties_fixed :
      (ps : Properties) → ArePropertiesUnfolded ps → at_every_property unfold_node ps ≡ ps
  properties_fixed no_properties h = refl
  properties_fixed (property k s ps) (h, l) =
      ap₂ (property k) (every_fixed s h) (properties_fixed ps l)

  additional_fixed :
      (additional : StructuralOrBool)
      → IsAdditionalUnfolded additional
      → at_every_additional unfold_node additional ≡ additional
  additional_fixed unset h = refl
  additional_fixed (structural_or_bool s b) h =
      ap (λ (t : Ref). structural_or_bool t b) (ref_fixed s h)

unfold_schema-eq-at_every_ref : (s : Ref) → unfold_schema s ≡ at_every_ref unfold_node s
unfolding unfold_schema at_every_node
unfold_schema-eq-at_every_ref nil = refl
unfold_schema-eq-at_every_ref (to s) =
    ap (λ (t : Structural). to t) (visit-eq-at_every_node unfold_node s Honest-unfold_node)

-- Unfolding gives every node of the schema that is for an integer or a string one of the two
-- patterns of value validations that say so, and a schema that is unfolded already is left as it is.
pub unfold_schema-IsRefUnfolded :
    (s : Ref)
    → IsRefUnfolded (unfold_schema s) × (unfold_schema (unfold_schema s) ≡ unfold_schema s)
unfold_schema-IsRefUnfolded s =
    let unfolded =
      subst IsRefUnfolded (sym (unfold_schema-eq-at_every_ref s)) (every-IsRefUnfolded s) in
    (
      unfolded,
      unfold_schema-eq-at_every_ref (unfold_schema s) ∙ ref_fixed (unfold_schema s) unfolded,
    )
