-- ===== src/Schema/Visitor/Stripped.antt =====
-- What stripping leaves.
use apiextensions_apiserver.Schema.Visitor.{
  visit_additional, visit_properties, in_place, visit_ref, visit_structural, Callback,
}
use apiextensions_apiserver.Prelude.{
  ◌∙◌, sym, inr, inl, ap₂, Bool-cases, true, refl, ap, false, Option, ◌≡◌, ◌||◌, Bool,
}
use apiextensions_apiserver.Schema.Structural.{
  unset, no_properties, nil, structural_or_bool, StructuralOrBool, property, Properties,
  ValueValidation, to, Ref, Generic, Extensions, structural, Structural,
}

abbrev pub Honest : Callback → Type 0
Honest f =
    (g : Generic) (x : Extensions) (vv : Option ValueValidation)
    → (f g x vv).changed ≡ false
    → ((f g x vv).generic_fields ≡ g) × ((f g x vv).validation ≡ vv)

-- The callback at every node, without flags.
unfoldable mutual
  pub at_every_node : Callback → Structural → Structural
  at_every_node f (structural i ps ap g x vx vv) =
      structural (at_every_ref f i) (at_every_property f ps) (at_every_additional f ap)
        (f g x vv).generic_fields x vx (f g x vv).validation

  pub at_every_ref : Callback → Ref → Ref
  at_every_ref f nil = nil
  at_every_ref f (to s) = to (at_every_node f s)

  pub at_every_property : Callback → Properties → Properties
  at_every_property f no_properties = no_properties
  at_every_property f (property k v ps) = property k (at_every_node f v) (at_every_property f ps)

  pub at_every_additional : Callback → StructuralOrBool → StructuralOrBool
  at_every_additional f unset = unset
  at_every_additional f (structural_or_bool s b) = structural_or_bool (at_every_ref f s) b

or_false : (a b : Bool) → (a || b) ≡ false → a ≡ false
or_false false b h = refl
or_false true b h = cc

module _ (f : Callback) (honest : Honest f) where
  kept :
      (v : Structural)
      → (visit_structural f v).1 ≡ false
      → in_place v (visit_structural f v).0 ≡ (visit_structural f v).0
  unfolding visit_structural
  kept (structural i ps ap g x vx vv) h =
      let (p, q) = honest g x vv (or_false (f g x vv).changed (visit_properties f ps).1 h) in
      ap₂
        (λ (g' : Generic) (vv' : Option ValueValidation).
          structural (visit_ref f i) (visit_properties f ps).0 (visit_additional f ap) g' x vx vv')
        (sym p) (sym q)

  mutual
    unfolding visit_structural at_every_node

    visit-node : (s : Structural) → (visit_structural f s).0 ≡ at_every_node f s
    visit-node (structural i ps sub g x vx vv) =
        rw (visit-ref i, visit-properties ps, visit-additional sub) refl

    visit-ref : (s : Ref) → visit_ref f s ≡ at_every_ref f s
    visit-ref nil = refl
    visit-ref (to s) = ap (λ (t : Structural). to t) (visit-node s)

    visit-properties : (ps : Properties) → (visit_properties f ps).0 ≡ at_every_property f ps
    visit-properties no_properties = refl
    visit-properties (property k v ps) = elim (Bool-cases (visit_structural f v).1) [
      | inl e ↦ rw e (ap₂ (property k) (visit-node v) (visit-properties ps))
      | inr e ↦ rw e (ap₂ (property k) (kept v e ∙ visit-node v) (visit-properties ps))
    ]

    visit-additional : (ap' : StructuralOrBool) → visit_additional f ap' ≡ at_every_additional f ap'
    visit-additional unset = refl
    visit-additional (structural_or_bool s b) =
        ap (λ (t : Ref). structural_or_bool t b) (visit-ref s)

-- A visit with a callback whose flag is false only where it changes nothing applies the callback
-- to every node: no change to a property is lost.
pub visit-eq-at_every_node :
    (f : Callback) (s : Structural) → Honest f → (visit_structural f s).0 ≡ at_every_node f s
visit-eq-at_every_node f s honest = visit-node f honest s
