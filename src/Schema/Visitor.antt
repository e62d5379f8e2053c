-- ===== src/Schema/Visitor.antt =====
-- pkg/apiserver/schema/visitor.go and skeleton.go
pub mod Stripped
pub mod Defaults
pub mod Tests
use apiextensions_apiserver.Crd.Helpers.{is_set}
use apiextensions_apiserver.Prelude.{if◌then◌else◌, ◌||◌, Option, false, none, Bool}
use apiextensions_apiserver.Schema.Structural.{
  unset, no_properties, nil, structural_or_bool, StructuralOrBool, property, Properties, to, Ref,
  ValueValidation, structural, Generic, Extensions, Structural,
}

-- What a callback makes of a node's own fields, and whether it has changed something. The
-- callbacks here leave the subtrees to the visitor.
pub record Visited : Type 0 where
  pub generic_fields : Generic
  pub validation : Option ValueValidation
  pub changed : Bool

abbrev pub Callback : Type 0
Callback = Generic → Extensions → Option ValueValidation → Visited

-- A property that is not written back to its map keeps its own fields, while its subtrees, which
-- it holds by pointer, are changed.
abbrev pub in_place : Structural → Structural → Structural
in_place (structural i ps ap g x vx vv) (structural i' ps' ap' g' x' vx' vv') =
    structural i' ps' ap' g x vx vv

-- Visit, with a callback for Structural and none for NestedValueValidation.
unfoldable mutual
  pub visit_structural : Callback → Structural → Structural × Bool
  visit_structural f (structural i ps ap g x vx vv) =
      let r = f g x vv in
      let qs = visit_properties f ps in
      (
        structural (visit_ref f i) qs.0 (visit_additional f ap) r.generic_fields x vx r.validation,
        r.changed || qs.1,
      )

  pub visit_ref : Callback → Ref → Ref
  visit_ref f nil = nil
  visit_ref f (to s) = to (visit_structural f s).0

  pub visit_properties : Callback → Properties → Properties × Bool
  visit_properties f no_properties = (no_properties, false)
  visit_properties f (property k v ps) =
      let r = visit_structural f v in
      let rest = visit_properties f ps in
      (property k (if r.1 then r.0 else in_place v r.0) rest.0, r.1 || rest.1)

  pub visit_additional : Callback → StructuralOrBool → StructuralOrBool
  visit_additional f unset = unset
  visit_additional f (structural_or_bool s b) = structural_or_bool (visit_ref f s) b

abbrev pub drop_validation : Callback
drop_validation g x vv = record { generic_fields = g; validation = none; changed = is_set vv }

abbrev pub drop_nullable : Callback
drop_nullable g x vv = record {
  generic_fields = record g { nullable = false };
  validation = vv;
  changed = g.nullable;
}

unfoldable pub strip_value_validations : Structural → Structural
unfolding visit_structural
strip_value_validations s = (visit_structural drop_validation s).0

unfoldable pub strip_nullable : Structural → Structural
unfolding visit_structural
strip_nullable s = (visit_structural drop_nullable s).0
