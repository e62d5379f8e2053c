-- ===== src/Schema/Visitor/Defaults.antt =====
-- Defaulting does not look at value validations.
use apiextensions_apiserver.Schema.Json.{
  find, arr, no_members, no_elems, obj, elem, Elems, member, Members, Json,
}
use apiextensions_apiserver.Prelude.{Option, ◌∙◌, refl, ap₂, none, ap, some, ◌≡◌, String}
use apiextensions_apiserver.Schema.Visitor.{drop_validation, strip_value_validations}
use apiextensions_apiserver.Schema.Visitor.Stripped.{
  at_every_additional, visit-eq-at_every_node, at_every_property, at_every_ref, at_every_node,
  Honest,
}
use apiextensions_apiserver.Schema.Defaulting.{
  lacks, is_non_nullable_null, default_ref, default_additional, default_property, or_else, default,
  add_defaults, add_default, fill, map_members, map_elems,
}
use apiextensions_apiserver.Schema.Structural.{
  unset, structural_or_bool, StructuralOrBool, no_properties, property, nil, structural, to, Ref,
  Properties, Structural,
}

abbrev bare : Structural → Structural
bare s = at_every_node drop_validation s

map_members-cong :
    (f g : String → Json → Json)
    → ((k : String) (v : Json) → f k v ≡ g k v)
    → (ms : Members) → map_members f ms ≡ map_members g ms
unfolding map_members
map_members-cong f g h no_members = refl
map_members-cong f g h (member k v ms) = ap₂ (member k) (h k v) (map_members-cong f g h ms)

map_elems-cong :
    (f g : Json → Json) → ((v : Json) → f v ≡ g v) → (xs : Elems) → map_elems f xs ≡ map_elems g xs
unfolding map_elems
map_elems-cong f g h no_elems = refl
map_elems-cong f g h (elem v xs) = ap₂ elem (h v) (map_elems-cong f g h xs)

fill-ref : (s : Ref) (v : Json) → fill (at_every_ref drop_validation s) v ≡ fill s v
unfolding fill at_every_node
fill-ref nil v = refl
fill-ref (to (structural i ps sub g x vx vv)) v = refl

lacks-node : (o : Option Json) (p : Structural) → lacks o (to (bare p)) ≡ lacks o (to p)
unfolding is_non_nullable_null at_every_node
lacks-node none p = refl
lacks-node (some v) (structural i ps sub g x vx vv) = refl

add_default-node :
    (k : String) (p : Structural) (ms : Members) → add_default k (bare p) ms ≡ add_default k p ms
unfolding add_default at_every_node
add_default-node k (structural i ps sub g x vx vv) ms =
    rw (lacks-node (find k ms) (structural i ps sub g x vx vv)) refl

add_defaults-property :
    (ps : Properties) (ms : Members)
    → add_defaults (at_every_property drop_validation ps) ms ≡ add_defaults ps ms
unfolding add_defaults at_every_node
add_defaults-property no_properties ms = refl
add_defaults-property (property k p ps) ms =
    ap (add_defaults (at_every_property drop_validation ps)) (add_default-node k p ms)
    ∙ add_defaults-property ps (add_default k p ms)

mutual
  unfolding default at_every_node

  default-node : (s : Structural) (x : Json) → default (bare s) x ≡ default s x
  default-node (structural i ps sub g x vx vv) (obj ms) = ap obj (
      map_members-cong _ _ (λ k v. ap₂ or_else (default-property ps k v) (default-additional sub v))
        (add_defaults (at_every_property drop_validation ps) ms)
      ∙ ap (map_members (λ k v. or_else (default_property ps k v) (default_additional sub v)))
          (add_defaults-property ps ms))
  default-node (structural i ps sub g x vx vv) (arr xs) = ap arr (
      map_elems-cong _ _
        (λ v.
          ap (default_ref (at_every_ref drop_validation i)) (fill-ref i v)
          ∙ default-ref i (fill i v))
        xs)
  default-node (structural i ps sub g x vx vv) _ = refl

  default-ref :
      (s : Ref) (x : Json) → default_ref (at_every_ref drop_validation s) x ≡ default_ref s x
  default-ref nil x = refl
  default-ref (to s) x = default-node s x

  default-property :
      (ps : Properties) (k : String) (v : Json)
      → default_property (at_every_property drop_validation ps) k v ≡ default_property ps k v
  default-property no_properties k v = refl
  default-property (property j s ps) k v = rw (default-node s v, default-property ps k v) refl

  default-additional :
      (sub : StructuralOrBool) (v : Json)
      → default_additional (at_every_additional drop_validation sub) v ≡ default_additional sub v
  default-additional unset v = refl
  default-additional (structural_or_bool s b) v =
      ap (default_ref (at_every_ref drop_validation s)) (fill-ref s v) ∙ default-ref s (fill s v)

Honest-drop_validation : Honest drop_validation
Honest-drop_validation g x none e = (refl, refl)
Honest-drop_validation g x (some v) e = cc

-- A schema without its value validations, as StripValueValidations leaves it, defaults every value
-- as the schema does.
pub default-strip_value_validations :
    (s : Structural) (x : Json) → default (strip_value_validations s) x ≡ default s x
unfolding strip_value_validations
default-strip_value_validations s x =
    ap (λ (t : Structural). default t x)
      (visit-eq-at_every_node drop_validation s Honest-drop_validation)
    ∙ default-node s x
