-- ===== src/Schema/Defaulting/Idem.antt =====
-- Defaulting a defaulted value changes nothing.
use apiextensions_apiserver.Schema.Defaulting.Settled.{add_defaults_again}
use apiextensions_apiserver.Schema.Defaulting.Nullness.{fill-default_ref, not-null-walk, walk}
use apiextensions_apiserver.Prelude.{ap, inr, inl, ◌==◌, Bool-cases, ◌∙◌, refl, ap₂, ◌≡◌, String}
use apiextensions_apiserver.Schema.Structural.{
  unset, no_properties, nil, structural_or_bool, property, StructuralOrBool, Properties, to, Ref,
  structural, Structural,
}
use apiextensions_apiserver.Schema.Json.{
  arr, no_elems, no_members, elem, member, obj, Members, Elems, Json,
}
use apiextensions_apiserver.Schema.Defaulting.{
  default_property, default_additional, fill, default_ref, add_defaults, default, map_elems,
  map_members,
}

map_members_idem :
    (f : String → Json → Json)
    → ((k : String) (v : Json) → f k (f k v) ≡ f k v)
    → (ms : Members) → map_members f (map_members f ms) ≡ map_members f ms
unfolding map_members
map_members_idem f h no_members = refl
map_members_idem f h (member k v ms) = ap₂ (member k) (h k v) (map_members_idem f h ms)

map_elems_idem :
    (f : Json → Json)
    → ((v : Json) → f (f v) ≡ f v)
    → (xs : Elems) → map_elems f (map_elems f xs) ≡ map_elems f xs
unfolding map_elems
map_elems_idem f h no_elems = refl
map_elems_idem f h (elem v xs) = ap₂ elem (h v) (map_elems_idem f h xs)

filled_idem :
    (s : Ref)
    → ((v : Json) → default_ref s (default_ref s v) ≡ default_ref s v)
    → (v : Json) → default_ref s (fill s (default_ref s (fill s v))) ≡ default_ref s (fill s v)
filled_idem s ih v = ap (default_ref s) (fill-default_ref s v) ∙ ih (fill s v)

mutual
  unfolding default

  default_idem : (s : Structural) (x : Json) → default s (default s x) ≡ default s x
  default_idem (structural i ps sub g x vx vv) (obj ms) =
      ap (λ (ys : Members). obj (map_members (walk ps sub) ys))
        (add_defaults_again (walk ps sub) (not-null-walk ps sub) ps ms)
      ∙ ap obj (
          map_members_idem (walk ps sub) (λ k v. walk_idem ps sub (additional_idem sub) k v)
            (add_defaults ps ms))
  default_idem (structural i ps sub g x vx vv) (arr xs) =
      ap arr (map_elems_idem (λ v. default_ref i (fill i v)) (filled_idem i (ref_idem i)) xs)
  default_idem (structural i ps sub g x vx vv) _ = refl

  ref_idem : (s : Ref) (v : Json) → default_ref s (default_ref s v) ≡ default_ref s v
  ref_idem nil v = refl
  ref_idem (to s) v = default_idem s v

  walk_idem :
      (ps : Properties) (sub : StructuralOrBool)
      → ((v : Json) → default_additional sub (default_additional sub v) ≡ default_additional sub v)
      → (k : String) (v : Json) → walk ps sub k (walk ps sub k v) ≡ walk ps sub k v
  walk_idem no_properties sub h k v = h v
  walk_idem (property j s ps) sub h k v = elim (Bool-cases (j == k)) [
    | inl e ↦ rw (e, default_property) (default_idem s v)
    | inr e ↦ rw (e, default_property) (walk_idem ps sub h k v)
  ]

  additional_idem :
      (sub : StructuralOrBool) (v : Json)
      → default_additional sub (default_additional sub v) ≡ default_additional sub v
  additional_idem unset v = refl
  additional_idem (structural_or_bool s b) v = filled_idem s (ref_idem s) v

-- Defaulting a value twice gives what defaulting it once gives, for every schema, nil included.
pub default_ref_idem : (s : Ref) (x : Json) → default_ref s (default_ref s x) ≡ default_ref s x
default_ref_idem s x = ref_idem s x
