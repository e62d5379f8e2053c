-- ===== src/Schema/Pruning/Fields.antt =====
-- The fields of a pruned object.
use apiextensions_apiserver.Schema.Pruning.Contract.{prune_object-eq-pruned}
use mathlib.Core.Option
use apiextensions_apiserver.Schema.Structural.{
  additional_properties, unset, properties, structural_or_bool, lookup, StructuralOrBool, Ref,
  extensions, to, Structural,
}
use apiextensions_apiserver.Schema.Json.{member, no_members, obj, Members, find, Json}
use apiextensions_apiserver.Schema.Pruning.{
  in_properties, preserves, unknown, skipped, Known-cases, field_of, specified, Known, prune_object,
}
use apiextensions_apiserver.Schema.Pruning.Spec.{kept_members, pruned_members, pruned}
use apiextensions_apiserver.Prelude.{
  ◌||◌, some, ◌&&◌, eq_iff, ◌==◌, Bool-cases, refl, inr, inl, sym, ◌∙◌, none, ap, false,
  if◌then◌else◌, ◌≡◌, true, Option, String, Bool,
}

abbrev pub members_of : Json → Members
members_of (obj ms) = ms
members_of x = no_members

-- What becomes of the field that an object has, or lacks, under a key.
abbrev pub field_after : Bool → Known → Option Json → Option Json
field_after keep skipped v = v
field_after keep (specified t) v = Option.map (λ w. pruned w t) v
field_after keep unknown v = if keep then v else none

find-pruned_members :
    (k : String) (ms : Members) (s : Structural)
    → find k (pruned_members ms (to s)) ≡ field_after false (field_of s k) (find k ms)
unfolding pruned find
find-pruned_members k no_members s = elim (Known-cases (field_of s k)) [
  | inl e ↦ rw e refl
  | inr (inl (t, e)) ↦ rw e refl
  | inr (inr e) ↦ rw e refl
]
find-pruned_members k (member j v ms) s = elim (Bool-cases (j == k)) [
  | inl q ↦
      let same : field_of s k ≡ field_of s j = ap (field_of s) (sym ((eq_iff j k).0 q)) in
      elim (Known-cases (field_of s j)) [
        | inl e ↦ rw (e, pruned_members, q, same ∙ e) refl
        | inr (inl (t, e)) ↦ rw (e, pruned_members, q, same ∙ e) refl
        | inr (inr e) ↦
            rw (e, pruned_members, q, same ∙ e) (find-pruned_members k ms s ∙ rw (same ∙ e) refl)
      ]
  | inr q ↦ elim (Known-cases (field_of s j)) [
    | inl e ↦ rw (e, pruned_members, q) (find-pruned_members k ms s)
    | inr (inl (t, e)) ↦ rw (e, pruned_members, q) (find-pruned_members k ms s)
    | inr (inr e) ↦ rw (e, pruned_members, q) (find-pruned_members k ms s)
  ]
]

find-kept_members :
    (k : String) (ms : Members) (s : Structural)
    → find k (kept_members ms (to s)) ≡ field_after true (field_of s k) (find k ms)
unfolding pruned find
find-kept_members k no_members s = elim (Known-cases (field_of s k)) [
  | inl e ↦ rw e refl
  | inr (inl (t, e)) ↦ rw e refl
  | inr (inr e) ↦ rw e refl
]
find-kept_members k (member j v ms) s = elim (Bool-cases (j == k)) [
  | inl q ↦
      let same : field_of s k ≡ field_of s j = ap (field_of s) (sym ((eq_iff j k).0 q)) in
      elim (Known-cases (field_of s j)) [
        | inl e ↦ rw (e, kept_members, q, same ∙ e) refl
        | inr (inl (t, e)) ↦ rw (e, kept_members, q, same ∙ e) refl
        | inr (inr e) ↦ rw (e, kept_members, q, same ∙ e) refl
      ]
  | inr q ↦ elim (Known-cases (field_of s j)) [
    | inl e ↦ rw (e, kept_members, q) (find-kept_members k ms s)
    | inr (inl (t, e)) ↦ rw (e, kept_members, q) (find-kept_members k ms s)
    | inr (inr e) ↦ rw (e, kept_members, q) (find-kept_members k ms s)
  ]
]

members-pruned :
    (ms : Members) (s : Structural) (b : Bool)
    → preserves (to s) ≡ b
    → members_of (pruned (obj ms) (to s))
      ≡ (if b then kept_members ms (to s) else pruned_members ms (to s))
unfolding pruned
members-pruned ms s b e = rw e refl

find-after :
    (k : String) (ms : Members) (s : Structural) (b : Bool)
    → find k (if b then kept_members ms (to s) else pruned_members ms (to s))
      ≡ field_after b (field_of s k) (find k ms)
find-after k ms s true = find-kept_members k ms s
find-after k ms s false = find-pruned_members k ms s

find_object :
    (k : String) (ms : Members) (s : Structural)
    → find k (members_of (prune_object (obj ms) (to s) false))
      ≡ field_after (extensions s).x_preserve_unknown_fields (field_of s k) (find k ms)
find_object k ms s =
    ap (λ (y : Json). find k (members_of y)) (prune_object-eq-pruned (obj ms) (to s) false)
    ∙ ap (find k) (members-pruned ms s _ refl)
    ∙ find-after k ms s _

-- What becomes of a field: `meta` if it is one of those that the root of an embedded resource has,
-- and otherwise by the schema of its property, or else of the additional properties.
abbrev pub field_left :
    (meta keep : Bool) → Option Structural → StructuralOrBool → Option Json → Option Json
field_left true keep q additional v = v
field_left false keep (some p) additional v = Option.map (λ w. prune_object w (to p) false) v
field_left false keep none (structural_or_bool s b) v = Option.map (λ w. prune_object w s false) v
field_left false true none unset v = v
field_left false false none unset v = none

map-pruned :
    (t : Ref) (v : Option Json)
    → Option.map (λ w. pruned w t) v ≡ Option.map (λ w. prune_object w t false) v
map-pruned t none = refl
map-pruned t (some w) = ap some (sym (prune_object-eq-pruned w t false))

field_after-eq :
    (meta keep : Bool) (q : Option Structural) (additional : StructuralOrBool) (v : Option Json)
    → field_after keep (if meta then skipped else in_properties q additional) v
      ≡ field_left meta keep q additional v
field_after-eq true keep q additional v = refl
field_after-eq false keep (some p) additional v = map-pruned (to p) v
field_after-eq false keep none (structural_or_bool s b) v = map-pruned s v
field_after-eq false true none unset v = refl
field_after-eq false false none unset v = refl

-- Pruning an object with a schema keeps the apiVersion, the kind and the metadata of an embedded
-- resource as they are. It prunes any other field with the schema of the property, or else with that
-- of the additional properties, and drops it if there are neither, unless the schema preserves
-- unknown fields; it adds no field.
pub find-prune_object :
    (k : String) (ms : Members) (s : Structural)
    → find k (members_of (prune_object (obj ms) (to s) false))
      ≡ field_left
          ((extensions s).x_embedded_resource
            && (k == "apiVersion" || k == "kind" || k == "metadata"))
          (extensions s).x_preserve_unknown_fields
          (lookup k (properties s))
          (additional_properties s)
          (find k ms)
unfolding field_of
find-prune_object k ms s =
    find_object k ms s
    ∙ field_after-eq
        ((extensions s).x_embedded_resource
          && (k == "apiVersion" || k == "kind" || k == "metadata"))
        (extensions s).x_preserve_unknown_fields (lookup k (properties s)) (additional_properties s)
        (find k ms)
