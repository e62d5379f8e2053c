-- ===== src/Schema/Defaulting/Fields.antt =====
-- What defaulting does to the field under each key.
use apiextensions_apiserver.Schema.Defaulting.Settled.{find-map_members}
use apiextensions_apiserver.Schema.Pruning.Fields.{members_of}
use apiextensions_apiserver.Schema.Defaulting.Nullness.{walk}
use apiextensions_apiserver.Schema.Json.{find-assign, obj, find, Members, Json}
use apiextensions_apiserver.Schema.Structural.{
  structural, additional_properties, to, generic, no_properties, properties, property, lookup,
  StructuralOrBool, Structural, Properties,
}
use apiextensions_apiserver.Schema.Defaulting.{
  default_property, lacks, is_null, default_additional, add_defaults, add_default, default,
}
use apiextensions_apiserver.Prelude.{
  fun_ext, eq_refl, ap₂, ◌∙◌, refl, eq_iff, sym, inr, arith, ap, inl, ◌==◌, Bool-cases, none,
  if◌then◌else◌, ◌≡◌, some, String, Option,
}
use mathlib.Core.Option

-- No key is twice among the properties, as in every Go map.
abbrev pub IsMap : Properties → Type 0
IsMap no_properties = Unit
IsMap (property k p ps) = (lookup k ps ≡ none) × IsMap ps

-- The field after the loop over the properties.
abbrev pub or_default : Structural → Option Json → Option Json
or_default p v =
    if is_null (generic p).default
    then v
    else if lacks v (to p)
    then some (generic p).default
    else v

abbrev pub defaulted : Option Structural → Option Json → Option Json
defaulted none v = v
defaulted (some p) v = or_default p v

find-add_default :
    (j k : String) (p : Structural) (ms : Members)
    → find k (add_default j p ms) ≡ (if j == k then or_default p (find k ms) else find k ms)
unfolding add_default
find-add_default j k p ms = elim (Bool-cases (is_null (generic p).default)) [
  | inl e ↦ rw e (ground arith)
  | inr e ↦ elim (Bool-cases (j == k)) [
    | inl q ↦
        rw (q, e, (eq_iff j k).0 q)
          (elim (Bool-cases (lacks (find k ms) (to p))) [
            | inl l ↦ rw (l, find-assign, eq_refl k) refl
            | inr l ↦ rw l refl
          ])
    | inr q ↦
        rw (q, e)
          (elim (Bool-cases (lacks (find j ms) (to p))) [
            | inl l ↦ rw (l, find-assign, q) refl
            | inr l ↦ rw l refl
          ])
  ]
]

find-add_defaults :
    (k : String) (ps : Properties) (ms : Members)
    → IsMap ps
    → find k (add_defaults ps ms) ≡ defaulted (lookup k ps) (find k ms)
unfolding add_defaults lookup
find-add_defaults k no_properties ms u = refl
find-add_defaults k (property j p ps) ms (fresh, u) = elim (Bool-cases (j == k)) [
  | inl q ↦
      rw
        (
          find-add_defaults k ps (add_default j p ms) u,
          find-add_default,
          q,
          ap (λ (i : String). lookup i ps) (sym ((eq_iff j k).0 q)) ∙ fresh,
        )
        refl
  | inr q ↦ rw (find-add_defaults k ps (add_default j p ms) u, find-add_default, q) refl
]

-- The walk at a key, with the schema that the key has.
abbrev pub walk_with : Option Structural → StructuralOrBool → Json → Json
walk_with none ap v = default_additional ap v
walk_with (some p) ap v = default p v

walk-eq-walk_with :
    (ps : Properties) (ap : StructuralOrBool) (k : String) (v : Json)
    → walk ps ap k v ≡ walk_with (lookup k ps) ap v
unfolding default lookup
walk-eq-walk_with no_properties ap k v = refl
walk-eq-walk_with (property j p ps) ap k v = elim (Bool-cases (j == k)) [
  | inl q ↦ rw (q, default_property) refl
  | inr q ↦ rw (q, default_property) (walk-eq-walk_with ps ap k v)
]

-- The field under `k` of a defaulted object, for a schema in which no property is twice: if `k` is
-- a property with a default and the field is
-- missing, or is a null that the property does not allow, it is the default, walked with the
-- property; any other field is walked with its property, or with the schema of the additional
-- properties, and no other field is added.
pub find-default :
    (k : String) (s : Structural) (ms : Members)
    → IsMap (properties s)
    → find k (members_of (default s (obj ms)))
      ≡ Option.map
          (walk_with (lookup k (properties s)) (additional_properties s))
          (defaulted (lookup k (properties s)) (find k ms))
unfolding default
find-default k (structural i ps ap g x vx vv) ms u =
    find-map_members (walk ps ap) k (add_defaults ps ms)
    ∙ ap₂ (λ (f : Json → Json) (o : Option Json). Option.map f o)
        (fun_ext (λ v. walk-eq-walk_with ps ap k v)) (find-add_defaults k ps ms u)
