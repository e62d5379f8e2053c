-- ===== src/Schema/Pruning.antt =====
-- pkg/apiserver/schema/pruning/algorithm.go
mod Tests
pub mod Spec
pub mod Tracking
pub mod Untracked
pub mod Idem
pub mod Size
pub mod Reports
pub mod Contract
pub mod Fields
mod Examples
use apiextensions_apiserver.Prelude.{
  ◌≡◌, refl, ◌⊎◌, inl, inr, ℕ, zero, suc, String, Bool, true, false, Option, none, some, List, [],
  ◌&&◌, ◌||◌, not, length, is_empty, sort_strings, ◌==◌, if◌then◌else◌,
}
use apiextensions_apiserver.Schema.Json.{
  Json, Elems, Members, arr, obj, no_elems, elem, no_members, member,
}
use apiextensions_apiserver.Schema.Structural.{
  Structural, structural, empty_structural, Ref, nil, to, StructuralOrBool, unset,
  structural_or_bool, items, properties, additional_properties, extensions, lookup,
}
use apiextensions_apiserver.Schema.Options.{
  UnknownFieldPathOptions, append_key, append_index, cut_back, record_unknown_field,
}

-- metaFields[k]
abbrev pub meta_field : String → Bool
meta_field k = k == "apiVersion" || k == "kind" || k == "metadata"

-- `s != nil && s.XPreserveUnknownFields`
abbrev pub preserves : Ref → Bool
preserves nil = false
preserves (to s) = (extensions s).x_preserve_unknown_fields

-- s.Items of a schema that may be nil
abbrev pub items_of : Ref → Ref
items_of nil = nil
items_of (to s) = items s

-- What the two loops over an object find out about a field: it is skipped, it is walked with a
-- schema, or the schema does not know it.
pub data Known : Type 0 where
  skipped : Known
  specified : Ref → Known
  unknown : Known

pub Known-cases : (f : Known) → (f ≡ skipped) ⊎ ((t : Ref) × (f ≡ specified t)) ⊎ (f ≡ unknown)
Known-cases skipped = inl refl
Known-cases (specified t) = inr (inl (t, refl))
Known-cases unknown = inr (inr refl)

abbrev pub or_additional : StructuralOrBool → Known
or_additional unset = unknown
or_additional (structural_or_bool s b) = specified s

abbrev pub in_properties : Option Structural → StructuralOrBool → Known
in_properties (some p) ap = specified (to p)
in_properties none ap = or_additional ap

unfoldable pub field_of : Structural → String → Known
unfolding lookup
field_of s k =
    if (extensions s).x_embedded_resource && meta_field k
    then skipped
    else in_properties (lookup k (properties s)) (additional_properties s)

-- `if !metaFields[k] || len(opts.ParentPath) > 0 { opts.RecordUnknownField(k) }`
abbrev pub record_removed : String → UnknownFieldPathOptions → UnknownFieldPathOptions
record_removed k o =
    if not (meta_field k) || not (is_empty o.parent_path) then record_unknown_field k o else o

-- The deferred reset of a call that began with the path of `o`.
abbrev pub reset :
    {A : Type 0}
    → UnknownFieldPathOptions
    → A × UnknownFieldPathOptions
    → A × UnknownFieldPathOptions
reset o r = (r.0, cut_back (length o.parent_path) r.1)

-- A call returns the value that Go mutates in place, and the options. `n` is the length of the
-- parent path at the call, and `i` the index that a loop over an array has reached.
unfoldable mutual
  unfolding append_key append_index cut_back record_unknown_field

  pub prune : Json → Ref → UnknownFieldPathOptions → Json × UnknownFieldPathOptions
  prune (arr xs) s o =
      let kept = skip_prune_elems xs s zero o in
      let pruned = prune_elems xs s zero o in
      let r = if preserves s then kept else pruned in let r' = reset o r in (arr r'.0, r'.1)
  prune (obj ms) s o =
      let kept = skip_prune_members ms s o in
      let pruned = prune_members ms s o in
      let r = if preserves s then kept else pruned in let r' = reset o r in (obj r'.0, r'.1)
  prune x s o = (x, o)

  pub skip_prune : Json → Ref → UnknownFieldPathOptions → Json × UnknownFieldPathOptions
  skip_prune (arr xs) s o = let r' = reset o (skip_prune_elems xs s zero o) in (arr r'.0, r'.1)
  skip_prune (obj ms) s o = let r' = reset o (skip_prune_members ms s o) in (obj r'.0, r'.1)
  skip_prune x s o = (x, o)

  pub prune_elems : Elems → Ref → ℕ → UnknownFieldPathOptions → Elems × UnknownFieldPathOptions
  prune_elems no_elems s i o = (no_elems, o)
  prune_elems (elem v xs) s i o =
      let c = reset o (prune v (items_of s) (append_index i o)) in
      let r = prune_elems xs s (suc i) c.1 in (elem c.0 r.0, r.1)

  pub prune_members : Members → Ref → UnknownFieldPathOptions → Members × UnknownFieldPathOptions
  prune_members no_members s o = (no_members, o)
  prune_members (member k v ms) nil o = prune_members ms nil (record_unknown_field k o)
  prune_members (member k v ms) (to s) o = elim (field_of s k) [
    | skipped ↦ let r = prune_members ms (to s) o in (member k v r.0, r.1)
    | specified t ↦
        let c = reset o (prune v t (append_key k o)) in
        let r = prune_members ms (to s) c.1 in (member k c.0 r.0, r.1)
    | unknown ↦ prune_members ms (to s) (record_removed k o)
  ]

  pub skip_prune_elems : Elems → Ref → ℕ → UnknownFieldPathOptions → Elems × UnknownFieldPathOptions
  skip_prune_elems xs nil i o = (xs, o)
  skip_prune_elems no_elems (to s) i o = (no_elems, o)
  skip_prune_elems (elem v xs) (to s) i o =
      let c = reset o (skip_prune v (items s) (append_index i o)) in
      let r = skip_prune_elems xs (to s) (suc i) c.1 in (elem c.0 r.0, r.1)

  pub skip_prune_members :
      Members → Ref → UnknownFieldPathOptions → Members × UnknownFieldPathOptions
  skip_prune_members ms nil o = (ms, o)
  skip_prune_members no_members (to s) o = (no_members, o)
  skip_prune_members (member k v ms) (to s) o = elim (field_of s k) [
    | specified t ↦
        let c = reset o (prune v t (append_key k o)) in
        let r = skip_prune_members ms (to s) c.1 in (member k c.0 r.0, r.1)
    | _ ↦ let r = skip_prune_members ms (to s) o in (member k v r.0, r.1)
  ]

-- `clone := *s; clone.XEmbeddedResource = true`
abbrev pub embed : Structural → Structural
embed (structural i ps ap g x vx vv) =
    structural i ps ap g (record x { x_embedded_resource = true }) vx vv

-- The schema with which PruneWithOptions starts.
abbrev pub root_schema : Ref → Bool → Ref
root_schema s false = s
root_schema nil true = to (embed empty_structural)
root_schema (to s) true = to (if (extensions s).x_embedded_resource then s else embed s)

-- The mutated object, and the sorted paths of the fields removed.
unfoldable pub prune_with_options : Json → Ref → Bool → UnknownFieldPathOptions → Json × List String
unfolding prune
prune_with_options x s is_resource_root o =
    let r = prune x (root_schema s is_resource_root) o in
    (r.0, sort_strings r.1.unknown_field_paths)

abbrev pub no_tracking : UnknownFieldPathOptions
no_tracking = record {
  track_unknown_field_paths = false;
  parent_path = [];
  unknown_field_paths = [];
}

unfoldable pub prune_object : Json → Ref → Bool → Json
unfolding prune_with_options
prune_object x s is_resource_root = (prune_with_options x s is_resource_root no_tracking).0
