-- ===== src/Schema/Defaulting.antt =====
-- pkg/apiserver/schema/defaulting/algorithm.go and prunenulls.go
pub mod Nullness
pub mod Settled
pub mod Idem
pub mod Fields
pub mod Nulls
mod Tests
use apiextensions_apiserver.Schema.Pruning.{items_of}
use apiextensions_apiserver.Prelude.{
  ◌==◌, none, not, ◌&&◌, some, if◌then◌else◌, true, false, Bool, Option, String,
}
use apiextensions_apiserver.Schema.Structural.{
  no_properties, additional_properties, unset, properties, property, generic, structural_or_bool,
  nil, structural, to, lookup, StructuralOrBool, Properties, Ref, Structural,
}
use apiextensions_apiserver.Schema.Json.{
  no_members, member, no_elems, arr, assign, obj, elem, Members, null, Elems, find, Json,
}

abbrev pub is_null : Json → Bool
is_null null = true
is_null x = false

-- s.Default.Object and s.Generic.Nullable; a caller has seen that the pointer is not nil
abbrev pub default_of : Ref → Json
default_of nil = null
default_of (to s) = (generic s).default

abbrev pub nullable_of : Ref → Bool
nullable_of nil = false
nullable_of (to s) = (generic s).nullable

abbrev pub is_nil : Ref → Bool
is_nil nil = true
is_nil (to s) = false

unfoldable pub is_non_nullable_null : Json → Ref → Bool
is_non_nullable_null x s = is_null x && not (is_nil s) && not (nullable_of s)

-- The assignment of the default to a null value, in the loops over keys and over items.
unfoldable pub fill : Ref → Json → Json
unfolding is_non_nullable_null
fill s v = if is_non_nullable_null v s then default_of s else v

-- `_, found := x[k]; !found || isNonNullableNull(x[k], &prop)`
abbrev pub lacks : Option Json → Ref → Bool
lacks none s = true
lacks (some v) s = is_non_nullable_null v s

unfoldable pub add_default : String → Structural → Members → Members
unfolding is_non_nullable_null find assign
add_default k p ms =
    if is_null (generic p).default
    then ms
    else if lacks (find k ms) (to p)
    then assign k (generic p).default ms
    else ms

-- The loop over s.Properties.
unfoldable pub add_defaults : Properties → Members → Members
unfolding add_default
add_defaults no_properties ms = ms
add_defaults (property k p ps) ms = add_defaults ps (add_default k p ms)

-- The loop over the keys of the object, and the one over the items of the array.
unfoldable pub map_members : (String → Json → Json) → Members → Members
map_members f no_members = no_members
map_members f (member k v ms) = member k (f k v) (map_members f ms)

unfoldable pub map_elems : (Json → Json) → Elems → Elems
map_elems f no_elems = no_elems
map_elems f (elem v xs) = elem (f v) (map_elems f xs)

abbrev pub or_else : Option Json → Json → Json
or_else none v = v
or_else (some w) v = w

-- The calls go from a schema to its parts. `default_property` is the call for a key that
-- s.Properties has, and `none` for one that it lacks.
unfoldable mutual
  unfolding add_defaults map_members map_elems fill

  pub default : Structural → Json → Json
  default (structural i ps ap g x vx vv) (obj ms) = obj (
      map_members (λ k v. or_else (default_property ps k v) (default_additional ap v))
        (add_defaults ps ms))
  default (structural i ps ap g x vx vv) (arr xs) =
      arr (map_elems (λ v. default_ref i (fill i v)) xs)
  default (structural i ps ap g x vx vv) y = y

  pub default_ref : Ref → Json → Json
  default_ref nil y = y
  default_ref (to s) y = default s y

  pub default_property : Properties → String → Json → Option Json
  default_property no_properties k v = none
  default_property (property j s ps) k v =
      let found = default s v in
      let rest = default_property ps k v in if j == k then some found else rest

  pub default_additional : StructuralOrBool → Json → Json
  default_additional unset v = v
  default_additional (structural_or_bool s b) v = default_ref s (fill s v)

unfoldable pub is_non_nullable_non_defaultable_null : Json → Ref → Bool
is_non_nullable_non_defaultable_null x s =
    is_null x && not (is_nil s) && not (nullable_of s) && is_null (default_of s)

abbrev pub additional_schema : StructuralOrBool → Ref
additional_schema unset = nil
additional_schema (structural_or_bool s b) = s

abbrev pub property_or : Option Structural → Ref → Ref
property_or none s = s
property_or (some p) s = to p

unfoldable pub get_schema_for_field : String → Ref → Ref
unfolding lookup
get_schema_for_field field nil = nil
get_schema_for_field field (to s) =
    property_or (lookup field (properties s)) (additional_schema (additional_properties s))

-- PruneNonNullableNullsWithoutDefaults
unfoldable mutual
  pub prune_nulls : Json → Ref → Json
  prune_nulls (obj ms) s = obj (prune_nulls_members ms s)
  prune_nulls (arr xs) s = arr (prune_nulls_elems xs (items_of s))
  prune_nulls y s = y

  pub prune_nulls_members : Members → Ref → Members
  prune_nulls_members no_members s = no_members
  prune_nulls_members (member k v ms) s =
      let t = get_schema_for_field k s in
      let kept = member k (prune_nulls v t) (prune_nulls_members ms s) in
      let rest = prune_nulls_members ms s in
      if is_non_nullable_non_defaultable_null v t then rest else kept

  pub prune_nulls_elems : Elems → Ref → Elems
  prune_nulls_elems no_elems s = no_elems
  prune_nulls_elems (elem v xs) s = elem (prune_nulls v s) (prune_nulls_elems xs s)
