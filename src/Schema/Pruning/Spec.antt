-- ===== src/Schema/Pruning/Spec.antt =====
-- What pruning does to a value, and which paths it reports, each by itself: the value needs no
-- options, and the paths need no mutable parent path.
use apiextensions_apiserver.Prelude.{
  ℕ, zero, suc, String, List, [], ◌∷◌, ◌++◌, ◌||◌, not, is_empty, join, if◌then◌else◌,
}
use apiextensions_apiserver.Schema.Json.{
  Json, Elems, Members, arr, obj, no_elems, elem, no_members, member,
}
use apiextensions_apiserver.Schema.Structural.{Ref, nil, to, items}
use apiextensions_apiserver.Schema.Options.{key_segments, index_segments}
use apiextensions_apiserver.Schema.Pruning.{
  meta_field, preserves, items_of, skipped, specified, unknown, field_of,
}

-- The value that is left. `pruned` drops unknown fields; `kept` keeps those of its own object,
-- and is what x-kubernetes-preserve-unknown-fields asks for.
unfoldable mutual
  pub pruned : Json → Ref → Json
  pruned (arr xs) s =
      let keep = kept_elems xs s in
      let drop = pruned_elems xs s in arr (if preserves s then keep else drop)
  pruned (obj ms) s =
      let keep = kept_members ms s in
      let drop = pruned_members ms s in obj (if preserves s then keep else drop)
  pruned x s = x

  pub kept : Json → Ref → Json
  kept (arr xs) s = arr (kept_elems xs s)
  kept (obj ms) s = obj (kept_members ms s)
  kept x s = x

  pub pruned_elems : Elems → Ref → Elems
  pruned_elems no_elems s = no_elems
  pruned_elems (elem v xs) s = elem (pruned v (items_of s)) (pruned_elems xs s)

  pub pruned_members : Members → Ref → Members
  pruned_members no_members s = no_members
  pruned_members (member k v ms) nil = pruned_members ms nil
  pruned_members (member k v ms) (to s) = elim (field_of s k) [
    | skipped ↦ member k v (pruned_members ms (to s))
    | specified t ↦ member k (pruned v t) (pruned_members ms (to s))
    | unknown ↦ pruned_members ms (to s)
  ]

  pub kept_elems : Elems → Ref → Elems
  kept_elems xs nil = xs
  kept_elems no_elems (to s) = no_elems
  kept_elems (elem v xs) (to s) = elem (kept v (items s)) (kept_elems xs (to s))

  pub kept_members : Members → Ref → Members
  kept_members ms nil = ms
  kept_members no_members (to s) = no_members
  kept_members (member k v ms) (to s) = elim (field_of s k) [
    | specified t ↦ member k (pruned v t) (kept_members ms (to s))
    | _ ↦ member k v (kept_members ms (to s))
  ]

abbrev pub path_of : List String → String → String
path_of path k = join (path ++ key_segments path k)

-- A removed field is reported, but for the metadata of an object at the very root.
abbrev pub reported : List String → String → List String
reported path k = if not (meta_field k) || not (is_empty path) then path_of path k ∷ [] else []

-- The paths of the removed fields, for a value that is found at `path`.
unfoldable mutual
  pub removed : Json → Ref → List String → List String
  removed (arr xs) s path =
      let keep = removed_kept_elems xs s zero path in
      let drop = removed_elems xs s zero path in if preserves s then keep else drop
  removed (obj ms) s path =
      let keep = removed_kept_members ms s path in
      let drop = removed_members ms s path in if preserves s then keep else drop
  removed x s path = []

  pub removed_kept : Json → Ref → List String → List String
  removed_kept (arr xs) s path = removed_kept_elems xs s zero path
  removed_kept (obj ms) s path = removed_kept_members ms s path
  removed_kept x s path = []

  pub removed_elems : Elems → Ref → ℕ → List String → List String
  removed_elems no_elems s i path = []
  removed_elems (elem v xs) s i path =
      removed v (items_of s) (path ++ index_segments i) ++ removed_elems xs s (suc i) path

  pub removed_members : Members → Ref → List String → List String
  removed_members no_members s path = []
  removed_members (member k v ms) nil path = path_of path k ∷ removed_members ms nil path
  removed_members (member k v ms) (to s) path = elim (field_of s k) [
    | skipped ↦ removed_members ms (to s) path
    | specified t ↦ removed v t (path ++ key_segments path k) ++ removed_members ms (to s) path
    | unknown ↦ reported path k ++ removed_members ms (to s) path
  ]

  pub removed_kept_elems : Elems → Ref → ℕ → List String → List String
  removed_kept_elems xs nil i path = []
  removed_kept_elems no_elems (to s) i path = []
  removed_kept_elems (elem v xs) (to s) i path =
      removed_kept v (items s) (path ++ index_segments i)
      ++ removed_kept_elems xs (to s) (suc i) path

  pub removed_kept_members : Members → Ref → List String → List String
  removed_kept_members ms nil path = []
  removed_kept_members no_members (to s) path = []
  removed_kept_members (member k v ms) (to s) path = elim (field_of s k) [
    | specified t ↦ removed v t (path ++ key_segments path k) ++ removed_kept_members ms (to s) path
    | _ ↦ removed_kept_members ms (to s) path
  ]
