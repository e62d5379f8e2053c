-- ===== src/Schema/Pruning/Size.antt =====
-- A removed field makes the value smaller.
use apiextensions_apiserver.Prelude.{
  ℕ, zero, suc, ◌+◌, ◌≤◌, String, List, ◌++◌, length, length-append, Bool-cases, inl, inr, arith,
}
use apiextensions_apiserver.Schema.Json.{
  Json, Elems, Members, arr, obj, no_elems, elem, no_members, member,
}
use apiextensions_apiserver.Schema.Structural.{Ref, nil, to, items}
use apiextensions_apiserver.Schema.Options.{key_segments, index_segments}
use apiextensions_apiserver.Schema.Pruning.{items_of, Known-cases, field_of, preserves}
use apiextensions_apiserver.Schema.Pruning.Spec.{
  pruned, kept, pruned_elems, pruned_members, kept_elems, kept_members, removed, removed_kept,
  removed_elems, removed_members, removed_kept_elems, removed_kept_members, reported,
}

-- The number of object fields in a value, at any depth.
unfoldable mutual
  pub fields : Json → ℕ
  fields (arr xs) = fields_elems xs
  fields (obj ms) = fields_members ms
  fields x = 0

  pub fields_elems : Elems → ℕ
  fields_elems no_elems = 0
  fields_elems (elem v xs) = fields v + fields_elems xs

  pub fields_members : Members → ℕ
  fields_members no_members = 0
  fields_members (member k v ms) = suc (fields v + fields_members ms)

length-reported : (p : List String) (k : String) → length (reported p k) ≤ 1
length-reported p k = ground arith

mutual
  unfolding pruned removed fields

  pub fields-pruned :
      (x : Json) (s : Ref) (p : List String)
      → fields (pruned x s) + length (removed x s p) ≤ fields x
  fields-pruned (arr xs) s p = elim (Bool-cases (preserves s)) [
    | inl e ↦ rw e (fields-kept_elems xs s zero p)
    | inr e ↦ rw e (fields-pruned_elems xs s zero p)
  ]
  fields-pruned (obj ms) s p = elim (Bool-cases (preserves s)) [
    | inl e ↦ rw e (fields-kept_members ms s p)
    | inr e ↦ rw e (fields-pruned_members ms s p)
  ]
  fields-pruned _ s p = omega arith

  fields-kept :
      (x : Json) (s : Ref) (p : List String)
      → fields (kept x s) + length (removed_kept x s p) ≤ fields x
  fields-kept (arr xs) s p = fields-kept_elems xs s zero p
  fields-kept (obj ms) s p = fields-kept_members ms s p
  fields-kept _ s p = omega arith

  fields-pruned_elems :
      (xs : Elems) (s : Ref) (i : ℕ) (p : List String)
      → fields_elems (pruned_elems xs s) + length (removed_elems xs s i p) ≤ fields_elems xs
  fields-pruned_elems no_elems s i p = omega arith
  fields-pruned_elems (elem v xs) s i p = omega (
    arith,
    length-append {0},
    fields-pruned v (items_of s) (p ++ index_segments i),
    fields-pruned_elems xs s (suc i) p,
  )

  fields-kept_elems :
      (xs : Elems) (s : Ref) (i : ℕ) (p : List String)
      → fields_elems (kept_elems xs s) + length (removed_kept_elems xs s i p) ≤ fields_elems xs
  fields-kept_elems no_elems nil i p = omega arith
  fields-kept_elems (elem v xs) nil i p = omega arith
  fields-kept_elems no_elems (to s) i p = omega arith
  fields-kept_elems (elem v xs) (to s) i p = omega (
    arith,
    length-append {0},
    fields-kept v (items s) (p ++ index_segments i),
    fields-kept_elems xs (to s) (suc i) p,
  )

  fields-pruned_members :
      (ms : Members) (s : Ref) (p : List String)
      → fields_members (pruned_members ms s) + length (removed_members ms s p) ≤ fields_members ms
  fields-pruned_members no_members s p = omega arith
  fields-pruned_members (member k v ms) nil p = omega (arith, fields-pruned_members ms nil p)
  fields-pruned_members (member k v ms) (to s) p = elim (Known-cases (field_of s k)) [
    | inl e ↦
        rw (e, pruned_members, removed_members) (omega (arith, fields-pruned_members ms (to s) p))
    | inr (inl (t, e)) ↦
        rw (e, pruned_members, removed_members)
          (omega (
            arith,
            length-append {0},
            fields-pruned v t (p ++ key_segments p k),
            fields-pruned_members ms (to s) p,
          ))
    | inr (inr e) ↦
        rw (e, pruned_members, removed_members)
          (omega (arith, length-append {0}, length-reported p k, fields-pruned_members ms (to s) p))
  ]

  fields-kept_members :
      (ms : Members) (s : Ref) (p : List String)
      → fields_members (kept_members ms s) + length (removed_kept_members ms s p)
        ≤ fields_members ms
  fields-kept_members no_members nil p = omega arith
  fields-kept_members (member k v ms) nil p = omega arith
  fields-kept_members no_members (to s) p = omega arith
  fields-kept_members (member k v ms) (to s) p = elim (Known-cases (field_of s k)) [
    | inl e ↦
        rw (e, kept_members, removed_kept_members) (omega (arith, fields-kept_members ms (to s) p))
    | inr (inl (t, e)) ↦
        rw (e, kept_members, removed_kept_members)
          (omega (
            arith,
            length-append {0},
            fields-pruned v t (p ++ key_segments p k),
            fields-kept_members ms (to s) p,
          ))
    | inr (inr e) ↦
        rw (e, kept_members, removed_kept_members) (omega (arith, fields-kept_members ms (to s) p))
  ]
