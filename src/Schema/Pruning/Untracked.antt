-- ===== src/Schema/Pruning/Untracked.antt =====
-- With tracking off the traversal changes the value alone.
use apiextensions_apiserver.Prelude.{
  ℕ, zero, suc, String, ◌≡◌, refl, false, List, ◌||◌, not, is_empty, take-length, Bool-cases, inl,
  inr,
}
use apiextensions_apiserver.Schema.Json.{
  Json, Elems, Members, arr, obj, no_elems, elem, no_members, member,
}
use apiextensions_apiserver.Schema.Structural.{Ref, nil, to, items}
use apiextensions_apiserver.Schema.Options.{UnknownFieldPathOptions, record_unknown_field}
use apiextensions_apiserver.Schema.Pruning.{
  meta_field, items_of, Known-cases, field_of, preserves, prune, skip_prune, prune_elems,
  prune_members, skip_prune_elems, skip_prune_members, record_removed,
}
use apiextensions_apiserver.Schema.Pruning.Spec.{
  pruned, kept, pruned_elems, pruned_members, kept_elems, kept_members,
}

abbrev pub untracked : List String → List String → UnknownFieldPathOptions
untracked path found = record {
  track_unknown_field_paths = false;
  parent_path = path;
  unknown_field_paths = found;
}

record-untracked :
    (k : String) (p u : List String) → record_unknown_field k (untracked p u) ≡ untracked p u
unfolding record_unknown_field
record-untracked k p u = refl

removed-untracked :
    (k : String) (p u : List String) → record_removed k (untracked p u) ≡ untracked p u
removed-untracked k p u = elim (Bool-cases (not (meta_field k) || not (is_empty p))) [
  | inl e ↦ rw e (record-untracked k p u)
  | inr e ↦ rw e
]

mutual
  unfolding prune pruned

  prune-untracked :
      (x : Json) (s : Ref) (p u : List String)
      → prune x s (untracked p u) ≡ (pruned x s, untracked p u)
  prune-untracked (arr xs) s p u = elim (Bool-cases (preserves s)) [
    | inl e ↦ rw (e, skip_elems-untracked xs s zero p u, take-length) refl
    | inr e ↦ rw (e, elems-untracked xs s zero p u, take-length) refl
  ]
  prune-untracked (obj ms) s p u = elim (Bool-cases (preserves s)) [
    | inl e ↦ rw (e, skip_members-untracked ms s p u, take-length) refl
    | inr e ↦ rw (e, members-untracked ms s p u, take-length) refl
  ]
  prune-untracked _ s p u = refl

  skip-untracked :
      (x : Json) (s : Ref) (p u : List String)
      → skip_prune x s (untracked p u) ≡ (kept x s, untracked p u)
  skip-untracked (arr xs) s p u = rw (skip_elems-untracked xs s zero p u, take-length) refl
  skip-untracked (obj ms) s p u = rw (skip_members-untracked ms s p u, take-length) refl
  skip-untracked _ s p u = refl

  elems-untracked :
      (xs : Elems) (s : Ref) (i : ℕ) (p u : List String)
      → prune_elems xs s i (untracked p u) ≡ (pruned_elems xs s, untracked p u)
  elems-untracked no_elems s i p u = refl
  elems-untracked (elem v xs) s i p u =
      rw (prune-untracked v (items_of s) p u, take-length, elems-untracked xs s (suc i) p u) refl

  members-untracked :
      (ms : Members) (s : Ref) (p u : List String)
      → prune_members ms s (untracked p u) ≡ (pruned_members ms s, untracked p u)
  members-untracked no_members s p u = refl
  members-untracked (member k v ms) nil p u =
      rw (record-untracked k p u, members-untracked ms nil p u) refl
  members-untracked (member k v ms) (to s) p u = elim (Known-cases (field_of s k)) [
    | inl e ↦ rw (e, prune_members, pruned_members, members-untracked ms (to s) p u) refl
    | inr (inl (t, e)) ↦
        rw
          (
            e,
            prune_members,
            pruned_members,
            prune-untracked v t p u,
            take-length,
            members-untracked ms (to s) p u,
          )
          refl
    | inr (inr e) ↦
        rw
          (
            e,
            prune_members,
            pruned_members,
            removed-untracked k p u,
            members-untracked ms (to s) p u,
          )
          refl
  ]

  skip_elems-untracked :
      (xs : Elems) (s : Ref) (i : ℕ) (p u : List String)
      → skip_prune_elems xs s i (untracked p u) ≡ (kept_elems xs s, untracked p u)
  skip_elems-untracked no_elems nil i p u = refl
  skip_elems-untracked (elem v xs) nil i p u = refl
  skip_elems-untracked no_elems (to s) i p u = refl
  skip_elems-untracked (elem v xs) (to s) i p u =
      rw (skip-untracked v (items s) p u, take-length, skip_elems-untracked xs (to s) (suc i) p u)
        refl

  skip_members-untracked :
      (ms : Members) (s : Ref) (p u : List String)
      → skip_prune_members ms s (untracked p u) ≡ (kept_members ms s, untracked p u)
  skip_members-untracked no_members nil p u = refl
  skip_members-untracked (member k v ms) nil p u = refl
  skip_members-untracked no_members (to s) p u = refl
  skip_members-untracked (member k v ms) (to s) p u = elim (Known-cases (field_of s k)) [
    | inl e ↦ rw (e, skip_prune_members, kept_members, skip_members-untracked ms (to s) p u) refl
    | inr (inl (t, e)) ↦
        rw
          (
            e,
            skip_prune_members,
            kept_members,
            prune-untracked v t p u,
            take-length,
            skip_members-untracked ms (to s) p u,
          )
          refl
    | inr (inr e) ↦
        rw (e, skip_prune_members, kept_members, skip_members-untracked ms (to s) p u) refl
  ]

pub prune-untracked_lem :
    (x : Json) (s : Ref) (p u : List String)
    → prune x s (untracked p u) ≡ (pruned x s, untracked p u)
prune-untracked_lem = prune-untracked
