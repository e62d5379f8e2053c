-- ===== src/Schema/Pruning/Tracking.antt =====
-- The traversal with its mutable options computes the value and the paths of `Spec`.
use apiextensions_apiserver.Prelude.{
  ℕ, zero, suc, String, ◌≡◌, refl, true, List, [], ◌∷◌, ◌++◌, append-nil, append_assoc, take-append,
  take-length, Bool-cases, ◌||◌, not, is_empty, inl, inr,
}
use apiextensions_apiserver.Schema.Json.{
  Json, Elems, Members, arr, obj, no_elems, elem, no_members, member,
}
use apiextensions_apiserver.Schema.Structural.{Ref, nil, to, items}
use apiextensions_apiserver.Schema.Options.{
  UnknownFieldPathOptions, record_unknown_field, key_segments, index_segments,
}
use apiextensions_apiserver.Schema.Pruning.{
  meta_field, items_of, Known-cases, field_of, preserves, prune, skip_prune, prune_elems,
  prune_members, skip_prune_elems, skip_prune_members, record_removed,
}
use apiextensions_apiserver.Schema.Pruning.Spec.{
  pruned, kept, pruned_elems, pruned_members, kept_elems, kept_members, removed, removed_kept,
  removed_elems, removed_members, removed_kept_elems, removed_kept_members, path_of, reported,
}

abbrev pub tracked : List String → List String → UnknownFieldPathOptions
tracked path found = record {
  track_unknown_field_paths = true;
  parent_path = path;
  unknown_field_paths = found;
}

record-tracked :
    (k : String) (p u : List String)
    → record_unknown_field k (tracked p u) ≡ tracked p (u ++ path_of p k ∷ [])
unfolding record_unknown_field
record-tracked k p u = rw take-append refl

removed-tracked :
    (k : String) (p u : List String)
    → record_removed k (tracked p u) ≡ tracked p (u ++ reported p k)
removed-tracked k p u = elim (Bool-cases (not (meta_field k) || not (is_empty p))) [
  | inl e ↦ rw e (record-tracked k p u)
  | inr e ↦ rw e (simp append-nil)
]

mutual
  unfolding prune pruned removed

  prune-tracked :
      (x : Json) (s : Ref) (p u : List String)
      → prune x s (tracked p u) ≡ (pruned x s, tracked p (u ++ removed x s p))
  prune-tracked (arr xs) s p u = elim (Bool-cases (preserves s)) [
    | inl e ↦ rw (e, skip_elems-tracked xs s zero p u, take-length) refl
    | inr e ↦ rw (e, elems-tracked xs s zero p u, take-length) refl
  ]
  prune-tracked (obj ms) s p u = elim (Bool-cases (preserves s)) [
    | inl e ↦ rw (e, skip_members-tracked ms s p u, take-length) refl
    | inr e ↦ rw (e, members-tracked ms s p u, take-length) refl
  ]
  prune-tracked _ s p u = simp append-nil

  skip-tracked :
      (x : Json) (s : Ref) (p u : List String)
      → skip_prune x s (tracked p u) ≡ (kept x s, tracked p (u ++ removed_kept x s p))
  skip-tracked (arr xs) s p u = rw (skip_elems-tracked xs s zero p u, take-length) refl
  skip-tracked (obj ms) s p u = rw (skip_members-tracked ms s p u, take-length) refl
  skip-tracked _ s p u = simp append-nil

  elems-tracked :
      (xs : Elems) (s : Ref) (i : ℕ) (p u : List String)
      → prune_elems xs s i (tracked p u)
        ≡ (pruned_elems xs s, tracked p (u ++ removed_elems xs s i p))
  elems-tracked no_elems s i p u = simp append-nil
  elems-tracked (elem v xs) s i p u =
      rw
        (
          prune-tracked v (items_of s) (p ++ index_segments i) u,
          take-append,
          elems-tracked xs s (suc i) p (u ++ removed v (items_of s) (p ++ index_segments i)),
          append_assoc,
        )
        refl

  members-tracked :
      (ms : Members) (s : Ref) (p u : List String)
      → prune_members ms s (tracked p u)
        ≡ (pruned_members ms s, tracked p (u ++ removed_members ms s p))
  members-tracked no_members s p u = simp append-nil
  members-tracked (member k v ms) nil p u =
      rw (record-tracked k p u, members-tracked ms nil p (u ++ path_of p k ∷ []), append_assoc) refl
  members-tracked (member k v ms) (to s) p u = elim (Known-cases (field_of s k)) [
    | inl e ↦
        rw (e, prune_members, pruned_members, removed_members, members-tracked ms (to s) p u) refl
    | inr (inl (t, e)) ↦
        rw
          (
            e,
            prune_members,
            pruned_members,
            removed_members,
            prune-tracked v t (p ++ key_segments p k) u,
            take-append,
            members-tracked ms (to s) p (u ++ removed v t (p ++ key_segments p k)),
            append_assoc,
          )
          refl
    | inr (inr e) ↦
        rw
          (
            e,
            prune_members,
            pruned_members,
            removed_members,
            removed-tracked k p u,
            members-tracked ms (to s) p (u ++ reported p k),
            append_assoc,
          )
          refl
  ]

  skip_elems-tracked :
      (xs : Elems) (s : Ref) (i : ℕ) (p u : List String)
      → skip_prune_elems xs s i (tracked p u)
        ≡ (kept_elems xs s, tracked p (u ++ removed_kept_elems xs s i p))
  skip_elems-tracked no_elems nil i p u = simp append-nil
  skip_elems-tracked (elem v xs) nil i p u = simp append-nil
  skip_elems-tracked no_elems (to s) i p u = simp append-nil
  skip_elems-tracked (elem v xs) (to s) i p u =
      rw
        (
          skip-tracked v (items s) (p ++ index_segments i) u,
          take-append,
          skip_elems-tracked xs (to s) (suc i) p
              (u ++ removed_kept v (items s) (p ++ index_segments i)),
          append_assoc,
        )
        refl

  skip_members-tracked :
      (ms : Members) (s : Ref) (p u : List String)
      → skip_prune_members ms s (tracked p u)
        ≡ (kept_members ms s, tracked p (u ++ removed_kept_members ms s p))
  skip_members-tracked no_members nil p u = simp append-nil
  skip_members-tracked (member k v ms) nil p u = simp append-nil
  skip_members-tracked no_members (to s) p u = simp append-nil
  skip_members-tracked (member k v ms) (to s) p u = elim (Known-cases (field_of s k)) [
    | inl e ↦
        rw
          (
            e,
            skip_prune_members,
            kept_members,
            removed_kept_members,
            skip_members-tracked ms (to s) p u,
          )
          refl
    | inr (inl (t, e)) ↦
        rw
          (
            e,
            skip_prune_members,
            kept_members,
            removed_kept_members,
            prune-tracked v t (p ++ key_segments p k) u,
            take-append,
            skip_members-tracked ms (to s) p (u ++ removed v t (p ++ key_segments p k)),
            append_assoc,
          )
          refl
    | inr (inr e) ↦
        rw
          (
            e,
            skip_prune_members,
            kept_members,
            removed_kept_members,
            skip_members-tracked ms (to s) p u,
          )
          refl
  ]

pub prune-tracked_lem :
    (x : Json) (s : Ref) (p u : List String)
    → prune x s (tracked p u) ≡ (pruned x s, tracked p (u ++ removed x s p))
prune-tracked_lem = prune-tracked
