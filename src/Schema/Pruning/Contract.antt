-- ===== src/Schema/Pruning/Contract.antt =====
-- What PruneWithOptions and Prune promise their callers.
use apiextensions_apiserver.Schema.Pruning.Size.{fields, fields-pruned}
use apiextensions_apiserver.Schema.Pruning.Untracked.{prune-untracked_lem}
use apiextensions_apiserver.Schema.Pruning.Idem.{pruned_idem}
use apiextensions_apiserver.Schema.Pruning.Tracking.{prune-tracked_lem}
use apiextensions_apiserver.Schema.Pruning.Reports.{pruned-eq_self, Reports-root, Reports}
use apiextensions_apiserver.Schema.Options.{UnknownFieldPathOptions}
use apiextensions_apiserver.Schema.Structural.{Ref}
use apiextensions_apiserver.Schema.Json.{Json}
use apiextensions_apiserver.Schema.Pruning.{
  no_tracking, root_schema, prune, prune_with_options, prune_object,
}
use apiextensions_apiserver.Schema.Pruning.Spec.{removed, pruned}
use apiextensions_apiserver.Prelude.{
  refl, sym, append-nil, arith, nil-of-sort_strings, ◌∷◌, ◌↔◌, ◌∙◌, ap, false, [], ◌++◌, ◌≤◌,
  if◌then◌else◌, ◌≡◌, length, true, sort_strings, String, List, Bool,
}
use apiextensions_apiserver.Schema.Pruning.Tests.{tracking}

-- Splits on the tracking flag keep the record whole.
prune-by-tracking :
    (b : Bool) (x : Json) (s : Ref) (p u : List String)
    → prune x s (record { track_unknown_field_paths = b; parent_path = p; unknown_field_paths = u })
      ≡ (
        pruned x s,
        record {
          track_unknown_field_paths = b;
          parent_path = p;
          unknown_field_paths = u ++ (if b then removed x s p else []);
        },
      )
prune-by-tracking true x s p u = prune-tracked_lem x s p u
prune-by-tracking false x s p u = rw append-nil (prune-untracked_lem x s p u)

-- The traversal leaves the value of the specification, puts the parent path back as it was, and
-- adds exactly the paths of the specification if tracking is on, and none if it is off.
pub prune-eq-pruned :
    (x : Json) (s : Ref) (o : UnknownFieldPathOptions)
    → prune x s o ≡ (
      pruned x s,
      record o {
        unknown_field_paths =
            o.unknown_field_paths
            ++ (if o.track_unknown_field_paths then removed x s o.parent_path else []);
      },
    )
prune-eq-pruned x s o =
    prune-by-tracking o.track_unknown_field_paths x s o.parent_path o.unknown_field_paths

pub prune_object-eq-pruned :
    (x : Json) (s : Ref) (r : Bool) → prune_object x s r ≡ pruned x (root_schema s r)
unfolding prune_object
prune_object-eq-pruned x s r =
    ap (λ (q : Json × UnknownFieldPathOptions). q.0)
      (prune-eq-pruned x (root_schema s r) no_tracking)

-- Pruning an already pruned value with the same schema changes nothing.
pub prune_object_idem :
    (x : Json) (s : Ref) (is_resource_root : Bool)
    → prune_object (prune_object x s is_resource_root) s is_resource_root
      ≡ prune_object x s is_resource_root
prune_object_idem x s r =
    ap (λ (y : Json). prune_object y s r) (prune_object-eq-pruned x s r)
    ∙ prune_object-eq-pruned (pruned x (root_schema s r)) s r
    ∙ pruned_idem x (root_schema s r)
    ∙ sym (prune_object-eq-pruned x s r)

nil_of_length : (xs : List String) → length xs ≤ 0 → xs ≡ []
nil_of_length [] h = refl
nil_of_length (x ∷ xs) h = absurd (omega arith)

pruned-eq_self_iff :
    (x : Json) (s : Ref) (p : List String) → Reports p s → (removed x s p ≡ []) ↔ (pruned x s ≡ x)
pruned-eq_self_iff x s p r = (
  pruned-eq_self x s p r,
  λ h. nil_of_length (removed x s p) (omega (arith, fields-pruned x s p, ap fields h)),
)

root_value :
    (x : Json) (s : Ref) → (prune_with_options x s true tracking).0 ≡ pruned x (root_schema s true)
unfolding prune_with_options
root_value x s =
    ap (λ (q : Json × UnknownFieldPathOptions). q.0)
      (prune-eq-pruned x (root_schema s true) tracking)

root_paths :
    (x : Json) (s : Ref)
    → (prune_with_options x s true tracking).1 ≡ sort_strings (removed x (root_schema s true) [])
unfolding prune_with_options
root_paths x s =
    ap (λ (q : Json × UnknownFieldPathOptions). sort_strings (q.1.unknown_field_paths))
      (prune-eq-pruned x (root_schema s true) tracking)

unchanged :
    (x : Json) (s : Ref)
    → (removed x (root_schema s true) [] ≡ []) ↔ (pruned x (root_schema s true) ≡ x)
unchanged x s = pruned-eq_self_iff x (root_schema s true) [] (Reports-root s [])

-- For the root of a resource, a call with tracking on reports no unknown field exactly when it
-- leaves the object as it was.
pub unknown_fields_iff :
    (x : Json) (s : Ref)
    → ((prune_with_options x s true tracking).1 ≡ [])
      ↔ ((prune_with_options x s true tracking).0 ≡ x)
unfolding sort_strings
unknown_fields_iff x s = (
  λ h. root_value x s ∙ (unchanged x s).0 (nil-of-sort_strings _ (sym (root_paths x s) ∙ h)),
  λ h. root_paths x s ∙ ap sort_strings ((unchanged x s).1 (sym (root_value x s) ∙ h)),
)
