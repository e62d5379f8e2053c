-- ===== src/Controller/Finalizing/Events.antt =====
-- Which of the informer's updates put a CRD in the finalizer's queue.
use mathlib.Core.Path.{subst}
use apiextensions_apiserver.Prelude.{
  ap, arith, refl, [], inr, false, inl, ◌==◌, Bool-cases, ◌∷◌, eq_refl, true, ◌≡◌, String, List, ℕ,
  Bool,
}
use apiextensions_apiserver.Crd.Helpers.{
  with_conditions, remove_crd_condition, set_crd_condition, set_condition, remove_condition,
}
use apiextensions_apiserver.Controller.Finalizing.{
  for_comparison, wants_finalizing, update_custom_resource_definition,
}
use apiextensions_apiserver.Crd.{terminating, Condition, Crd}

remove-set_condition :
    (c : Condition) (cs : List Condition)
    → remove_condition c.type (set_condition c cs) ≡ remove_condition c.type cs
unfolding remove_condition set_condition
remove-set_condition c [] = rw (eq_refl c.type) refl
remove-set_condition c (old ∷ cs) = elim (Bool-cases (old.type == c.type)) [
  | inl e ↦ rw e (ground arith)
  | inr e ↦ rw e (ground (arith, remove-set_condition c cs))
]

same_comparison :
    (now : ℕ) (old : Crd) (cond : Condition) (version : String)
    → cond.type ≡ terminating
    → for_comparison (record (set_crd_condition now old cond) { resource_version = version })
      ≡ for_comparison old
unfolding remove_crd_condition set_crd_condition
same_comparison now old cond version t =
    ap (λ (cs : List Condition). with_conditions (record old { resource_version = "" }) cs)
      (subst
        (λ (u : String).
          remove_condition u
            (set_condition (record cond { last_transition_time = now }) old.status.conditions)
          ≡ remove_condition u old.status.conditions)
        t (remove-set_condition (record cond { last_transition_time = now }) old.status.conditions))

-- An update that only sets the Terminating condition and changes the resource version is not
-- queued, and so the finalizer does not wake itself; this where reflect.DeepEqual finds every
-- object equal to itself.
pub own_update_ignored :
    (deep_equal : Crd → Crd → Bool) (now : ℕ) (old : Crd) (cond : Condition) (version : String)
    → ((c : Crd) → deep_equal c c ≡ true)
    → cond.type ≡ terminating
    → (old.resource_version == version) ≡ false
    → update_custom_resource_definition deep_equal old
        (record (set_crd_condition now old cond) { resource_version = version })
      ≡ []
unfolding update_custom_resource_definition
own_update_ignored deep_equal now old cond version same t v =
    let new : Crd = record (set_crd_condition now old cond) { resource_version = version } in
    elim (Bool-cases (wants_finalizing new)) [
      | inr w ↦ rw w refl
      | inl w ↦ rw (w, v, same_comparison now old cond version t, same (for_comparison old)) refl
    ]
