-- ===== src/Schema/Pruning/Idem.antt =====
-- Pruning a pruned value changes nothing.
use apiextensions_apiserver.Prelude.{
  ◌≡◌, refl, sym, ◌∙◌, ap, ap₂, true, false, Bool-cases, inl, inr,
}
use apiextensions_apiserver.Schema.Json.{
  Json, Elems, Members, arr, obj, no_elems, elem, no_members, member,
}
use apiextensions_apiserver.Schema.Structural.{Ref, nil, to, items}
use apiextensions_apiserver.Schema.Pruning.{items_of, Known-cases, field_of, preserves}
use apiextensions_apiserver.Schema.Pruning.Spec.{
  pruned, kept, pruned_elems, pruned_members, kept_elems, kept_members,
}

arr_kept : (x : Elems) (s : Ref) → preserves s ≡ true → pruned (arr x) s ≡ arr (kept_elems x s)
unfolding pruned
arr_kept x s e = rw e refl

arr_kept_idem :
    (x : Elems) (s : Ref)
    → preserves s ≡ true
    → kept_elems (kept_elems x s) s ≡ kept_elems x s
    → pruned (pruned (arr x) s) s ≡ pruned (arr x) s
arr_kept_idem x s e ih =
    ap (λ (y : Json). pruned y s) (arr_kept x s e)
    ∙ arr_kept (kept_elems x s) s e
    ∙ ap arr ih
    ∙ sym (arr_kept x s e)

arr_pruned : (x : Elems) (s : Ref) → preserves s ≡ false → pruned (arr x) s ≡ arr (pruned_elems x s)
unfolding pruned
arr_pruned x s e = rw e refl

arr_pruned_idem :
    (x : Elems) (s : Ref)
    → preserves s ≡ false
    → pruned_elems (pruned_elems x s) s ≡ pruned_elems x s
    → pruned (pruned (arr x) s) s ≡ pruned (arr x) s
arr_pruned_idem x s e ih =
    ap (λ (y : Json). pruned y s) (arr_pruned x s e)
    ∙ arr_pruned (pruned_elems x s) s e
    ∙ ap arr ih
    ∙ sym (arr_pruned x s e)

obj_kept : (x : Members) (s : Ref) → preserves s ≡ true → pruned (obj x) s ≡ obj (kept_members x s)
unfolding pruned
obj_kept x s e = rw e refl

obj_kept_idem :
    (x : Members) (s : Ref)
    → preserves s ≡ true
    → kept_members (kept_members x s) s ≡ kept_members x s
    → pruned (pruned (obj x) s) s ≡ pruned (obj x) s
obj_kept_idem x s e ih =
    ap (λ (y : Json). pruned y s) (obj_kept x s e)
    ∙ obj_kept (kept_members x s) s e
    ∙ ap obj ih
    ∙ sym (obj_kept x s e)

obj_pruned :
    (x : Members) (s : Ref) → preserves s ≡ false → pruned (obj x) s ≡ obj (pruned_members x s)
unfolding pruned
obj_pruned x s e = rw e refl

obj_pruned_idem :
    (x : Members) (s : Ref)
    → preserves s ≡ false
    → pruned_members (pruned_members x s) s ≡ pruned_members x s
    → pruned (pruned (obj x) s) s ≡ pruned (obj x) s
obj_pruned_idem x s e ih =
    ap (λ (y : Json). pruned y s) (obj_pruned x s e)
    ∙ obj_pruned (pruned_members x s) s e
    ∙ ap obj ih
    ∙ sym (obj_pruned x s e)

mutual
  unfolding pruned

  pub pruned_idem : (x : Json) (s : Ref) → pruned (pruned x s) s ≡ pruned x s
  pruned_idem (arr xs) s = elim (Bool-cases (preserves s)) [
    | inl e ↦ arr_kept_idem xs s e (kept_elems_idem xs s)
    | inr e ↦ arr_pruned_idem xs s e (pruned_elems_idem xs s)
  ]
  pruned_idem (obj ms) s = elim (Bool-cases (preserves s)) [
    | inl e ↦ obj_kept_idem ms s e (kept_members_idem ms s)
    | inr e ↦ obj_pruned_idem ms s e (pruned_members_idem ms s)
  ]
  pruned_idem _ s = refl

  kept_idem : (x : Json) (s : Ref) → kept (kept x s) s ≡ kept x s
  kept_idem (arr xs) s = ap arr (kept_elems_idem xs s)
  kept_idem (obj ms) s = ap obj (kept_members_idem ms s)
  kept_idem _ s = refl

  pruned_elems_idem :
      (xs : Elems) (s : Ref) → pruned_elems (pruned_elems xs s) s ≡ pruned_elems xs s
  pruned_elems_idem no_elems s = refl
  pruned_elems_idem (elem v xs) s = ap₂ elem (pruned_idem v (items_of s)) (pruned_elems_idem xs s)

  kept_elems_idem : (xs : Elems) (s : Ref) → kept_elems (kept_elems xs s) s ≡ kept_elems xs s
  kept_elems_idem no_elems nil = refl
  kept_elems_idem (elem v xs) nil = refl
  kept_elems_idem no_elems (to s) = refl
  kept_elems_idem (elem v xs) (to s) = ap₂ elem (kept_idem v (items s)) (kept_elems_idem xs (to s))

  pruned_members_idem :
      (ms : Members) (s : Ref) → pruned_members (pruned_members ms s) s ≡ pruned_members ms s
  pruned_members_idem no_members s = refl
  pruned_members_idem (member k v ms) nil = pruned_members_idem ms nil
  pruned_members_idem (member k v ms) (to s) = elim (Known-cases (field_of s k)) [
    | inl e ↦
        rw (e, pruned_members)
          (rw (e, pruned_members) (ap (member k v) (pruned_members_idem ms (to s))))
    | inr (inl (t, e)) ↦
        rw (e, pruned_members)
          (rw (e, pruned_members)
            (ap₂ (member k) (pruned_idem v t) (pruned_members_idem ms (to s))))
    | inr (inr e) ↦ rw (e, pruned_members) (pruned_members_idem ms (to s))
  ]

  kept_members_idem :
      (ms : Members) (s : Ref) → kept_members (kept_members ms s) s ≡ kept_members ms s
  kept_members_idem no_members nil = refl
  kept_members_idem (member k v ms) nil = refl
  kept_members_idem no_members (to s) = refl
  kept_members_idem (member k v ms) (to s) = elim (Known-cases (field_of s k)) [
    | inl e ↦
        rw (e, kept_members) (rw (e, kept_members) (ap (member k v) (kept_members_idem ms (to s))))
    | inr (inl (t, e)) ↦
        rw (e, kept_members)
          (rw (e, kept_members) (ap₂ (member k) (pruned_idem v t) (kept_members_idem ms (to s))))
    | inr (inr e) ↦
        rw (e, kept_members) (rw (e, kept_members) (ap (member k v) (kept_members_idem ms (to s))))
  ]
