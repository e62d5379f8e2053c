-- ===== src/Schema/Pruning/Reports.antt =====
-- Where every removed field is reported, no report means no change.
use apiextensions_apiserver.Prelude.{
  ℕ, zero, suc, String, ◌≡◌, ◌≢◌, refl, ap, ap₂, true, false, List, [], ◌∷◌, ◌++◌, not, Bool-cases,
  inl, inr,
}
use apiextensions_apiserver.Schema.Json.{
  Json, Elems, Members, arr, obj, no_elems, elem, no_members, member,
}
use apiextensions_apiserver.Schema.Structural.{extensions, Structural, Ref, nil, to, items}
use apiextensions_apiserver.Schema.Options.{key_segments, index_segments}
use apiextensions_apiserver.Schema.Pruning.{
  empty_structural, structural, embed, unknown, root_schema, meta_field, items_of, Known-cases,
  field_of, preserves,
}
use apiextensions_apiserver.Schema.Pruning.Spec.{
  pruned, kept, pruned_elems, pruned_members, kept_elems, kept_members, removed, removed_kept,
  removed_elems, removed_members, removed_kept_elems, removed_kept_members, reported,
}

append-eq-nil {ℓ} : {A : Type ℓ} (xs ys : List A) → xs ++ ys ≡ [] → (xs ≡ []) × (ys ≡ [])
append-eq-nil [] ys h = (refl, h)
append-eq-nil (x ∷ xs) ys h = cc

append-ne-nil {ℓ} : {A : Type ℓ} (xs ys : List A) → ys ≢ [] → xs ++ ys ≢ []
append-ne-nil xs ys n h = n (append-eq-nil xs ys h).1

-- A field that the schema does not know is reported.
abbrev pub Reports : List String → Ref → Type 0
Reports p nil = Unit
Reports p (to s) = (k : String) → field_of s k ≡ unknown → reported p k ≢ []

reported-ne-nil : (p : List String) (k : String) → p ≢ [] → reported p k ≢ []
reported-ne-nil [] k n h = absurd (n refl)
reported-ne-nil (x ∷ p) k n h = elim (Bool-cases (not (meta_field k))) [
  | inl e ↦ cc (rw e at h)
  | inr e ↦ cc (rw e at h)
]

Reports-ne-nil : (p : List String) (s : Ref) → p ≢ [] → Reports p s
Reports-ne-nil p nil n = tt
Reports-ne-nil p (to s) n = λ k _. reported-ne-nil p k n

key_segments-ne-nil : (p : List String) (k : String) → key_segments p k ≢ []
key_segments-ne-nil [] k h = cc
key_segments-ne-nil (x ∷ p) k h = cc

Reports-key : (p : List String) (k : String) (s : Ref) → Reports (p ++ key_segments p k) s
Reports-key p k s = Reports-ne-nil _ s (append-ne-nil p _ (key_segments-ne-nil p k))

Reports-index : (p : List String) (i : ℕ) (s : Ref) → Reports (p ++ index_segments i) s
Reports-index p i s = Reports-ne-nil _ s (append-ne-nil p _ (λ h. cc))

mutual
  unfolding pruned removed

  pub pruned-eq_self :
      (x : Json) (s : Ref) (p : List String) → Reports p s → removed x s p ≡ [] → pruned x s ≡ x
  pruned-eq_self (arr xs) s p r h = elim (Bool-cases (preserves s)) [
    | inl e ↦ rw e (ap arr (kept_elems-eq_self xs s zero p (rw e at h)))
    | inr e ↦ rw e (ap arr (pruned_elems-eq_self xs s zero p (rw e at h)))
  ]
  pruned-eq_self (obj ms) s p r h = elim (Bool-cases (preserves s)) [
    | inl e ↦ rw e (ap obj (kept_members-eq_self ms s p (rw e at h)))
    | inr e ↦ rw e (ap obj (pruned_members-eq_self ms s p r (rw e at h)))
  ]
  pruned-eq_self _ s p r h = refl

  kept-eq_self : (x : Json) (s : Ref) (p : List String) → removed_kept x s p ≡ [] → kept x s ≡ x
  kept-eq_self (arr xs) s p h = ap arr (kept_elems-eq_self xs s zero p h)
  kept-eq_self (obj ms) s p h = ap obj (kept_members-eq_self ms s p h)
  kept-eq_self _ s p h = refl

  pruned_elems-eq_self :
      (xs : Elems) (s : Ref) (i : ℕ) (p : List String)
      → removed_elems xs s i p ≡ []
      → pruned_elems xs s ≡ xs
  pruned_elems-eq_self no_elems s i p h = refl
  pruned_elems-eq_self (elem v xs) s i p h =
      let (a, b) = append-eq-nil _ _ h in
      ap₂ elem
        (pruned-eq_self v (items_of s) (p ++ index_segments i) (Reports-index p i (items_of s)) a)
        (pruned_elems-eq_self xs s (suc i) p b)

  kept_elems-eq_self :
      (xs : Elems) (s : Ref) (i : ℕ) (p : List String)
      → removed_kept_elems xs s i p ≡ []
      → kept_elems xs s ≡ xs
  kept_elems-eq_self no_elems nil i p h = refl
  kept_elems-eq_self (elem v xs) nil i p h = refl
  kept_elems-eq_self no_elems (to s) i p h = refl
  kept_elems-eq_self (elem v xs) (to s) i p h =
      let (a, b) = append-eq-nil _ _ h in
      ap₂ elem (kept-eq_self v (items s) (p ++ index_segments i) a)
        (kept_elems-eq_self xs (to s) (suc i) p b)

  pruned_members-eq_self :
      (ms : Members) (s : Ref) (p : List String)
      → Reports p s
      → removed_members ms s p ≡ []
      → pruned_members ms s ≡ ms
  pruned_members-eq_self no_members s p r h = refl
  pruned_members-eq_self (member k v ms) nil p r h = cc
  pruned_members-eq_self (member k v ms) (to s) p r h = elim (Known-cases (field_of s k)) [
    | inl e ↦
        rw (e, pruned_members)
          (ap (member k v) (pruned_members-eq_self ms (to s) p r (rw (e, removed_members) at h)))
    | inr (inl (t, e)) ↦
        let (a, b) = append-eq-nil _ _ (rw (e, removed_members) at h) in
        rw (e, pruned_members)
          (ap₂ (member k) (pruned-eq_self v t (p ++ key_segments p k) (Reports-key p k t) a)
            (pruned_members-eq_self ms (to s) p r b))
    | inr (inr e) ↦
        let (a, b) = append-eq-nil _ _ (rw (e, removed_members) at h) in absurd (r k e a)
  ]

  kept_members-eq_self :
      (ms : Members) (s : Ref) (p : List String)
      → removed_kept_members ms s p ≡ []
      → kept_members ms s ≡ ms
  kept_members-eq_self no_members nil p h = refl
  kept_members-eq_self (member k v ms) nil p h = refl
  kept_members-eq_self no_members (to s) p h = refl
  kept_members-eq_self (member k v ms) (to s) p h = elim (Known-cases (field_of s k)) [
    | inl e ↦
        rw (e, kept_members)
          (ap (member k v) (kept_members-eq_self ms (to s) p (rw (e, removed_kept_members) at h)))
    | inr (inl (t, e)) ↦
        let (a, b) = append-eq-nil _ _ (rw (e, removed_kept_members) at h) in
        rw (e, kept_members)
          (ap₂ (member k) (pruned-eq_self v t (p ++ key_segments p k) (Reports-key p k t) a)
            (kept_members-eq_self ms (to s) p b))
    | inr (inr e) ↦
        rw (e, kept_members)
          (ap (member k v) (kept_members-eq_self ms (to s) p (rw (e, removed_kept_members) at h)))
  ]

not-meta-of-unknown :
    (s : Structural) (k : String)
    → (extensions s).x_embedded_resource ≡ true
    → field_of s k ≡ unknown
    → meta_field k ≡ false
unfolding field_of
not-meta-of-unknown s k e h = elim (Bool-cases (meta_field k)) [
  | inl m ↦ cc (rw (e, m) at h)
  | inr m ↦ m
]

Reports-embedded :
    (s : Structural) (p : List String)
    → (extensions s).x_embedded_resource ≡ true
    → Reports p (to s)
Reports-embedded s p e k h r = cc (rw (not-meta-of-unknown s k e h) at r)

embedded-embed : (s : Structural) → (extensions (embed s)).x_embedded_resource ≡ true
embedded-embed (structural i ps ap g x vx vv) = refl

-- Pruning an object as the root of a resource never leaves a field of the root unreported.
pub Reports-root : (s : Ref) (p : List String) → Reports p (root_schema s true)
Reports-root nil p = Reports-embedded (embed empty_structural) p refl
Reports-root (to s) p = elim (Bool-cases ((extensions s).x_embedded_resource)) [
  | inl e ↦ rw e (Reports-embedded s p e)
  | inr e ↦ rw e (Reports-embedded (embed s) p (embedded-embed s))
]
