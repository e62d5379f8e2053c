-- ===== src/Controller/Naming/Disjoint.antt =====
-- What a newly accepted name is clear of.
use apiextensions_apiserver.Controller.Naming.Accepted.{picked_names, short_names_error, pick}
use apiextensions_apiserver.Controller.Naming.Verdict.{
  none_short_error, ShortNamesMayTake, MayTake, EachMayTake,
}
use mathlib.Core.Bool.{false≢true}
use apiextensions_apiserver.Prelude.{
  Option-cases, arith, [], contains-append_right, ◌∙◌, contains-append_left, ◌⊎◌, ◌==◌, inr, eq_iff,
  ◌∷◌, false, true, inl, Any, contains, sym, ◌≡◌, Bool-cases, ◌≢◌, Option, String, List,
}
use apiextensions_apiserver.Controller.Naming.{
  Claimed, equal_to_accepted_or_fresh, newest, kind_names, resource_names,
  get_accepted_names_for_group,
}
use apiextensions_apiserver.Crd.{Names, Crd}

-- No nonempty name is in both lists.
abbrev pub Apart : List String → List String → Type 0
Apart xs ys = (q : String) → q ≢ "" → contains xs q ≡ true → contains ys q ≡ false

abbrev pub accepted : Crd → Names
accepted c = c.status.accepted_names

abbrev pub SameGroup : Crd → Crd → Type 0
SameGroup c d = c.spec.group ≡ d.spec.group

-- Two CRDs do not get in each other's way.
abbrev pub Compatible : Crd → Crd → Type 0
Compatible c d =
    SameGroup c d
    → Apart (resource_names (accepted c)) (resource_names (accepted d))
      × Apart (kind_names (accepted c)) (kind_names (accepted d))

Apart-sym : (xs ys : List String) → Apart xs ys → Apart ys xs
Apart-sym xs ys h q n y = elim (Bool-cases (contains xs q)) [
  | inl x ↦ absurd (false≢true (sym (h q n x) ∙ y))
  | inr x ↦ x
]

pub Compatible-sym : (c d : Crd) → Compatible c d → Compatible d c
Compatible-sym c d h g =
    let (r, k) = h (sym g) in
    (
      Apart-sym (resource_names (accepted c)) (resource_names (accepted d)) r,
      Apart-sym (kind_names (accepted c)) (kind_names (accepted d)) k,
    )

-- The informer and the mutation cache together show the accepted names of a CRD.
abbrev pub Seen : (String → Option Crd) → List Crd → Crd → Type 0
Seen cache list d =
    Any (λ curr. SameGroup curr d × (accepted (newest cache curr) ≡ accepted d)) list

pub claimed_resources :
    (cache : String → Option Crd) (list : List Crd) (d : Crd) (q : String)
    → Seen cache list d
    → contains (resource_names (accepted d)) q ≡ true
    → contains (get_accepted_names_for_group cache list d.spec.group).resources q ≡ true
unfolding get_accepted_names_for_group
claimed_resources cache [] d q no_seen h = elim no_seen [ ]
claimed_resources cache (curr ∷ list) d q (inl (g, e)) h =
    rw ((eq_iff _ _).1 g, e)
      (contains-append_left (resource_names (accepted d))
        (get_accepted_names_for_group cache list d.spec.group).resources q h)
claimed_resources cache (curr ∷ list) d q (inr later) h =
    elim (Bool-cases (curr.spec.group == d.spec.group)) [
      | inl g ↦ rw g (
          contains-append_right (resource_names (accepted (newest cache curr)))
            (get_accepted_names_for_group cache list d.spec.group).resources q
            (claimed_resources cache list d q later h))
      | inr g ↦ rw g (claimed_resources cache list d q later h)
    ]

pub claimed_kinds :
    (cache : String → Option Crd) (list : List Crd) (d : Crd) (q : String)
    → Seen cache list d
    → contains (kind_names (accepted d)) q ≡ true
    → contains (get_accepted_names_for_group cache list d.spec.group).kinds q ≡ true
unfolding get_accepted_names_for_group
claimed_kinds cache [] d q no_seen h = elim no_seen [ ]
claimed_kinds cache (curr ∷ list) d q (inl (g, e)) h =
    rw ((eq_iff _ _).1 g, e)
      (contains-append_left (kind_names (accepted d))
        (get_accepted_names_for_group cache list d.spec.group).kinds q h)
claimed_kinds cache (curr ∷ list) d q (inr later) h =
    elim (Bool-cases (curr.spec.group == d.spec.group)) [
      | inl g ↦ rw g (
          contains-append_right (kind_names (accepted (newest cache curr)))
            (get_accepted_names_for_group cache list d.spec.group).kinds q
            (claimed_kinds cache list d q later h))
      | inr g ↦ rw g (claimed_kinds cache list d q later h)
    ]

-- A name that was accepted before, or that nobody claims.
abbrev pub IsFresh : List String → List String → String → Type 0
IsFresh before used q = (contains before q ≡ true) ⊎ (contains used q ≡ false)

picked_name :
    (requested accepted_name q : String) (used : List String)
    → (pick (equal_to_accepted_or_fresh requested accepted_name used) requested accepted_name == q)
      ≡ true
    → ((accepted_name == q) ≡ true) ⊎ (contains used q ≡ false)
unfolding equal_to_accepted_or_fresh
picked_name r a q used h = ground (arith, eq_iff r q, eq_iff a q, eq_iff r a)

own_or_unclaimed :
    (existing used : List String) (q : String)
    → (contains existing q ≡ true) ⊎ MayTake q "" used
    → q ≢ ""
    → IsFresh existing used q
own_or_unclaimed existing used q (inl own) n = inl own
own_or_unclaimed existing used q (inr (inl e)) n = absurd (n e)
own_or_unclaimed existing used q (inr (inr free)) n = inr free

each-IsFresh :
    (names existing used : List String) (q : String)
    → EachMayTake names existing used
    → q ≢ ""
    → contains names q ≡ true
    → IsFresh existing used q
each-IsFresh (name ∷ names) existing used q (m, ms) n h = elim (Bool-cases (name == q)) [
  | inl e ↦ own_or_unclaimed existing used q (rw ((eq_iff name q).0 e) at m) n
  | inr e ↦ each-IsFresh names existing used q ms n (rw e at h)
]
each-IsFresh [] existing used q m n h = cc

module _ (aggregate : List String → String) (r a : Names) (used : Claimed) (q : String)
    (n : q ≢ "") where
  short_name-IsFresh :
      contains (pick (short_names_error aggregate r a used) r.short_names a.short_names) q ≡ true
      → IsFresh a.short_names used.resources q
  short_name-IsFresh h = elim (Option-cases (short_names_error aggregate r a used)) [
    | inl e ↦ taken (none_short_error aggregate r a used e) (rw e at h)
    | inr (m, e) ↦ inl (rw e at h)
  ]
    where
      taken :
          ShortNamesMayTake r.short_names a.short_names used.resources
          → contains r.short_names q ≡ true
          → IsFresh a.short_names used.resources q
      taken (inl e) h = inl (rw e at h)
      taken (inr m) h = each-IsFresh r.short_names a.short_names used.resources q m n h

  pub resource-IsFresh :
      contains (resource_names (picked_names aggregate r a used)) q ≡ true
      → IsFresh (resource_names a) used.resources q
  resource-IsFresh h = ground (
    arith,
    picked_name r.plural a.plural q used.resources,
    picked_name r.singular a.singular q used.resources,
    short_name-IsFresh,
  )

  pub kind-IsFresh :
      contains (kind_names (picked_names aggregate r a used)) q ≡ true
      → IsFresh (kind_names a) used.kinds q
  kind-IsFresh h = ground (
    arith,
    picked_name r.kind a.kind q used.kinds,
    picked_name r.list_kind a.list_kind q used.kinds,
  )
