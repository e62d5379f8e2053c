-- ===== src/Controller/Naming/Reach.antt =====
-- The stored CRDs as they change, and the names that they accept.
use apiextensions_apiserver.Controller.Naming.{
  kind_names, Claimed, resource_names, get_accepted_names_for_group, empty_names,
}
use apiextensions_apiserver.Controller.Naming.Accepted.{names-check_names, picked_names}
use apiextensions_apiserver.Controller.Naming.Disjoint.{
  claimed_kinds, kind-IsFresh, claimed_resources, resource-IsFresh, Compatible-sym, Apart, IsFresh,
  SameGroup, Seen, Compatible, accepted,
}
use apiextensions_apiserver.Controller.Naming.Sync.{renamed}
use apiextensions_apiserver.Crd.{Names, Crd}
use apiextensions_apiserver.Prelude.{
  All-Pairwise_middle, Pairwise-insert, Pairwise-remove, eq_iff, arith, All-map, ◌⊎◌, Bool-cases,
  ◌∙◌, sym, inr, inl, false, All, ◌++◌, refl, ◌∷◌, true, contains, Option, ◌≡◌, Pairwise, [], ℕ,
  ◌≢◌, String, List,
}
use mathlib.Core.Bool.{false≢true}
use mathlib.Core.Path.{subst}

-- What the API server stores. The naming controller has one worker, and an update with an old
-- resource version is a conflict, so a sync whose write succeeds has read the CRD as stored.
abbrev pub Stored : Type 0
Stored = List Crd

-- The controller sees the accepted names of a CRD as stored, or there are none to see. A lister that
-- lags behind, beyond what the mutation cache makes up for, does not satisfy this.
abbrev pub Known : (String → Option Crd) → List Crd → Crd → Type 0
Known cache list d = Seen cache list d ⊎ (accepted d ≡ empty_names)

Apart-empty :
    (xs ys : List String)
    → ((q : String) → q ≢ "" → contains xs q ≡ false)
    → Apart xs ys × Apart ys xs
Apart-empty xs ys h = ((λ q n x. absurd (false≢true (sym (h q n) ∙ x))), (λ q n y. h q n))

no_resource : (q : String) → q ≢ "" → contains (resource_names empty_names) q ≡ false
no_resource q n = ground (arith, eq_iff "" q)

no_kind : (q : String) → q ≢ "" → contains (kind_names empty_names) q ≡ false
no_kind q n = ground (arith, eq_iff "" q)

empty-Compatible : (c d : Crd) → accepted c ≡ empty_names → Compatible c d
empty-Compatible c d e g =
    subst
      (λ (n : Names).
        Apart (resource_names n) (resource_names (accepted d))
        × Apart (kind_names n) (kind_names (accepted d)))
      (sym e)
      (
        (Apart-empty (resource_names empty_names) (resource_names (accepted d)) no_resource).0,
        (Apart-empty (kind_names empty_names) (kind_names (accepted d)) no_kind).0,
      )

module _ (aggregate : List String → String) where
  -- A CRD comes without accepted names; anybody may change anything but its group and its
  -- accepted names, or delete it; and the naming controller accepts names, having seen those that
  -- it has accepted for the others.
  pub data Step (s t : Stored) : Type 0 where
    created : (c : Crd) → accepted c ≡ empty_names → t ≡ c ∷ s → Step s t
    deleted :
        (before : List Crd) (c : Crd) (after : List Crd)
        → s ≡ before ++ c ∷ after
        → t ≡ before ++ after
        → Step s t
    edited :
        (before : List Crd) (c c' : Crd) (after : List Crd)
        → SameGroup c' c
        → accepted c' ≡ accepted c
        → s ≡ before ++ c ∷ after
        → t ≡ before ++ c' ∷ after
        → Step s t
    synced :
        (now : ℕ) (cache : String → Option Crd) (list : List Crd) (before : List Crd) (c : Crd)
        (after : List Crd)
        → All (Known cache list) (before ++ after)
        → s ≡ before ++ c ∷ after
        → t ≡ before ++ renamed aggregate now cache list c ∷ after
        → Step s t

  pub data Reach : Stored → Type 0 where
    none_yet : Reach []
    next : {s t : Stored} → Reach s → Step s t → Reach t

  pub accepted-renamed :
      (now : ℕ) (cache : String → Option Crd) (list : List Crd) (c : Crd)
      → accepted (renamed aggregate now cache list c)
        ≡ picked_names aggregate c.spec.names
            (accepted c)
            (get_accepted_names_for_group cache list c.spec.group)
  unfolding renamed
  accepted-renamed now cache list c =
      names-check_names aggregate c.spec.names (accepted c)
        (get_accepted_names_for_group cache list c.spec.group)

  group-renamed :
      (now : ℕ) (cache : String → Option Crd) (list : List Crd) (c : Crd)
      → SameGroup (renamed aggregate now cache list c) c
  unfolding renamed
  group-renamed now cache list c = refl

  clear :
      (before used mine theirs : List String)
      → ((q : String) → q ≢ "" → contains mine q ≡ true → IsFresh before used q)
      → ((q : String) → contains theirs q ≡ true → contains used q ≡ true)
      → Apart before theirs
      → Apart mine theirs
  clear before used mine theirs fresh claims apart q n h = elim (Bool-cases (contains theirs q)) [
    | inl t ↦ clash (fresh q n h) t
    | inr t ↦ t
  ]
    where
      clash : IsFresh before used q → contains theirs q ≡ true → contains theirs q ≡ false
      clash (inl b) t = apart q n b
      clash (inr u) t = absurd (false≢true (sym u ∙ claims q t))

  Seen-Compatible :
      (now : ℕ) (cache : String → Option Crd) (list : List Crd) (c d : Crd)
      → Seen cache list d
      → Compatible c d
      → Compatible (renamed aggregate now cache list c) d
  Seen-Compatible now cache list c d seen compatible g =
      let same : SameGroup c d = sym (group-renamed now cache list c) ∙ g in
      let used : Claimed = get_accepted_names_for_group cache list c.spec.group in
      let (res, kin) = compatible same in
      subst
        (λ (n : Names).
          Apart (resource_names n) (resource_names (accepted d))
          × Apart (kind_names n) (kind_names (accepted d)))
        (sym (accepted-renamed now cache list c))
        (
          clear (resource_names (accepted c)) used.resources
              (resource_names (picked_names aggregate c.spec.names (accepted c) used))
              (resource_names (accepted d))
              (resource-IsFresh aggregate c.spec.names (accepted c) used)
              (λ q h.
                subst
                  (λ (group : String).
                    contains (get_accepted_names_for_group cache list group).resources q ≡ true)
                  (sym same) (claimed_resources cache list d q seen h))
              res,
          clear (kind_names (accepted c)) used.kinds
              (kind_names (picked_names aggregate c.spec.names (accepted c) used))
              (kind_names (accepted d)) (kind-IsFresh aggregate c.spec.names (accepted c) used)
              (λ q h.
                subst
                  (λ (group : String).
                    contains (get_accepted_names_for_group cache list group).kinds q ≡ true)
                  (sym same) (claimed_kinds cache list d q seen h))
              kin,
        )

  renamed-Compatible :
      (now : ℕ) (cache : String → Option Crd) (list : List Crd) (c d : Crd)
      → Known cache list d
      → Compatible c d
      → Compatible (renamed aggregate now cache list c) d
  renamed-Compatible now cache list c d (inl seen) h = Seen-Compatible now cache list c d seen h
  renamed-Compatible now cache list c d (inr e) h =
      Compatible-sym d (renamed aggregate now cache list c)
        (empty-Compatible d (renamed aggregate now cache list c) e)

  All-renamed :
      (now : ℕ) (cache : String → Option Crd) (list : List Crd) (c : Crd) (others : List Crd)
      → All (Known cache list) others
      → All (Compatible c) others
      → All (Compatible (renamed aggregate now cache list c)) others
  All-renamed now cache list c [] known h = tt
  All-renamed now cache list c (d ∷ others) (k, known) (h, hs) =
      (renamed-Compatible now cache list c d k h, All-renamed now cache list c others known hs)

  All-edited :
      (c c' : Crd) (others : List Crd)
      → SameGroup c' c
      → accepted c' ≡ accepted c
      → All (Compatible c) others
      → All (Compatible c') others
  All-edited c c' others g e =
      All-map (Compatible c) (Compatible c')
        (λ d h same.
          subst
            (λ (n : Names).
              Apart (resource_names n) (resource_names (accepted d))
              × Apart (kind_names n) (kind_names (accepted d)))
            (sym e) (h (sym g ∙ same)))
        others

  All-empty_names : (c : Crd) (s : Stored) → accepted c ≡ empty_names → All (Compatible c) s
  All-empty_names c [] e = tt
  All-empty_names c (d ∷ s) e = (empty-Compatible c d e, All-empty_names c s e)

  Step-Compatible : {s t : Stored} → Step s t → Pairwise Compatible s → Pairwise Compatible t
  Step-Compatible {s} (created c e q) h =
      subst (Pairwise Compatible) (sym q) (All-empty_names c s e, h)
  Step-Compatible (deleted before c after p q) h =
      subst (Pairwise Compatible) (sym q)
        (Pairwise-remove Compatible Compatible-sym before c after (subst (Pairwise Compatible) p h))
  Step-Compatible (edited before c c' after g e p q) h =
      let k : Pairwise Compatible (before ++ c ∷ after) = subst (Pairwise Compatible) p h in
      subst (Pairwise Compatible) (sym q) (
        Pairwise-insert Compatible Compatible-sym before c' after
          (Pairwise-remove Compatible Compatible-sym before c after k)
          (All-edited c c' (before ++ after) g e
            (All-Pairwise_middle Compatible Compatible-sym before c after k)))
  Step-Compatible (synced now cache list before c after known p q) h =
      let k : Pairwise Compatible (before ++ c ∷ after) = subst (Pairwise Compatible) p h in
      subst (Pairwise Compatible) (sym q) (
        Pairwise-insert Compatible Compatible-sym before (renamed aggregate now cache list c) after
          (Pairwise-remove Compatible Compatible-sym before c after k)
          (All-renamed now cache list c (before ++ after) known
            (All-Pairwise_middle Compatible Compatible-sym before c after k)))

  -- Start from no CRDs and let CRDs be created, deleted, edited and synced by the naming controller.
  -- A created CRD has no accepted names, an edit changes neither the group nor the accepted names,
  -- and a sync that is stored has seen, in its lister or its mutation cache, the accepted names of
  -- every other CRD that has any. Then two CRDs of one group never have an accepted resource name or
  -- an accepted kind in common, but for empty ones.
  pub no_conflict : {s : Stored} → Reach s → Pairwise Compatible s
  no_conflict none_yet = tt
  no_conflict (next r st) = Step-Compatible st (no_conflict r)
