-- ===== src/Controller/Naming/Verdict.antt =====
-- When the names of a CRD are accepted.
use mathlib.Core.Bool.{false≢true}
use apiextensions_apiserver.Controller.Naming.Accepted.{
  names-check_names, picked_names, status-check_names, plural_error, singular_error,
  strings_equal_refl, kind_error, strings_equal-eq, list_kind_error, if_error, short_names_error,
}
use apiextensions_apiserver.Crd.{Crd, condition_unknown, condition_true, Names}
use apiextensions_apiserver.Controller.Naming.{
  get_accepted_names_for_group, calculate_names_and_conditions, strings_equal, aggregated,
  check_names, or_no_conflicts, Claimed, equal_to_accepted_or_fresh, short_name_errors,
}
use apiextensions_apiserver.Prelude.{
  ◌↔◌, sym, ◌∙◌, ap, ◌==◌, Option, refl, Option-cases, inr, eq_iff, Bool-cases, arith, inl, true,
  false, ◌⊎◌, [], none, contains, ◌∷◌, ◌≡◌, String, List,
}

-- A name may be taken if the CRD has it already, or if no CRD of the group claims it.
abbrev pub MayTake : String → String → List String → Type 0
MayTake requested accepted used = (requested ≡ accepted) ⊎ (contains used requested ≡ false)

abbrev pub EachMayTake : List String → List String → List String → Type 0
EachMayTake [] existing used = Unit
EachMayTake (name ∷ names) existing used =
    ((contains existing name ≡ true) ⊎ MayTake name "" used) × EachMayTake names existing used

abbrev pub ShortNamesMayTake : List String → List String → List String → Type 0
ShortNamesMayTake requested accepted used =
    (requested ≡ accepted) ⊎ EachMayTake requested accepted used

-- The requested names as a whole.
pub record AllMayTake (r a : Names) (used : Claimed) : Type 0 where
  pub plural : MayTake r.plural a.plural used.resources
  pub singular : MayTake r.singular a.singular used.resources
  pub short_names : ShortNamesMayTake r.short_names a.short_names used.resources
  pub kind : MayTake r.kind a.kind used.kinds
  pub list_kind : MayTake r.list_kind a.list_kind used.kinds

pub MayTake-of-none :
    (r a : String) (used : List String)
    → equal_to_accepted_or_fresh r a used ≡ none
    → MayTake r a used
unfolding equal_to_accepted_or_fresh
MayTake-of-none r a used h = ground (arith, eq_iff r a)

none-of-MayTake :
    (r a : String) (used : List String)
    → MayTake r a used
    → equal_to_accepted_or_fresh r a used ≡ none
unfolding equal_to_accepted_or_fresh
none-of-MayTake r a used h = ground (arith, eq_iff r a)

EachMayTake-of-nil :
    (names existing used : List String)
    → short_name_errors names existing used ≡ []
    → EachMayTake names existing used
unfolding short_name_errors
EachMayTake-of-nil [] existing used h = tt
EachMayTake-of-nil (name ∷ names) existing used h = elim (Bool-cases (contains existing name)) [
  | inl c ↦ (inl c, EachMayTake-of-nil names existing used (rw c at h))
  | inr c ↦ elim (Option-cases (equal_to_accepted_or_fresh name "" used)) [
    | inl e ↦ (
      inr (MayTake-of-none name "" used e),
      EachMayTake-of-nil names existing used (rw (c, e, short_name_errors) at h),
    )
    | inr (m, e) ↦ cc (rw (c, e, short_name_errors) at h)
  ]
]

nil-of-EachMayTake :
    (names existing used : List String)
    → EachMayTake names existing used
    → short_name_errors names existing used ≡ []
unfolding short_name_errors
nil-of-EachMayTake [] existing used h = refl
nil-of-EachMayTake (name ∷ names) existing used (inl c, hs) =
    rw c (nil-of-EachMayTake names existing used hs)
nil-of-EachMayTake (name ∷ names) existing used (inr m, hs) =
    elim (Bool-cases (contains existing name)) [
      | inl c ↦ rw c (nil-of-EachMayTake names existing used hs)
      | inr c ↦
          rw (c, none-of-MayTake name "" used m, short_name_errors)
            (nil-of-EachMayTake names existing used hs)
    ]

abbrev chain :
    Option String → Option String → Option String → Option String → Option String → String
chain e5 e4 e3 e2 e1 =
    if_error e5 (if_error e4 (if_error e3 (if_error e2 (if_error e1 condition_unknown))))

no_error :
    (e5 e4 e3 e2 e1 : Option String)
    → (chain e5 e4 e3 e2 e1 == condition_unknown) ≡ true
    → (e5 ≡ none) × (e4 ≡ none) × (e3 ≡ none) × (e2 ≡ none) × (e1 ≡ none)
no_error none none none none none h = (refl, refl, refl, refl, refl)
no_error _ _ _ _ _ h = cc

not-true-chain : (e5 e4 e3 e2 e1 : Option String) → (chain e5 e4 e3 e2 e1 == condition_true) ≡ false
not-true-chain none none none none none = refl
not-true-chain _ _ _ _ _ = refl

module _ (aggregate : List String → String) (r a : Names) (used : Claimed) where
  short_error_none :
      ShortNamesMayTake r.short_names a.short_names used.resources
      → short_names_error aggregate r a used ≡ none
  short_error_none (inl e) =
      rw
        (ap (λ (t : List String). strings_equal t a.short_names) e
          ∙ strings_equal_refl a.short_names)
        refl
  short_error_none (inr m) = elim (Bool-cases (strings_equal r.short_names a.short_names)) [
    | inl q ↦ rw q refl
    | inr q ↦ rw (q, nil-of-EachMayTake r.short_names a.short_names used.resources m) refl
  ]

  pub none_short_error :
      short_names_error aggregate r a used ≡ none
      → ShortNamesMayTake r.short_names a.short_names used.resources
  none_short_error h = elim (Bool-cases (strings_equal r.short_names a.short_names)) [
    | inl q ↦ inl (strings_equal-eq r.short_names a.short_names q)
    | inr q ↦ inr (
        EachMayTake-of-nil r.short_names a.short_names used.resources (
          aggregated-none (short_name_errors r.short_names a.short_names used.resources)
            (rw q at h)))
  ]
    where
      aggregated-none : (es : List String) → aggregated aggregate es ≡ none → es ≡ []
      aggregated-none [] h = refl
      aggregated-none (e ∷ es) h = cc

  AllMayTake-of-True :
      (or_no_conflicts aggregate (check_names aggregate r a used).condition).status ≡ condition_true
      → AllMayTake r a used
  AllMayTake-of-True h =
      elim (Bool-cases ((check_names aggregate r a used).condition.status == condition_unknown)) [
        | inl u ↦
            let (p5, p4, p3, p2, p1) =
              no_error (list_kind_error aggregate r a used) (kind_error aggregate r a used)
                (short_names_error aggregate r a used) (singular_error aggregate r a used)
                (plural_error aggregate r a used)
                (rw (status-check_names aggregate r a used) at u) in
            record {
              plural = MayTake-of-none _ _ _ p1;
              singular = MayTake-of-none _ _ _ p2;
              short_names = none_short_error p3;
              kind = MayTake-of-none _ _ _ p4;
              list_kind = MayTake-of-none _ _ _ p5;
            }
        | inr u ↦
            let t : ((check_names aggregate r a used).condition.status == condition_true) ≡ true =
              (eq_iff _ _).1 (rw u at h) in
            absurd (
              false≢true (
                sym (
                  not-true-chain (list_kind_error aggregate r a used)
                    (kind_error aggregate r a used) (short_names_error aggregate r a used)
                    (singular_error aggregate r a used) (plural_error aggregate r a used))
                ∙ (rw (status-check_names aggregate r a used) at t)))
      ]

  unknown-of-AllMayTake :
      AllMayTake r a used → (check_names aggregate r a used).condition.status ≡ condition_unknown
  unknown-of-AllMayTake m =
      status-check_names aggregate r a used
      ∙ rw
          (
            none-of-MayTake _ _ _ m.plural,
            none-of-MayTake _ _ _ m.singular,
            short_error_none m.short_names,
            none-of-MayTake _ _ _ m.kind,
            none-of-MayTake _ _ _ m.list_kind,
          )
          refl

  True-of-AllMayTake :
      AllMayTake r a used
      → (or_no_conflicts aggregate (check_names aggregate r a used).condition).status
        ≡ condition_true
  True-of-AllMayTake m = rw (unknown-of-AllMayTake m) refl

  requested-of-AllMayTake : AllMayTake r a used → picked_names aggregate r a used ≡ r
  requested-of-AllMayTake m =
      rw
        (
          none-of-MayTake _ _ _ m.plural,
          none-of-MayTake _ _ _ m.singular,
          short_error_none m.short_names,
          none-of-MayTake _ _ _ m.kind,
          none-of-MayTake _ _ _ m.list_kind,
        )
        refl

module _ (aggregate : List String → String) (cache : String → Option Crd) (list : List Crd)
    (crd : Crd) where
  -- NamesAccepted becomes true exactly when every requested name may be taken: the CRD has it
  -- already, or no CRD of its group claims it. A short name may also be any of the CRD's own.
  pub names_accepted_iff :
      ((calculate_names_and_conditions aggregate cache list crd).1.status ≡ condition_true)
      ↔ AllMayTake crd.spec.names crd.status.accepted_names
          (get_accepted_names_for_group cache list crd.spec.group)
  unfolding calculate_names_and_conditions
  names_accepted_iff = (AllMayTake-of-True aggregate _ _ _, True-of-AllMayTake aggregate _ _ _)

  -- Where NamesAccepted becomes true, the names that are accepted are the requested ones.
  pub accepted-eq-requested :
      (calculate_names_and_conditions aggregate cache list crd).1.status ≡ condition_true
      → (calculate_names_and_conditions aggregate cache list crd).0 ≡ crd.spec.names
  unfolding calculate_names_and_conditions
  accepted-eq-requested h =
      let used : Claimed = get_accepted_names_for_group cache list crd.spec.group in
      names-check_names aggregate crd.spec.names crd.status.accepted_names used
      ∙ requested-of-AllMayTake aggregate crd.spec.names crd.status.accepted_names used
          (AllMayTake-of-True aggregate crd.spec.names crd.status.accepted_names used h)
