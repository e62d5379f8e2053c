-- ===== src/Controller/Naming/Again.antt =====
-- The names and the condition that calculateNamesAndConditions computes over names that it has
-- accepted before.
use apiextensions_apiserver.Controller.Naming.Accepted.{
  names-check_names, singular_error, kind_error, plural_error, list_kind_error, strings_equal_refl,
  picked_names, short_names_error, pick,
}
use apiextensions_apiserver.Controller.Naming.{
  short_name_errors, aggregated, check_list_kind, check_kind, strings_equal, check_singular,
  check_plural, check_short_names, or_no_conflicts, condition_of, check_names, settle, Claimed,
  Draft, equal_to_accepted_or_fresh, names_equal,
}
use apiextensions_apiserver.Crd.{
  condition_unknown, names_accepted, condition_false, Condition, Names,
}
use apiextensions_apiserver.Prelude.{
  ◌==◌, Bool-cases, sym, ap, ◌∙◌, inr, inl, Option-cases, eq_refl, true, String, ◌≡◌, List, Option,
  some, none, refl,
}

name_again :
    (r a : String) (used : List String)
    → equal_to_accepted_or_fresh r (pick (equal_to_accepted_or_fresh r a used) r a) used
      ≡ equal_to_accepted_or_fresh r a used
unfolding equal_to_accepted_or_fresh
name_again r a used = elim (Option-cases (equal_to_accepted_or_fresh r a used)) [
  | inl e ↦ rw e (rw (eq_refl r) refl)
  | inr (m, e) ↦ rw e e
]

pick-pick : (e : Option String) (x y : String) → pick e x (pick e x y) ≡ pick e x y
pick-pick none x y = refl
pick-pick (some m) x y = refl

pick-pick_list : (e : Option String) (x y : List String) → pick e x (pick e x y) ≡ pick e x y
pick-pick_list none x y = refl
pick-pick_list (some m) x y = refl

abbrev mark : Option String → String → Condition → Condition
mark none reason c = c
mark (some m) reason c = record c { status = condition_false; reason = reason; message = m }

mark-type : (e : Option String) (reason : String) (c : Condition) → (mark e reason c).type ≡ c.type
mark-type none reason c = refl
mark-type (some m) reason c = refl

settle-condition :
    (e : Option String) (reason : String) (n : Names) (d : Draft)
    → (settle e reason n d).condition ≡ mark e reason d.condition
settle-condition none reason n d = refl
settle-condition (some m) reason n d = refl

pub names_equal_refl : (n : Names) → names_equal n n ≡ true
unfolding names_equal
names_equal_refl n =
    rw
      (
        eq_refl n.plural,
        eq_refl n.singular,
        strings_equal_refl n.short_names,
        eq_refl n.kind,
        eq_refl n.list_kind,
        strings_equal_refl n.categories,
      )
      refl

abbrev marks :
    Option String → Option String → Option String → Option String → Option String → Condition
marks e5 e4 e3 e2 e1 = mark e5 "ListKindConflict" (
    mark e4 "KindConflict" (
      mark e3 "ShortNamesConflict" (
        mark e2 "SingularConflict"
          (mark e1 "PluralConflict" (condition_of names_accepted condition_unknown "" "")))))

module _ (aggregate : List String → String) (r a : Names) (used : Claimed) where
  short_names_again :
      short_names_error aggregate r (picked_names aggregate r a used) used
      ≡ short_names_error aggregate r a used
  short_names_again = elim (Option-cases (short_names_error aggregate r a used)) [
    | inl e ↦ rw e (rw (strings_equal_refl r.short_names) refl)
    | inr (m, e) ↦ rw e e
  ]

  picked_again :
      picked_names aggregate r (picked_names aggregate r a used) used
      ≡ picked_names aggregate r a used
  picked_again =
      rw
        (
          name_again r.plural a.plural used.resources,
          name_again r.singular a.singular used.resources,
          short_names_again,
          name_again r.kind a.kind used.kinds,
          name_again r.list_kind a.list_kind used.kinds,
          pick-pick (plural_error aggregate r a used) r.plural a.plural,
          pick-pick (singular_error aggregate r a used) r.singular a.singular,
          pick-pick_list (short_names_error aggregate r a used) r.short_names a.short_names,
          pick-pick (kind_error aggregate r a used) r.kind a.kind,
          pick-pick (list_kind_error aggregate r a used) r.list_kind a.list_kind,
        )
        refl

  short_names_condition :
      (d : Draft)
      → (check_short_names aggregate r a used d).condition
        ≡ mark (short_names_error aggregate r a used) "ShortNamesConflict" d.condition
  unfolding check_short_names
  short_names_condition d = elim (Bool-cases (strings_equal r.short_names a.short_names)) [
    | inl q ↦ rw q refl
    | inr q ↦ rw q (
        settle-condition
          (aggregated aggregate (short_name_errors r.short_names a.short_names used.resources))
          "ShortNamesConflict" (record d.names { short_names = r.short_names }) d)
  ]

  condition-check_names :
      (check_names aggregate r a used).condition
      ≡ marks
          (list_kind_error aggregate r a used)
          (kind_error aggregate r a used)
          (short_names_error aggregate r a used)
          (singular_error aggregate r a used)
          (plural_error aggregate r a used)
  unfolding check_names
  condition-check_names =
      let d0 : Draft = record {
        names = a;
        condition = condition_of names_accepted condition_unknown "" "";
      } in
      let d1 : Draft = check_plural aggregate r a used d0 in
      let d2 : Draft = check_singular aggregate r a used d1 in
      let d3 : Draft = check_short_names aggregate r a used d2 in
      let d4 : Draft = check_kind aggregate r a used d3 in
      let p1 : d1.condition ≡ mark (plural_error aggregate r a used) "PluralConflict" d0.condition =
        unfold check_plural in settle-condition (plural_error aggregate r a used) _ _ d0 in
      let p2 : d2.condition
          ≡ mark (singular_error aggregate r a used) "SingularConflict" d1.condition =
        unfold check_singular in settle-condition (singular_error aggregate r a used) _ _ d1 in
      let p3 : d3.condition
          ≡ mark (short_names_error aggregate r a used) "ShortNamesConflict" d2.condition =
        short_names_condition d2 in
      let p4 : d4.condition ≡ mark (kind_error aggregate r a used) "KindConflict" d3.condition =
        unfold check_kind in settle-condition (kind_error aggregate r a used) _ _ d3 in
      let p5 : (check_list_kind aggregate r a used d4).condition
          ≡ mark (list_kind_error aggregate r a used) "ListKindConflict" d4.condition =
        unfold check_list_kind in settle-condition (list_kind_error aggregate r a used) _ _ d4 in
      p5
      ∙ ap (mark (list_kind_error aggregate r a used) "ListKindConflict") (
          p4
          ∙ ap (mark (kind_error aggregate r a used) "KindConflict") (
              p3
              ∙ ap (mark (short_names_error aggregate r a used) "ShortNamesConflict")
                  (p2 ∙ ap (mark (singular_error aggregate r a used) "SingularConflict") p1)))

marks-type : (e5 e4 e3 e2 e1 : Option String) → (marks e5 e4 e3 e2 e1).type ≡ names_accepted
marks-type e5 e4 e3 e2 e1 =
    mark-type e5 _ _ ∙ mark-type e4 _ _ ∙ mark-type e3 _ _ ∙ mark-type e2 _ _ ∙ mark-type e1 _ _

module _ (aggregate : List String → String) (r a : Names) (used : Claimed) where
  pub condition_again :
      (check_names aggregate r (picked_names aggregate r a used) used).condition
      ≡ (check_names aggregate r a used).condition
  condition_again =
      condition-check_names aggregate r (picked_names aggregate r a used) used
      ∙ rw
          (
            name_again r.plural a.plural used.resources,
            name_again r.singular a.singular used.resources,
            short_names_again aggregate r a used,
            name_again r.kind a.kind used.kinds,
            name_again r.list_kind a.list_kind used.kinds,
          )
          (sym (condition-check_names aggregate r a used))

  pub names_again :
      (check_names aggregate r (picked_names aggregate r a used) used).names
      ≡ picked_names aggregate r a used
  names_again =
      names-check_names aggregate r (picked_names aggregate r a used) used
      ∙ picked_again aggregate r a used

  pub condition-type : (check_names aggregate r a used).condition.type ≡ names_accepted
  condition-type =
      ap (λ (c : Condition). c.type) (condition-check_names aggregate r a used)
      ∙ marks-type _ _ _ _ _

  pub or_no_conflicts-type : (c : Condition) → (or_no_conflicts aggregate c).type ≡ c.type
  or_no_conflicts-type c = elim (Bool-cases (c.status == condition_unknown)) [
    | inl u ↦ rw u refl
    | inr u ↦ rw u refl
  ]
