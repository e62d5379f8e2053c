-- ===== src/Controller/Naming/Accepted.antt =====
-- The names and the condition that calculateNamesAndConditions computes, each in one equation.
use apiextensions_apiserver.Controller.Naming.{
  condition_of, check_names, check_list_kind, check_short_names, check_kind, check_plural,
  check_singular, short_name_errors, aggregated, strings_equal, settle, Draft,
  equal_to_accepted_or_fresh, Claimed,
}
use apiextensions_apiserver.Crd.{condition_unknown, names_accepted, condition_false, Names}
use apiextensions_apiserver.Prelude.{
  eq_iff, eq_refl, arith, ◌∷◌, [], ap, sym, ◌∙◌, inr, inl, Bool-cases, Option-cases, true, refl,
  ◌≡◌, if◌then◌else◌, none, some, String, Option, List,
}

-- The name that a check leaves: the requested one unless it is in use.
abbrev pub pick {ℓ} : {A : Type ℓ} → Option String → A → A → A
pick none requested accepted = requested
pick (some e) requested accepted = accepted

abbrev pub if_error : Option String → String → String
if_error none status = status
if_error (some e) status = condition_false

pub strings_equal-eq : (ss ts : List String) → strings_equal ss ts ≡ true → ss ≡ ts
unfolding strings_equal
strings_equal-eq [] [] h = refl
strings_equal-eq [] (t ∷ ts) h = cc
strings_equal-eq (s ∷ ss) [] h = cc
strings_equal-eq (s ∷ ss) (t ∷ ts) h = ground (arith, eq_iff s t, strings_equal-eq ss ts)

pub strings_equal_refl : (ss : List String) → strings_equal ss ss ≡ true
unfolding strings_equal
strings_equal_refl [] = refl
strings_equal_refl (s ∷ ss) = rw (eq_refl s, strings_equal_refl ss) refl

module _ (aggregate : List String → String) (r a : Names) (used : Claimed) where
  abbrev pub plural_error : Option String
  plural_error = equal_to_accepted_or_fresh r.plural a.plural used.resources

  abbrev pub singular_error : Option String
  singular_error = equal_to_accepted_or_fresh r.singular a.singular used.resources

  abbrev pub short_names_error : Option String
  short_names_error =
      if strings_equal r.short_names a.short_names
      then none
      else aggregated aggregate (short_name_errors r.short_names a.short_names used.resources)

  abbrev pub kind_error : Option String
  kind_error = equal_to_accepted_or_fresh r.kind a.kind used.kinds

  abbrev pub list_kind_error : Option String
  list_kind_error = equal_to_accepted_or_fresh r.list_kind a.list_kind used.kinds

  settle-names :
      (e : Option String) (reason : String) (n : Names) (d : Draft)
      → (settle e reason n d).names ≡ pick e n d.names
  settle-names none reason n d = refl
  settle-names (some m) reason n d = refl

  settle-status :
      (e : Option String) (reason : String) (n : Names) (d : Draft)
      → (settle e reason n d).condition.status ≡ if_error e d.condition.status
  settle-status none reason n d = refl
  settle-status (some m) reason n d = refl

  abbrev pub picked_names : Names
  picked_names = record {
    plural = pick plural_error r.plural a.plural;
    singular = pick singular_error r.singular a.singular;
    short_names = pick short_names_error r.short_names a.short_names;
    kind = pick kind_error r.kind a.kind;
    list_kind = pick list_kind_error r.list_kind a.list_kind;
    categories = r.categories;
  }

  plural_step :
      (d : Draft)
      → (check_plural aggregate r a used d).names
        ≡ record d.names { plural = pick plural_error r.plural d.names.plural }
  unfolding check_plural
  plural_step d = elim (Option-cases plural_error) [ inl e ↦ rw e refl | inr (m, e) ↦ rw e refl ]

  singular_step :
      (d : Draft)
      → (check_singular aggregate r a used d).names
        ≡ record d.names { singular = pick singular_error r.singular d.names.singular }
  unfolding check_singular
  singular_step d = elim (Option-cases singular_error) [
    | inl e ↦ rw e refl
    | inr (m, e) ↦ rw e refl
  ]

  short_names_step :
      (d : Draft)
      → d.names.short_names ≡ a.short_names
      → (check_short_names aggregate r a used d).names
        ≡ record d.names { short_names = pick short_names_error r.short_names d.names.short_names }
  unfolding check_short_names
  short_names_step d h = elim (Bool-cases (strings_equal r.short_names a.short_names)) [
    | inl q ↦ rw q (λ i. record d.names {
      short_names = (h ∙ sym (strings_equal-eq r.short_names a.short_names q)) i;
    })
    | inr q ↦
        rw q
          (elim (Option-cases
            (aggregated aggregate (short_name_errors r.short_names a.short_names used.resources))) [
              | inl e ↦ rw e refl
              | inr (m, e) ↦ rw e refl
            ])
  ]

  kind_step :
      (d : Draft)
      → (check_kind aggregate r a used d).names
        ≡ record d.names { kind = pick kind_error r.kind d.names.kind }
  unfolding check_kind
  kind_step d = elim (Option-cases kind_error) [ inl e ↦ rw e refl | inr (m, e) ↦ rw e refl ]

  list_kind_step :
      (d : Draft)
      → (check_list_kind aggregate r a used d).names
        ≡ record d.names { list_kind = pick list_kind_error r.list_kind d.names.list_kind }
  unfolding check_list_kind
  list_kind_step d = elim (Option-cases list_kind_error) [
    | inl e ↦ rw e refl
    | inr (m, e) ↦ rw e refl
  ]

  -- Each accepted name is the requested one, or stays as it was if its check found an error; the
  -- categories are always the requested ones.
  pub names-check_names : (check_names aggregate r a used).names ≡ picked_names
  unfolding check_names
  names-check_names =
      let d0 : Draft = record {
        names = a;
        condition = condition_of names_accepted condition_unknown "" "";
      } in
      let d1 : Draft = check_plural aggregate r a used d0 in
      let d2 : Draft = check_singular aggregate r a used d1 in
      let d3 : Draft = check_short_names aggregate r a used d2 in
      let d4 : Draft = check_kind aggregate r a used d3 in
      let n1 : Names = record a { plural = pick plural_error r.plural a.plural } in
      let n2 : Names = record n1 { singular = pick singular_error r.singular a.singular } in
      let n3 : Names = record n2 {
        short_names = pick short_names_error r.short_names a.short_names;
      } in
      let n4 : Names = record n3 { kind = pick kind_error r.kind a.kind } in
      let p1 : d1.names ≡ n1 = plural_step d0 in
      let p2 : d2.names ≡ n2 =
        singular_step d1
        ∙ ap (λ (n : Names). record n { singular = pick singular_error r.singular n.singular })
            p1 in
      let p3 : d3.names ≡ n3 =
        short_names_step d2 (ap (λ (n : Names). n.short_names) p2)
        ∙ ap
            (λ (n : Names). record n {
              short_names = pick short_names_error r.short_names n.short_names;
            })
            p2 in
      let p4 : d4.names ≡ n4 =
        kind_step d3 ∙ ap (λ (n : Names). record n { kind = pick kind_error r.kind n.kind }) p3 in
      ap (λ (n : Names). record n { categories = r.categories })
        (list_kind_step d4
          ∙ ap
              (λ (n : Names). record n { list_kind = pick list_kind_error r.list_kind n.list_kind })
              p4)

  short_names_status :
      (d : Draft)
      → (check_short_names aggregate r a used d).condition.status
        ≡ if_error short_names_error d.condition.status
  unfolding check_short_names
  short_names_status d = elim (Bool-cases (strings_equal r.short_names a.short_names)) [
    | inl q ↦ rw q refl
    | inr q ↦ rw q (
        settle-status
          (aggregated aggregate (short_name_errors r.short_names a.short_names used.resources))
          "ShortNamesConflict" (record d.names { short_names = r.short_names }) d)
  ]

  -- The status stays unknown unless a check finds an error.
  pub status-check_names :
      (check_names aggregate r a used).condition.status
      ≡ if_error list_kind_error (
          if_error kind_error (
            if_error short_names_error
              (if_error singular_error (if_error plural_error condition_unknown))))
  unfolding check_names
  status-check_names =
      let d0 : Draft = record {
        names = a;
        condition = condition_of names_accepted condition_unknown "" "";
      } in
      let d1 : Draft = check_plural aggregate r a used d0 in
      let d2 : Draft = check_singular aggregate r a used d1 in
      let d3 : Draft = check_short_names aggregate r a used d2 in
      let d4 : Draft = check_kind aggregate r a used d3 in
      let p1 : d1.condition.status ≡ if_error plural_error condition_unknown =
        unfold check_plural in settle-status plural_error _ _ d0 in
      let p2 : d2.condition.status ≡ if_error singular_error d1.condition.status =
        unfold check_singular in settle-status singular_error _ _ d1 in
      let p3 : d3.condition.status ≡ if_error short_names_error d2.condition.status =
        short_names_status d2 in
      let p4 : d4.condition.status ≡ if_error kind_error d3.condition.status =
        unfold check_kind in settle-status kind_error _ _ d3 in
      let p5 : (check_list_kind aggregate r a used d4).condition.status
          ≡ if_error list_kind_error d4.condition.status =
        unfold check_list_kind in settle-status list_kind_error _ _ d4 in
      p5
      ∙ ap (if_error list_kind_error) (
          p4
          ∙ ap (if_error kind_error)
              (p3 ∙ ap (if_error short_names_error) (p2 ∙ ap (if_error singular_error) p1)))
