-- ===== src/Controller/Naming/Settled.antt =====
-- That the naming controller comes to rest.
use apiextensions_apiserver.Controller.Naming.Again.{
  condition-type, names_again, condition_again, or_no_conflicts-type, names_equal_refl,
}
use apiextensions_apiserver.Crd.Helpers.Truth.{find_condition-type}
use apiextensions_apiserver.Controller.Naming.Keeps.{established_condition_lem}
use apiextensions_apiserver.Controller.Naming.Reach.{accepted-renamed}
use apiextensions_apiserver.Controller.Client.{idle, got, UpdateResult, Got}
use apiextensions_apiserver.Controller.Naming.Sync.{renamed, nothing_new, sync}
use apiextensions_apiserver.Crd.Helpers.Conditions.{written, find-set_crd_condition}
use apiextensions_apiserver.Crd.Helpers.{
  set_crd_condition, find_crd_condition, is_crd_condition_equivalent,
}
use apiextensions_apiserver.Controller.Naming.Accepted.{picked_names}
use apiextensions_apiserver.Controller.Naming.{
  get_accepted_names_for_group, calculate_names_and_conditions, or_no_conflicts, check_names,
  names_equal,
}
use apiextensions_apiserver.Crd.{CrdSpec, established, Crd, names_accepted, Condition, Names}
use apiextensions_apiserver.Prelude.{
  ◌&&◌, false, Bool, ap₂, eq_iff, ◌==◌, ℕ, Bool-cases, ap, ◌∙◌, inr, inl, eq_refl, true, String,
  ◌≡◌, List, Option, some, none, refl,
}

both : (a b : Bool) → a ≡ true → b ≡ true → (a && b) ≡ true
both a b h k = rw (h, k) refl

established_type :
    (aggregate : List String → String) (cache : String → Option Crd) (list : List Crd) (c : Crd)
    → ((calculate_names_and_conditions aggregate cache list c).2.type == established) ≡ true
unfolding calculate_names_and_conditions
established_type aggregate cache list c =
    (established_condition_lem aggregate c
      (calculate_names_and_conditions aggregate cache list c).1).0

equivalent_written :
    (now : ℕ) (c : Condition) (o : Option Condition)
    → ((old : Condition) → o ≡ some old → (old.type == c.type) ≡ true)
    → is_crd_condition_equivalent
        (some c)
        (some (written (record c { last_transition_time = now }) o))
      ≡ true
unfolding is_crd_condition_equivalent
equivalent_written now c none h =
    rw (eq_refl c.message, eq_refl c.reason, eq_refl c.status, eq_refl c.type) refl
equivalent_written now c (some old) h =
    rw
      (
        eq_refl c.message,
        eq_refl c.reason,
        eq_refl c.status,
        ap (λ (t : String). c.type == t) ((eq_iff old.type c.type).0 (h old refl)) ∙ eq_refl c.type,
      )
      refl

module _ (aggregate : List String → String) (cache : String → Option Crd) (list : List Crd)
    (c : Crd) where
  -- The condition that calculateNamesAndConditions gives.
  abbrev naming : Condition
  naming = (calculate_names_and_conditions aggregate cache list c).1

  abbrev picked : Names
  picked =
      picked_names aggregate c.spec.names c.status.accepted_names
        (get_accepted_names_for_group cache list c.spec.group)

  naming-type : naming.type ≡ names_accepted
  unfolding calculate_names_and_conditions
  naming-type =
      or_no_conflicts-type aggregate c.spec.names c.status.accepted_names
        (get_accepted_names_for_group cache list c.spec.group) _
      ∙ condition-type aggregate c.spec.names c.status.accepted_names
          (get_accepted_names_for_group cache list c.spec.group)

  same_names :
      (d : Crd)
      → d.spec ≡ c.spec
      → d.status.accepted_names ≡ picked
      → (calculate_names_and_conditions aggregate cache list d).0 ≡ picked
  unfolding calculate_names_and_conditions
  same_names d spec names =
      ap₂
        (λ (s : CrdSpec) (n : Names).
          (check_names aggregate s.names n (get_accepted_names_for_group cache list s.group)).names)
        spec names
      ∙ names_again aggregate c.spec.names c.status.accepted_names
          (get_accepted_names_for_group cache list c.spec.group)

  same_condition :
      (d : Crd)
      → d.spec ≡ c.spec
      → d.status.accepted_names ≡ picked
      → (calculate_names_and_conditions aggregate cache list d).1 ≡ naming
  unfolding calculate_names_and_conditions
  same_condition d spec names =
      ap₂
        (λ (s : CrdSpec) (n : Names).
          or_no_conflicts aggregate
            (check_names aggregate s.names n
              (get_accepted_names_for_group cache list s.group)).condition)
        spec names
      ∙ ap (or_no_conflicts aggregate) (
          condition_again aggregate c.spec.names c.status.accepted_names
            (get_accepted_names_for_group cache list c.spec.group))

  nothing_new-of :
      (d : Crd)
      → d.spec ≡ c.spec
      → d.status.accepted_names ≡ picked
      → is_crd_condition_equivalent (some naming) (find_crd_condition d names_accepted) ≡ true
      → nothing_new aggregate cache list d ≡ true
  unfolding nothing_new
  nothing_new-of d spec names equivalent =
      both _ _
        (ap₂ (λ (m n : Names). names_equal m n) names (same_names d spec names)
          ∙ names_equal_refl picked)
        (ap
            (λ (n : Condition).
              is_crd_condition_equivalent (some n) (find_crd_condition d names_accepted))
            (same_condition d spec names)
          ∙ equivalent)

  -- What the two calls of SetCRDCondition leave of NamesAccepted.
  found-set :
      (now : ℕ) (d : Crd) (e : Condition)
      → (e.type == names_accepted) ≡ false
      → is_crd_condition_equivalent (some naming) (
          find_crd_condition
            (set_crd_condition now (set_crd_condition now d naming) e)
            names_accepted)
        ≡ true
  found-set now d e h =
      ap (is_crd_condition_equivalent (some naming)) (
        find-set_crd_condition now (set_crd_condition now d naming) e names_accepted
        ∙ rw h (
            find-set_crd_condition now d naming names_accepted
            ∙ rw (ap (λ (t : String). t == names_accepted) naming-type) refl))
      ∙ equivalent_written now naming (find_crd_condition d names_accepted) (λ old o.
        ap (λ (t : String). old.type == t) naming-type
        ∙ find_condition-type names_accepted d.status.conditions old
            (unfold find_crd_condition in o))

  found :
      (now : ℕ)
      → is_crd_condition_equivalent
          (some naming)
          (find_crd_condition (renamed aggregate now cache list c) names_accepted)
        ≡ true
  unfolding renamed
  found now =
      let r : Names × Condition × Condition =
        calculate_names_and_conditions aggregate cache list c in
      found-set now (record c { status = record c.status { accepted_names = r.0 } }) r.2
        (ap (λ (t : String). t == names_accepted)
          ((eq_iff _ _).0 (established_type aggregate cache list c)))

  -- After a sync has sent an object, a sync of that object with the same lister and mutation cache
  -- does nothing.
  pub sync_settles :
      (now later : ℕ) (get : String → Got) (update : Crd → UpdateResult) (key : String)
      → get key ≡ got (renamed aggregate now cache list c)
      → sync aggregate later cache list get update key ≡ idle
  unfolding sync
  sync_settles now later get update key g =
      let d : Crd = renamed aggregate now cache list c in
      elim (Bool-cases (names_equal d.spec.names d.status.accepted_names)) [
        | inl e ↦ rw (sync, g, e) refl
        | inr e ↦
            rw
              (
                sync,
                g,
                e,
                nothing_new-of d (unfold renamed in refl)
                    (accepted-renamed aggregate now cache list c) (found now),
              )
              refl
      ]
