-- ===== src/Crd/Helpers/Conditions.antt =====
-- The condition list as a map from condition types.
use apiextensions_apiserver.Crd.Helpers.{
  overwrite, remove_crd_condition, remove_condition, find_condition, find_crd_condition,
  set_crd_condition, present_and_equal, set_condition, is_crd_condition_present_and_equal,
}
use apiextensions_apiserver.Prelude.{
  ltb, ◌&&◌, ◌||◌, nat_eq, not, ap, sym, inr, eq_iff, arith, [], inl, refl, false, none,
  if◌then◌else◌, ◌==◌, ◌≡◌, Bool, Bool-cases, ◌∷◌, some, String, Option, List, ℕ,
}
use apiextensions_apiserver.Crd.{Crd, Condition}

-- The time stays where the status does, unless it is the zero time.
abbrev pub transition_time : Condition → Condition → ℕ
transition_time c old =
    if old.status == c.status && ltb 0 old.last_transition_time
    then old.last_transition_time
    else c.last_transition_time

-- The condition that SetCRDCondition leaves for its type.
abbrev pub written : Condition → Option Condition → Condition
written c none = c
written c (some old) = record {
  type = old.type;
  status = c.status;
  last_transition_time = transition_time c old;
  reason = c.reason;
  message = c.message;
  observed_generation = old.observed_generation;
}

same_time :
    (b : Bool) (n x : ℕ) → (if not b || nat_eq n 0 then x else n) ≡ (if b && ltb 0 n then n else x)
same_time b n x = ground arith

overwrite-eq-written : (c old : Condition) → overwrite c old ≡ written c (some old)
overwrite-eq-written c old =
    ap (λ time. record (written c (some old)) { last_transition_time = time })
      (same_time (old.status == c.status) old.last_transition_time c.last_transition_time)

find-set_condition :
    (t : String) (c : Condition) (cs : List Condition)
    → find_condition t (set_condition c cs)
      ≡ (if c.type == t then some (written c (find_condition t cs)) else find_condition t cs)
unfolding find_condition set_condition
find-set_condition t c [] = refl
find-set_condition t c (old ∷ cs) = elim (Bool-cases (old.type == c.type)) [
  | inl e ↦
      rw (e, overwrite-eq-written c old)
        (ground (arith, eq_iff old.type t, eq_iff c.type t, eq_iff old.type c.type))
  | inr e ↦ rw e (
      ground (
        arith,
        eq_iff old.type t,
        eq_iff c.type t,
        eq_iff old.type c.type,
        find-set_condition t c cs,
      ))
]

find-remove_condition :
    (t u : String) (cs : List Condition)
    → find_condition t (remove_condition u cs) ≡ (if u == t then none else find_condition t cs)
unfolding find_condition remove_condition
find-remove_condition t u [] = ground arith
find-remove_condition t u (c ∷ cs) =
    ground (arith, eq_iff c.type t, eq_iff c.type u, eq_iff u t, find-remove_condition t u cs)

-- SetCRDCondition changes what FindCRDCondition finds for the type of the new condition alone.
-- A condition that was there gets the new status, reason and message and keeps its observed
-- generation; its transition time becomes the present if the status changes or the time was
-- zero, and stays otherwise. A condition that was not there is the new one, at the present.
pub find-set_crd_condition :
    (now : ℕ) (crd : Crd) (c : Condition) (t : String)
    → find_crd_condition (set_crd_condition now crd c) t ≡ (
        if c.type == t
        then some (written (record c { last_transition_time = now }) (find_crd_condition crd t))
        else find_crd_condition crd t)
unfolding find_crd_condition set_crd_condition
find-set_crd_condition now crd c t =
    find-set_condition t (record c { last_transition_time = now }) crd.status.conditions

-- After RemoveCRDCondition no condition of the type is found, and those of other types are as
-- they were.
pub find-remove_crd_condition :
    (crd : Crd) (t u : String)
    → find_crd_condition (remove_crd_condition crd u) t
      ≡ (if u == t then none else find_crd_condition crd t)
unfolding find_crd_condition remove_crd_condition
find-remove_crd_condition crd t u = find-remove_condition t u crd.status.conditions

abbrev pub status_is : Option Condition → String → Bool
status_is none status = false
status_is (some c) status = c.status == status

present-eq-status_is :
    (t status : String) (cs : List Condition)
    → present_and_equal t status cs ≡ status_is (find_condition t cs) status
unfolding present_and_equal find_condition
present-eq-status_is t status [] = refl
present-eq-status_is t status (c ∷ cs) = elim (Bool-cases (c.type == t)) [
  | inl e ↦ rw e refl
  | inr e ↦ rw e (present-eq-status_is t status cs)
]

pub present_and_equal-eq-status_is :
    (crd : Crd) (t status : String)
    → is_crd_condition_present_and_equal crd t status ≡ status_is (find_crd_condition crd t) status
unfolding is_crd_condition_present_and_equal find_crd_condition
present_and_equal-eq-status_is crd t status = present-eq-status_is t status crd.status.conditions

status_is-written :
    (c : Condition) (o : Option Condition) (status : String)
    → status_is (some (written c o)) status ≡ (c.status == status)
status_is-written c none status = refl
status_is-written c (some old) status = refl

-- Setting a condition decides the test of its own type, by its status, and no other test.
pub present_and_equal-set :
    (now : ℕ) (crd : Crd) (c : Condition) (t status : String)
    → is_crd_condition_present_and_equal (set_crd_condition now crd c) t status ≡ (
        if c.type == t then c.status == status else is_crd_condition_present_and_equal crd t status)
present_and_equal-set now crd c t status = elim (Bool-cases (c.type == t)) [
  | inl e ↦
      rw (present_and_equal-eq-status_is, find-set_crd_condition, e)
        (status_is-written _ (find_crd_condition crd t) status)
  | inr e ↦
      rw (present_and_equal-eq-status_is, find-set_crd_condition, e)
        (sym (present_and_equal-eq-status_is crd t status))
]

-- No two conditions of one type, as `+listType=map` asks.
abbrev pub OneOfEach : List Condition → Type 0
OneOfEach [] = Unit
OneOfEach (c ∷ cs) = (find_condition c.type cs ≡ none) × OneOfEach cs

set_condition-OneOfEach :
    (c : Condition) (cs : List Condition) → OneOfEach cs → OneOfEach (set_condition c cs)
unfolding set_condition
set_condition-OneOfEach c [] u = (unfold find_condition in refl, tt)
set_condition-OneOfEach c (old ∷ cs) (fresh, u) = elim (Bool-cases (old.type == c.type)) [
  | inl e ↦ rw e (fresh, u)
  | inr e ↦ rw e (
    ground
        (arith, find-set_condition old.type c cs, eq_iff c.type old.type, eq_iff old.type c.type),
    set_condition-OneOfEach c cs u,
  )
]

-- If no two conditions have the same type, SetCRDCondition keeps it so.
pub set_crd_condition-OneOfEach :
    (now : ℕ) (crd : Crd) (c : Condition)
    → OneOfEach crd.status.conditions
    → OneOfEach (set_crd_condition now crd c).status.conditions
unfolding set_crd_condition
set_crd_condition-OneOfEach now crd c u =
    set_condition-OneOfEach (record c { last_transition_time = now }) crd.status.conditions u
