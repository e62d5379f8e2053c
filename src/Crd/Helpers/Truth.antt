-- ===== src/Crd/Helpers/Truth.antt =====
-- IsCRDConditionTrue, and what SetCRDCondition makes of it.
use apiextensions_apiserver.Crd.Helpers.Conditions.{
  present_and_equal-eq-status_is, present_and_equal-set, status_is,
}
use apiextensions_apiserver.Prelude.{
  none, [], inr, inl, Bool-cases, Bool, Option, ◌∷◌, if◌then◌else◌, ◌==◌, true, some, List, ◌≡◌, ℕ,
  String,
}
use apiextensions_apiserver.Crd.Helpers.{
  find_crd_condition, set_crd_condition, is_crd_condition_present_and_equal, is_crd_condition_true,
  find_condition,
}
use mathlib.Core.Path.{subst}
use apiextensions_apiserver.Crd.{condition_true, Condition, established, Crd}

-- Whether a CRD is established.
abbrev pub EstablishedIs : Bool → Crd → Type 0
EstablishedIs b c = is_crd_condition_true c established ≡ b

pub find_condition-type :
    (t : String) (cs : List Condition) (c : Condition)
    → find_condition t cs ≡ some c
    → (c.type == t) ≡ true
unfolding find_condition
find_condition-type t [] c h = cc
find_condition-type t (d ∷ cs) c h = elim (Bool-cases (d.type == t)) [
  | inl e ↦ subst (λ (x : Option Condition). is_type x ≡ true) (rw e at h) e
  | inr e ↦ find_condition-type t cs c (rw e at h)
]
  where
    is_type : Option Condition → Bool
    is_type none = true
    is_type (some x) = x.type == t

pub true-set :
    (now : ℕ) (crd : Crd) (c : Condition) (t : String)
    → is_crd_condition_true (set_crd_condition now crd c) t
      ≡ (if c.type == t then c.status == condition_true else is_crd_condition_true crd t)
unfolding is_crd_condition_true
true-set now crd c t = present_and_equal-set now crd c t condition_true

pub true-eq-status_is :
    (crd : Crd) (t : String)
    → is_crd_condition_true crd t ≡ status_is (find_crd_condition crd t) condition_true
unfolding is_crd_condition_true
true-eq-status_is crd t = present_and_equal-eq-status_is crd t condition_true

-- The test reads nothing but the conditions.
pub EstablishedIs-same :
    (b : Bool) (c d : Crd)
    → d.status.conditions ≡ c.status.conditions
    → EstablishedIs b c
    → EstablishedIs b d
unfolding is_crd_condition_true is_crd_condition_present_and_equal
EstablishedIs-same b c d q e = rw q e
