-- ===== src/Controller/Establishing.antt =====
-- pkg/controller/establish/establishing_controller.go
pub mod Keeps
use apiextensions_apiserver.Controller.Client.{
  after_update, got, fails, get_failed, idle, missing, Run, UpdateResult, Got,
}
use apiextensions_apiserver.Controller.Naming.{condition_of}
use apiextensions_apiserver.Crd.Helpers.{set_crd_condition, is_crd_condition_true}
use apiextensions_apiserver.Prelude.{
  ◌||◌, not, none, some, if◌then◌else◌, false, String, Option, Bool, ℕ, List,
}
use apiextensions_apiserver.Crd.{
  condition_true, condition_false, Condition, Conversion, Crd, names_accepted, established,
}

-- `valid_ca_bundle` tells whether webhook.ValidateCABundle has no complaint.
module _ (valid_ca_bundle : List ℕ → Bool) where
  unfoldable pub has_bad_ca_bundle : Option Conversion → Bool
  has_bad_ca_bundle none = false
  has_bad_ca_bundle (some conversion) = elim (conversion.webhook) [
    | none ↦ false
    | some webhook ↦ elim (webhook.client_config) [
      | none ↦ false
      | some config ↦ not (valid_ca_bundle config.ca_bundle)
    ]
  ]

  abbrev pub verdict : Crd → Condition
  verdict crd =
      if has_bad_ca_bundle crd.spec.conversion
      then condition_of established condition_false "InvalidCABundle"
          "The conversion webhook CABundle is invalid"
      else condition_of established condition_true "InitialNamesAccepted"
          "the initial names have been accepted"

  unfoldable pub establish : ℕ → (String → Got) → (Crd → UpdateResult) → String → Run
  unfolding is_crd_condition_true has_bad_ca_bundle set_crd_condition
  establish now get update key = elim (get key) [
    | missing ↦ idle
    | get_failed e ↦ fails e
    | got crd ↦
        if not (is_crd_condition_true crd names_accepted) || is_crd_condition_true crd established
        then idle
        else after_update (update (set_crd_condition now crd (verdict crd)))
            (set_crd_condition now crd (verdict crd)) (λ _. idle)
  ]
