-- ===== src/Controller/Naming/Sync.antt =====
-- sync and requeueAllOtherGroupCRDs of pkg/controller/status/naming_controller.go
use apiextensions_apiserver.Crd.Helpers.{
  find_crd_condition, set_crd_condition, is_crd_condition_equivalent,
}
use apiextensions_apiserver.Controller.Client.{
  after_update, got, fails, get_failed, missing, done, panicked, UpdateResult, idle, Got, Run,
}
use apiextensions_apiserver.Crd.{names_accepted, Crd}
use apiextensions_apiserver.Controller.Naming.{names_equal, calculate_names_and_conditions}
use apiextensions_apiserver.Prelude.{
  not, ◌&&◌, some, [], ◌==◌, Bool, nat_eq, if◌then◌else◌, ◌∷◌, ℕ, none, Option, String, List,
}
use Prim.Native.Char.{code}

-- strings.SplitN(name, ".", 2)[1], and `none` where that index is out of range
unfoldable pub after_dot : String → Option String
after_dot String.[] = none
after_dot (String.◌∷◌ c s) = let rest = after_dot s in if nat_eq (code c) 46 then some s else rest

unfoldable pub others_in_group : String → String → List Crd → List String
others_in_group group name [] = []
others_in_group group name (curr ∷ list) =
    let rest = others_in_group group name list in
    if curr.spec.group == group && not (curr.name == name) then curr.name ∷ rest else rest

-- The index is evaluated in the loop, so that an empty list does not panic.
unfoldable pub requeue_all_other_group_crds : String → List Crd → Run
unfolding after_dot others_in_group
requeue_all_other_group_crds name [] = idle
requeue_all_other_group_crds name (curr ∷ list) = elim (after_dot name) [
  | none ↦ record { sent = []; queued = []; mutated = []; outcome = panicked }
  | some group ↦ record {
    sent = [];
    queued = others_in_group group name (curr ∷ list);
    mutated = [];
    outcome = done;
  }
]

module _ (aggregate : List String → String) where
  -- The object that a sync sends to UpdateStatus.
  unfoldable pub renamed : ℕ → (String → Option Crd) → List Crd → Crd → Crd
  unfolding calculate_names_and_conditions set_crd_condition
  renamed now cache list crd =
      let r = calculate_names_and_conditions aggregate cache list crd in
      let named = record crd { status = record crd.status { accepted_names = r.0 } } in
      set_crd_condition now (set_crd_condition now named r.1) r.2

  -- `names did not change and the condition is equivalent`
  unfoldable pub nothing_new : (String → Option Crd) → List Crd → Crd → Bool
  unfolding calculate_names_and_conditions names_equal is_crd_condition_equivalent
      find_crd_condition
  nothing_new cache list crd =
      let r = calculate_names_and_conditions aggregate cache list crd in
      names_equal crd.status.accepted_names r.0
      && is_crd_condition_equivalent (some r.1) (find_crd_condition crd names_accepted)

  unfoldable pub sync :
      ℕ → (String → Option Crd) → List Crd → (String → Got) → (Crd → UpdateResult) → String → Run
  unfolding requeue_all_other_group_crds renamed nothing_new names_equal
  sync now cache list get update key = elim (get key) [
    | missing ↦ requeue_all_other_group_crds key list
    | get_failed e ↦ fails e
    | got crd ↦
        if names_equal crd.spec.names crd.status.accepted_names
        then idle
        else if nothing_new cache list crd
        then idle
        else after_update (update (renamed now cache list crd)) (renamed now cache list crd)
            (λ stored. record (requeue_all_other_group_crds key list) { mutated = stored ∷ [] })
  ]
