-- ===== src/Controller/Approval.antt =====
-- pkg/controller/apiapproval/apiapproval_controller.go
pub mod Keeps
pub mod Memory
pub mod Verdict
use apiextensions_apiserver.Controller.Naming.{condition_of}
use apiextensions_apiserver.Crd.{
  condition_true, api_approval_policy_conformant, api_approved_annotation, condition_false,
  Condition, Crd,
}
use apiextensions_apiserver.Prelude.{
  ◌&&◌, not, [], ◌==◌, some, false, if◌then◌else◌, ℕ, ◌∷◌, Bool, none, List, Option, String,
}
use apiextensions_apiserver.Crd.Helpers.{
  api_approval_bypassed, api_approved, api_approval_missing, api_approval_invalid,
  set_crd_condition, get_api_approval_state, is_protected_community_group, find_crd_condition, Url,
  get_or_empty, ApiApprovalState,
}
use apiextensions_apiserver.Controller.Client.{
  conflict, got, not_found, update_failed, get_failed, missing, updated, Run, Got, idle, fails,
  UpdateResult,
}

-- What the controller keeps: lastSeenProtectedAnnotation, a map from the names of CRDs.
abbrev pub LastSeen : Type 0
LastSeen = List (String × String)

unfoldable pub last_seen : String → LastSeen → Option String
last_seen name [] = none
last_seen name ((n, v) ∷ seen) = if n == name then some v else last_seen name seen

-- `m[name] = value`
unfoldable pub remember : String → String → LastSeen → LastSeen
remember name value [] = (name, value) ∷ []
remember name value ((n, v) ∷ seen) =
    if n == name then (n, value) ∷ seen else (n, v) ∷ remember name value seen

abbrev pub approval_condition : String → String → String → Condition
approval_condition status reason message =
    condition_of api_approval_policy_conformant status reason message

-- `message` is the reason that GetAPIApprovalState gives.
abbrev pub condition_for : ApiApprovalState → String → Condition
condition_for api_approval_invalid message =
    approval_condition condition_false "InvalidAnnotation" message
condition_for api_approval_missing message =
    approval_condition condition_false "MissingAnnotation" message
condition_for api_approved message = approval_condition condition_true "ApprovedAnnotation" message
condition_for api_approval_bypassed message =
    approval_condition condition_false "UnapprovedAnnotation" message

-- delete(m, name)
unfoldable pub forget : String → LastSeen → LastSeen
forget name [] = []
forget name ((n, v) ∷ seen) =
    let rest = forget name seen in if n == name then rest else (n, v) ∷ rest

-- `old != nil && old.Status == cond.Status && old.Reason == cond.Reason && ...`
abbrev pub same_details : Option Condition → Condition → Bool
same_details none cond = false
same_details (some old) cond =
    old.status == cond.status && old.reason == cond.reason && old.message == cond.message

abbrev pub seen_value : Option String → String → Bool
seen_value none value = false
seen_value (some last) value = value == last

abbrev pub annotation_of : Crd → String
annotation_of crd = get_or_empty api_approved_annotation crd.annotations

module _ (parse_request_uri : String → Option Url) where
  -- `none` is nil.
  unfoldable pub calculate_condition : Crd → Option Condition
  unfolding is_protected_community_group get_api_approval_state
  calculate_condition crd =
      if not (is_protected_community_group crd.spec.group)
      then none
      else let r = get_api_approval_state parse_request_uri crd.annotations in
        some (condition_for r.0 r.1)

  -- The part of sync after the update; the annotation is remembered only if the update succeeds.
  abbrev pub after_status_update : UpdateResult → Crd → String → LastSeen → Run × LastSeen
  after_status_update (updated stored) crd value seen =
      (record idle { sent = crd ∷ [] }, remember crd.name value seen)
  after_status_update not_found crd value seen = (record idle { sent = crd ∷ [] }, seen)
  after_status_update conflict crd value seen = (record idle { sent = crd ∷ [] }, seen)
  after_status_update (update_failed e) crd value seen =
      (record (fails e) { sent = crd ∷ [] }, seen)

  unfoldable pub approve_crd : ℕ → (Crd → UpdateResult) → Crd → LastSeen → Run × LastSeen
  unfolding last_seen remember calculate_condition find_crd_condition set_crd_condition get_or_empty
  approve_crd now update crd seen =
      if seen_value (last_seen crd.name seen) (annotation_of crd)
      then (idle, seen)
      else elim (calculate_condition crd) [
        | none ↦ (idle, seen)
        | some cond ↦
            if same_details (find_crd_condition crd api_approval_policy_conformant) cond
            then (idle, seen)
            else after_status_update (update (set_crd_condition now crd cond))
                (set_crd_condition now crd cond) (annotation_of crd) seen
      ]

  unfoldable pub approve :
      ℕ → (String → Got) → (Crd → UpdateResult) → String → LastSeen → Run × LastSeen
  unfolding approve_crd
  approve now get update key seen = elim (get key) [
    | missing ↦ (idle, seen)
    | get_failed e ↦ (fails e, seen)
    | got crd ↦ approve_crd now update crd seen
  ]
