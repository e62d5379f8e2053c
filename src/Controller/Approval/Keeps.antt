-- ===== src/Controller/Approval/Keeps.antt =====
-- What the approval controller leaves of the other conditions.
use apiextensions_apiserver.Crd.Helpers.Truth.{true-set, EstablishedIs}
use apiextensions_apiserver.Controller.Client.{
  conflict, not_found, update_failed, updated, got, Got, UpdateResult,
}
use apiextensions_apiserver.Prelude.{
  Bool, Option-cases, none, ◌∙◌, inr, inl, refl, Bool-cases, All, some, ℕ, ◌≡◌, Option, String,
}
use apiextensions_apiserver.Controller.Approval.{
  same_details, annotation_of, last_seen, seen_value, after_status_update, LastSeen, condition_for,
  approve_crd, approve, calculate_condition,
}
use apiextensions_apiserver.Crd.Helpers.{
  find_crd_condition, api_approval_missing, api_approval_bypassed, set_crd_condition,
  is_protected_community_group, api_approved, api_approval_invalid, Url, ApiApprovalState,
}
use mathlib.Core.Path.{subst}
use apiextensions_apiserver.Crd.{established, Condition, api_approval_policy_conformant, Crd}

All-after_status_update :
    (parse_request_uri : String → Option Url) (P : Crd → Type 0) (u : UpdateResult) (crd : Crd)
    (value : String) (seen : LastSeen)
    → P crd
    → All P (after_status_update parse_request_uri u crd value seen).0.sent
All-after_status_update parse_request_uri P (updated stored) crd value seen p = (p, tt)
All-after_status_update parse_request_uri P not_found crd value seen p = (p, tt)
All-after_status_update parse_request_uri P conflict crd value seen p = (p, tt)
All-after_status_update parse_request_uri P (update_failed e) crd value seen p = (p, tt)

pub approve-sent :
    (parse_request_uri : String → Option Url) (now : ℕ) (get : String → Got)
    (update : Crd → UpdateResult) (key : String) (seen : LastSeen) (P : Crd → Type 0) (c : Crd)
    → get key ≡ got c
    → ((cond : Condition)
        → calculate_condition parse_request_uri c ≡ some cond
        → P (set_crd_condition now c cond))
    → All P (approve parse_request_uri now get update key seen).0.sent
unfolding approve approve_crd
approve-sent parse_request_uri now get update key seen P c g p =
    elim (Bool-cases (seen_value (last_seen c.name seen) (annotation_of c))) [
      | inl e ↦ rw (approve, g, approve_crd, e) tt
      | inr e ↦ elim (Option-cases (calculate_condition parse_request_uri c)) [
        | inl n ↦ rw (approve, g, approve_crd, e, n) tt
        | inr (cond, n) ↦
            elim (Bool-cases
              (same_details (find_crd_condition c api_approval_policy_conformant) cond)) [
                | inl d ↦ rw (approve, g, approve_crd, e, n, d) tt
                | inr d ↦
                    rw (approve, g, approve_crd, e, n, d)
                      (All-after_status_update parse_request_uri P
                        (update (set_crd_condition now c cond)) (set_crd_condition now c cond)
                        (annotation_of c) seen (p cond n))
              ]
      ]
    ]

condition_for-type :
    (state : ApiApprovalState) (message : String)
    → (condition_for state message).type ≡ api_approval_policy_conformant
condition_for-type api_approval_invalid message = refl
condition_for-type api_approved message = refl
condition_for-type api_approval_bypassed message = refl
condition_for-type api_approval_missing message = refl

pub calculate_condition-type :
    (parse_request_uri : String → Option Url) (c : Crd) (cond : Condition)
    → calculate_condition parse_request_uri c ≡ some cond
    → cond.type ≡ api_approval_policy_conformant
unfolding calculate_condition
calculate_condition-type parse_request_uri c cond h =
    elim (Bool-cases (is_protected_community_group c.spec.group)) [
      | inl p ↦
          subst (λ (o : Option Condition). type_of o ≡ api_approval_policy_conformant) (rw p at h)
            (condition_for-type _ _)
      | inr p ↦ cc (rw p at h)
    ]
  where
    type_of : Option Condition → String
    type_of none = ""
    type_of (some x) = x.type

pub approve-keeps :
    (b : Bool) (parse_request_uri : String → Option Url) (now : ℕ) (get : String → Got)
    (update : Crd → UpdateResult) (key : String) (seen : LastSeen) (c : Crd)
    → get key ≡ got c
    → EstablishedIs b c
    → All (EstablishedIs b) (approve parse_request_uri now get update key seen).0.sent
approve-keeps b parse_request_uri now get update key seen c g e =
    approve-sent parse_request_uri now get update key seen (EstablishedIs b) c g (λ cond h.
      true-set now c cond established ∙ rw (calculate_condition-type parse_request_uri c cond h) e)
