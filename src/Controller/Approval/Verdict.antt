-- ===== src/Controller/Approval/Verdict.antt =====
-- The verdict that the approval controller writes.
use apiextensions_apiserver.Crd.Helpers.Truth.{true-set}
use apiextensions_apiserver.Controller.Approval.Keeps.{calculate_condition-type, approve-sent}
use apiextensions_apiserver.Controller.Client.{got, UpdateResult, Got}
use apiextensions_apiserver.Controller.Approval.{
  approve, LastSeen, annotation_of, calculate_condition, condition_for,
}
use apiextensions_apiserver.Crd.Helpers.{
  is_crd_condition_true, approved_url, api_approval_missing, is_protected_community_group,
  api_approval_bypassed, api_approval_invalid, api_approved, get_api_approval_state, Url,
  ApiApprovalState,
}
use apiextensions_apiserver.Crd.{api_approval_policy_conformant, Condition, condition_true, Crd}
use apiextensions_apiserver.Prelude.{
  ◌∙◌, sym, All, inr, ap, inl, starts_with, Bool-cases, ◌&&◌, ◌≡◌, false, ℕ, not, true, ◌==◌, Bool,
  Option, String, some, none, refl,
}

-- The annotation is a URL with a host and a scheme, and does not begin like a refusal.
abbrev pub is_approved : (String → Option Url) → Crd → Bool
is_approved parse_request_uri c =
    not (annotation_of c == "")
    && not (starts_with (annotation_of c) "unapproved")
    && approved_url (parse_request_uri (annotation_of c))

abbrev is_api_approved : ApiApprovalState → Bool
is_api_approved api_approved = true
is_api_approved state = false

condition_for-status :
    (state : ApiApprovalState) (message : String)
    → ((condition_for state message).status == condition_true) ≡ is_api_approved state
condition_for-status api_approval_invalid message = refl
condition_for-status api_approved message = refl
condition_for-status api_approval_bypassed message = refl
condition_for-status api_approval_missing message = refl

module _ (parse_request_uri : String → Option Url) where
  state-eq :
      (c : Crd)
      → is_api_approved (get_api_approval_state parse_request_uri c.annotations).0
        ≡ is_approved parse_request_uri c
  unfolding get_api_approval_state
  state-eq c = elim (Bool-cases (annotation_of c == "")) [
    | inl e ↦ rw e refl
    | inr e ↦ elim (Bool-cases (starts_with (annotation_of c) "unapproved")) [
      | inl u ↦ rw (e, u) refl
      | inr u ↦ elim (Bool-cases (approved_url (parse_request_uri (annotation_of c)))) [
        | inl a ↦ rw (e, u, a) refl
        | inr a ↦ rw (e, u, a) refl
      ]
    ]
  ]

  abbrev verdict_of : Option Condition → Bool
  verdict_of none = false
  verdict_of (some x) = x.status == condition_true

  calculated-status :
      (c : Crd) (cond : Condition)
      → calculate_condition parse_request_uri c ≡ some cond
      → (cond.status == condition_true) ≡ is_approved parse_request_uri c
  unfolding calculate_condition
  calculated-status c cond h = elim (Bool-cases (is_protected_community_group c.spec.group)) [
    | inl p ↦ ap verdict_of (sym (rw p at h)) ∙ condition_for-status _ _ ∙ state-eq c
    | inr p ↦ cc (rw p at h)
  ]

  -- In every object that the approval controller sends, the approval condition is true exactly if
  -- the annotation of the CRD that it has read is a URL with a host and a scheme and does not
  -- begin with "unapproved".
  pub approval_verdict :
      (now : ℕ) (get : String → Got) (update : Crd → UpdateResult) (key : String) (seen : LastSeen)
      (c : Crd)
      → get key ≡ got c
      → All
          (λ o.
            is_crd_condition_true o api_approval_policy_conformant
            ≡ is_approved parse_request_uri c)
          (approve parse_request_uri now get update key seen).0.sent
  approval_verdict now get update key seen c g =
      approve-sent parse_request_uri now get update key seen
        (λ o.
          is_crd_condition_true o api_approval_policy_conformant ≡ is_approved parse_request_uri c)
        c g
        (λ cond h.
          true-set now c cond api_approval_policy_conformant
          ∙ rw (calculate_condition-type parse_request_uri c cond h) (calculated-status c cond h))
