-- ===== src/Controller/Approval/Memory.antt =====
-- What the approval controller remembers, and the verdict that it gives.
use apiextensions_apiserver.Controller.Client.{updated, idle, UpdateResult}
use apiextensions_apiserver.Crd.Helpers.{find_crd_condition, set_crd_condition, Url}
use apiextensions_apiserver.Prelude.{
  Option-cases, inr, inl, ◌∙◌, Bool-cases, ◌≢◌, eq_refl, ℕ, refl, eq_iff, Option, arith, none, some,
  ◌==◌, if◌then◌else◌, ◌≡◌, String,
}
use apiextensions_apiserver.Controller.Approval.{
  same_details, seen_value, calculate_condition, approve_crd, annotation_of, LastSeen, remember,
  forget, last_seen,
}
use apiextensions_apiserver.Crd.{api_approval_policy_conformant, Crd}
use apiextensions_apiserver.Prelude.{[], ◌∷◌}

last_seen-remember :
    (n name value : String) (seen : LastSeen)
    → last_seen n (remember name value seen) ≡ (if name == n then some value else last_seen n seen)
unfolding last_seen remember
last_seen-remember n name value [] = refl
last_seen-remember n name value ((m, v) ∷ seen) =
    ground (arith, eq_iff m n, eq_iff m name, eq_iff name n, last_seen-remember n name value seen)

last_seen-forget :
    (n name : String) (seen : LastSeen)
    → last_seen n (forget name seen) ≡ (if name == n then none else last_seen n seen)
unfolding last_seen forget
last_seen-forget n name [] = ground arith
last_seen-forget n name ((m, v) ∷ seen) =
    ground (arith, eq_iff m n, eq_iff m name, eq_iff name n, last_seen-forget n name seen)

-- A remembered annotation: last seen for the CRD's name.
abbrev pub Remembers : LastSeen → Crd → Type 0
Remembers seen c = last_seen c.name seen ≡ some (annotation_of c)

module _ (parse_request_uri : String → Option Url) where
  idle_when_remembered :
      (now : ℕ) (update : Crd → UpdateResult) (seen : LastSeen) (c : Crd)
      → Remembers seen c
      → approve_crd parse_request_uri now update c seen ≡ (idle, seen)
  unfolding approve_crd
  idle_when_remembered now update seen c r = rw (r, eq_refl (annotation_of c)) refl

  remembered_after :
      (now : ℕ) (update : Crd → UpdateResult) (seen : LastSeen) (c : Crd)
      → ((o : Crd) → (s : Crd) × (update o ≡ updated s))
      → (approve_crd parse_request_uri now update c seen).0.sent ≢ []
      → (approve_crd parse_request_uri now update c seen).1 ≡ remember c.name (annotation_of c) seen
  unfolding approve_crd set_crd_condition
  remembered_after now update seen c succeeds sends =
      elim (Bool-cases (seen_value (last_seen c.name seen) (annotation_of c))) [
        | inl e ↦ absurd ((rw (approve_crd, e) at sends) refl)
        | inr e ↦ elim (Option-cases (calculate_condition parse_request_uri c)) [
          | inl n ↦ absurd ((rw (approve_crd, e, n) at sends) refl)
          | inr (cond, n) ↦
              elim (Bool-cases
                (same_details (find_crd_condition c api_approval_policy_conformant) cond)) [
                  | inl d ↦ absurd ((rw (approve_crd, e, n, d) at sends) refl)
                  | inr d ↦
                      let (s, u) = succeeds (set_crd_condition now c cond) in
                      rw (approve_crd, e, n, d, u) refl
                ]
        ]
      ]

  -- A CRD is written once for one value of its annotation: after a run that sends something and
  -- whose update succeeds, a run for a CRD of the same name and annotation sends nothing and
  -- remembers the same, whatever else has changed.
  pub written_once :
      (now later : ℕ) (update update' : Crd → UpdateResult) (seen : LastSeen) (c d : Crd)
      → ((o : Crd) → (s : Crd) × (update o ≡ updated s))
      → (approve_crd parse_request_uri now update c seen).0.sent ≢ []
      → d.name ≡ c.name
      → annotation_of d ≡ annotation_of c
      → approve_crd parse_request_uri later update' d
          (approve_crd parse_request_uri now update c seen).1
        ≡ (idle, (approve_crd parse_request_uri now update c seen).1)
  written_once now later update update' seen c d succeeds sends name annotation =
      let memory : LastSeen = (approve_crd parse_request_uri now update c seen).1 in
      idle_when_remembered later update' memory d (
        rw (remembered_after now update seen c succeeds sends, name, annotation)
          (last_seen-remember c.name c.name (annotation_of c) seen ∙ rw (eq_refl c.name) refl))
