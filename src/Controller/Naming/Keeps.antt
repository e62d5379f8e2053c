-- ===== src/Controller/Naming/Keeps.antt =====
-- What the naming controller leaves of the Established condition.
use apiextensions_apiserver.Crd.Helpers.Truth.{
  find_condition-type, true-eq-status_is, EstablishedIs, true-set,
}
use apiextensions_apiserver.Controller.Client.{All-after_update, got, UpdateResult, Got}
use apiextensions_apiserver.Crd.Helpers.{
  set_crd_condition, is_crd_condition_true, find_crd_condition,
}
use apiextensions_apiserver.Controller.Naming.{
  names_equal, calculate_names_and_conditions, established_condition,
}
use apiextensions_apiserver.Prelude.{
  Bool, sym, refl, Bool-cases, ◌∙◌, inr, inl, All, true, ◌==◌, Option-cases, ◌∷◌, Option, [], ℕ,
  ◌≡◌, String, List,
}
use apiextensions_apiserver.Controller.Naming.Sync.{
  nothing_new, after_dot, sync, renamed, requeue_all_other_group_crds,
}
use mathlib.Core.Path.{subst}
use apiextensions_apiserver.Crd.{condition_true, Names, established, Condition, Crd}

sent-requeue :
    (name : String) (list : List Crd) → (requeue_all_other_group_crds name list).sent ≡ []
unfolding requeue_all_other_group_crds
sent-requeue name [] = refl
sent-requeue name (c ∷ list) = elim (Option-cases (after_dot name)) [
  | inl e ↦ rw (e, requeue_all_other_group_crds) refl
  | inr (group, e) ↦ rw (e, requeue_all_other_group_crds) refl
]

module _ (aggregate : List String → String) where
  pub established_condition_lem :
      (crd : Crd) (naming : Condition)
      → ((established_condition aggregate crd naming).type == established ≡ true)
        × ((established_condition aggregate crd naming).status == condition_true)
          ≡ is_crd_condition_true crd established
  unfolding established_condition find_crd_condition
  established_condition_lem crd naming = elim (Option-cases (find_crd_condition crd established)) [
    | inl e ↦ (
      rw e (elim (Bool-cases (naming.status == condition_true)) [
        | inl n ↦ rw n refl
        | inr n ↦ rw n refl
      ]),
      rw (true-eq-status_is, e)
          (elim (Bool-cases (naming.status == condition_true)) [
            | inl n ↦ rw n refl
            | inr n ↦ rw n refl
          ]),
    )
    | inr (old, e) ↦
        let t : (old.type == established) ≡ true =
          find_condition-type established crd.status.conditions old e in
        elim (Bool-cases (old.status == condition_true)) [
          | inl o ↦ (rw (e, o) t, rw (true-eq-status_is, e, o) o)
          | inr o ↦ elim (Bool-cases (naming.status == condition_true)) [
            | inl n ↦ (rw (e, o, n) refl, rw (true-eq-status_is, e, o, n) refl)
            | inr n ↦ (rw (e, o, n) t, rw (true-eq-status_is, e, o, n) o)
          ]
        ]
  ]

  pub established-renamed :
      (now : ℕ) (cache : String → Option Crd) (list : List Crd) (c : Crd)
      → is_crd_condition_true (renamed aggregate now cache list c) established
        ≡ is_crd_condition_true c established
  unfolding renamed calculate_names_and_conditions
  established-renamed now cache list c =
      let r : Names × Condition × Condition =
        calculate_names_and_conditions aggregate cache list c in
      let (t, s) = established_condition_lem c r.1 in
      true-set now
        (set_crd_condition now (record c { status = record c.status { accepted_names = r.0 } }) r.1)
        r.2 established
      ∙ rw t s

  pub sync-sent :
      (P : Crd → Type 0) (now : ℕ) (cache : String → Option Crd) (list : List Crd)
      (get : String → Got) (update : Crd → UpdateResult) (key : String) (c : Crd)
      → get key ≡ got c
      → P (renamed aggregate now cache list c)
      → All P (sync aggregate now cache list get update key).sent
  unfolding sync
  sync-sent P now cache list get update key c g p =
      elim (Bool-cases (names_equal c.spec.names c.status.accepted_names)) [
        | inl e ↦ rw (sync, g, e) tt
        | inr e ↦ elim (Bool-cases (nothing_new aggregate cache list c)) [
          | inl n ↦ rw (sync, g, e, n) tt
          | inr n ↦
              rw (sync, g, e, n)
                (All-after_update P (update (renamed aggregate now cache list c))
                  (renamed aggregate now cache list c)
                  (λ stored. record (requeue_all_other_group_crds key list) {
                    mutated = stored ∷ [];
                  })
                  p (λ stored _. subst (All P) (sym (sent-requeue key list)) tt))
        ]
      ]

  pub sync-keeps :
      (b : Bool) (now : ℕ) (cache : String → Option Crd) (list : List Crd) (get : String → Got)
      (update : Crd → UpdateResult) (key : String) (c : Crd)
      → get key ≡ got c
      → EstablishedIs b c
      → All (EstablishedIs b) (sync aggregate now cache list get update key).sent
  sync-keeps b now cache list get update key c g e =
      sync-sent (EstablishedIs b) now cache list get update key c g
        (established-renamed now cache list c ∙ e)
