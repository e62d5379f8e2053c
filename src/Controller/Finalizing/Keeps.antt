-- ===== src/Controller/Finalizing/Keeps.antt =====
-- What the finalizer leaves of the Established condition.
use apiextensions_apiserver.Controller.Client.{
  conflict, not_found, update_failed, updated, idle, KeepsConditions, got, Got, All-after_update,
  UpdateResult,
}
use apiextensions_apiserver.Crd.Helpers.{
  is_crd_condition_true, crd_has_finalizer, crd_remove_finalizer, set_crd_condition,
}
use apiextensions_apiserver.Controller.Finalizing.{
  never_established, in_progress, overlapping, deletions, is_deleted, and_then, delete_listed,
  overlapping_built_in_resource, poll_condition, deleted_all, deletions_issued, Answer-cases,
  Finalized, Instance, answer, refuse, after_deletion, Deletion, finalize_crd, delete_instances,
  clean_up, finalize, release, CrClient, Answer, Poll,
}
use apiextensions_apiserver.Crd.Helpers.Truth.{EstablishedIs-same, true-set, EstablishedIs}
use apiextensions_apiserver.Prelude.{
  Bool, ◌||◌, [], ◌∷◌, none, inr, some, not, inl, Bool-cases, Option-cases, refl, ◌∙◌, All, ◌≡◌,
  Option, String, ℕ, List,
}
use apiextensions_apiserver.Crd.{Condition, cleanup_finalizer, established, terminating, Crd}

module _ (b : Bool) (aggregate : List String → String) (poll : (ℕ → Poll) → Option String)
    (clients : Crd → Answer CrClient) where
  release-keeps :
      (update : Crd → UpdateResult) (c : Crd)
      → EstablishedIs b c
      → All (EstablishedIs b) (release aggregate poll clients update c).sent
  unfolding release
  release-keeps update c e =
      All-after_update (EstablishedIs b) (update (crd_remove_finalizer c cleanup_finalizer))
        (crd_remove_finalizer c cleanup_finalizer) (λ _. idle)
        (EstablishedIs-same b c (crd_remove_finalizer c cleanup_finalizer)
          (unfold crd_remove_finalizer in refl) e)
        (λ stored _. tt)

  deleted_all-terminating :
      (o : Option String) (namespaces : List String)
      → (deleted_all o namespaces).condition.type ≡ terminating
  deleted_all-terminating none namespaces = refl
  deleted_all-terminating (some e) namespaces = refl

  issued-terminating :
      (client : CrClient) (namespaces es : List String)
      → (deletions_issued aggregate poll clients client namespaces es).condition.type ≡ terminating
  issued-terminating client namespaces [] =
      deleted_all-terminating (poll (λ n. poll_condition (client.later_list n))) namespaces
  issued-terminating client namespaces (e ∷ es) = refl

  listed-terminating :
      (client : CrClient) (a : Answer (List Instance))
      → (delete_listed aggregate poll clients client a).condition.type ≡ terminating
  listed-terminating client (refuse e) = refl
  listed-terminating client (answer items) = issued-terminating client (deletions [] items) _

  deletion-terminating :
      (c : Crd) → (delete_instances aggregate poll clients c).condition.type ≡ terminating
  unfolding delete_instances
  deletion-terminating c = elim (Answer-cases (clients c)) [
    | inl (e, h) ↦ rw (delete_instances, h) refl
    | inr (client, h) ↦ rw (delete_instances, h) (listed-terminating client client.first_list)
  ]

  setting-keeps :
      (now : ℕ) (c : Crd) (cond : Condition)
      → cond.type ≡ terminating
      → EstablishedIs b c
      → EstablishedIs b (set_crd_condition now c cond)
  setting-keeps now c cond t e = true-set now c cond established ∙ rw t e

  after_deletion-keeps :
      (now : ℕ) (update : Crd → UpdateResult) (c : Crd) (d : Deletion)
      → d.condition.type ≡ terminating
      → EstablishedIs b c
      → All (EstablishedIs b) (after_deletion aggregate poll clients now update c d).run.sent
  after_deletion-keeps now update c d t e = elim (Option-cases (d.error)) [
    | inl n ↦ rw n (
        release-keeps update (set_crd_condition now c d.condition)
          (setting-keeps now c d.condition t e))
    | inr (m, n) ↦ rw n (setting-keeps now c d.condition t e, tt)
  ]

  clean_up-keeps :
      (now : ℕ) (update : Crd → UpdateResult) (c : Crd)
      → EstablishedIs b c
      → All (EstablishedIs b) (clean_up aggregate poll clients now update c).run.sent
  unfolding clean_up
  clean_up-keeps now update c e =
      elim (Bool-cases (overlapping_built_in_resource c.spec.group c.spec.names.plural)) [
        | inl o ↦ rw o (let_go overlapping refl)
        | inr o ↦ elim (Bool-cases (is_crd_condition_true c established)) [
          | inl t ↦
              rw (o, t)
                (after_deletion-keeps now update c (delete_instances aggregate poll clients c)
                  (deletion-terminating c) e)
          | inr t ↦ rw (o, t) (let_go never_established refl)
        ]
      ]
    where
      let_go :
          (cond : Condition)
          → cond.type ≡ terminating
          → All
              (EstablishedIs b)
              (release aggregate poll clients update (set_crd_condition now c cond)).sent
      let_go cond t =
          release-keeps update (set_crd_condition now c cond) (setting-keeps now c cond t e)

  and_then-keeps :
      (u : UpdateResult) (c : Crd) (next : Crd → Finalized)
      → EstablishedIs b c
      → ((s : Crd) → u ≡ updated s → All (EstablishedIs b) (next s).run.sent)
      → All (EstablishedIs b) (and_then aggregate poll clients u c next).run.sent
  and_then-keeps (updated s) c next e h = (e, h s refl)
  and_then-keeps not_found c next e h = (e, tt)
  and_then-keeps conflict c next e h = (e, tt)
  and_then-keeps (update_failed m) c next e h = (e, tt)

  pub finalize-keeps :
      (now later : ℕ) (get : String → Got) (update_first update_last : Crd → UpdateResult)
      (key : String) (c : Crd)
      → get key ≡ got c
      → KeepsConditions update_first
      → EstablishedIs b c
      → All
          (EstablishedIs b)
          (finalize aggregate poll clients now later get update_first update_last key).run.sent
  unfolding finalize finalize_crd
  finalize-keeps now later get update_first update_last key c g keeps e =
      elim (Bool-cases (not (is_deleted c) || not (crd_has_finalizer c cleanup_finalizer))) [
        | inl n ↦ rw (finalize, g, finalize_crd, n) tt
        | inr n ↦
            rw (finalize, g, finalize_crd, n)
              (and_then-keeps (update_first (set_crd_condition now c in_progress)) _ _
                (setting-keeps now c in_progress refl e)
                (λ s q. clean_up-keeps later update_last s (
                  EstablishedIs-same b (set_crd_condition now c in_progress) s
                    (keeps (set_crd_condition now c in_progress) s q)
                    (setting-keeps now c in_progress refl e))))
      ]
