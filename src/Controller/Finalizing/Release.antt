-- ===== src/Controller/Finalizing/Release.antt =====
-- When the finalizer is removed.
use apiextensions_apiserver.Controller.Finalizing.{
  never_established, overlapping, deletions, refuse, delete_listed, Answer-cases, answer,
  after_deletion, clean_up, release, poll_condition, overlapping_built_in_resource,
  delete_instances, deletions_issued, Instance, emptied, CrClient, Answer, Poll,
}
use apiextensions_apiserver.Controller.Client.{idle, All-after_update, updated, UpdateResult}
use apiextensions_apiserver.Crd.Helpers.{
  crd_remove_finalizer, is_crd_condition_true, set_crd_condition, crd_has_finalizer,
}
use apiextensions_apiserver.Prelude.{
  refl, inr, ◌∷◌, [], inl, false, Bool-cases, Option-cases, ◌⊎◌, All, none, true, Option, ◌≡◌,
  String, ℕ, List,
}
use apiextensions_apiserver.Crd.{cleanup_finalizer, Condition, Crd, established}

-- Whether the server keeps the finalizers that it is sent.
abbrev pub KeepsFinalizers : (Crd → UpdateResult) → Type 0
KeepsFinalizers update = (c s : Crd) → update c ≡ updated s → s.finalizers ≡ c.finalizers

-- The documented promise of wait.PollUntilContextTimeout: without an error, the condition has
-- been true.
abbrev pub PollSound : ((ℕ → Poll) → Option String) → Type 0
PollSound poll = (f : ℕ → Poll) → poll f ≡ none → (n : ℕ) × (f n ≡ emptied)

abbrev pub IsHeld : Crd → Type 0
IsHeld c = crd_has_finalizer c cleanup_finalizer ≡ true

IsHeld-set :
    (now : ℕ) (c : Crd) (cond : Condition) → IsHeld c → IsHeld (set_crd_condition now c cond)
unfolding set_crd_condition crd_has_finalizer
IsHeld-set now c cond h = h

module _ (aggregate : List String → String) (poll : (ℕ → Poll) → Option String)
    (clients : Crd → Answer CrClient) where
  -- There was nothing to delete, or it is gone: a list of the instances was empty.
  pub data MayGo (c : Crd) : Type 0 where
    built_in : overlapping_built_in_resource c.spec.group c.spec.names.plural ≡ true → MayGo c
    unused : is_crd_condition_true c established ≡ false → MayGo c
    all_gone :
        (client : CrClient) (n : ℕ)
        → clients c ≡ answer client
        → client.later_list n ≡ answer []
        → MayGo c

  emptied-list : (a : Answer (List Instance)) → poll_condition a ≡ emptied → a ≡ answer []
  unfolding poll_condition
  emptied-list (refuse e) h = cc
  emptied-list (answer []) h = refl
  emptied-list (answer (i ∷ items)) h = cc

  confirmed :
      (client : CrClient) (namespaces es : List String)
      → (deletions_issued aggregate poll clients client namespaces es).error ≡ none
      → poll (λ n. poll_condition (client.later_list n)) ≡ none
  confirmed client namespaces [] h =
      elim (Option-cases (poll (λ n. poll_condition (client.later_list n)))) [
        | inl e ↦ e
        | inr (m, e) ↦ cc (rw e at h)
      ]
  confirmed client namespaces (e ∷ es) h = cc

  listed-confirmed :
      (client : CrClient) (a : Answer (List Instance))
      → (delete_listed aggregate poll clients client a).error ≡ none
      → poll (λ n. poll_condition (client.later_list n)) ≡ none
  listed-confirmed client (refuse e) h = cc
  listed-confirmed client (answer items) h = confirmed client (deletions [] items) _ h

  MayGo-of-deletion :
      (c : Crd)
      → PollSound poll
      → (delete_instances aggregate poll clients c).error ≡ none
      → MayGo c
  unfolding delete_instances
  MayGo-of-deletion c sound h = elim (Answer-cases (clients c)) [
    | inl (e, q) ↦ cc (rw (delete_instances, q) at h)
    | inr (client, q) ↦
        let (n, l) =
          sound (λ n. poll_condition (client.later_list n))
            (listed-confirmed client client.first_list (rw (delete_instances, q) at h)) in
        all_gone client n q (emptied-list (client.later_list n) l)
  ]

  -- What may be sent after the first update.
  abbrev Sendable : Crd → Crd → Type 0
  Sendable c o = IsHeld o ⊎ MayGo c

  released :
      (update : Crd → UpdateResult) (c o : Crd)
      → MayGo c
      → All (Sendable c) (release aggregate poll clients update o).sent
  unfolding release
  released update c o m =
      All-after_update (Sendable c) (update (crd_remove_finalizer o cleanup_finalizer))
        (crd_remove_finalizer o cleanup_finalizer) (λ _. idle) (inr m) (λ stored _. tt)

  deletion-Sendable :
      (now : ℕ) (update : Crd → UpdateResult) (c : Crd)
      → PollSound poll
      → IsHeld c
      → All
          (Sendable c)
          (after_deletion aggregate poll clients now update c
            (delete_instances aggregate poll clients c)).run.sent
  deletion-Sendable now update c sound h =
      elim (Option-cases (delete_instances aggregate poll clients c).error) [
        | inl n ↦ rw n (
            released update c
              (set_crd_condition now c (delete_instances aggregate poll clients c).condition)
              (MayGo-of-deletion c sound n))
        | inr (m, n) ↦ rw n (inl (IsHeld-set now c _ h), tt)
      ]

  -- After its first update, which the server answers with `c`, a run of the finalizer sends an
  -- object without the finalizer only if the resource is one of the built-in ones, or was never
  -- established, or a list of its instances was empty. This where `c` has the finalizer, and the
  -- polling ends without an error only after its condition held.
  pub finalizer_stays :
      (now : ℕ) (update : Crd → UpdateResult) (c : Crd)
      → PollSound poll
      → IsHeld c
      → All (Sendable c) (clean_up aggregate poll clients now update c).run.sent
  unfolding clean_up
  finalizer_stays now update c sound h =
      elim (Bool-cases (overlapping_built_in_resource c.spec.group c.spec.names.plural)) [
        | inl o ↦ rw o (released update c (set_crd_condition now c overlapping) (built_in o))
        | inr o ↦ elim (Bool-cases (is_crd_condition_true c established)) [
          | inl t ↦ rw (o, t) (deletion-Sendable now update c sound h)
          | inr t ↦
              rw (o, t) (released update c (set_crd_condition now c never_established) (unused t))
        ]
      ]
