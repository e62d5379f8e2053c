-- ===== src/Registry/History.antt =====
-- pkg/registry/customresourcedefinition/strategy.go: a CRD through the writes of its life.
use apiextensions_apiserver.Registry.{
  Gates, store, storage_version, with_stored, store_version, drop_status_fields,
  drop_disabled_fields, prepare_for_create, prepare_for_update, prepare_status_for_update,
  empty_status, drop_observed_generation,
}
use apiextensions_apiserver.Registry.Prepared.{contains-store, storage_version-drop_spec_fields}
use apiextensions_apiserver.Internal.{InternalCrd, InternalSpec}
use apiextensions_apiserver.Crd.{CrdStatus}
use apiextensions_apiserver.Prelude.{
  sym, if◌then◌else◌, ◌||◌, arith, ◌==◌, ap, ◌∙◌, contains, ◌≡◌, List, String, Option, Bool, refl,
  some, none, true, false, [], ◌∷◌,
}

-- The storage version joins those that there have been.
abbrev with_version : Option String → List String → List String
with_version none ever = ever
with_version (some name) ever = name ∷ ever

-- A CRD in storage, with the versions that may have been persisted: the storage versions that its
-- specs have had. A write of the status either leaves the stored versions as it read them, or it
-- finishes a migration, and what it leaves are the versions to go on from.
module _ (gates : Gates) (same_spec : InternalSpec → InternalSpec → Bool) where
  pub data History : InternalCrd → List String → Type 0 where
    created :
        (crd : InternalCrd)
        → History
            (prepare_for_create gates crd)
            (with_version (storage_version (prepare_for_create gates crd).spec.versions) [])
    updated :
        {old : InternalCrd} {ever : List String} (crd : InternalCrd)
        → History old ever
        → History (prepare_for_update gates same_spec crd old) (
            with_version
              (storage_version (prepare_for_update gates same_spec crd old).spec.versions)
              ever)
    status_updated :
        {old : InternalCrd} {ever : List String} (crd : InternalCrd)
        → History old ever
        → crd.status.stored_versions ≡ old.status.stored_versions
        → History (prepare_status_for_update crd old) ever
    migrated :
        {old : InternalCrd} {ever : List String} (crd : InternalCrd)
        → History old ever
        → History (prepare_status_for_update crd old) (crd.status.stored_versions)

contains-with_version :
    (storage : Option String) (ever : List String) (v : String)
    → contains (with_version storage ever) v
      ≡ (elim storage [ some name ↦ name == v || contains ever v | none ↦ contains ever v ])
contains-with_version none ever v = refl
contains-with_version (some name) ever v = refl

-- Both grow by the storage version.
contains-both :
    (storage : Option String) (stored ever : List String) (v : String)
    → contains stored v ≡ contains ever v
    → contains (store storage stored) v ≡ contains (with_version storage ever) v
contains-both none stored ever v h = contains-store none stored v ∙ h
contains-both (some name) stored ever v h = contains-store (some name) stored v ∙ ground (arith, h)

stored-if :
    (b : Bool) (status : CrdStatus)
    → (if b then drop_observed_generation status else status).stored_versions
      ≡ status.stored_versions
unfolding drop_observed_generation
stored-if true status = refl
stored-if false status = refl

stored-drop_status_fields :
    (gates : Gates) (old : Option InternalCrd) (status : CrdStatus)
    → (drop_status_fields gates old status).stored_versions ≡ status.stored_versions
unfolding drop_status_fields
stored-drop_status_fields gates old status = stored-if _ status

module _ (gates : Gates) (same_spec : InternalSpec → InternalSpec → Bool) where
  stored-prepare_for_create :
      (crd : InternalCrd)
      → (prepare_for_create gates crd).status.stored_versions
        ≡ store (storage_version (prepare_for_create gates crd).spec.versions) []
  unfolding prepare_for_create drop_disabled_fields store_version with_stored empty_status
  stored-prepare_for_create crd =
      stored-drop_status_fields gates none
        (with_stored (store (storage_version (crd.spec.versions)) []) empty_status)
      ∙ ap (λ storage. store storage [])
          (sym (storage_version-drop_spec_fields gates none (crd.spec)))

  stored-prepare_for_update :
      (crd old : InternalCrd)
      → (prepare_for_update gates same_spec crd old).status.stored_versions
        ≡ store
            (storage_version (prepare_for_update gates same_spec crd old).spec.versions)
            (old.status.stored_versions)
  unfolding prepare_for_update drop_disabled_fields store_version with_stored
  stored-prepare_for_update crd old =
      stored-drop_status_fields gates (some old) (
        with_stored (store (storage_version (crd.spec.versions)) (old.status.stored_versions))
          (old.status))
      ∙ ap (λ storage. store storage (old.status.stored_versions))
          (sym (storage_version-drop_spec_fields gates (some old) (crd.spec)))

  -- After any creation, updates and status updates, the stored versions are exactly the versions that
  -- have been the storage version since the CRD was created. If a status update changed the list, as
  -- a migration does, they are exactly those that the last such update left and those that have been
  -- the storage version since.
  pub contains-stored_versions :
      (crd : InternalCrd) (ever : List String)
      → History gates same_spec crd ever
      → (v : String) → contains (crd.status.stored_versions) v ≡ contains ever v
  unfolding prepare_status_for_update
  contains-stored_versions crd ever (created crd₀) v =
      ap (λ stored. contains stored v) (stored-prepare_for_create crd₀)
      ∙ contains-both (storage_version (prepare_for_create gates crd₀).spec.versions) [] [] v refl
  contains-stored_versions crd ever (updated {old = old} {ever = before} new h) v =
      ap (λ stored. contains stored v) (stored-prepare_for_update new old)
      ∙ contains-both (storage_version (prepare_for_update gates same_spec new old).spec.versions)
          (old.status.stored_versions) before v (contains-stored_versions old before h v)
  contains-stored_versions crd ever (status_updated {old = old} {ever = before} new h same) v =
      ap (λ stored. contains stored v) same ∙ contains-stored_versions old before h v
  contains-stored_versions crd ever (migrated new h) v = refl
