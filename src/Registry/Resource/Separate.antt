-- ===== src/Registry/Resource/Separate.antt =====
-- pkg/registry/customresource: the writers of a resource and those of its status do not meet.
use apiextensions_apiserver.Schema.Json.{Json, Members, find, find-assign, find-remove}
use apiextensions_apiserver.Registry.Resource.{
  Accessors, copy_non_metadata, take_status, keep_status, prepare_resource_for_update,
  prepare_resource_status_for_update,
}
use apiextensions_apiserver.Prelude.{
  inr, inl, Bool-cases, ap, if◌then◌else◌, ◌≡◌, ◌==◌, Option, ◌∙◌, ℤ, String, refl, some, none,
  true, false,
}

-- The setters write to the metadata.
pub record WritesMetadata (a : Accessors) : Type 0 where
  pub set_generation :
      (n : ℤ) (ms : Members) (k : String)
      → ("metadata" == k) ≡ false
      → find k (a.set_generation n ms) ≡ find k ms
  pub set_managed_fields :
      (v : Json) (ms : Members) (k : String)
      → ("metadata" == k) ≡ false
      → find k (a.set_managed_fields v ms) ≡ find k ms

find-take_status :
    (v : Option Json) (ms : Members) (k : String)
    → find k (take_status v ms) ≡ (if "status" == k then v else find k ms)
unfolding take_status
find-take_status (some s) ms k = find-assign "status" k s ms
find-take_status none ms k = find-remove "status" k ms

-- What an update and a status update of the same object leave, field by field.
pub record AreSeparate (new old updated status_updated : Members) : Type 0 where
  -- An update has its own fields and the old status.
  pub own_fields :
      (k : String)
      → ("metadata" == k) ≡ false
      → ("status" == k) ≡ false
      → find k updated ≡ find k new
  pub old_status : find "status" updated ≡ find "status" old
  -- A status update has the old fields and its own status.
  pub old_fields :
      (k : String)
      → ("metadata" == k) ≡ false
      → ("status" == k) ≡ false
      → find k status_updated ≡ find k old
  pub own_status : find "status" status_updated ≡ find "status" new

module _ (a : Accessors) (writes : WritesMetadata a) where
  find-prepare_resource_for_update :
      (new old : Members) (k : String)
      → ("metadata" == k) ≡ false
      → find k (prepare_resource_for_update a true new old)
        ≡ (if "status" == k then find "status" old else find k new)
  unfolding prepare_resource_for_update keep_status
  find-prepare_resource_for_update new old k h =
      let kept = take_status (find "status" old) new in
      elim (Bool-cases (a.same_content (copy_non_metadata kept) (copy_non_metadata old))) [
        | inl e ↦ rw e (find-take_status (find "status" old) new k)
        | inr e ↦
            rw e (writes.set_generation _ kept k h ∙ find-take_status (find "status" old) new k)
      ]

  find-prepare_resource_status_for_update :
      (new old : Members) (k : String)
      → ("metadata" == k) ≡ false
      → find k (prepare_resource_status_for_update a true new old)
        ≡ (if "status" == k then find "status" new else find k old)
  unfolding prepare_resource_status_for_update
  find-prepare_resource_status_for_update new old k h =
      find-take_status (find "status" new) (a.set_managed_fields (a.managed_fields_of new) old) k
      ∙ ap (λ v. if "status" == k then find "status" new else v)
          (writes.set_managed_fields (a.managed_fields_of new) old k h)

  -- Of a resource with the status subresource: an update has the fields of the new object but for the
  -- status, which is the old one, and a status update has the status of the new object and all else of
  -- the old one, whatever the two objects are. The metadata is left to the API server.
  pub prepare_resource-AreSeparate :
      (new old : Members)
      → AreSeparate new old
          (prepare_resource_for_update a true new old)
          (prepare_resource_status_for_update a true new old)
  prepare_resource-AreSeparate new old = record {
    own_fields = λ k h n. find-prepare_resource_for_update new old k h ∙ rw n refl;
    old_status = find-prepare_resource_for_update new old "status" refl;
    old_fields = λ k h n. find-prepare_resource_status_for_update new old k h ∙ rw n refl;
    own_status = find-prepare_resource_status_for_update new old "status" refl;
  }
