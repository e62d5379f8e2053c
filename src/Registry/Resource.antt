-- ===== src/Registry/Resource.antt =====
-- pkg/registry/customresource/strategy.go and status_strategy.go: what becomes of a custom resource
-- before it is written.
pub mod Separate
use apiextensions_apiserver.Schema.Json.{Json, Members, no_members, member, find, assign, remove}
use apiextensions_apiserver.Registry.{plus_one}
use apiextensions_apiserver.Prelude.{
  ◌==◌, Bool, if◌then◌else◌, Option, ℤ, refl, some, none, true, false, pos,
}

-- The accessors of an unstructured object's metadata, and Semantic.DeepEqual of two contents.
pub record Accessors : Type 0 where
  pub generation_of : Members → ℤ
  pub set_generation : ℤ → Members → Members
  pub managed_fields_of : Members → Json
  pub set_managed_fields : Json → Members → Members
  pub same_content : Members → Members → Bool

unfoldable pub copy_non_metadata : Members → Members
copy_non_metadata no_members = no_members
copy_non_metadata (member k v ms) =
    let rest = copy_non_metadata ms in if k == "metadata" then rest else member k v rest

-- x["status"] becomes that of another object.
unfoldable pub take_status : Option Json → Members → Members
take_status (some status) x = assign "status" status x
take_status none x = remove "status" x

-- The switch deletes what is there, if the old object has no status.
keep_status : Bool → Members → Members → Members
unfolding take_status
keep_status true new old = take_status (find "status" old) new
keep_status false new old = new

-- `status` tells whether the resource has the status subresource.
module _ (a : Accessors) (status : Bool) where
  unfoldable pub prepare_resource_for_create : Members → Members
  prepare_resource_for_create new =
      a.set_generation (pos 1) (if status then remove "status" new else new)

  unfoldable pub prepare_resource_for_update : Members → Members → Members
  unfolding keep_status
  prepare_resource_for_update new old =
      let kept = keep_status status new old in
      if a.same_content (copy_non_metadata kept) (copy_non_metadata old)
      then kept
      else a.set_generation (plus_one (a.generation_of old)) kept

  unfoldable pub prepare_resource_status_for_update : Members → Members → Members
  prepare_resource_status_for_update new old =
      take_status (find "status" new) (a.set_managed_fields (a.managed_fields_of new) old)
