-- ===== src/Conversion/Nop.antt =====
-- pkg/apiserver/conversion/nop_converter.go
pub mod Retargeted
use apiextensions_apiserver.Schema.Json.{Members}
use apiextensions_apiserver.Conversion.{
  typed_scale, with_kind, many, single, Object, object_gvk, Gvk, Gv, Machinery,
}
use apiextensions_apiserver.Prelude.{map}

module _ (m : Machinery) where
  set_object_gvk : Gvk → Object → Object
  set_object_gvk gvk (single ms) = single (m.set_gvk gvk ms)
  set_object_gvk gvk (many ms items) = many (m.set_gvk gvk ms) items
  set_object_gvk gvk (typed_scale old ms) = typed_scale gvk ms

  -- The same kind, in the target version.
  unfoldable pub retarget : Gv → Members → Members
  retarget gv ms = m.set_gvk (with_kind gv (m.gvk_of ms).kind) ms

  retarget_items : Gv → Object → Object
  unfolding retarget
  retarget_items gv (many ms items) = many ms (map (retarget gv) items)
  retarget_items gv in_object = in_object

  -- The converted object is the argument, which has changed in place.
  unfoldable pub nop_convert : Object → Gv → Object
  unfolding object_gvk set_object_gvk retarget_items
  nop_convert in_object gv =
      let in_items = retarget_items gv in_object in
      set_object_gvk (with_kind gv (object_gvk m in_items).kind) in_items
