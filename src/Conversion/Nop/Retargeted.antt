-- ===== src/Conversion/Nop/Retargeted.antt =====
-- pkg/apiserver/conversion/nop_converter.go: what a conversion changes.
use apiextensions_apiserver.Schema.Json.{find, Members}
use apiextensions_apiserver.Conversion.{
  typed_scale, many, with_kind, single, group_version, Object, object_gvk, Gv, Machinery,
}
use apiextensions_apiserver.Conversion.Nop.{nop_convert, retarget, retarget_items, set_object_gvk}
use apiextensions_apiserver.Prelude.{false, ◌||◌, ap, ◌==◌, map, [], ◌∷◌, List, ◌≡◌, refl, String}

module _ (m : Machinery) where
  -- What SetGroupVersionKind documents, for a version whose text parses: it is read back, and the
  -- fields but apiVersion and kind stay.
  pub record Sets (gv : Gv) : Type 0 where
    pub read_back :
        (kind : String) (ms : Members)
        → m.gvk_of (m.set_gvk (with_kind gv kind) ms) ≡ with_kind gv kind
    pub others :
        (kind k : String) (ms : Members)
        → (k == "apiVersion" || k == "kind") ≡ false
        → find k (m.set_gvk (with_kind gv kind) ms) ≡ find k ms

  -- `after` is `before` in the version: of the same kind, and with the same other fields.
  pub record IsRetargeted (gv : Gv) (before after : Members) : Type 0 where
    pub version : group_version (m.gvk_of after) ≡ gv
    pub kind : (m.gvk_of after).kind ≡ (m.gvk_of before).kind
    pub others :
        (k : String) → (k == "apiVersion" || k == "kind") ≡ false → find k after ≡ find k before

  abbrev pub AreRetargeted : Gv → List Members → List Members → Type 0
  AreRetargeted gv [] [] = Unit
  AreRetargeted gv (x ∷ xs) (y ∷ ys) = IsRetargeted gv x y × AreRetargeted gv xs ys
  AreRetargeted gv before after = ⊥

  -- The object is of the same Go type, and so are the items of a list.
  abbrev pub IsObjectRetargeted : Gv → Object → Object → Type 0
  IsObjectRetargeted gv (single a) (single b) = IsRetargeted gv a b
  IsObjectRetargeted gv (many a before) (many b after) =
      IsRetargeted gv a b × AreRetargeted gv before after
  IsObjectRetargeted gv (typed_scale a x) (typed_scale b y) =
      (group_version b ≡ gv) × (b.kind ≡ a.kind) × (y ≡ x)
  IsObjectRetargeted gv before after = ⊥

  module _ (gv : Gv) (sets : Sets gv) where
    set : (ms : Members) → IsRetargeted gv ms (m.set_gvk (with_kind gv (m.gvk_of ms).kind) ms)
    set ms = record {
      version = ap group_version (sets.read_back (m.gvk_of ms).kind ms);
      kind = ap (λ g. g.kind) (sets.read_back (m.gvk_of ms).kind ms);
      others = λ k n. sets.others (m.gvk_of ms).kind k ms n;
    }

    set_items : (items : List Members) → AreRetargeted gv items (map (retarget m gv) items)
    unfolding retarget
    set_items [] = tt
    set_items (x ∷ xs) = (set x, set_items xs)

    -- If SetGroupVersionKind writes what is read back and changes no other field than apiVersion and
    -- kind, then without a conversion strategy the object that is returned, and each item of a list in
    -- its place, is in the target version, is of the kind that it was, and has no other field changed.
    pub nop_convert-IsObjectRetargeted : (o : Object) → IsObjectRetargeted gv o (nop_convert m o gv)
    unfolding nop_convert retarget set_object_gvk retarget_items object_gvk
    nop_convert-IsObjectRetargeted (single ms) = set ms
    nop_convert-IsObjectRetargeted (many ms items) = (set ms, set_items items)
    nop_convert-IsObjectRetargeted (typed_scale gvk ms) = (refl, refl, refl)
