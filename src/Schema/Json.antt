-- ===== src/Schema/Json.antt =====
-- The values that the algorithms walk: `interface{}` as runtime.DecodeJSON and
-- unstructured objects hold it.
use apiextensions_apiserver.Prelude.{
  false, suc, ℤ, refl, eq_iff, arith, ◌≡◌, ℕ, String, Bool, Option, none, some, ◌==◌, if◌then◌else◌,
}

-- A float64 is its IEEE 754 bit pattern. `Elems` is []interface{}, and `Members` is
-- map[string]interface{} in one of its iteration orders.
mutual
  pub data Json : Type 0 where
    null : Json
    bool : Bool → Json
    int : ℤ → Json
    float : ℕ → Json
    str : String → Json
    arr : Elems → Json
    obj : Members → Json

  pub data Elems : Type 0 where
    no_elems : Elems
    elem : Json → Elems → Elems

  pub data Members : Type 0 where
    no_members : Members
    member : String → Json → Members → Members

-- x[k]
unfoldable pub find : String → Members → Option Json
find k no_members = none
find k (member j v ms) = if j == k then some v else find k ms

-- x[k] = v
unfoldable pub assign : String → Json → Members → Members
assign k v no_members = member k v no_members
assign k v (member j w ms) = if j == k then member j v ms else member j w (assign k v ms)

-- len(x)
unfoldable pub len_members : Members → ℕ
len_members no_members = 0
len_members (member j v ms) = suc (len_members ms)

-- delete(x, k)
unfoldable pub remove : String → Members → Members
remove k no_members = no_members
remove k (member j v ms) = let rest = remove k ms in if j == k then rest else member j v rest

pub find-remove :
    (k j : String) (ms : Members) → find j (remove k ms) ≡ (if k == j then none else find j ms)
unfolding find remove
find-remove k j no_members = ground arith
find-remove k j (member i w ms) =
    ground (arith, eq_iff k j, eq_iff i k, eq_iff i j, find-remove k j ms)

pub find-assign :
    (k j : String) (v : Json) (ms : Members)
    → find j (assign k v ms) ≡ (if k == j then some v else find j ms)
unfolding find assign
find-assign k j v no_members = refl
find-assign k j v (member i w ms) =
    ground (arith, eq_iff k j, eq_iff i k, eq_iff i j, find-assign k j v ms)

pub assign-assign :
    (k : String) (v w : Json) (ms : Members) → assign k v (assign k w ms) ≡ assign k v ms
unfolding assign
assign-assign k v w no_members = ground (arith, eq_iff k k)
assign-assign k v w (member i u ms) = ground (arith, eq_iff i k, assign-assign k v w ms)

-- What is set again keeps its place before what was set in between.
pub assign_between :
    (j k : String) (w x v : Json) (ms : Members)
    → (j == k) ≡ false
    → assign j w (assign k v (assign j x ms)) ≡ assign k v (assign j w ms)
unfolding assign
assign_between j k w x v no_members h = ground (arith, eq_iff j j, eq_iff j k, eq_iff k j, h)
assign_between j k w x v (member i u ms) h = ground (
  arith,
  eq_iff j j,
  eq_iff i k,
  eq_iff i j,
  eq_iff j k,
  eq_iff k j,
  h,
  assign-assign j w x ms,
  assign_between j k w x v ms h,
)
