-- ===== src/Schema/ListType/Keys.antt =====
-- The keys that validateListSet compares: validation.go of pkg/apiserver/schema/listtype.
use apiextensions_apiserver.Prelude.{
  pos, negsuc, ◌||◌, [], length, nat_eq, ◌&&◌, suc, ltb, some, leb, if◌then◌else◌, false, not, none,
  ◌∷◌, true, List, ◌==◌, Bool, ℕ, ℤ, Option, String,
}
use Prim.Native.Nat.{◌%◌}
use apiextensions_apiserver.Schema.Json.{Json, null, bool, int, float, str, arr, obj}

-- A value, or unspecifiedKeyValue{}.
pub data Item : Type 0 where
  value : Json → Item
  unspecified : Item

-- == of float64, on bit patterns: a NaN differs from all, and the two zeros are equal.
abbrev pub magnitude : ℕ → ℕ
magnitude bits = bits % 9223372036854775808

abbrev pub same_float : ℕ → ℕ → Bool
same_float a b =
    not (ltb 9218868437227405312 (magnitude a))
    && (nat_eq a b || (nat_eq (magnitude a) 0 && nat_eq (magnitude b) 0))

abbrev pub same_int : ℤ → ℤ → Bool
same_int (pos a) (pos b) = nat_eq a b
same_int (negsuc a) (negsuc b) = nat_eq a b
same_int a b = false

abbrev pub same_bool : Bool → Bool → Bool
same_bool true b = b
same_bool false b = not b

-- == of interface{} values that are no maps and no slices
unfoldable pub same_scalar : Item → Item → Bool
same_scalar unspecified unspecified = true
same_scalar (value null) (value null) = true
same_scalar (value (bool a)) (value (bool b)) = same_bool a b
same_scalar (value (int a)) (value (int b)) = same_int a b
same_scalar (value (float a)) (value (float b)) = same_float a b
same_scalar (value (str a)) (value (str b)) = a == b
same_scalar x y = false

-- A key of seenScalars or one of seenCompounds.
pub data Key : Type 0 where
  scalar : Item → Key
  compound : String → Key

abbrev pub same_key : Key → Key → Bool
same_key (scalar x) (scalar y) = same_scalar x y
same_key (compound s) (compound t) = s == t
same_key k l = false

-- A map from keys to the times that they have been seen.
module _ {K : Type 0} (same : K → K → Bool) where
  unfoldable pub times_seen : K → List (K × ℕ) → Option ℕ
  times_seen k [] = none
  times_seen k ((j, n) ∷ seen) = if same j k then some n else times_seen k seen

  -- `seen[k] = 1` for a new key, and `seen[k]++`
  unfoldable pub count : K → List (K × ℕ) → List (K × ℕ)
  count k [] = (k, 1) ∷ []
  count k ((j, n) ∷ seen) = if same j k then (j, suc n) ∷ seen else (j, n) ∷ count k seen

pub record SeenKeys : Type 0 where
  pub scalars : List (Item × ℕ)
  pub compounds : List (String × ℕ)

unfoldable pub times_of : Key → SeenKeys → Option ℕ
unfolding times_seen same_scalar
times_of (scalar x) seen = times_seen same_scalar x seen.scalars
times_of (compound s) seen = times_seen ◌==◌ s seen.compounds

unfoldable pub count_key : Key → SeenKeys → SeenKeys
unfolding count same_scalar
count_key (scalar x) seen = record seen { scalars = count same_scalar x seen.scalars }
count_key (compound s) seen = record seen { compounds = count ◌==◌ s seen.compounds }

-- The result of validateListSet: the indices, or the one at which json.Marshal fails.
pub data Verdict : Type 0 where
  repeated : List ℕ → Verdict
  internal_error : ℕ → Verdict

abbrev pub and_repeated : Bool → ℕ → Verdict → Verdict
and_repeated again i (internal_error j) = internal_error j
and_repeated again i (repeated is) = repeated (if again then i ∷ is else is)

abbrev pub is_once : Option ℕ → Bool
is_once none = false
is_once (some n) = nat_eq n 1

-- `marshal` is json.Marshal.
module _ (marshal : Json → Option String) where
  abbrev compound_key : Json → Option Key
  compound_key x = elim (marshal x) [ none ↦ none | some s ↦ some (compound s) ]

  unfoldable pub key_of : Item → Option Key
  key_of (value (obj ms)) = compound_key (obj ms)
  key_of (value (arr xs)) = compound_key (arr xs)
  key_of x = some (scalar x)

  -- The loop, from index `i`.
  unfoldable pub find_repeated : ℕ → SeenKeys → List Item → Verdict
  unfolding key_of times_of count_key
  find_repeated i seen [] = repeated []
  find_repeated i seen (x ∷ xs) = elim (key_of x) [
    | none ↦ internal_error i
    | some k ↦
        and_repeated (is_once (times_of k seen)) i (find_repeated (suc i) (count_key k seen) xs)
  ]

  unfoldable pub validate_list_set : List Item → Verdict
  unfolding find_repeated
  validate_list_set xs =
      if leb (length xs) 1
      then repeated []
      else find_repeated 0 (record { scalars = []; compounds = [] }) xs
