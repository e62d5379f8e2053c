-- ===== src/Schema/Defaulting/Nulls.antt =====
-- PruneNonNullableNullsWithoutDefaults, and defaulting after it.
use apiextensions_apiserver.Schema.Defaulting.Nullness.{is_null-default_ref, is_null-default}
use apiextensions_apiserver.Schema.Pruning.Fields.{members_of}
use apiextensions_apiserver.Schema.Defaulting.Fields.{
  find-default, defaulted, walk_with, or_default, IsMap,
}
use apiextensions_apiserver.Prelude.{
  ◌&&◌, not, arith, ◌≢◌, true, false, Bool, refl, inr, ◌∙◌, eq_iff, sym, ap, ◌==◌, inl, some,
  Bool-cases, if◌then◌else◌, none, Option, String, ◌≡◌,
}
use apiextensions_apiserver.Schema.Structural.{
  nil, unset, structural_or_bool, additional_properties, lookup, generic, properties,
  StructuralOrBool, to, Structural, Ref,
}
use apiextensions_apiserver.Schema.Json.{
  str, float, int, bool, null, arr, obj, no_members, Json, member, find, Members,
}
use apiextensions_apiserver.Schema.Defaulting.{
  default_additional, default_of, additional_schema, property_or, nullable_of, fill,
  is_non_nullable_null, default, is_nil, is_null, is_non_nullable_non_defaultable_null,
  get_schema_for_field, prune_nulls_members, prune_nulls,
}
use mathlib.Core.Option
use mathlib.Core.Bool.{false≢true}

-- A null is dropped for good only where its schema neither allows it nor has a default.
abbrev pub null_pruned : Ref → Option Json → Option Json
null_pruned t none = none
null_pruned t (some v) =
    if is_non_nullable_non_defaultable_null v t then none else some (prune_nulls v t)

-- No key is twice in an object, as in every Go map.
abbrev pub IsObject : Members → Type 0
IsObject no_members = Unit
IsObject (member k v ms) = (find k ms ≡ none) × IsObject ms

find_pruned :
    (k : String) (s : Ref) (ms : Members)
    → IsObject ms
    → find k (prune_nulls_members ms s) ≡ null_pruned (get_schema_for_field k s) (find k ms)
unfolding prune_nulls find
find_pruned k s no_members u = refl
find_pruned k s (member j v ms) (fresh, u) =
    elim (Bool-cases (is_non_nullable_non_defaultable_null v (get_schema_for_field j s))) [
      | inl d ↦ elim (Bool-cases (j == k)) [
        | inl q ↦
            let same : get_schema_for_field k s ≡ get_schema_for_field j s =
              ap (λ (i : String). get_schema_for_field i s) (sym ((eq_iff j k).0 q)) in
            rw (d, q, same, d)
              (find_pruned k s ms u
                ∙ rw (ap (λ (i : String). find i ms) (sym ((eq_iff j k).0 q)) ∙ fresh) refl)
        | inr q ↦ rw (d, q) (find_pruned k s ms u)
      ]
      | inr d ↦ elim (Bool-cases (j == k)) [
        | inl q ↦
            let same : get_schema_for_field k s ≡ get_schema_for_field j s =
              ap (λ (i : String). get_schema_for_field i s) (sym ((eq_iff j k).0 q)) in
            rw (d, q, same, d) refl
        | inr q ↦ rw (d, q) (find_pruned k s ms u)
      ]
    ]

-- The schema of a field: that of the property, or else that of the additional properties.
abbrev pub described_by : Option Structural → StructuralOrBool → Ref
described_by (some p) additional = to p
described_by none unset = nil
described_by none (structural_or_bool s b) = s

-- A schema explains a null if it allows it, or has a default for it.
abbrev pub explains_null : Structural → Bool
explains_null p = elim (generic p).nullable [
  | true ↦ true
  | false ↦ elim (generic p).default [ null ↦ false | _ ↦ true ]
]

-- What becomes of a field with the schema.
abbrev pub field_left : Ref → Option Json → Option Json
field_left s none = none
field_left nil (some v) = some (prune_nulls v nil)
field_left (to p) (some null) = if explains_null p then some null else none
field_left (to p) (some v) = some (prune_nulls v (to p))

described_by-eq :
    (q : Option Structural) (additional : StructuralOrBool)
    → property_or q (additional_schema additional) ≡ described_by q additional
described_by-eq (some p) additional = refl
described_by-eq none unset = refl
described_by-eq none (structural_or_bool s b) = refl

null_left_there :
    (nullable : Bool) (default : Json)
    → (if not nullable && is_null default then none else some null) ≡ (
        if elim nullable [ true ↦ true | false ↦ elim default [ null ↦ false | _ ↦ true ] ]
        then some null
        else none)
null_left_there true default = refl
null_left_there false null = refl
null_left_there false (bool b) = refl
null_left_there false (int b) = refl
null_left_there false (float b) = refl
null_left_there false (str b) = refl
null_left_there false (arr b) = refl
null_left_there false (obj b) = refl

null_pruned-eq : (t : Ref) (o : Option Json) → null_pruned t o ≡ field_left t o
unfolding is_non_nullable_non_defaultable_null prune_nulls
null_pruned-eq t none = refl
null_pruned-eq nil (some null) = refl
null_pruned-eq (to p) (some null) = null_left_there (generic p).nullable (generic p).default
null_pruned-eq nil (some (bool b)) = refl
null_pruned-eq (to p) (some (bool b)) = refl
null_pruned-eq nil (some (int b)) = refl
null_pruned-eq (to p) (some (int b)) = refl
null_pruned-eq nil (some (float b)) = refl
null_pruned-eq (to p) (some (float b)) = refl
null_pruned-eq nil (some (str b)) = refl
null_pruned-eq (to p) (some (str b)) = refl
null_pruned-eq nil (some (arr b)) = refl
null_pruned-eq (to p) (some (arr b)) = refl
null_pruned-eq nil (some (obj b)) = refl
null_pruned-eq (to p) (some (obj b)) = refl

-- In an object in which no key is twice, pruning the nulls drops the field under `k` exactly if it is
-- a null, there is a schema for it, which is that of the property or else that of the additional
-- properties, and that schema neither allows null nor has a default; every other field is kept, with
-- its own nulls pruned by that schema. No field is added.
pub find-prune_nulls_members :
    (k : String) (s : Structural) (ms : Members)
    → IsObject ms
    → find k (prune_nulls_members ms (to s))
      ≡ field_left (described_by (lookup k (properties s)) (additional_properties s)) (find k ms)
unfolding get_schema_for_field
find-prune_nulls_members k s ms u =
    find_pruned k (to s) ms u
    ∙ null_pruned-eq (get_schema_for_field k (to s)) (find k ms)
    ∙ ap (λ t. field_left t (find k ms))
        (described_by-eq (lookup k (properties s)) (additional_properties s))

abbrev pub is_null_field : Option Json → Bool
is_null_field none = false
is_null_field (some v) = is_null v

is_null-prune_nulls : (v : Json) (t : Ref) → is_null (prune_nulls v t) ≡ is_null v
unfolding prune_nulls
is_null-prune_nulls (obj ms) t = refl
is_null-prune_nulls (arr xs) t = refl
is_null-prune_nulls _ t = refl

-- A null that is left, where the schema does not allow it, has a default.
null_left :
    (t : Ref) (o : Option Json)
    → is_nil t ≡ false
    → nullable_of t ≡ false
    → is_null_field (null_pruned t o) ≡ true
    → is_null (default_of t) ≡ false
unfolding is_non_nullable_non_defaultable_null
null_left t none n m h = cc
null_left t (some v) n m h = ground (arith, is_null-prune_nulls v t)

module _ (p : Structural) where
  property_not_null :
      (o : Option Json)
      → (generic p).nullable ≡ false
      → (is_null_field o ≡ true → is_null (generic p).default ≡ false)
      → is_null_field (Option.map (default p) (or_default p o)) ≡ false
  unfolding is_non_nullable_null
  property_not_null none m h = elim (Bool-cases (is_null (generic p).default)) [
    | inl e ↦ rw e refl
    | inr e ↦ rw e (is_null-default p _ ∙ e)
  ]
  property_not_null (some v) m h = elim (Bool-cases (is_null v)) [
    | inl e ↦ rw (h e, e, m) (is_null-default p _ ∙ h e)
    | inr e ↦ elim (Bool-cases (is_null (generic p).default)) [
      | inl d ↦ rw (d) (is_null-default p _ ∙ e)
      | inr d ↦ rw (d, e) (is_null-default p _ ∙ e)
    ]
  ]

additional_not_null :
    (s : Ref) (b : Bool) (o : Option Json)
    → is_nil s ≡ false
    → nullable_of s ≡ false
    → (is_null_field o ≡ true → is_null (default_of s) ≡ false)
    → is_null_field (Option.map (default_additional (structural_or_bool s b)) o) ≡ false
unfolding default fill
additional_not_null s b none n m h = refl
additional_not_null s b (some v) n m h = elim (Bool-cases (is_null v)) [
  | inl e ↦ is_null-default_ref s _ ∙ rw (e, n, m) (h e)
  | inr e ↦ is_null-default_ref s _ ∙ rw e e
]

schema_for :
    (k : String) (s : Structural)
    → get_schema_for_field k (to s)
      ≡ property_or (lookup k (properties s)) (additional_schema (additional_properties s))
unfolding get_schema_for_field
schema_for k s = refl

field_not_null :
    (q : Option Structural) (sub : StructuralOrBool) (o : Option Json)
    → is_nil (property_or q (additional_schema sub)) ≡ false
    → nullable_of (property_or q (additional_schema sub)) ≡ false
    → is_null_field (
        Option.map
          (walk_with q sub)
          (defaulted q (null_pruned (property_or q (additional_schema sub)) o)))
      ≡ false
field_not_null (some p) sub o n m = property_not_null p _ m (null_left (to p) o n m)
field_not_null none unset o n m = cc
field_not_null none (structural_or_bool s b) o n m =
    additional_not_null s b _ n m (null_left s o n m)

-- In an object whose nulls are pruned and which is then defaulted, no field is null whose schema
-- is there and does not allow null, where no key and no property is twice.
pub no_null_field :
    (k : String) (s : Structural) (ms : Members)
    → IsMap (properties s)
    → IsObject ms
    → is_nil (get_schema_for_field k (to s)) ≡ false
    → nullable_of (get_schema_for_field k (to s)) ≡ false
    → find k (members_of (default s (prune_nulls (obj ms) (to s)))) ≢ some null
unfolding prune_nulls get_schema_for_field
no_null_field k s ms u w n m h =
    let q : Option Structural = lookup k (properties s) in
    let sub : StructuralOrBool = additional_properties s in
    let field : find k (members_of (default s (obj (prune_nulls_members ms (to s)))))
        ≡ Option.map (walk_with q sub)
            (defaulted q (null_pruned (property_or q (additional_schema sub)) (find k ms))) =
      find-default k s (prune_nulls_members ms (to s)) u
      ∙ ap (λ (o : Option Json). Option.map (walk_with q sub) (defaulted q o))
          (find_pruned k (to s) ms w) in
    false≢true (sym (field_not_null q sub (find k ms) n m) ∙ ap is_null_field (sym field ∙ h))
