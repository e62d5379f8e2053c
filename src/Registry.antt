-- ===== src/Registry.antt =====
-- pkg/registry/customresourcedefinition/strategy.go: what becomes of a CRD before it is written.
pub mod OldSelf
pub mod Prepared
pub mod Resource
pub mod History
pub mod Tests
use apiextensions_apiserver.Internal.{InternalCrd, InternalSpec}
use apiextensions_apiserver.Crd.{Version, CrdStatus, Condition, Validation}
use apiextensions_apiserver.Registry.OldSelf.{
  drop_optional_old_self_field, schema_has_optional_old_self,
}
use apiextensions_apiserver.Prelude.{
  nat_eq, zero, suc, negsuc, ◌++◌, contains, ◌&&◌, ◌||◌, not, if◌then◌else◌, String, ℤ, Bool, map,
  List, Option, refl, some, none, true, false, pos, [], ◌∷◌,
}

-- The feature gates CRDValidationRatcheting, CustomResourceFieldSelectors and
-- CRDObservedGenerationTracking.
pub record Gates : Type 0 where
  pub ratcheting : Bool
  pub field_selectors : Bool
  pub observed_generation : Bool

-- The sum with 1 of an int64, which wraps around.
unfoldable pub plus_one : ℤ → ℤ
plus_one (pos n) = if nat_eq n 9223372036854775807 then negsuc n else pos (suc n)
plus_one (negsuc zero) = pos 0
plus_one (negsuc (suc n)) = negsuc n

empty_status : CrdStatus
empty_status = record {
  conditions = [];
  accepted_names = record {
    plural = "";
    singular = "";
    short_names = [];
    kind = "";
    list_kind = "";
    categories = [];
  };
  stored_versions = [];
  observed_generation = pos 0;
}

-- The first version that is marked.
unfoldable pub storage_version : List Version → Option String
storage_version [] = none
storage_version (v ∷ vs) =
    let rest = storage_version vs in if v.storage then some (v.name) else rest

unfoldable pub store : Option String → List String → List String
store none stored = stored
store (some name) stored = if contains stored name then stored else stored ++ name ∷ []

with_stored : List String → CrdStatus → CrdStatus
with_stored stored status = record status { stored_versions = stored }

store_version : InternalCrd → InternalCrd
unfolding with_stored
store_version crd = record crd {
  status =
      with_stored (store (storage_version (crd.spec.versions)) (crd.status.stored_versions))
        (crd.status);
}

any_set : List Version → Bool
any_set [] = false
any_set (v ∷ vs) = elim (v.selectable_fields) [ some fields ↦ true | none ↦ any_set vs ]

unfoldable pub spec_has_selectable_fields : InternalSpec → Bool
unfolding any_set
spec_has_selectable_fields spec = elim (spec.selectable_fields) [
  | some fields ↦ true
  | none ↦ any_set (spec.versions)
]

without_fields : Version → Version
without_fields v = record v { selectable_fields = none }

unfoldable pub drop_selectable_fields : InternalSpec → InternalSpec
unfolding without_fields
drop_selectable_fields spec = record spec {
  selectable_fields = none;
  versions = map without_fields (spec.versions);
}

is_zero : ℤ → Bool
is_zero (pos zero) = true
is_zero n = false

any_observed : List Condition → Bool
unfolding is_zero
any_observed [] = false
any_observed (c ∷ cs) = not (is_zero (c.observed_generation)) || any_observed cs

unfoldable pub observed_generation_tracking_in_use : CrdStatus → Bool
unfolding is_zero any_observed
observed_generation_tracking_in_use status =
    not (is_zero (status.observed_generation)) || any_observed (status.conditions)

unobserved : Condition → Condition
unobserved c = record c { observed_generation = pos 0 }

unfoldable pub drop_observed_generation : CrdStatus → CrdStatus
unfolding unobserved
drop_observed_generation status = record status {
  observed_generation = pos 0;
  conditions = map unobserved (status.conditions);
}

drop_in : Option Validation → Option Validation
drop_in none = none
drop_in (some v) = elim (v.open_api_v3_schema) [
  | none ↦ some v
  | some schema ↦
      some (record v { open_api_v3_schema = some (drop_optional_old_self_field schema) })
]

drop_in_version : Version → Version
unfolding drop_in
drop_in_version v = record v { schema = drop_in (v.schema) }

drop_old_self : InternalSpec → InternalSpec
unfolding drop_in drop_in_version
drop_old_self spec = record spec {
  validation = drop_in (spec.validation);
  versions = map drop_in_version (spec.versions);
}

has_old_self : Option Validation → Bool
has_old_self none = false
has_old_self (some v) = elim (v.open_api_v3_schema) [
  | none ↦ false
  | some schema ↦ schema_has_optional_old_self schema
]

any_old_self : List Version → Bool
unfolding has_old_self
any_old_self [] = false
any_old_self (v ∷ vs) = has_old_self (v.schema) || any_old_self vs

-- HasSchemaWith(spec, schemaHasOptionalOldSelf)
unfoldable pub spec_has_optional_old_self : InternalSpec → Bool
unfolding has_old_self any_old_self
spec_has_optional_old_self spec = has_old_self (spec.validation) || any_old_self (spec.versions)

abbrev in_use {ℓ} : {A : Type ℓ} → (A → Bool) → Option A → Bool
in_use test none = false
in_use test (some a) = test a

pub drop_spec_fields : Gates → Option InternalCrd → InternalSpec → InternalSpec
unfolding drop_old_self
drop_spec_fields gates old spec =
    let s =
      if not (gates.ratcheting)
        && not (in_use (λ (c : InternalCrd). spec_has_optional_old_self (c.spec)) old)
      then drop_old_self spec
      else spec in
    if not (gates.field_selectors)
      && not (in_use (λ (c : InternalCrd). spec_has_selectable_fields (c.spec)) old)
    then drop_selectable_fields s
    else s

drop_status_fields : Gates → Option InternalCrd → CrdStatus → CrdStatus
drop_status_fields gates old status =
    if not (gates.observed_generation)
      && not (in_use (λ (c : InternalCrd). observed_generation_tracking_in_use (c.status)) old)
    then drop_observed_generation status
    else status

unfoldable pub drop_disabled_fields : Gates → InternalCrd → Option InternalCrd → InternalCrd
unfolding drop_spec_fields drop_status_fields
drop_disabled_fields gates crd old = record crd {
  spec = drop_spec_fields gates old (crd.spec);
  status = drop_status_fields gates old (crd.status);
}

unfoldable pub prepare_for_create : Gates → InternalCrd → InternalCrd
unfolding empty_status store_version
prepare_for_create gates crd =
    drop_disabled_fields gates
      (store_version (record crd { status = empty_status; generation = pos 1 })) none

-- `same_spec` is apiequality.Semantic.DeepEqual on specs.
unfoldable pub prepare_for_update :
    Gates → (InternalSpec → InternalSpec → Bool) → InternalCrd → InternalCrd → InternalCrd
unfolding store_version plus_one
prepare_for_update gates same_spec crd old =
    let generation =
      if same_spec (old.spec) (crd.spec) then crd.generation else plus_one (old.generation) in
    drop_disabled_fields gates
      (store_version (record crd { status = old.status; generation = generation })) (some old)

-- metav1.ResetObjectMetaForStatus is given the new metadata twice, so it sets it to itself.
unfoldable pub prepare_status_for_update : InternalCrd → InternalCrd → InternalCrd
prepare_status_for_update crd old = record crd { spec = old.spec }
