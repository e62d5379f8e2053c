-- ===== src/Registry/Prepared.antt =====
-- pkg/registry/customresourcedefinition/strategy.go: what an update of the spec does to the status.
use mathlib.Core.Path.{subst}
use apiextensions_apiserver.Registry.{
  spec_has_selectable_fields, spec_has_optional_old_self, Gates, store, storage_version,
  with_stored, store_version, without_fields, drop_selectable_fields, is_zero, any_observed,
  observed_generation_tracking_in_use, unobserved, drop_observed_generation, drop_in_version,
  drop_old_self, in_use, drop_spec_fields, drop_status_fields, drop_disabled_fields,
  prepare_for_update,
}
use apiextensions_apiserver.Internal.{InternalCrd, InternalSpec}
use apiextensions_apiserver.Crd.{Version, CrdStatus, Condition}
use apiextensions_apiserver.Prelude.{
  sym, contains-append, inr, eq_iff, ◌&&◌, inl, ◌∙◌, not, ap, Bool-cases, ◌==◌, if◌then◌else◌, ◌⊎◌,
  ◌||◌, contains, Bool, arith, ap₂, map, String, ◌≡◌, Option, ℤ, List, refl, some, none, true,
  false, [], ◌∷◌, pos, negsuc, zero, suc,
}

is_zero-eq : (n : ℤ) → is_zero n ≡ true → pos 0 ≡ n
unfolding is_zero
is_zero-eq (pos zero) h = refl
is_zero-eq (pos (suc n)) h = cc
is_zero-eq (negsuc n) h = cc

map-unobserved : (cs : List Condition) → any_observed cs ≡ false → map unobserved cs ≡ cs
unfolding any_observed unobserved
map-unobserved [] h = refl
map-unobserved (c ∷ cs) h =
    ap₂ (λ (n : ℤ) (rest : List Condition). record c { observed_generation = n } ∷ rest)
      (is_zero-eq (c.observed_generation) (ground (arith, h)))
      (map-unobserved cs (ground (arith, h)))

-- Where no generation is observed there is none to drop.
drop_observed_generation-unused :
    (status : CrdStatus)
    → observed_generation_tracking_in_use status ≡ false
    → drop_observed_generation status ≡ status
unfolding drop_observed_generation observed_generation_tracking_in_use
drop_observed_generation-unused status h =
    ap₂ (λ n cs. record status { observed_generation = n; conditions = cs })
      (is_zero-eq (status.observed_generation) (ground (arith, h)))
      (map-unobserved (status.conditions) (ground (arith, h)))

storage_version-map :
    (f : Version → Version)
    → ((v : Version) → (f v).name ≡ v.name)
    → ((v : Version) → (f v).storage ≡ v.storage)
    → (vs : List Version) → storage_version (map f vs) ≡ storage_version vs
unfolding storage_version
storage_version-map f name storage [] = refl
storage_version-map f name storage (v ∷ vs) =
    ap₂ (λ (s : Bool) (p : String × Option String). if s then some (p.0) else p.1) (storage v)
      (ap₂ (λ n r. (n, r)) (name v) (storage_version-map f name storage vs))

storage_version-if :
    (b : Bool) (spec dropped : InternalSpec)
    → storage_version (dropped.versions) ≡ storage_version (spec.versions)
    → storage_version (if b then dropped else spec).versions ≡ storage_version (spec.versions)
storage_version-if true spec dropped h = h
storage_version-if false spec dropped h = refl

pub storage_version-drop_spec_fields :
    (gates : Gates) (old : Option InternalCrd) (spec : InternalSpec)
    → storage_version (drop_spec_fields gates old spec).versions ≡ storage_version (spec.versions)
unfolding drop_spec_fields drop_selectable_fields drop_old_self without_fields drop_in_version
storage_version-drop_spec_fields gates old spec =
    let first =
      not (gates.ratcheting)
      && not (in_use (λ (c : InternalCrd). spec_has_optional_old_self (c.spec)) old) in
    let second =
      not (gates.field_selectors)
      && not (in_use (λ (c : InternalCrd). spec_has_selectable_fields (c.spec)) old) in
    let mid = if first then drop_old_self spec else spec in
    storage_version-if second mid (drop_selectable_fields mid)
      (storage_version-map without_fields (λ v. refl) (λ v. refl) (mid.versions))
    ∙ storage_version-if first spec (drop_old_self spec)
        (storage_version-map drop_in_version (λ v. refl) (λ v. refl) (spec.versions))

some_injective : (a b : String) → some a ≡ some b → a ≡ b
some_injective a b h = cc

name_eq : (a b : String) → (a == b) ≡ true → a ≡ b
name_eq a b h = ground (arith, h, eq_iff a b)

or_self :
    (stored : List String) (name v : String)
    → contains stored name ≡ true
    → contains stored v ≡ (contains stored v || name == v)
or_self stored name v e = elim (Bool-cases (name == v)) [
  | inl same ↦ ground (arith, same, subst (λ s. contains stored s ≡ true) (name_eq name v same) e)
  | inr other ↦ ground (arith, other)
]

pub contains-store :
    (storage : Option String) (stored : List String) (v : String)
    → contains (store storage stored) v
      ≡ (elim storage [ some name ↦ contains stored v || name == v | none ↦ contains stored v ])
unfolding store
contains-store none stored v = refl
contains-store (some name) stored v = elim (Bool-cases (contains stored name)) [
  | inl e ↦ rw (store, e) (or_self stored name v e)
  | inr e ↦ rw (store, e) (contains-append stored (name ∷ []) v ∙ ground arith)
]

-- The status after an update of the spec, whoever wrote it: the old one, with the storage version
-- among the stored versions.
pub record IsUpdate (old result : InternalCrd) : Type 0 where
  pub accepted_names : result.status.accepted_names ≡ old.status.accepted_names
  pub conditions : result.status.conditions ≡ old.status.conditions
  pub observed_generation : result.status.observed_generation ≡ old.status.observed_generation
  pub keeps :
      (v : String)
      → contains (old.status.stored_versions) v ≡ true
      → contains (result.status.stored_versions) v ≡ true
  pub adds :
      (v : String)
      → contains (result.status.stored_versions) v ≡ true
      → (contains (old.status.stored_versions) v ≡ true)
        ⊎ (storage_version (result.spec.versions) ≡ some v)
  pub stores :
      (v : String)
      → storage_version (result.spec.versions) ≡ some v
      → contains (result.status.stored_versions) v ≡ true

pub drop_observed_generation-if :
    (b : Bool) (status : CrdStatus)
    → (b ≡ true → drop_observed_generation status ≡ status)
    → (if b then drop_observed_generation status else status) ≡ status
drop_observed_generation-if true status h = h refl
drop_observed_generation-if false status h = refl

contains-store_old :
    (storage : Option String) (stored : List String) (v : String)
    → contains stored v ≡ true
    → contains (store storage stored) v ≡ true
contains-store_old none stored v h = contains-store none stored v ∙ h
contains-store_old (some name) stored v h = contains-store (some name) stored v ∙ ground (arith, h)

contains-store_new :
    (storage : Option String) (stored : List String) (v : String)
    → storage ≡ some v
    → contains (store storage stored) v ≡ true
contains-store_new none stored v h = cc
contains-store_new (some name) stored v h =
    contains-store (some name) stored v ∙ ground (arith, eq_iff name v, some_injective name v h)

contains-store_cases :
    (storage : Option String) (stored : List String) (v : String)
    → contains (store storage stored) v ≡ true
    → (contains stored v ≡ true) ⊎ (storage ≡ some v)
contains-store_cases none stored v h = inl (sym (contains-store none stored v) ∙ h)
contains-store_cases (some name) stored v h = elim (Bool-cases (name == v)) [
  | inl same ↦ inr (ap some (name_eq name v same))
  | inr other ↦ inl (ground (arith, other, sym (contains-store (some name) stored v) ∙ h))
]

second_false : (a b : Bool) → (not a && not b) ≡ true → b ≡ false
second_false a b h = ground (arith, h)

drop_status_fields-with_stored :
    (gates : Gates) (old : InternalCrd) (stored : List String)
    → drop_status_fields gates (some old) (with_stored stored (old.status))
      ≡ with_stored stored (old.status)
unfolding drop_status_fields with_stored observed_generation_tracking_in_use
drop_status_fields-with_stored gates old stored =
    let used = observed_generation_tracking_in_use (old.status) in
    drop_observed_generation-if (not (gates.observed_generation) && not used)
      (with_stored stored (old.status))
      (λ t.
        drop_observed_generation-unused (with_stored stored (old.status))
          (second_false (gates.observed_generation) used t))

-- An update of the spec, whoever wrote it and whichever gates are open: the status is the old one, in
-- which the storage version of the new spec joins the stored versions.
pub prepare_for_update-IsUpdate :
    (gates : Gates) (same_spec : InternalSpec → InternalSpec → Bool) (crd old : InternalCrd)
    → IsUpdate old (prepare_for_update gates same_spec crd old)
unfolding prepare_for_update drop_disabled_fields store_version
prepare_for_update-IsUpdate gates same_spec crd old =
    let storage = storage_version (crd.spec.versions) in
    let status =
      drop_status_fields-with_stored gates old (store storage (old.status.stored_versions)) in
    let same_storage = storage_version-drop_spec_fields gates (some old) (crd.spec) in
    let was = old.status.stored_versions in
    let in_result = λ (v : String). ap (λ (s : CrdStatus). contains (s.stored_versions) v) status in
    record {
      accepted_names = ap (λ (s : CrdStatus). s.accepted_names) status;
      conditions = ap (λ (s : CrdStatus). s.conditions) status;
      observed_generation = ap (λ (s : CrdStatus). s.observed_generation) status;
      keeps = λ v h. in_result v ∙ contains-store_old storage was v h;
      adds = λ v h. elim (contains-store_cases storage was v (sym (in_result v) ∙ h)) [
        | inl before ↦ inl before
        | inr is_storage ↦ inr (same_storage ∙ is_storage)
      ];
      stores = λ v h. in_result v ∙ contains-store_new storage was v (sym same_storage ∙ h);
    }
