-- ===== src/Crd/Helpers.antt =====
-- pkg/apihelpers/helpers.go
pub mod Conditions
pub mod Lookups
pub mod Truth
mod Examples
use apiextensions_apiserver.Crd.{
  condition_false, condition_true, Validation, Version, Subresources, api_approved_annotation, Crd,
  Condition,
}
use apiextensions_apiserver.Prelude.{
  or_nil, quote, nat_eq, ◌||◌, ◌&&◌, [], is_empty, starts_with, some, false, true, contains, not,
  ◌==◌, Bool, ◌∷◌, if◌then◌else◌, none, String, ℕ, has_suffix, List, Option,
}
use mathlib.Core.Option
use Prim.Native.String

-- GetAPIApprovalState gets the result of url.ParseRequestURI as an argument: the host and the
-- scheme of a text that it parses.
pub record Url : Type 0 where
  pub host : String
  pub scheme : String

unfoldable pub is_protected_community_group : String → Bool
unfolding has_suffix
is_protected_community_group group =
    if group == "k8s.io" || has_suffix group ".k8s.io"
    then true
    else if group == "kubernetes.io" || has_suffix group ".kubernetes.io"
    then true
    else false

pub data ApiApprovalState : Type 0 where
  api_approval_invalid api_approved api_approval_bypassed api_approval_missing : ApiApprovalState

-- m[k] of a map from strings to strings, "" where the key is missing
unfoldable pub get_or_empty : String → List (String × String) → String
get_or_empty k [] = ""
get_or_empty k ((j, v) ∷ m) = if j == k then v else get_or_empty k m

abbrev pub approved_url : Option Url → Bool
approved_url none = false
approved_url (some url) = not (url.host == "") && not (url.scheme == "")

abbrev issue : String
issue = "see https://github.com/kubernetes/enhancements/pull/1111"

unfoldable pub must_have_annotation : String → String
unfolding quote
must_have_annotation with =
    String.◌++◌ "protected groups must have approval annotation "
      (String.◌++◌ (quote api_approved_annotation) (String.◌++◌ with issue))

-- The state and the reason for it.
unfoldable pub get_api_approval_state :
    (String → Option Url) → List (String × String) → ApiApprovalState × String
unfolding get_or_empty must_have_annotation quote
get_api_approval_state parse_request_uri annotations =
    let annotation = get_or_empty api_approved_annotation annotations in
    if annotation == ""
    then (api_approval_missing, must_have_annotation ", ")
    else if starts_with annotation "unapproved"
    then (api_approval_bypassed, String.◌++◌ "not approved: " (quote annotation))
    else if approved_url (parse_request_uri annotation)
    then (api_approved, String.◌++◌ "approved in " annotation)
    else (
      api_approval_invalid,
      must_have_annotation " with either a URL or a reason starting with \"unapproved\", ",
    )

unfoldable pub find_condition : String → List Condition → Option Condition
find_condition t [] = none
find_condition t (c ∷ cs) = if c.type == t then some c else find_condition t cs

unfoldable pub find_crd_condition : Crd → String → Option Condition
unfolding find_condition
find_crd_condition crd condition_type = find_condition condition_type crd.status.conditions

-- What SetCRDCondition writes through the pointer to the existing condition. `c` has the
-- transition time `now`.
abbrev pub overwrite : Condition → Condition → Condition
overwrite c old = record old {
  last_transition_time =
      if not (old.status == c.status) || nat_eq old.last_transition_time 0
      then c.last_transition_time
      else old.last_transition_time;
  status = c.status;
  reason = c.reason;
  message = c.message;
}

-- The first condition of the type is overwritten; without one, `c` is appended.
unfoldable pub set_condition : Condition → List Condition → List Condition
set_condition c [] = c ∷ []
set_condition c (old ∷ cs) =
    if old.type == c.type then overwrite c old ∷ cs else old ∷ set_condition c cs

abbrev pub with_conditions : Crd → List Condition → Crd
with_conditions crd cs = record crd { status = record crd.status { conditions = cs } }

-- `now` is the result of time.Now().
unfoldable pub set_crd_condition : ℕ → Crd → Condition → Crd
unfolding set_condition
set_crd_condition now crd new_condition =
    with_conditions crd
      (set_condition (record new_condition { last_transition_time = now }) crd.status.conditions)

unfoldable pub remove_condition : String → List Condition → List Condition
remove_condition t [] = []
remove_condition t (c ∷ cs) =
    let rest = remove_condition t cs in if c.type == t then rest else c ∷ rest

unfoldable pub remove_crd_condition : Crd → String → Crd
unfolding remove_condition
remove_crd_condition crd condition_type =
    with_conditions crd (remove_condition condition_type crd.status.conditions)

unfoldable pub present_and_equal : String → String → List Condition → Bool
present_and_equal t status [] = false
present_and_equal t status (c ∷ cs) =
    if c.type == t then c.status == status else present_and_equal t status cs

unfoldable pub is_crd_condition_present_and_equal : Crd → String → String → Bool
unfolding present_and_equal
is_crd_condition_present_and_equal crd condition_type status =
    present_and_equal condition_type status crd.status.conditions

unfoldable pub is_crd_condition_true : Crd → String → Bool
unfolding is_crd_condition_present_and_equal
is_crd_condition_true crd condition_type =
    is_crd_condition_present_and_equal crd condition_type condition_true

unfoldable pub is_crd_condition_false : Crd → String → Bool
unfolding is_crd_condition_present_and_equal
is_crd_condition_false crd condition_type =
    is_crd_condition_present_and_equal crd condition_type condition_false

unfoldable pub is_crd_condition_equivalent : Option Condition → Option Condition → Bool
is_crd_condition_equivalent none none = true
is_crd_condition_equivalent none (some r) = false
is_crd_condition_equivalent (some l) none = false
is_crd_condition_equivalent (some l) (some r) =
    l.message == r.message && l.reason == r.reason && l.status == r.status && l.type == r.type

unfoldable pub crd_has_finalizer : Crd → String → Bool
crd_has_finalizer crd needle = contains crd.finalizers needle

unfoldable pub without : String → List String → List String
without needle [] = []
without needle (f ∷ fs) = let rest = without needle fs in if f == needle then rest else f ∷ rest

unfoldable pub crd_remove_finalizer : Crd → String → Crd
unfolding without
crd_remove_finalizer crd needle = record crd { finalizers = without needle crd.finalizers }

unfoldable pub served_named : String → List Version → Bool
served_named version [] = false
served_named version (v ∷ vs) = if v.name == version then v.served else served_named version vs

unfoldable pub has_served_crd_version : Crd → String → Bool
unfolding served_named
has_served_crd_version crd version = served_named version crd.spec.versions

unfoldable pub storage_name : List Version → Option String
storage_name [] = none
storage_name (v ∷ vs) = if v.storage then some v.name else storage_name vs

-- `none` is the error.
unfoldable pub get_crd_storage_version : Crd → Option String
unfolding storage_name
get_crd_storage_version crd = storage_name crd.spec.versions

unfoldable pub is_stored_version : Crd → String → Bool
is_stored_version crd version = contains crd.status.stored_versions version

-- The loops of GetSchemaForVersion and GetSubresourcesForVersion.
unfoldable pub find_version : String → List Version → Option Version
find_version version [] = none
find_version version (v ∷ vs) = if version == v.name then some v else find_version version vs

unfoldable pub get_schema_for_version : Crd → String → Option (Option Validation)
unfolding find_version
get_schema_for_version crd version =
    Option.map (λ (v : Version). v.schema) (find_version version crd.spec.versions)

unfoldable pub get_subresources_for_version : Crd → String → Option (Option Subresources)
unfolding find_version
get_subresources_for_version crd version =
    Option.map (λ (v : Version). v.subresources) (find_version version crd.spec.versions)

abbrev pub is_set {ℓ} : {A : Type ℓ} → Option A → Bool
is_set none = false
is_set (some a) = true

unfoldable pub has_per_version_schema : List Version → Bool
has_per_version_schema [] = false
has_per_version_schema (v ∷ vs) = if is_set v.schema then true else has_per_version_schema vs

unfoldable pub has_per_version_subresources : List Version → Bool
has_per_version_subresources [] = false
has_per_version_subresources (v ∷ vs) =
    if is_set v.subresources then true else has_per_version_subresources vs

unfoldable pub has_per_version_columns : List Version → Bool
has_per_version_columns [] = false
has_per_version_columns (v ∷ vs) =
    if not (is_empty (or_nil (v.additional_printer_columns)))
    then true
    else has_per_version_columns vs

unfoldable pub some_served : String → List Version → Bool
some_served version [] = false
some_served version (v ∷ vs) =
    if not v.served || not (v.name == version) then some_served version vs else true

unfoldable pub has_version_served : Crd → String → Bool
unfolding some_served
has_version_served crd version = some_served version crd.spec.versions
