-- ===== src/Controller/Finalizing.antt =====
-- pkg/controller/finalizer/crd_finalizer.go
pub mod Keeps
pub mod Release
pub mod Deletions
pub mod Events
use apiextensions_apiserver.Controller.Naming.{condition_of}
use apiextensions_apiserver.Crd.{
  established, cleanup_finalizer, condition_false, terminating, condition_true, Crd, Condition,
}
use apiextensions_apiserver.Crd.Helpers.{
  is_crd_condition_true, crd_remove_finalizer, set_crd_condition, crd_has_finalizer,
  remove_crd_condition,
}
use apiextensions_apiserver.Prelude.{
  refl, inr, inl, ◌⊎◌, ◌≡◌, nat_eq, contains, ◌||◌, false, none, ◌==◌, some, ◌&&◌, is_empty, not,
  ◌∷◌, ℕ, if◌then◌else◌, Bool, Option, String, List, [],
}
use apiextensions_apiserver.Controller.Client.{
  conflict, not_found, got, after_update, get_failed, update_failed, failed, missing, updated, Run,
  Got, idle, fails, UpdateResult,
}
use Prim.Native.String

-- What the storage answers.
pub data Answer {ℓ} (A : Type ℓ) : Type ℓ where
  answer : A → Answer A
  refuse : String → Answer A

-- A listed custom resource: its namespace, or `none` where meta.Accessor returns an error.
abbrev pub Instance : Type 0
Instance = Option String

-- A ListerCollectionDeleter as one run uses it: the first list, the error of DeleteCollection in
-- a namespace, and the n-th list of the polling.
pub record CrClient : Type 0 where
  pub first_list : Answer (List Instance)
  pub delete_collection : String → Option String
  pub later_list : ℕ → Answer (List Instance)

pub Answer-cases {ℓ} :
    {A : Type ℓ} (a : Answer A) → ((e : String) × (a ≡ refuse e)) ⊎ ((x : A) × (a ≡ answer x))
Answer-cases (refuse e) = inl (e, refl)
Answer-cases (answer x) = inr (x, refl)

-- What the condition of the polling returns: (true, nil), (false, nil), or an error.
pub data Poll : Type 0 where
  emptied waiting : Poll
  poll_failed : String → Poll

unfoldable pub poll_condition : Answer (List Instance) → Poll
poll_condition (refuse e) = poll_failed e
poll_condition (answer items) = if is_empty items then emptied else waiting

-- The namespaces in which DeleteCollection is called, in order.
unfoldable pub deletions : List String → List Instance → List String
deletions deleted [] = []
deletions deleted (none ∷ items) = deletions deleted items
deletions deleted (some namespace ∷ items) =
    let skipped = deletions deleted items in
    let rest = deletions (namespace ∷ deleted) items in
    if contains deleted namespace then skipped else namespace ∷ rest

unfoldable pub delete_errors : (String → Option String) → List String → List String
delete_errors delete_collection [] = []
delete_errors delete_collection (namespace ∷ namespaces) =
    let rest = delete_errors delete_collection namespaces in
    elim (delete_collection namespace) [ none ↦ rest | some e ↦ e ∷ rest ]

pub record Deletion : Type 0 where
  pub condition : Condition
  pub error : Option String
  pub namespaces : List String

abbrev pub terminating_because : String → String → String → Condition
terminating_because status reason message = condition_of terminating status reason message

abbrev pub deletion_failed : String → String → List String → Deletion
deletion_failed what e namespaces = record {
  condition = terminating_because condition_true "InstanceDeletionFailed" (String.◌++◌ what e);
  error = some e;
  namespaces = namespaces;
}

abbrev pub no_client : Crd → String → String
no_client crd e = String.◌++◌ "unable to find a custom resource client for " (
    String.◌++◌ crd.status.accepted_names.plural
      (String.◌++◌ "." (String.◌++◌ crd.spec.group (String.◌++◌ ": " e))))

abbrev pub deleted_all : Option String → List String → Deletion
deleted_all none namespaces = record {
  condition =
      terminating_because condition_false "InstanceDeletionCompleted" "removed all instances";
  error = none;
  namespaces = namespaces;
}
deleted_all (some e) namespaces = record {
  condition =
      terminating_because condition_true "InstanceDeletionCheck"
        (String.◌++◌ "could not confirm zero CustomResources remaining: " e);
  error = some e;
  namespaces = namespaces;
}

unfoldable pub overlapping_built_in_resource : String → String → Bool
overlapping_built_in_resource group resource =
    (group == "apiregistration.k8s.io" && resource == "apiservices")
    || (group == "apiextensions.k8s.io" && resource == "customresourcedefinitions")

-- What a run of the finalizer did: beside the writes, the namespaces in which it deleted.
pub record Finalized : Type 0 where
  pub run : Run
  pub namespaces : List String

abbrev pub overlapping : Condition
overlapping =
    terminating_because condition_false "OverlappingBuiltInResource"
      "instances overlap with built-in resources in storage"

abbrev pub never_established : Condition
never_established =
    terminating_because condition_false "NeverEstablished" "resource was never established"

abbrev pub only : Run → Finalized
only run = record { run = run; namespaces = [] }

abbrev pub is_deleted : Crd → Bool
is_deleted crd = elim (crd.deletion_timestamp) [ none ↦ false | some t ↦ not (nat_eq t 0) ]

abbrev pub in_progress : Condition
in_progress =
    terminating_because condition_true "InstanceDeletionInProgress"
      "CustomResource deletion is in progress"

-- `aggregate` is the text of utilerrors.NewAggregate(errs); `poll` is
-- wait.PollUntilContextTimeout, with the answers of the condition as a sequence; `clients` is
-- GetCustomResourceListerCollectionDeleter.
module _ (aggregate : List String → String) (poll : (ℕ → Poll) → Option String)
    (clients : Crd → Answer CrClient) where
  abbrev pub confirm : CrClient → List String → Deletion
  confirm client namespaces =
      deleted_all (poll (λ n. poll_condition (client.later_list n))) namespaces

  abbrev pub deletions_issued : CrClient → List String → List String → Deletion
  deletions_issued client namespaces [] = confirm client namespaces
  deletions_issued client namespaces (e ∷ es) =
      deletion_failed "could not issue all deletes: " (aggregate (e ∷ es)) namespaces

  abbrev pub delete_listed : CrClient → Answer (List Instance) → Deletion
  delete_listed client (refuse e) = deletion_failed "could not list instances: " e []
  delete_listed client (answer items) =
      let namespaces = deletions [] items in
      deletions_issued client namespaces (delete_errors client.delete_collection namespaces)

  unfoldable pub delete_instances : Crd → Deletion
  unfolding poll_condition deletions delete_errors
  delete_instances crd = elim (clients crd) [
    | refuse e ↦ deletion_failed "could not list instances: " (no_client crd e) []
    | answer client ↦ delete_listed client client.first_list
  ]

  -- The rest of a run: removes the finalizer, and sends the object.
  unfoldable pub release : (Crd → UpdateResult) → Crd → Run
  unfolding crd_remove_finalizer
  release update crd =
      let freed = crd_remove_finalizer crd cleanup_finalizer in
      after_update (update freed) freed (λ _. idle)

  -- An error of the last update in the branch of a failed deletion is logged only.
  abbrev pub after_deletion : ℕ → (Crd → UpdateResult) → Crd → Deletion → Finalized
  after_deletion now update crd d = elim (d.error) [
    | none ↦ record {
      run = release update (set_crd_condition now crd d.condition);
      namespaces = d.namespaces;
    }
    | some e ↦ record {
      run = record {
        sent = set_crd_condition now crd d.condition ∷ [];
        queued = [];
        mutated = [];
        outcome = failed e;
      };
      namespaces = d.namespaces;
    }
  ]

  -- What follows the first update; `crd` is the server's answer.
  unfoldable pub clean_up : ℕ → (Crd → UpdateResult) → Crd → Finalized
  unfolding overlapping_built_in_resource is_crd_condition_true delete_instances release
      set_crd_condition
  clean_up now update crd =
      if overlapping_built_in_resource crd.spec.group crd.spec.names.plural
      then only (release update (set_crd_condition now crd overlapping))
      else if is_crd_condition_true crd established
      then after_deletion now update crd (delete_instances crd)
      else only (release update (set_crd_condition now crd never_established))

  abbrev pub and_then : UpdateResult → Crd → (Crd → Finalized) → Finalized
  and_then (updated stored) crd next =
      let f = next stored in record f { run = record f.run { sent = crd ∷ f.run.sent } }
  and_then not_found crd next = only (record idle { sent = crd ∷ [] })
  and_then conflict crd next = only (record idle { sent = crd ∷ [] })
  and_then (update_failed e) crd next = only (record (fails e) { sent = crd ∷ [] })

  -- `now` and `later` are the times of the two calls of SetCRDCondition.
  unfoldable pub finalize_crd :
      ℕ → ℕ → (Crd → UpdateResult) → (Crd → UpdateResult) → Crd → Finalized
  unfolding crd_has_finalizer clean_up set_crd_condition
  finalize_crd now later update_first update_last crd =
      if not (is_deleted crd) || not (crd_has_finalizer crd cleanup_finalizer)
      then only idle
      else and_then (update_first (set_crd_condition now crd in_progress))
          (set_crd_condition now crd in_progress) (clean_up later update_last)

  unfoldable pub finalize :
      ℕ → ℕ → (String → Got) → (Crd → UpdateResult) → (Crd → UpdateResult) → String → Finalized
  unfolding finalize_crd
  finalize now later get update_first update_last key = elim (get key) [
    | missing ↦ only idle
    | get_failed e ↦ only (fails e)
    | got crd ↦ finalize_crd now later update_first update_last crd
  ]

-- The informer's events: the CRDs that they put in the queue. `deep_equal` is reflect.DeepEqual.
unfoldable pub wants_finalizing : Crd → Bool
unfolding crd_has_finalizer
wants_finalizing crd = is_deleted crd && crd_has_finalizer crd cleanup_finalizer

abbrev pub add_custom_resource_definition : Crd → List String
add_custom_resource_definition crd = if wants_finalizing crd then crd.name ∷ [] else []

abbrev pub for_comparison : Crd → Crd
for_comparison crd = remove_crd_condition (record crd { resource_version = "" }) terminating

unfoldable pub update_custom_resource_definition : (Crd → Crd → Bool) → Crd → Crd → List String
unfolding wants_finalizing remove_crd_condition
update_custom_resource_definition deep_equal old new =
    if not (wants_finalizing new)
    then []
    else if old.resource_version == new.resource_version
    then new.name ∷ []
    else if not (deep_equal (for_comparison old) (for_comparison new))
    then new.name ∷ []
    else []
