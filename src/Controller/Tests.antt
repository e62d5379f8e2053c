-- ===== src/Controller/Tests.antt =====
-- Runs of the controllers, and the theorems about them at sample CRDs.
use apiextensions_apiserver.Controller.Approval.Verdict.{approval_verdict, is_approved}
use apiextensions_apiserver.Controller.Naming.Settled.{sync_settles}
use apiextensions_apiserver.Controller.Approval.Memory.{written_once}
use apiextensions_apiserver.Crd.Helpers.Truth.{EstablishedIs}
use apiextensions_apiserver.Controller.Naming.Verdict.{
  accepted-eq-requested, names_accepted_iff, AllMayTake,
}
use apiextensions_apiserver.Controller.Finalizing.Events.{own_update_ignored}
use apiextensions_apiserver.Controller.Naming.Reach.{synced, created, none_yet, next, no_conflict}
use apiextensions_apiserver.Controller.Naming.Disjoint.{Compatible}
use apiextensions_apiserver.Controller.Finalizing.Release.{finalizer_stays, MayGo, IsHeld}
use apiextensions_apiserver.Crd.Tests.{accepted_foo, established_foo, foo, bar}
use apiextensions_apiserver.Controller.Client.{idle, got, updated, UpdateResult, Got}
use apiextensions_apiserver.Crd.Helpers.{
  set_condition, find_condition, find_crd_condition, get_or_empty, get_api_approval_state,
  is_protected_community_group, Url, is_crd_condition_true, set_crd_condition, crd_has_finalizer,
}
use apiextensions_apiserver.Controller.Naming.Sync.{nothing_new, sync, renamed}
use apiextensions_apiserver.Controller.Approval.{
  approve, calculate_condition, last_seen, approve_crd,
}
use apiextensions_apiserver.Controller.Finalizing.{
  clean_up, waiting, answer, in_progress, CrClient, poll_failed, Answer, emptied, deletions,
  update_custom_resource_definition, Poll,
}
use apiextensions_apiserver.Controller.Establishing.{verdict, has_bad_ca_bundle, establish}
use apiextensions_apiserver.Controller.Naming.{
  established_condition, strings_equal, short_name_errors, equal_to_accepted_or_fresh,
  check_list_kind, get_accepted_names_for_group, check_kind, check_short_names, names_equal,
  check_singular, check_plural, check_names, calculate_names_and_conditions,
}
use apiextensions_apiserver.Controller.Finalizing.Deletions.{deletes_once, lies_in, times}
use apiextensions_apiserver.Crd.{api_approval_policy_conformant, condition_true, Crd}
use apiextensions_apiserver.Controller.Lasting.{
  Write, IsByEstablishing, by_naming, at_first, written, by_establishing, established_lasts,
  becomes_established, Ready, Libraries,
}
use apiextensions_apiserver.Prelude.{
  inr, inl, has_suffix, ◌↔◌, ◌⊎◌, if◌then◌else◌, Pairwise, Option, ◌≢◌, All, List, String, ℕ, [],
  ◌∷◌, true, some, none, refl,
}
use mathlib.Core.Path.{◌≡◌}

-- A mutation cache that is empty, and the text of an aggregate.
abbrev no_cache : String → Option Crd
no_cache name = none

abbrev joined : List String → String
joined es = "conflict"

abbrev foo_named : Crd
foo_named = renamed joined 1 no_cache (foo ∷ bar ∷ []) foo

abbrev bar_named : Crd
bar_named = renamed joined 2 no_cache (foo_named ∷ bar ∷ []) bar

-- The second CRD gets its kinds and its other names, and not the plural of the first.
second_is_refused : bar_named.status.accepted_names.plural ≡ ""
unfolding renamed calculate_names_and_conditions set_crd_condition check_names check_plural
    check_singular check_short_names check_kind check_list_kind equal_to_accepted_or_fresh
    get_accepted_names_for_group short_name_errors strings_equal established_condition
    find_crd_condition find_condition set_condition
second_is_refused = refl

no_conflict_example : Pairwise Compatible (foo_named ∷ bar_named ∷ [])
unfolding renamed
no_conflict_example = no_conflict joined (
    next
      (next (next (next (none_yet) (created bar refl refl)) (created foo refl refl))
        (synced 1 no_cache (foo ∷ bar ∷ []) [] foo (bar ∷ []) (inr refl, tt) refl refl))
      (synced 2 no_cache (foo_named ∷ bar ∷ []) (foo_named ∷ []) bar [] (inl (inl (refl, refl)), tt)
        refl refl))

names_accepted_iff_example :
    ((calculate_names_and_conditions joined no_cache (foo_named ∷ bar ∷ []) bar).1.status
      ≡ condition_true)
    ↔ AllMayTake bar.spec.names bar.status.accepted_names
        (get_accepted_names_for_group no_cache (foo_named ∷ bar ∷ []) bar.spec.group)
names_accepted_iff_example = names_accepted_iff joined no_cache (foo_named ∷ bar ∷ []) bar

accepted-eq-requested_example :
    (calculate_names_and_conditions joined no_cache (foo ∷ bar ∷ []) foo).0 ≡ foo.spec.names
unfolding calculate_names_and_conditions check_names check_plural check_singular check_short_names
    check_kind check_list_kind equal_to_accepted_or_fresh get_accepted_names_for_group
    short_name_errors strings_equal
accepted-eq-requested_example = accepted-eq-requested joined no_cache (foo ∷ bar ∷ []) foo refl

abbrev stores : Crd → UpdateResult
stores crd = updated crd

-- The CRD that is refused its plural is not written again and again.
sync_settles_example :
    sync joined 9 no_cache (foo_named ∷ bar ∷ []) (λ key. got bar_named) stores "bars.k8s.io" ≡ idle
sync_settles_example =
    sync_settles joined no_cache (foo_named ∷ bar ∷ []) bar 2 9 (λ key. got bar_named) stores
      "bars.k8s.io" refl

-- A poll that asks once.
once : Poll → Option String
once emptied = none
once waiting = some "timed out waiting for the condition"
once (poll_failed e) = some e

once-emptied : (p : Poll) → once p ≡ none → p ≡ emptied
unfolding once
once-emptied emptied h = refl
once-emptied waiting h = cc
once-emptied (poll_failed e) h = cc

abbrev poll_once : (ℕ → Poll) → Option String
poll_once f = once (f 0)

-- One instance, which is gone after the deletion.
abbrev one_instance : Crd → Answer CrClient
one_instance crd = answer (record {
  first_list = answer (some "default" ∷ []);
  delete_collection = λ namespace. none;
  later_list = λ n. answer [];
})

finalizer_stays_example :
    All
      (λ o. IsHeld o ⊎ MayGo joined poll_once one_instance established_foo)
      (clean_up joined poll_once one_instance 7 stores established_foo).run.sent
unfolding crd_has_finalizer
finalizer_stays_example =
    finalizer_stays joined poll_once one_instance 7 stores established_foo
      (λ f h. (0, once-emptied (f 0) h)) refl

deletes_once_example :
    times "a" (deletions [] (some "a" ∷ none ∷ some "b" ∷ some "a" ∷ []))
    ≡ (if lies_in "a" (some "a" ∷ none ∷ some "b" ∷ some "a" ∷ []) then 1 else 0)
deletes_once_example = deletes_once (some "a" ∷ none ∷ some "b" ∷ some "a" ∷ []) "a"

own_update_ignored_example :
    update_custom_resource_definition
      (λ c d. true)
      foo
      (record (set_crd_condition 7 foo in_progress) { resource_version = "2" })
    ≡ []
own_update_ignored_example =
    own_update_ignored (λ c d. true) 7 foo in_progress "2" (λ c. refl) refl refl

abbrev no_url : String → Option Url
no_url text = none

not_nil : {A : Type 0} (x : A) (xs : List A) → x ∷ xs ≢ []
not_nil x xs h = cc

written_once_example :
    approve_crd no_url 9 stores foo (approve_crd no_url 8 stores foo []).1
    ≡ (idle, (approve_crd no_url 8 stores foo []).1)
unfolding approve_crd last_seen calculate_condition is_protected_community_group has_suffix
    get_api_approval_state get_or_empty find_crd_condition find_condition
written_once_example =
    written_once no_url 8 9 stores stores [] foo foo (λ o. (o, refl)) (not_nil _ _) refl refl

abbrev lib : Libraries
lib = record {
  aggregate = joined;
  parse_request_uri = no_url;
  valid_ca_bundle = λ bundle. true;
  poll = poll_once;
  clients = one_instance;
}

abbrev get_established : String → Got
get_established key = got established_foo

-- The naming controller writes the names of an established CRD.
established_lasts_example :
    EstablishedIs true (renamed joined 3 no_cache (established_foo ∷ []) established_foo)
unfolding renamed sync nothing_new names_equal is_crd_condition_true
established_lasts_example =
    established_lasts lib
      (written (at_first) (
        by_naming 3 no_cache (established_foo ∷ []) get_established stores "foos.k8s.io" refl
          (inl refl)))
      refl

abbrev get_accepted : String → Got
get_accepted key = got accepted_foo

foo_is_established :
    Write lib accepted_foo
      (set_crd_condition 3 accepted_foo (verdict (λ bundle. true) accepted_foo))
unfolding establish is_crd_condition_true has_bad_ca_bundle
foo_is_established = by_establishing 3 get_accepted stores "foos.k8s.io" refl (inl refl)

becomes_established_example :
    IsByEstablishing lib foo_is_established × Ready (λ bundle. true) accepted_foo
unfolding is_crd_condition_true has_bad_ca_bundle set_crd_condition
becomes_established_example = becomes_established lib foo_is_established refl refl

approval_verdict_example :
    All
      (λ o. is_crd_condition_true o api_approval_policy_conformant ≡ is_approved no_url foo)
      (approve no_url 8 (λ key. got foo) stores "foos.k8s.io" []).0.sent
approval_verdict_example =
    approval_verdict no_url 8 (λ key. got foo) stores "foos.k8s.io" [] foo refl
