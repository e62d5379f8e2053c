-- ===== src/Controller/Naming.antt =====
-- pkg/controller/status/naming_controller.go
pub mod Sync
pub mod Accepted
pub mod Verdict
pub mod Disjoint
pub mod Reach
pub mod Keeps
pub mod Again
pub mod Settled
use apiextensions_apiserver.Crd.Helpers.{find_crd_condition}
use apiextensions_apiserver.Crd.{
  condition_true, established, condition_unknown, condition_false, names_accepted, Condition, Crd,
  Names,
}
use apiextensions_apiserver.Prelude.{
  quote, not, ◌++◌, ◌&&◌, false, ◌||◌, ◌==◌, nat_eq, contains, pos, true, Bool, [], ◌∷◌, none, some,
  if◌then◌else◌, List, String, Option,
}
use Prim.Native.String

-- The two sets of names that a group's CRDs have claimed.
pub record Claimed : Type 0 where
  pub resources : List String
  pub kinds : List String

abbrev pub resource_names : Names → List String
resource_names n = n.plural ∷ n.singular ∷ n.short_names

abbrev pub kind_names : Names → List String
kind_names n = n.kind ∷ n.list_kind ∷ []

-- `obj, exists, err := c.crdMutationCache.GetByKey(curr.Name)`
abbrev pub newest : (String → Option Crd) → Crd → Crd
newest cache curr = elim (cache curr.name) [ none ↦ curr | some item ↦ item ]

unfoldable pub get_accepted_names_for_group : (String → Option Crd) → List Crd → String → Claimed
get_accepted_names_for_group cache [] group = record { resources = []; kinds = [] }
get_accepted_names_for_group cache (curr ∷ list) group =
    let rest = get_accepted_names_for_group cache list group in
    let names = (newest cache curr).status.accepted_names in
    if curr.spec.group == group
    then record {
      resources = resource_names names ++ rest.resources;
      kinds = kind_names names ++ rest.kinds;
    }
    else rest

unfoldable pub in_use : String → String
unfolding quote
in_use name = String.◌++◌ (quote name) " is already in use"

-- `none` is nil, and `some` an error's text.
unfoldable pub equal_to_accepted_or_fresh : String → String → List String → Option String
unfolding in_use
equal_to_accepted_or_fresh requested_name accepted_name used_names =
    if requested_name == accepted_name
    then none
    else if not (contains used_names requested_name)
    then none
    else some (in_use requested_name)

-- reflect.DeepEqual on slices of strings
unfoldable pub strings_equal : List String → List String → Bool
strings_equal [] [] = true
strings_equal [] (t ∷ ts) = false
strings_equal (s ∷ ss) [] = false
strings_equal (s ∷ ss) (t ∷ ts) = s == t && strings_equal ss ts

unfoldable pub names_equal : Names → Names → Bool
unfolding strings_equal
names_equal m n =
    m.plural == n.plural
    && m.singular == n.singular
    && strings_equal m.short_names n.short_names
    && m.kind == n.kind
    && m.list_kind == n.list_kind
    && strings_equal m.categories n.categories

-- The variables `newNames` and `namesAcceptedCondition`.
pub record Draft : Type 0 where
  pub names : Names
  pub condition : Condition

abbrev pub condition_of : String → String → String → String → Condition
condition_of type status reason message = record {
  type = type;
  status = status;
  last_transition_time = 0;
  reason = reason;
  message = message;
  observed_generation = pos 0;
}

abbrev conflicts : String → String → Draft → Draft
conflicts reason message d = record d {
  condition = record d.condition { status = condition_false; reason = reason; message = message };
}

abbrev settle : Option String → String → Names → Draft → Draft
settle none reason names d = record d { names = names }
settle (some message) reason names d = conflicts reason message d

-- The errors of the loop over the requested short names.
unfoldable pub short_name_errors : List String → List String → List String → List String
unfolding equal_to_accepted_or_fresh
short_name_errors [] existing used = []
short_name_errors (name ∷ names) existing used =
    let rest = short_name_errors names existing used in
    if contains existing name
    then rest
    else elim (equal_to_accepted_or_fresh name "" used) [ none ↦ rest | some e ↦ e ∷ rest ]

abbrev pub empty_names : Names
empty_names = record {
  plural = "";
  singular = "";
  short_names = [];
  kind = "";
  list_kind = "";
  categories = [];
}

-- `aggregate` is the text of utilerrors.NewAggregate(errs), for errors that there are.
module _ (aggregate : List String → String) where
  abbrev aggregated : List String → Option String
  aggregated [] = none
  aggregated (e ∷ es) = some (aggregate (e ∷ es))

  -- The checks of calculateNamesAndConditions, in order. `r` are the requested names and `a` the
  -- accepted ones.
  unfoldable pub check_plural : Names → Names → Claimed → Draft → Draft
  unfolding equal_to_accepted_or_fresh
  check_plural r a used d =
      settle (equal_to_accepted_or_fresh r.plural a.plural used.resources) "PluralConflict"
        (record d.names { plural = r.plural }) d

  unfoldable pub check_singular : Names → Names → Claimed → Draft → Draft
  unfolding equal_to_accepted_or_fresh
  check_singular r a used d =
      settle (equal_to_accepted_or_fresh r.singular a.singular used.resources) "SingularConflict"
        (record d.names { singular = r.singular }) d

  unfoldable pub check_short_names : Names → Names → Claimed → Draft → Draft
  unfolding short_name_errors strings_equal
  check_short_names r a used d =
      if strings_equal r.short_names a.short_names
      then d
      else settle (aggregated (short_name_errors r.short_names a.short_names used.resources))
          "ShortNamesConflict" (record d.names { short_names = r.short_names }) d

  unfoldable pub check_kind : Names → Names → Claimed → Draft → Draft
  unfolding equal_to_accepted_or_fresh
  check_kind r a used d =
      settle (equal_to_accepted_or_fresh r.kind a.kind used.kinds) "KindConflict"
        (record d.names { kind = r.kind }) d

  unfoldable pub check_list_kind : Names → Names → Claimed → Draft → Draft
  unfolding equal_to_accepted_or_fresh
  check_list_kind r a used d =
      settle (equal_to_accepted_or_fresh r.list_kind a.list_kind used.kinds) "ListKindConflict"
        (record d.names { list_kind = r.list_kind }) d

  unfoldable pub check_names : Names → Names → Claimed → Draft
  unfolding check_plural check_singular check_short_names check_kind check_list_kind
  check_names r a used =
      let start : Draft = record {
        names = a;
        condition = condition_of names_accepted condition_unknown "" "";
      } in
      let d = check_list_kind r a used (
        check_kind r a used
          (check_short_names r a used (check_singular r a used (check_plural r a used start)))) in
      record d { names = record d.names { categories = r.categories } }

  -- `if namesAcceptedCondition.Status == ConditionUnknown`
  abbrev pub or_no_conflicts : Condition → Condition
  or_no_conflicts c =
      if c.status == condition_unknown
      then record c {
        status = condition_true;
        reason = "NoConflicts";
        message = "no conflicts found";
      }
      else c

  abbrev old_or_not_accepted : Option Condition → Condition
  old_or_not_accepted (some old) = old
  old_or_not_accepted none =
      condition_of established condition_false "NotAccepted" "not all names are accepted"

  unfoldable pub established_condition : Crd → Condition → Condition
  unfolding find_crd_condition
  established_condition crd naming =
      let old = old_or_not_accepted (find_crd_condition crd established) in
      if not (old.status == condition_true) && naming.status == condition_true
      then condition_of established condition_false "Installing"
          "the initial names have been accepted"
      else old

  unfoldable pub calculate_names_and_conditions :
      (String → Option Crd) → List Crd → Crd → Names × Condition × Condition
  unfolding get_accepted_names_for_group check_names established_condition
  calculate_names_and_conditions cache list crd =
      let used = get_accepted_names_for_group cache list crd.spec.group in
      let d = check_names crd.spec.names crd.status.accepted_names used in
      let naming = or_no_conflicts d.condition in
      (d.names, naming, established_condition crd naming)
