-- ===== src/Crd/Helpers/Examples.antt =====
-- The theorems about the helpers at sample CRDs.
use apiextensions_apiserver.Crd.Tests.{established_foo, status_condition}
use apiextensions_apiserver.Crd.Helpers.Conditions.{find-set_crd_condition}
use apiextensions_apiserver.Crd.{condition_false, established, Condition}
use apiextensions_apiserver.Crd.Helpers.{set_crd_condition, find_crd_condition}
use apiextensions_apiserver.Prelude.{◌≡◌, some, pos}

abbrev lost : Condition
lost = status_condition established condition_false

-- The status changes, so the time does; the observed generation stays.
find-set_crd_condition_example :
    find_crd_condition
      (set_crd_condition 9 established_foo (record lost { observed_generation = pos 7 }))
      established
    ≡ some (record lost { last_transition_time = 9 })
unfolding find_crd_condition
find-set_crd_condition_example =
    find-set_crd_condition 9 established_foo (record lost { observed_generation = pos 7 })
      established
