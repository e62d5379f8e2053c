-- ===== src/Crd/Defaults/Tests.antt =====
-- Runs of the defaults of pkg/apis/apiextensions/v1/defaults.go.
use apiextensions_apiserver.Crd.Defaults.Again.{HasDefaults, set_object_defaults_idem}
use apiextensions_apiserver.Crd.Defaults.{to_store, set_object_defaults}
use apiextensions_apiserver.Crd.{Crd}
use apiextensions_apiserver.Crd.Tests.{foo, nothing_accepted}
use apiextensions_apiserver.Prelude.{join, refl, [], ◌≡◌, ◌==◌, none, if◌then◌else◌, String}

-- strings.ToLower of what is used here
abbrev to_lower : String → String
to_lower s = if s == "Foo" then "foo" else s

abbrev bare_foo : Crd
bare_foo = record foo {
  spec = record foo.spec { names = record nothing_accepted { kind = "Foo" }; conversion = none };
  status = record foo.status { stored_versions = [] };
}

names_are_set :
    (set_object_defaults to_lower bare_foo).spec.names
    ≡ record nothing_accepted { kind = "Foo"; singular = "foo"; list_kind = "FooList" }
unfolding set_object_defaults join
names_are_set = refl

version_is_stored :
    (set_object_defaults to_lower bare_foo).status.stored_versions ≡ to_store foo.spec.versions
unfolding set_object_defaults
version_is_stored = refl

set_object_defaults_idem_example :
    HasDefaults to_lower bare_foo (set_object_defaults to_lower bare_foo)
    × (set_object_defaults to_lower (set_object_defaults to_lower bare_foo)
        ≡ set_object_defaults to_lower bare_foo)
set_object_defaults_idem_example = set_object_defaults_idem to_lower bare_foo
