-- ===== src/Crd/Tests.antt =====
-- CRDs for the examples.
use apiextensions_apiserver.Crd.{
  condition_true, cleanup_finalizer, established, names_accepted, api_approved_annotation, Version,
  Condition, Names, Crd,
}
use apiextensions_apiserver.Prelude.{pos, String, [], ◌∷◌, true, false, none}

abbrev pub foo_names : Names
foo_names = record {
  plural = "foos";
  singular = "foo";
  short_names = "fo" ∷ [];
  kind = "Foo";
  list_kind = "FooList";
  categories = [];
}

abbrev pub nothing_accepted : Names
nothing_accepted = record {
  plural = "";
  singular = "";
  short_names = [];
  kind = "";
  list_kind = "";
  categories = [];
}

abbrev pub served_v1 : Version
served_v1 = record {
  name = "v1";
  served = true;
  storage = true;
  deprecated = false;
  deprecation_warning = none;
  schema = none;
  subresources = none;
  additional_printer_columns = none;
  selectable_fields = none;
}

-- A new CRD of a protected group.
abbrev pub foo : Crd
foo = record {
  name = "foos.k8s.io";
  resource_version = "1";
  annotations = (api_approved_annotation, "unapproved, an experiment") ∷ [];
  finalizers = cleanup_finalizer ∷ "other" ∷ [];
  deletion_timestamp = none;
  spec = record {
    group = "k8s.io";
    names = foo_names;
    scope = "Cluster";
    versions = served_v1 ∷ record served_v1 { name = "v2"; served = false } ∷ [];
    conversion = none;
    preserve_unknown_fields = false;
  };
  status = record {
    conditions = [];
    accepted_names = nothing_accepted;
    stored_versions = "v1" ∷ [];
    observed_generation = pos 0;
  };
}

-- Another CRD that wants the same plural.
abbrev pub bar : Crd
bar = record foo {
  name = "bars.k8s.io";
  spec = record foo.spec { names = record foo_names { kind = "Bar"; list_kind = "BarList" } };
}

abbrev pub status_condition : String → String → Condition
status_condition type status = record {
  type = type;
  status = status;
  last_transition_time = 5;
  reason = "";
  message = "";
  observed_generation = pos 2;
}

abbrev pub with_condition : Condition → Crd → Crd
with_condition c crd = record crd {
  status = record crd.status { conditions = c ∷ crd.status.conditions };
}

abbrev pub accepted_foo : Crd
accepted_foo = with_condition (status_condition names_accepted condition_true) foo

abbrev pub established_foo : Crd
established_foo = with_condition (status_condition established condition_true) accepted_foo
