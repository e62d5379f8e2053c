-- ===== src/Schema/Visitor/Tests.antt =====
-- Runs of the visitor, and the theorems about it at these schemas.
use apiextensions_apiserver.Schema.Visitor.Defaults.{default-strip_value_validations}
use apiextensions_apiserver.Schema.Defaulting.{default}
use apiextensions_apiserver.Schema.Visitor.Stripped.{visit-eq-at_every_node, at_every_node, Honest}
use apiextensions_apiserver.Schema.Visitor.{
  drop_nullable, strip_value_validations, visit_structural,
}
use apiextensions_apiserver.Schema.Structural.{
  no_limits, nil_nested, no_nested, value_validation, no_extensions, no_generic, unset,
  no_properties, property, to, nil, structural, Structural,
}
use apiextensions_apiserver.Prelude.{sym, ◌≡◌, some, none, [], true, refl}
use apiextensions_apiserver.Schema.Json.{no_members, obj, str}

-- A nullable value with a validation and a default.
abbrev date : Structural
date =
    structural nil no_properties unset
      (record no_generic { nullable = true; default = str "1970-01-01" }) no_extensions
      (record { x_validations = [] })
      (some (
        value_validation (record no_limits { format = "date" }) no_nested no_nested no_nested
          nil_nested))

-- The validated value is a property of the items.
abbrev dates : Structural
dates =
    structural
      (to (
        structural nil (property "on" date no_properties) unset no_generic no_extensions
          (record { x_validations = [] }) none))
      no_properties unset no_generic no_extensions (record { x_validations = [] }) none

abbrev bare_date : Structural
bare_date =
    structural nil no_properties unset
      (record no_generic { nullable = true; default = str "1970-01-01" }) no_extensions
      (record { x_validations = [] }) none

strips_inside :
    strip_value_validations dates
    ≡ structural
        (to (
          structural nil
            (property "on" bare_date no_properties)
            unset
            no_generic
            no_extensions
            (record { x_validations = [] })
            none))
        no_properties
        unset
        no_generic
        no_extensions
        (record { x_validations = [] })
        none
unfolding strip_value_validations visit_structural
strips_inside = refl

Honest-drop_nullable : Honest drop_nullable
Honest-drop_nullable g x vv e = (λ i. record g { nullable = sym e i }, refl)

visit-eq-at_every_node_example :
    (visit_structural drop_nullable dates).0 ≡ at_every_node drop_nullable dates
visit-eq-at_every_node_example = visit-eq-at_every_node drop_nullable dates Honest-drop_nullable

default-strip_value_validations_example :
    default (strip_value_validations date) (obj no_members) ≡ default date (obj no_members)
default-strip_value_validations_example = default-strip_value_validations date (obj no_members)
