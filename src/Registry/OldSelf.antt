-- ===== src/Registry/OldSelf.antt =====
-- pkg/registry/customresourcedefinition/strategy.go and SchemaHas of
-- pkg/apis/apiextensions/validation/validation.go: the field optionalOldSelf of the validation rules
-- in a schema, which is the document of its JSONSchemaProps.
use apiextensions_apiserver.Schema.Json.{
  Json, Elems, Members, arr, obj, no_elems, elem, no_members, member, find, remove,
}
use apiextensions_apiserver.Prelude.{
  ◌==◌, contains, if◌then◌else◌, ◌||◌, String, Option, Bool, List, true, false, some, none, [], ◌∷◌,
}

abbrev schema_keys : List String
schema_keys = "not" ∷ "additionalProperties" ∷ "additionalItems" ∷ []

abbrev list_keys : List String
list_keys = "allOf" ∷ "anyOf" ∷ "oneOf" ∷ []

abbrev map_keys : List String
map_keys = "properties" ∷ "patternProperties" ∷ "definitions" ∷ "dependencies" ∷ []

-- `pred` looks at the fields of one schema.
module _ (pred : Members → Bool) where
  unfoldable mutual
    pub schema_has : Json → Bool
    schema_has (obj ms) = pred ms || fields_have ms
    schema_has v = false

    fields_have : Members → Bool
    fields_have no_members = false
    fields_have (member k v ms) =
        let rest = fields_have ms in
        let one = schema_has v in
        let each = entries_have v in
        let values = values_in v in
        (if contains schema_keys k
          then one
          else if contains list_keys k
          then each
          else if contains map_keys k
          then values
          else if k == "items"
          then one || each
          else false)
        || rest

    entries_have : Json → Bool
    entries_have (arr es) = elems_have es
    entries_have v = false

    elems_have : Elems → Bool
    elems_have no_elems = false
    elems_have (elem v es) = schema_has v || elems_have es

    values_in : Json → Bool
    values_in (obj ms) = values_have ms
    values_in v = false

    values_have : Members → Bool
    values_have no_members = false
    values_have (member k v ms) = schema_has v || values_have ms

any_optional : Elems → Bool
any_optional no_elems = false
any_optional (elem (obj rule) es) = elim (find "optionalOldSelf" rule) [
  | some b ↦ true
  | none ↦ any_optional es
]
any_optional (elem v es) = any_optional es

rules_optional : Option Json → Bool
unfolding any_optional
rules_optional (some (arr rules)) = any_optional rules
rules_optional v = false

unfoldable pub schema_has_optional_old_self : Json → Bool
unfolding rules_optional
schema_has_optional_old_self =
    schema_has (λ ms. rules_optional (find "x-kubernetes-validations" ms))

rules_without : Elems → Elems
rules_without no_elems = no_elems
rules_without (elem (obj rule) es) = elem (obj (remove "optionalOldSelf" rule)) (rules_without es)
rules_without (elem v es) = elem v (rules_without es)

without_optional : Json → Json
unfolding rules_without
without_optional (arr rules) = arr (rules_without rules)
without_optional v = v

unfoldable mutual
  unfolding without_optional

  pub drop_optional_old_self_field : Json → Json
  drop_optional_old_self_field (obj ms) = obj (drop_in_fields ms)
  drop_optional_old_self_field v = v

  drop_in_fields : Members → Members
  drop_in_fields no_members = no_members
  drop_in_fields (member k v ms) =
      let rest = drop_in_fields ms in
      let one = drop_optional_old_self_field v in
      let items = drop_in_items v in
      let values = drop_in_properties v in
      if k == "x-kubernetes-validations"
      then member k (without_optional v) rest
      else if k == "additionalProperties"
      then member k one rest
      else if k == "properties"
      then member k values rest
      else if k == "items"
      then member k items rest
      else member k v rest

  drop_in_items : Json → Json
  drop_in_items (obj ms) = obj (drop_in_fields ms)
  drop_in_items (arr es) = arr (drop_in_elems es)
  drop_in_items v = v

  drop_in_elems : Elems → Elems
  drop_in_elems no_elems = no_elems
  drop_in_elems (elem v es) = elem (drop_optional_old_self_field v) (drop_in_elems es)

  drop_in_properties : Json → Json
  drop_in_properties (obj ms) = obj (drop_in_values ms)
  drop_in_properties v = v

  drop_in_values : Members → Members
  drop_in_values no_members = no_members
  drop_in_values (member k v ms) = member k (drop_optional_old_self_field v) (drop_in_values ms)
