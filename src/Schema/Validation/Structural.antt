-- ===== src/Schema/Validation/Structural.antt =====
-- pkg/apiserver/schema/validation.go: what holds of a schema with which ValidateStructural finds no
-- fault. Its comment wants x-preserve-unknown-fields for every embedded resource; the code asks for
-- that or for properties.
use apiextensions_apiserver.Schema.Validation.Checks.{is_unset, is_root}
use apiextensions_apiserver.Schema.Validation.Invariants.{
  only_plain, validate_properties, validate_structural_unsorted, validate_node, validate_additional,
  validate_structural_with_options, validate_structural_invariants, insert_by, sort_by,
  validate_structural,
}
use apiextensions_apiserver.Schema.Validation.Node.{
  resource_sound, extensions_sound, unreported, node_sound, both_empty, first_unreported,
  IsNodeStructural,
}
use apiextensions_apiserver.Schema.Completeness.Mentioned.{
  complete_iff, mentioned_optional, has_place, all,
}
use apiextensions_apiserver.Schema.Completeness.{ValidationOptions, MissingField}
use apiextensions_apiserver.Schema.ListType.{FieldPath}
use apiextensions_apiserver.Schema.Validation.{
  root_level, incomplete, field_level, item_level, Violation, Level,
}
use apiextensions_apiserver.Prelude.{
  ◌∙◌, sym, is_empty, Option, map, String, arith, if◌then◌else◌, true, refl, not, false, ◌∷◌, ◌&&◌,
  [], ◌≡◌, Bool, List,
}
use apiextensions_apiserver.Schema.Structural.{
  value_validation_of, unset, no_properties, nil, structural_or_bool, property, StructuralOrBool,
  Properties, structural, Ref, Structural, to,
}

mutual
  pub IsStructural : Level → Structural → Type 0
  IsStructural lvl (structural i ps additional g x vx vv) =
      IsNodeStructural lvl i ps additional g x
      × IsRefStructural i
      × ArePropertiesStructural ps
      × IsAdditionalStructural additional

  pub IsRefStructural : Ref → Type 0
  IsRefStructural nil = Unit
  IsRefStructural (to s) = IsStructural item_level s

  pub ArePropertiesStructural : Properties → Type 0
  ArePropertiesStructural no_properties = Unit
  ArePropertiesStructural (property k s ps) =
      IsStructural field_level s × ArePropertiesStructural ps

  pub IsAdditionalStructural : StructuralOrBool → Type 0
  IsAdditionalStructural unset = Unit
  IsAdditionalStructural (structural_or_bool nil b) = Unit
  IsAdditionalStructural (structural_or_bool (to s) b) = IsStructural field_level s

module _ (compile : String → Option String) (opts : ValidationOptions) where
  additional_root_sound :
      (additional : StructuralOrBool) (lvl : Level) (path : FieldPath)
      → validate_additional compile opts additional lvl path ≡ []
      → (is_root lvl && not (is_unset additional)) ≡ false
  unfolding validate_structural_invariants
  additional_root_sound unset lvl path h = ground arith
  additional_root_sound (structural_or_bool s b) lvl path h =
      first_unreported (is_root lvl) true _ _ h

  mutual
    unfolding validate_structural_invariants IsStructural

    IsStructural-node :
        (s : Structural) (lvl : Level) (path : FieldPath)
        → validate_node compile opts s lvl path ≡ []
        → IsStructural lvl s
    IsStructural-node (structural i ps additional g x vx vv) lvl path h =
        let (h₆, resource) = both_empty _ _ h in
        let (h₅, validation) = both_empty _ _ h₆ in
        let (h₄, extensions) = both_empty _ _ h₅ in
        let (h₃, additionals) = both_empty _ _ h₄ in
        let (h₂, properties) = both_empty _ _ h₃ in
        let (array, is) = both_empty _ _ h₂ in
        (
          node_sound i ps additional g x lvl (unreported _ _ array)
              (extensions_sound x path extensions)
              (additional_root_sound additional lvl _ additionals)
              (resource_sound ps additional g x lvl path resource),
          IsRefStructural-ref i _ is,
          ArePropertiesStructural-properties ps _ properties,
          IsAdditionalStructural-additional additional lvl _ additionals,
        )

    IsRefStructural-ref :
        (s : Ref) (path : FieldPath)
        → validate_structural_invariants compile opts s item_level path ≡ []
        → IsRefStructural s
    IsRefStructural-ref nil path h = tt
    IsRefStructural-ref (to s) path h = IsStructural-node s item_level path h

    ArePropertiesStructural-properties :
        (ps : Properties) (path : FieldPath)
        → validate_properties compile opts ps path ≡ []
        → ArePropertiesStructural ps
    ArePropertiesStructural-properties no_properties path h = tt
    ArePropertiesStructural-properties (property k s ps) path h =
        let (p, q) = both_empty _ _ h in
        (IsStructural-node s field_level _ p, ArePropertiesStructural-properties ps path q)

    IsAdditionalStructural-additional :
        (additional : StructuralOrBool) (lvl : Level) (path : FieldPath)
        → validate_additional compile opts additional lvl path ≡ []
        → IsAdditionalStructural additional
    IsAdditionalStructural-additional unset lvl path h = tt
    IsAdditionalStructural-additional (structural_or_bool nil b) lvl path h = tt
    IsAdditionalStructural-additional (structural_or_bool (to s) b) lvl path h =
        IsStructural-node s field_level path (both_empty _ _ h).1

either_way :
    (b : Bool) (x y : Violation) (xs ys : List Violation) → (if b then x ∷ xs else y ∷ ys) ≡ [] → ⊥
either_way true x y xs ys h = cc
either_way false x y xs ys h = cc

nothing_inserted :
    (text : Violation → String) (err : Violation) (errs : List Violation)
    → insert_by text err errs ≡ []
    → ⊥
unfolding insert_by
nothing_inserted text err [] h = cc
nothing_inserted text err (e ∷ errs) h = either_way _ _ _ _ _ h

unsorted_empty :
    (text : Violation → String) (errs : List Violation) → sort_by text errs ≡ [] → errs ≡ []
unfolding sort_by
unsorted_empty text [] h = refl
unsorted_empty text (e ∷ errs) h = elim (nothing_inserted text e (sort_by text errs) h) [ ]

nothing_mapped : (es : List MissingField) → map incomplete es ≡ [] → is_empty es ≡ true
nothing_mapped [] h = refl
nothing_mapped (e ∷ es) h = cc

-- If ValidateStructural reports nothing for a schema, every node of its skeleton is structural: an
-- array has items; x-kubernetes-int-or-string goes neither with x-kubernetes-preserve-unknown-fields
-- nor with x-kubernetes-embedded-resource; a node has a type unless one of the first two extensions is
-- set; an embedded resource is an object without additional properties, and has properties or
-- preserves unknown fields; the root has no type other than object, and no additional properties. And
-- the schema has a schema for every place that its value validation mentions.
pub validate_structural-IsStructural :
    (compile : String → Option String) (text : Violation → String) (path : FieldPath)
    (s : Structural)
    → validate_structural compile text path (to s) ≡ []
    → IsStructural root_level s
      × (all (has_place only_plain (to s)) (mentioned_optional only_plain (value_validation_of s))
          ≡ true)
unfolding validate_structural validate_structural_with_options validate_structural_unsorted
    validate_structural_invariants
validate_structural-IsStructural compile text path s h =
    let (p, q) = both_empty _ _ (unsorted_empty text _ h) in
    (
      IsStructural-node compile only_plain s root_level path p,
      sym (complete_iff only_plain s path) ∙ nothing_mapped _ q,
    )
