-- ===== src/Schema/Completeness/Mentioned.antt =====
-- pkg/apiserver/schema/complete.go, compared with the places that a validation mentions.
use apiextensions_apiserver.Prelude.{
  ◌≡◌, refl, ℕ, suc, sym, ap, arith, ap₂, ◌∙◌, String, Bool, true, false, ◌&&◌, Option, none, some,
  List, [], ◌∷◌, ◌++◌, map, is_empty, if◌then◌else◌,
}
use apiextensions_apiserver.Schema.ListType.{FieldPath, at_child, at_key, at_index}
use apiextensions_apiserver.Schema.Completeness.{
  place_or_additional, ValidationOptions, MissingField, structural_of, Place, nowhere, found,
  in_additional, place_of, validate_value_validation_completeness,
  validate_nested_value_validation_completeness, validate_nested_ref_completeness,
  validate_nested_list_completeness, validate_nested_properties_completeness, schema_at, path_of,
  unless_nowhere, required_error, validate_optional_completeness, validate_structural_completeness,
}
use apiextensions_apiserver.Schema.Structural.{
  properties, lookup, ValueValidation, value_validation, NestedValueValidation, nested, NestedRef,
  nil_nested, to_nested, NestedList, no_nested, more_nested, NestedProperties, no_nested_properties,
  nested_property, Structural, items, additional_properties, value_validation_of, Ref, nil, to,
}

-- A place of a schema, from its root.
pub data Step : Type 0 where
  to_items : Step
  to_property : String → Step
  to_additional : Step

abbrev pub all : {A : Type 0} → (A → Bool) → List A → Bool
all test [] = true
all test (x ∷ xs) = test x && all test xs

module _ (opts : ValidationOptions) where
  abbrev declared_or : Option Structural → Ref → Ref
  declared_or (some s) additional = to s
  declared_or none additional =
      if opts.allow_validation_properties_with_additional_properties then additional else nil

  -- The schema of a property: its own, or under the option that of the additional properties.
  unfoldable schema_of_property : Structural → String → Ref
  unfolding lookup structural_of
  schema_of_property s k =
      declared_or (lookup k (properties s)) (structural_of (additional_properties s))

  schema_at-place_or_additional :
      (declared : Option Structural) (additional : Ref)
      → schema_at (
          place_or_additional
            (opts.allow_validation_properties_with_additional_properties)
            declared
            additional)
        ≡ declared_or declared additional
  schema_at-place_or_additional (some s) additional = refl
  schema_at-place_or_additional none nil = ground arith
  schema_at-place_or_additional none (to s) = ground arith

  schema_at-place_of :
      (s : Structural) (k : String) → schema_at (place_of opts s k) ≡ schema_of_property s k
  unfolding place_of schema_of_property
  schema_at-place_of s k =
      schema_at-place_or_additional (lookup k (properties s))
        (structural_of (additional_properties s))

  -- Whether the schema has a schema for the place.
  unfoldable pub has_place : Ref → List Step → Bool
  unfolding schema_of_property structural_of
  has_place nil places = false
  has_place (to s) [] = true
  has_place (to s) (to_items ∷ places) = has_place (items s) places
  has_place (to s) (to_property k ∷ places) = has_place (schema_of_property s k) places
  has_place (to s) (to_additional ∷ places) =
      has_place (structural_of (additional_properties s)) places

  unfoldable mutual
    -- The places that a validation says something about: its own, and those of the validations in it.
    pub mentioned : ValueValidation → List (List Step)
    mentioned (value_validation limits all_of one_of any_of not_) =
        [] ∷ mentioned_ref not_
        ++ mentioned_list all_of
        ++ mentioned_list any_of
        ++ mentioned_list one_of

    pub mentioned_nested : NestedValueValidation → List (List Step)
    mentioned_nested (nested v rules is ps additional generics extensions) =
        mentioned v
        ++ map (λ places. to_items ∷ places) (mentioned_ref is)
        ++ mentioned_properties ps
        ++ (if opts.allow_nested_additional_properties
            then map (λ places. to_additional ∷ places) (mentioned_ref additional)
            else [])

    pub mentioned_ref : NestedRef → List (List Step)
    mentioned_ref nil_nested = []
    mentioned_ref (to_nested v) = mentioned_nested v

    pub mentioned_list : NestedList → List (List Step)
    mentioned_list no_nested = []
    mentioned_list (more_nested v vs) = mentioned_nested v ++ mentioned_list vs

    pub mentioned_properties : NestedProperties → List (List Step)
    mentioned_properties no_nested_properties = []
    mentioned_properties (nested_property k v vs) =
        map (λ places. to_property k ∷ places) (mentioned_nested v) ++ mentioned_properties vs

  unfoldable pub mentioned_optional : Option ValueValidation → List (List Step)
  unfolding mentioned
  mentioned_optional none = []
  mentioned_optional (some v) = mentioned v

  abbrev at_additional : NestedRef → List (List Step)
  at_additional v =
      if opts.allow_nested_additional_properties
      then map (λ places. to_additional ∷ places) (mentioned_ref v)
      else []

pub is_empty-append :
    {A : Type 0} (xs ys : List A) → is_empty (xs ++ ys) ≡ (is_empty xs && is_empty ys)
is_empty-append [] ys = refl
is_empty-append (x ∷ xs) ys = refl

module _ {A : Type 0} (test : A → Bool) where
  pub all-append : (xs ys : List A) → all test (xs ++ ys) ≡ (all test xs && all test ys)
  all-append [] ys = refl
  all-append (x ∷ xs) ys = ground (arith, all-append xs ys)

  -- Lists of errors and of places that agree are put together.
  pub agree-append :
      {E : Type 0} (es fs : List E) (xs ys : List A)
      → is_empty es ≡ all test xs
      → is_empty fs ≡ all test ys
      → is_empty (es ++ fs) ≡ all test (xs ++ ys)
  agree-append es fs xs ys h k = is_empty-append es fs ∙ ap₂ ◌&&◌ h k ∙ sym (all-append xs ys)

  pub agree-if :
      {E : Type 0} (b : Bool) (es : List E) (xs : List A)
      → is_empty es ≡ all test xs
      → is_empty (if b then es else []) ≡ all test (if b then xs else [])
  agree-if true es xs h = h
  agree-if false es xs h = refl

pub all-map :
    {A B : Type 0} (test : B → Bool) (f : A → B) (xs : List A)
    → all test (map f xs) ≡ all (λ x. test (f x)) xs
all-map test f [] = refl
all-map test f (x ∷ xs) = ap (λ b. test (f x) && b) (all-map test f xs)

module _ (opts : ValidationOptions) where
  -- Where there is no schema for a property, its own place is mentioned and missing.
  unless_nowhere_lem :
      (v : NestedValueValidation) (place : Place) (s_path v_path : FieldPath)
      (errs : List MissingField)
      → is_empty errs ≡ all (has_place opts (schema_at place)) (mentioned_nested opts v)
      → is_empty (unless_nowhere place (required_error s_path v_path) errs)
        ≡ all (has_place opts (schema_at place)) (mentioned_nested opts v)
  unfolding has_place mentioned
  unless_nowhere_lem (nested (value_validation limits ls os ys n) r is ps a g e) nowhere s_path
        v_path errs h =
      refl
  unless_nowhere_lem v (found s) s_path v_path errs h = h
  unless_nowhere_lem v (in_additional s) s_path v_path errs h = h

  mutual
    unfolding validate_value_validation_completeness has_place mentioned place_of

    value_lem :
        (v : ValueValidation) (s : Ref) (s_path v_path : FieldPath)
        → is_empty (validate_value_validation_completeness opts v s s_path v_path)
          ≡ all (has_place opts s) (mentioned opts v)
    value_lem (value_validation limits ls os ys n) nil s_path v_path = refl
    value_lem (value_validation limits ls os ys n) (to s) s_path v_path =
        agree-append (has_place opts (to s)) _ _
          (mentioned_ref opts n ++ mentioned_list opts ls ++ mentioned_list opts ys)
          (mentioned_list opts os)
          (agree-append (has_place opts (to s)) _ _ (mentioned_ref opts n ++ mentioned_list opts ls)
            (mentioned_list opts ys)
            (agree-append (has_place opts (to s)) _ _ (mentioned_ref opts n)
              (mentioned_list opts ls) (ref_lem n (to s) s_path (at_child "not" ∷ v_path))
              (list_lem 0 ls (to s) s_path (at_child "allOf" ∷ v_path)))
            (list_lem 0 ys (to s) s_path (at_child "anyOf" ∷ v_path)))
          (list_lem 0 os (to s) s_path (at_child "oneOf" ∷ v_path))

    nested_lem :
        (v : NestedValueValidation) (s : Ref) (s_path v_path : FieldPath)
        → is_empty (validate_nested_value_validation_completeness opts v s s_path v_path)
          ≡ all (has_place opts s) (mentioned_nested opts v)
    nested_lem (nested (value_validation limits ls os ys n) r is ps a g e) nil s_path v_path = refl
    nested_lem (nested v rules is ps a generics e) (to s) s_path v_path =
        agree-append (has_place opts (to s)) _ _
          (mentioned opts v
            ++ map (λ places. to_items ∷ places) (mentioned_ref opts is)
            ++ mentioned_properties opts ps)
          (at_additional opts a)
          (agree-append (has_place opts (to s)) _ _
            (mentioned opts v ++ map (λ places. to_items ∷ places) (mentioned_ref opts is))
            (mentioned_properties opts ps)
            (agree-append (has_place opts (to s)) _ _ (mentioned opts v)
              (map (λ places. to_items ∷ places) (mentioned_ref opts is))
              (value_lem v (to s) s_path v_path)
              (ref_lem is (items s) (at_child "items" ∷ s_path) (at_child "items" ∷ v_path)
                ∙ sym (
                    all-map (has_place opts (to s)) (λ places. to_items ∷ places)
                      (mentioned_ref opts is))))
            (properties_lem ps s s_path v_path))
          (agree-if (has_place opts (to s)) (opts.allow_nested_additional_properties) _
            (map (λ places. to_additional ∷ places) (mentioned_ref opts a))
            (ref_lem a (structural_of (additional_properties s))
                (at_child "additionalProperties" ∷ s_path)
                (at_child "additionalProperties" ∷ v_path)
              ∙ sym (
                  all-map (has_place opts (to s)) (λ places. to_additional ∷ places)
                    (mentioned_ref opts a))))

    ref_lem :
        (v : NestedRef) (s : Ref) (s_path v_path : FieldPath)
        → is_empty (validate_nested_ref_completeness opts v s s_path v_path)
          ≡ all (has_place opts s) (mentioned_ref opts v)
    ref_lem nil_nested s s_path v_path = refl
    ref_lem (to_nested v) s s_path v_path = nested_lem v s s_path v_path

    list_lem :
        (i : ℕ) (vs : NestedList) (s : Ref) (s_path v_path : FieldPath)
        → is_empty (validate_nested_list_completeness opts i vs s s_path v_path)
          ≡ all (has_place opts s) (mentioned_list opts vs)
    list_lem i no_nested s s_path v_path = refl
    list_lem i (more_nested v vs) s s_path v_path =
        agree-append (has_place opts s) _ _ (mentioned_nested opts v) (mentioned_list opts vs)
          (nested_lem v s s_path (at_index i ∷ v_path)) (list_lem (suc i) vs s s_path v_path)

    properties_lem :
        (vs : NestedProperties) (s : Structural) (s_path v_path : FieldPath)
        → is_empty (validate_nested_properties_completeness opts vs s s_path v_path)
          ≡ all (has_place opts (to s)) (mentioned_properties opts vs)
    properties_lem no_nested_properties s s_path v_path = refl
    properties_lem (nested_property k v vs) s s_path v_path =
        agree-append (has_place opts (to s)) _ _
          (map (λ places. to_property k ∷ places) (mentioned_nested opts v))
          (mentioned_properties opts vs)
          (unless_nowhere_lem v (place_of opts s k) (path_of (place_of opts s k) k s_path)
              (at_key k ∷ at_child "properties" ∷ v_path) _
              (nested_lem v (schema_at (place_of opts s k)) (path_of (place_of opts s k) k s_path)
                (at_key k ∷ at_child "properties" ∷ v_path))
            ∙ ap (λ r. all (has_place opts r) (mentioned_nested opts v))
                (schema_at-place_of opts s k)
            ∙ sym (
                all-map (has_place opts (to s)) (λ places. to_property k ∷ places)
                  (mentioned_nested opts v)))
          (properties_lem vs s s_path v_path)

  optional_lem :
      (v : Option ValueValidation) (s : Ref) (path : FieldPath)
      → is_empty (validate_optional_completeness opts v s path)
        ≡ all (has_place opts s) (mentioned_optional opts v)
  unfolding validate_optional_completeness mentioned_optional
  optional_lem none s path = refl
  optional_lem (some v) s path = value_lem v s path path

-- validateStructuralCompleteness reports nothing exactly if the schema has a schema for every place
-- that its value validation mentions: the root, the items, the properties and, where the options
-- allow them, the additional properties of every validation nested in it. Under the option for it, a
-- property that is not declared has the schema of the additional properties.
pub complete_iff :
    (opts : ValidationOptions) (s : Structural) (path : FieldPath)
    → is_empty (validate_structural_completeness opts (to s) path)
      ≡ all (has_place opts (to s)) (mentioned_optional opts (value_validation_of s))
unfolding validate_structural_completeness
complete_iff opts s path = optional_lem opts (value_validation_of s) (to s) path
