-- ===== src/Schema/Structural.antt =====
-- pkg/apiserver/schema/structural.go. A pointer is a reference that may be nil, a map is a list
-- of entries in one of its iteration orders, and a float64 is its bit pattern.
use apiextensions_apiserver.Prelude.{
  ℤ, ℕ, String, Bool, false, Option, none, some, List, [], ◌==◌, if◌then◌else◌,
}
use apiextensions_apiserver.Schema.Json.{Json, null}

pub record Generic : Type 0 where
  pub description : String
  pub type : String
  pub title : String
  pub default : Json
  pub nullable : Bool

pub record Extensions : Type 0 where
  pub x_preserve_unknown_fields : Bool
  pub x_embedded_resource : Bool
  pub x_int_or_string : Bool
  pub x_list_map_keys : List String
  pub x_list_type : Option String
  pub x_map_type : Option String

-- ValidationRule of pkg/apis/apiextensions/v1/types_jsonschema.go
pub record ValidationRule : Type 0 where
  pub rule : String
  pub message : String
  pub message_expression : String
  pub reason : Option String
  pub field_path : String
  pub optional_old_self : Option Bool

pub record ValidationExtensions : Type 0 where
  pub x_validations : List ValidationRule

-- The fields of ValueValidation that hold no schema.
pub record ValueLimits : Type 0 where
  pub format : String
  pub maximum : Option ℕ
  pub exclusive_maximum : Bool
  pub minimum : Option ℕ
  pub exclusive_minimum : Bool
  pub max_length : Option ℤ
  pub min_length : Option ℤ
  pub pattern_ : String
  pub max_items : Option ℤ
  pub min_items : Option ℤ
  pub unique_items : Bool
  pub multiple_of : Option ℕ
  pub enum : List Json
  pub max_properties : Option ℤ
  pub min_properties : Option ℤ
  pub required : List String

mutual
  pub data ValueValidation : Type 0 where
    value_validation :
        ValueLimits → (all_of one_of any_of : NestedList) → (not_ : NestedRef) → ValueValidation

  pub data NestedValueValidation : Type 0 where
    nested :
        ValueValidation
        → ValidationExtensions
        → (items : NestedRef) → (properties : NestedProperties)
        → (additional_properties : NestedRef) → (forbidden_generics : Generic)
        → (forbidden_extensions : Extensions) → NestedValueValidation

  pub data NestedRef : Type 0 where
    nil_nested : NestedRef
    to_nested : NestedValueValidation → NestedRef

  pub data NestedList : Type 0 where
    no_nested : NestedList
    more_nested : NestedValueValidation → NestedList → NestedList

  pub data NestedProperties : Type 0 where
    no_nested_properties : NestedProperties
    nested_property : String → NestedValueValidation → NestedProperties → NestedProperties

mutual
  pub data Structural : Type 0 where
    structural :
        (items : Ref)
        → (properties : Properties) → (additional_properties : StructuralOrBool) → Generic
        → Extensions
        → ValidationExtensions
        → Option ValueValidation
        → Structural

  pub data Ref : Type 0 where
    nil : Ref
    to : Structural → Ref

  pub data Properties : Type 0 where
    no_properties : Properties
    property : String → Structural → Properties → Properties

  -- *StructuralOrBool
  pub data StructuralOrBool : Type 0 where
    unset : StructuralOrBool
    structural_or_bool : Ref → Bool → StructuralOrBool

abbrev pub items : Structural → Ref
items (structural i ps ap g x vx vv) = i

abbrev pub properties : Structural → Properties
properties (structural i ps ap g x vx vv) = ps

abbrev pub additional_properties : Structural → StructuralOrBool
additional_properties (structural i ps ap g x vx vv) = ap

abbrev pub generic : Structural → Generic
generic (structural i ps ap g x vx vv) = g

abbrev pub extensions : Structural → Extensions
extensions (structural i ps ap g x vx vv) = x

abbrev pub value_validation_of : Structural → Option ValueValidation
value_validation_of (structural i ps ap g x vx vv) = vv

-- s.Properties[k]
unfoldable pub lookup : String → Properties → Option Structural
lookup k no_properties = none
lookup k (property j s ps) = if j == k then some s else lookup k ps

abbrev pub no_generic : Generic
no_generic = record { description = ""; type = ""; title = ""; default = null; nullable = false }

abbrev pub no_extensions : Extensions
no_extensions = record {
  x_preserve_unknown_fields = false;
  x_embedded_resource = false;
  x_int_or_string = false;
  x_list_map_keys = [];
  x_list_type = none;
  x_map_type = none;
}

-- The limits of ValueValidation{}.
abbrev pub no_limits : ValueLimits
no_limits = record {
  format = "";
  maximum = none;
  exclusive_maximum = false;
  minimum = none;
  exclusive_minimum = false;
  max_length = none;
  min_length = none;
  pattern_ = "";
  max_items = none;
  min_items = none;
  unique_items = false;
  multiple_of = none;
  enum = [];
  max_properties = none;
  min_properties = none;
  required = [];
}

-- ValueValidation{}
abbrev pub no_validation : ValueValidation
no_validation = value_validation no_limits no_nested no_nested no_nested nil_nested

-- Structural{}
abbrev pub empty_structural : Structural
empty_structural =
    structural nil no_properties unset no_generic no_extensions (record { x_validations = [] }) none
