-- ===== src/Schema/Validation/Node.antt =====
-- pkg/apiserver/schema/validation.go: what the absence of errors says of the fields of one node.
use apiextensions_apiserver.Schema.Validation.Checks.{
  is_root, len_properties, resource_errors, type_errors, is_nil_ref, validate_extensions, is_unset,
}
use apiextensions_apiserver.Schema.ListType.{FieldPath}
use apiextensions_apiserver.Schema.Validation.{report, Violation, Level}
use apiextensions_apiserver.Prelude.{
  arith, if◌then◌else◌, nat_eq, ◌||◌, true, refl, not, false, ◌==◌, ◌∷◌, ◌&&◌, [], ◌≡◌, ◌++◌, Bool,
  List,
}
use apiextensions_apiserver.Schema.Structural.{
  StructuralOrBool, Extensions, Properties, Generic, Ref,
}

-- An array has items; the extensions go together; a value has a type unless its extensions say that
-- it may be of several; an embedded resource is an object with fields; the root is an object without
-- additional properties.
pub record IsNodeStructural (lvl : Level) (i : Ref) (ps : Properties)
    (additional : StructuralOrBool) (g : Generic) (x : Extensions) : Type 0 where
  pub array : (g.type == "array" && is_nil_ref i) ≡ false
  pub int_or_string :
      (x.x_int_or_string && (x.x_preserve_unknown_fields || x.x_embedded_resource)) ≡ false
  pub typed : (not (g.type == "") || x.x_int_or_string || x.x_preserve_unknown_fields) ≡ true
  pub embedded :
      (not x.x_embedded_resource
        || (g.type == "object"
            && is_unset additional
            && (x.x_preserve_unknown_fields || not (nat_eq (len_properties ps) 0))))
      ≡ true
  pub root : (is_root lvl && not (is_unset additional)) ≡ false
  pub root_type : (is_root lvl && not (g.type == "") && not (g.type == "object")) ≡ false

pub both_empty : {A : Type 0} (xs ys : List A) → xs ++ ys ≡ [] → (xs ≡ []) × (ys ≡ [])
both_empty [] ys h = (refl, h)
both_empty (x ∷ xs) ys h = cc

pub unreported : (b : Bool) (err : Violation) → report b err ≡ [] → b ≡ false
unreported false err h = refl
unreported true err h = cc

one_of_both :
    (b t c : Bool) (e₁ e₂ e₃ : Violation)
    → (if b then (if t then e₁ ∷ [] else e₂ ∷ []) else report c e₃) ≡ []
    → (b ≡ false) × (c ≡ false)
one_of_both true true c e₁ e₂ e₃ h = cc
one_of_both true false c e₁ e₂ e₃ h = cc
one_of_both false t c e₁ e₂ e₃ h = (refl, unreported c e₃ h)

type_sound :
    (g : Generic) (x : Extensions) (lvl : Level) (path : FieldPath)
    → type_errors g x lvl path ≡ []
    → ((x.x_embedded_resource && not (g.type == "object")) ≡ false)
      × ((g.type == "" && not x.x_int_or_string && not x.x_preserve_unknown_fields) ≡ false)
unfolding type_errors
type_sound g x lvl path h =
    one_of_both (x.x_embedded_resource && not (g.type == "object")) (g.type == "")
      (g.type == "" && not x.x_int_or_string && not x.x_preserve_unknown_fields) _ _ _ h

-- What the absence of the errors of a node says of its fields.
pub record Faultless (ps : Properties) (additional : StructuralOrBool) (g : Generic)
    (x : Extensions) (lvl : Level) : Type 0 where
  object : (x.x_embedded_resource && not (g.type == "object")) ≡ false
  typed : (g.type == "" && not x.x_int_or_string && not x.x_preserve_unknown_fields) ≡ false
  closed : (x.x_embedded_resource && not (is_unset additional)) ≡ false
  root : (is_root lvl && not (g.type == "") && not (g.type == "object")) ≡ false
  fields :
      (x.x_embedded_resource && not x.x_preserve_unknown_fields && nat_eq (len_properties ps) 0)
      ≡ false

pub resource_sound :
    (ps : Properties) (additional : StructuralOrBool) (g : Generic) (x : Extensions) (lvl : Level)
    (path : FieldPath)
    → resource_errors ps additional g x lvl path ≡ []
    → Faultless ps additional g x lvl
unfolding resource_errors
resource_sound ps additional g x lvl path h =
    let (h₆, fields) = both_empty _ _ h in
    let (h₅, m) = both_empty _ _ h₆ in
    let (h₄, v) = both_empty _ _ h₅ in
    let (h₃, k) = both_empty _ _ h₄ in
    let (h₂, root) = both_empty _ _ h₃ in
    let (types, closed) = both_empty _ _ h₂ in
    let (object, typed) = type_sound g x lvl path types in
    record {
      object = object;
      typed = typed;
      closed = unreported _ _ closed;
      root = unreported _ _ root;
      fields = unreported _ _ fields;
    }

pub exclusive : (a b c : Bool) → (a && b) ≡ false → (a && c) ≡ false → (a && (b || c)) ≡ false
exclusive a b c p q = ground arith

pub extensions_sound :
    (x : Extensions) (path : FieldPath)
    → validate_extensions x path ≡ []
    → (x.x_int_or_string && (x.x_preserve_unknown_fields || x.x_embedded_resource)) ≡ false
unfolding validate_extensions
extensions_sound x path h =
    let (p, q) = both_empty _ _ h in
    exclusive (x.x_int_or_string) (x.x_preserve_unknown_fields) (x.x_embedded_resource)
      (unreported _ _ p) (unreported _ _ q)

pub first_unreported :
    (b c : Bool) (err : Violation) (xs : List Violation)
    → report b err ++ xs ≡ []
    → (b && c) ≡ false
first_unreported false c err xs h = refl
first_unreported true c err xs h = cc

pub node_sound :
    (i : Ref) (ps : Properties) (additional : StructuralOrBool) (g : Generic) (x : Extensions)
    (lvl : Level)
    → (g.type == "array" && is_nil_ref i) ≡ false
    → (x.x_int_or_string && (x.x_preserve_unknown_fields || x.x_embedded_resource)) ≡ false
    → (is_root lvl && not (is_unset additional)) ≡ false
    → Faultless ps additional g x lvl
    → IsNodeStructural lvl i ps additional g x
node_sound i ps additional g x lvl array int_or_string root f =
    let object = f.object in
    let typed = f.typed in
    let closed = f.closed in
    let fields = f.fields in
    record {
      array = array;
      int_or_string = int_or_string;
      typed = ground arith;
      embedded = ground arith;
      root = root;
      root_type = f.root;
    }
