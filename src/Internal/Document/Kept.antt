-- ===== src/Internal/Document/Kept.antt =====
-- The conversion of a schema in pkg/apis/apiextensions/v1/conversion.go: a document that it keeps.
use apiextensions_apiserver.Schema.Defaulting.{is_null}
use apiextensions_apiserver.Schema.Json.{
  no_members, null, no_elems, str, float, int, bool, member, elem, Elems, arr, obj, Members, Json,
}
use apiextensions_apiserver.Internal.Document.{
  named_schemas_out, named_out, holds_named_schemas, holds_schemas, fields_out, schemas_out,
  unless_null, document_out, schema_out,
}
use apiextensions_apiserver.Prelude.{
  refl, true, ◌||◌, ◌==◌, ◌∙◌, ap₂, if◌then◌else◌, false, ◌&&◌, none, ap, some, ◌≡◌, Bool, Option,
  String,
}
use apiextensions_apiserver.Crd.{Validation}

-- Nothing that is named default or example is null, at any depth of the document.
mutual
  pub IsKept : Json → Type 0
  IsKept (obj ms) = AreFieldsKept ms
  IsKept (arr xs) = AreKept xs
  IsKept v = Unit

  pub AreKept : Elems → Type 0
  AreKept no_elems = Unit
  AreKept (elem v xs) = IsKept v × AreKept xs

  pub AreFieldsKept : Members → Type 0
  AreFieldsKept no_members = Unit
  AreFieldsKept (member k v ms) =
      (((k == "default" || k == "example") && is_null v) ≡ false) × IsKept v × AreFieldsKept ms

unless_null-eq :
    (v : Json) (dropped kept : Members) → is_null v ≡ false → unless_null v dropped kept ≡ kept
unless_null-eq null dropped kept h = cc
unless_null-eq (bool b) dropped kept h = refl
unless_null-eq (int b) dropped kept h = refl
unless_null-eq (float b) dropped kept h = refl
unless_null-eq (str b) dropped kept h = refl
unless_null-eq (arr b) dropped kept h = refl
unless_null-eq (obj b) dropped kept h = refl

-- What becomes of a field, if what is below it is kept.
field-eq :
    (a b c : Bool) (k : String) (v : Json) (schemas named : Json) (ms rest : Members)
    → (a && is_null v) ≡ false
    → schemas ≡ v
    → named ≡ v
    → rest ≡ ms
    → (if a
        then unless_null v rest (member k v rest)
        else if b
        then member k schemas rest
        else if c
        then member k named rest
        else member k v rest)
      ≡ member k v ms
field-eq true b c k v schemas named ms rest h s n e =
    unless_null-eq v rest (member k v rest) h ∙ ap (member k v) e
field-eq false true c k v schemas named ms rest h s n e = ap₂ (member k) s e
field-eq false false true k v schemas named ms rest h s n e = ap₂ (member k) n e
field-eq false false false k v schemas named ms rest h s n e = ap (member k v) e

mutual
  unfolding schema_out IsKept

  pub schema_out-eq : (v : Json) → IsKept v → schema_out v ≡ v
  schema_out-eq (obj ms) h = ap obj (fields_out-eq ms h)
  schema_out-eq (arr xs) h = ap arr (schemas_out-eq xs h)
  schema_out-eq _ h = refl

  schemas_out-eq : (xs : Elems) → AreKept xs → schemas_out xs ≡ xs
  schemas_out-eq no_elems h = refl
  schemas_out-eq (elem v xs) (h, l) = ap₂ elem (schema_out-eq v h) (schemas_out-eq xs l)

  fields_out-eq : (ms : Members) → AreFieldsKept ms → fields_out ms ≡ ms
  fields_out-eq no_members h = refl
  fields_out-eq (member k v ms) (here, h, l) =
      field-eq (k == "default" || k == "example") (holds_schemas k) (holds_named_schemas k) k v
        (schema_out v) (named_out v) ms (fields_out ms) here (schema_out-eq v h) (named_out-eq v h)
        (fields_out-eq ms l)

  named_out-eq : (v : Json) → IsKept v → named_out v ≡ v
  named_out-eq (obj ms) h = ap obj (named_schemas_out-eq ms h)
  named_out-eq _ h = refl

  named_schemas_out-eq : (ms : Members) → AreFieldsKept ms → named_schemas_out ms ≡ ms
  named_schemas_out-eq no_members h = refl
  named_schemas_out-eq (member k v ms) (here, h, l) =
      ap₂ (member k) (schema_out-eq v h) (named_schemas_out-eq ms l)

abbrev pub IsDocumentKept : Option Json → Type 0
IsDocumentKept none = Unit
IsDocumentKept (some v) = IsKept v

pub document_out-eq : (v : Option Json) → IsDocumentKept v → document_out v ≡ v
document_out-eq none h = refl
document_out-eq (some v) h = ap some (schema_out-eq v h)

abbrev pub IsSchemaKept : Option Validation → Type 0
IsSchemaKept none = Unit
IsSchemaKept (some v) = IsDocumentKept v.open_api_v3_schema
