-- ===== src/Conversion/Samples.antt =====
-- A machinery, a webhook and a list of custom resources for the theorems on conversion.
use apiextensions_apiserver.Conversion.Nop.Retargeted.{Sets}
use apiextensions_apiserver.Conversion.Metadata.{restore_object_meta, validate_converted_object}
use apiextensions_apiserver.Conversion.Webhook.{convert_item, convert_items, webhook_convert}
use apiextensions_apiserver.Conversion.Review.{
  get_converted_objects_from_response, get_objects_to_convert, create_conversion_review_objects,
  is_empty_unstructured_object, v1beta1_review, ReviewRequest, Review,
}
use Prim.Native.String
use apiextensions_apiserver.Conversion.{
  with_kind, single, many, Object, group_version, Gvk, Gv, metadata_field, Documented, Machinery,
}
use apiextensions_apiserver.Schema.Json.{
  find-assign, remove, len_members, obj, no_members, member, assign, Json, Members, find, str,
}
use apiextensions_apiserver.Prelude.{
  eq_iff, arith, ◌∙◌, refl, ok, ◌≡◌, Result, ◌||◌, ◌==◌, if◌then◌else◌, Bool, ap₂, ap, Option,
  String, List, some, none, [], ◌∷◌, false,
}

abbrev pub text_at : Option Json → String
text_at (some (str s)) = s
text_at v = ""

has_slash : String → Bool
has_slash String.[] = false
has_slash (String.◌∷◌ c s) = String.◌∷◌ c "" == "/" || has_slash s

before_slash : String → String
before_slash String.[] = ""
before_slash (String.◌∷◌ c s) =
    let rest = before_slash s in if String.◌∷◌ c "" == "/" then "" else String.◌∷◌ c rest

after_slash : String → String
after_slash String.[] = ""
after_slash (String.◌∷◌ c s) =
    let rest = after_slash s in if String.◌∷◌ c "" == "/" then s else rest

gvk_from : Option Json → Option Json → Gvk
unfolding has_slash before_slash after_slash
gvk_from version kind =
    let s = text_at version in
    record {
      group = if has_slash s then before_slash s else "";
      version = if has_slash s then after_slash s else s;
      kind = text_at kind;
    }

abbrev pub gv_text : Gv → String
gv_text gv =
    if gv.group == "" then gv.version else String.◌++◌ (gv.group) (String.◌++◌ "/" (gv.version))

with_gvk : Gvk → Members → Members
with_gvk gvk ms =
    assign "kind" (str (gvk.kind)) (assign "apiVersion" (str (gv_text (group_version gvk))) ms)

-- The keys of empty values.
empty_values : List (String × String) → List String
empty_values [] = []
empty_values ((k, v) ∷ rest) = let later = empty_values rest in if v == "" then k ∷ later else later

unfoldable pub machinery : Machinery
unfolding gvk_from with_gvk empty_values
machinery = record {
  gvk_of = λ ms. gvk_from (find "apiVersion" ms) (find "kind" ms);
  set_gvk = with_gvk;
  api_version_of = λ ms. text_at (find "apiVersion" ms);
  set_api_version = λ version ms. assign "apiVersion" (str version) ms;
  kind_of = λ ms. text_at (find "kind" ms);
  name_of = λ ms. text_at (metadata_field "name" ms);
  namespace_of = λ ms. text_at (metadata_field "namespace" ms);
  uid_of = λ ms. text_at (metadata_field "uid" ms);
  gv_string = gv_text;
  unmarshal = λ raw. none;
  validate_labels = empty_values;
  validate_annotations = empty_values;
}

pub machinery-Documented : Documented machinery
unfolding machinery
machinery-Documented = record {
  kind_reads = λ a b h. ap text_at h;
  gvk_reads = λ a b h k. ap₂ gvk_from h k;
  name_reads = λ a b h. ap text_at h;
  namespace_reads = λ a b h. ap text_at h;
  uid_reads = λ a b h. ap text_at h;
}

abbrev pub v1 : Gv
v1 = record { group = "example.com"; version = "v1" }

abbrev pub v2 : Gv
v2 = record { group = "example.com"; version = "v2" }

abbrev pub metadata : String → Members → Members
metadata name labels = member "name" (str name) (
    member "uid" (str "7")
      (member "labels" (obj labels) (member "annotations" (obj no_members) no_members)))

abbrev pub resource : Gv → String → Members → Members
resource gv name labels =
    member "apiVersion" (str (gv_text gv))
      (member "kind" (str "Foo") (member "metadata" (obj (metadata name labels)) no_members))

abbrev pub red : Members
red = member "colour" (str "red") no_members

-- A list in v2, whose first item is in v1.
abbrev pub list_header : Members
list_header = member "apiVersion" (str "example.com/v2") (member "kind" (str "FooList") no_members)

abbrev pub foos : Object
foos = many list_header (resource v1 "a" no_members ∷ resource v2 "b" no_members ∷ [])

-- The webhook gives the item a label, and forgets its UID's namesake.
abbrev pub answer : String → Review
answer uid = v1beta1_review (
    some (record {
      uid = uid;
      converted_objects = record { object = some (single (resource v2 "a" red)); raw = "" } ∷ [];
      status = "Success";
      message = "";
    }))

unfoldable pub call : ReviewRequest → Review → Result String Review
call request empty = ok (answer "")

abbrev pub foos_in_v2 : Object
foos_in_v2 = many list_header (resource v2 "a" red ∷ resource v2 "b" no_members ∷ [])

foos_are_converted : (webhook_convert machinery call ("v1beta1" ∷ []) "u" foos v2).1 ≡ ok foos_in_v2
unfolding machinery webhook_convert call is_empty_unstructured_object
    create_conversion_review_objects get_objects_to_convert find get_converted_objects_from_response
    convert_items convert_item validate_converted_object restore_object_meta len_members assign
    remove
foos_are_converted = refl

read_back :
    (kind : String) (ms : Members)
    → machinery.gvk_of (machinery.set_gvk (with_kind v1 kind) ms) ≡ with_kind v1 kind
unfolding machinery
read_back kind ms =
    ap₂ gvk_from
      (find-assign "kind" "apiVersion" (str kind) (assign "apiVersion" (str "example.com/v1") ms)
        ∙ find-assign "apiVersion" "apiVersion" (str "example.com/v1") ms)
      (find-assign "kind" "kind" (str kind) (assign "apiVersion" (str "example.com/v1") ms))

other_key :
    (k : String)
    → (k == "apiVersion" || k == "kind") ≡ false
    → (("apiVersion" == k) ≡ false) × (("kind" == k) ≡ false)
other_key k h = (
  ground (arith, h, eq_iff k "apiVersion", eq_iff "apiVersion" k),
  ground (arith, h, eq_iff k "kind", eq_iff "kind" k),
)

others :
    (kind k : String) (ms : Members)
    → (k == "apiVersion" || k == "kind") ≡ false
    → find k (machinery.set_gvk (with_kind v1 kind) ms) ≡ find k ms
unfolding machinery
others kind k ms h =
    let (not_version, not_kind) = other_key k h in
    find-assign "kind" k (str kind) (assign "apiVersion" (str "example.com/v1") ms)
    ∙ rw (not_kind, find-assign "apiVersion" k (str "example.com/v1") ms, not_version) refl

pub machinery-Sets : Sets machinery v1
machinery-Sets = record { read_back = read_back; others = others }
