-- ===== src/Conversion/Converter/Factory.antt =====
-- pkg/apiserver/conversion/converter.go, NewConverter, and webhook_converter.go,
-- NewWebhookConverter with its client configuration. Metrics are left out.
pub mod Correct
use apiextensions_apiserver.Conversion.Webhook.{webhook_convert}
use apiextensions_apiserver.Conversion.Nop.{nop_convert}
use apiextensions_apiserver.Conversion.Converter.{CrConverter, Converter, FieldSets}
use apiextensions_apiserver.Conversion.{
  no_hook_client, unknown_strategy, panics, Object, ConversionError, Machinery, Gv,
}
use Prim.Native.String
use apiextensions_apiserver.Crd.{ServiceReference, Subresources, Crd, Version}
use apiextensions_apiserver.Conversion.Review.{Review, ReviewRequest}
use apiextensions_apiserver.Prelude.{
  or_nil, ◌>>=◌, nat_eq, [], ◌&&◌, map, ◌||◌, ◌==◌, ◌∷◌, ltb, none, ok, err, false, not, ℤ, some,
  true, if◌then◌else◌, Bool, List, String, ℕ, Result, Option,
}

-- webhook.ClientConfigService and webhook.ClientConfig
pub record ClientConfigService : Type 0 where
  pub name : String
  pub namespace : String
  pub port : ℤ
  pub path : String

pub record ClientConfig : Type 0 where
  pub name : String
  pub ca_bundle : List ℕ
  pub url : String
  pub service : Option ClientConfigService

in_range : ℕ → ℕ → ℕ → Bool
in_range low high b = not (ltb b low) && not (ltb high b)

-- bytes.TrimSpace leaves nothing: the bytes are white space of Unicode in UTF-8.
blank : List ℕ → Bool
unfolding in_range
blank [] = true
blank (a ∷ []) = in_range 9 13 a || nat_eq a 32
blank (a ∷ b ∷ []) =
    (in_range 9 13 a || nat_eq a 32) && blank (b ∷ [])
    || nat_eq a 194 && (nat_eq b 133 || nat_eq b 160)
blank (a ∷ b ∷ c ∷ bytes) =
    (in_range 9 13 a || nat_eq a 32) && blank (b ∷ c ∷ bytes)
    || nat_eq a 194 && (nat_eq b 133 || nat_eq b 160) && blank (c ∷ bytes)
    || (nat_eq a 225 && nat_eq b 154 && nat_eq c 128
        || nat_eq a 226
          && nat_eq b 128
          && (in_range 128 138 c || nat_eq c 168 || nat_eq c 169 || nat_eq c 175)
        || nat_eq a 226 && nat_eq b 129 && nat_eq c 159
        || nat_eq a 227 && nat_eq b 128 && nat_eq c 128)
      && blank bytes

-- *p of a pointer
deref {ℓ} : {A : Type ℓ} → Option A → Result ConversionError A
deref none = err panics
deref (some a) = ok a

or_empty : Option String → String
or_empty none = ""
or_empty (some s) = s

client_service : Option ServiceReference → Result ConversionError (Option ClientConfigService)
unfolding deref or_empty
client_service none = ok none
client_service (some service) = do
  port ← deref (service.port)
  ok (
      some (record {
        name = service.name;
        namespace = service.namespace;
        port = port;
        path = or_empty (service.path);
      }))

unfoldable pub webhook_client_config_for_crd : Crd → Result ConversionError ClientConfig
unfolding deref client_service or_empty blank
webhook_client_config_for_crd crd = do
  conversion ← deref (crd.spec.conversion)
  webhook ← deref (conversion.webhook)
  config ← deref (webhook.client_config)
  service ← client_service (config.service)
  ok (record {
    name = String.◌++◌ "conversion_webhook_for_" (crd.name);
    ca_bundle = if blank (config.ca_bundle) then [] else config.ca_bundle;
    url = or_empty (config.url);
    service = service;
  })

-- strings.TrimPrefix(s, ".")
trim_dot : String → String
trim_dot String.[] = ""
trim_dot (String.◌∷◌ c s) = if String.◌∷◌ c "" == "." then s else String.◌∷◌ c s

has_scale : Option Subresources → Bool
has_scale none = false
has_scale (some subresources) = elim (subresources.scale) [ some s ↦ true | none ↦ false ]

any_scale : List Version → Bool
unfolding has_scale
any_scale [] = false
any_scale (v ∷ vs) = has_scale (v.subresources) || any_scale vs

abbrev crd_version : Crd → Version → Gv
crd_version crd v = record { group = crd.spec.group; version = v.name }

field_sets : Bool → Crd → List Version → FieldSets
unfolding trim_dot
field_sets selectors crd [] = []
field_sets selectors crd (v ∷ vs) =
    let rest = field_sets selectors crd vs in
    if selectors
    then (crd_version crd v, map trim_dot (or_nil (v.selectable_fields))) ∷ rest
    else rest

-- `hook_client` is clientManager.HookClient, whose client makes the web calls, and `new_uid` the
-- uuid.NewUUID of a conversion.
module _ (m : Machinery)
    (hook_client : ClientConfig → Result String (ReviewRequest → Review → Result String Review))
    (new_uid : Object → Gv → String) where
  hooked : ClientConfig → Result ConversionError (ReviewRequest → Review → Result String Review)
  hooked config = elim (hook_client config) [ ok call ↦ ok call | err e ↦ err (no_hook_client e) ]

  unfoldable pub new_webhook_converter : Crd → Result ConversionError Converter
  unfolding deref hooked
  new_webhook_converter crd = do
    config ← webhook_client_config_for_crd crd
    call ← hooked config
    conversion ← deref (crd.spec.conversion)
    webhook ← deref (conversion.webhook)
    ok (λ in_object gv.
        webhook_convert m call (or_nil (webhook.conversion_review_versions)) (new_uid in_object gv)
          in_object gv)

  converter_of : Crd → String → Result ConversionError Converter
  converter_of crd strategy =
      if strategy == "None"
      then ok (λ in_object gv. (nop_convert m in_object gv, ok (nop_convert m in_object gv)))
      else if strategy == "Webhook"
      then new_webhook_converter crd
      else err (unknown_strategy strategy)

  -- The unsafe converter; the safe one wraps it.
  unfoldable pub new_converter : Bool → Crd → Result ConversionError CrConverter
  unfolding deref converter_of any_scale field_sets
  new_converter selectors crd = do
    conversion ← deref (crd.spec.conversion)
    converter ← converter_of crd (conversion.strategy)
    ok (record {
      convert_scale = any_scale (crd.spec.versions);
      converter = converter;
      valid_versions = map (crd_version crd) (crd.spec.versions);
      cluster_scoped = crd.spec.scope == "Cluster";
      selectable_fields = field_sets selectors crd (crd.spec.versions);
    })
