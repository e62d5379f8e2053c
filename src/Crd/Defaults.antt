-- ===== src/Crd/Defaults.antt =====
-- pkg/apis/apiextensions/v1/defaults.go, with the function of zz_generated.defaults.go that calls it.
-- `to_lower` is strings.ToLower.
pub mod Again
pub mod Tests
use apiextensions_apiserver.Prelude.{
  join, [], not, ◌∷◌, pos, ◌&&◌, none, ℤ, is_empty, some, ◌==◌, Option, List, if◌then◌else◌, String,
}
use apiextensions_apiserver.Crd.{
  Version, CrdSpec, WebhookClientConfig, WebhookConversion, ServiceReference, Names, Crd,
  Conversion,
}

-- What a pointer that is not nil points to is changed.
abbrev pub at_target : {A : Type 0} → (A → A) → Option A → Option A
at_target f none = none
at_target f (some x) = some (f x)

abbrev pub none_converter : String
none_converter = "None"

abbrev pub or_none_converter : Option Conversion → Option Conversion
or_none_converter none = some (record { strategy = none_converter; webhook = none })
or_none_converter (some conversion) = some conversion

-- The name of the first version for storage, if there is one.
unfoldable pub to_store : List Version → List String
to_store [] = []
to_store (v ∷ vs) = let rest = to_store vs in if v.storage then v.name ∷ [] else rest

abbrev pub or_port : Option ℤ → Option ℤ
or_port none = some (pos 443)
or_port (some port) = some port

unfoldable pub set_defaults_service_reference : ServiceReference → ServiceReference
set_defaults_service_reference obj = record obj { port = or_port obj.port }

abbrev pub service_defaults : WebhookClientConfig → WebhookClientConfig
service_defaults config = record config {
  service = at_target set_defaults_service_reference config.service;
}

abbrev pub webhook_defaults : WebhookConversion → WebhookConversion
webhook_defaults webhook = record webhook {
  client_config = at_target service_defaults webhook.client_config;
}

abbrev pub conversion_defaults : Conversion → Conversion
conversion_defaults conversion = record conversion {
  webhook = at_target webhook_defaults conversion.webhook;
}

module _ (to_lower : String → String) where
  unfoldable pub names_defaults : Names → Names
  names_defaults names = record names {
    singular = if names.singular == "" then to_lower names.kind else names.singular;
    list_kind =
        if names.list_kind == "" && not (names.kind == "")
        then join (names.kind ∷ "List" ∷ [])
        else names.list_kind;
  }

  unfoldable pub set_defaults_spec : CrdSpec → CrdSpec
  unfolding names_defaults
  set_defaults_spec obj = record obj {
    names = names_defaults obj.names;
    conversion = or_none_converter obj.conversion;
  }

  unfoldable pub set_defaults : Crd → Crd
  unfolding set_defaults_spec to_store
  set_defaults obj =
      let spec = set_defaults_spec obj.spec in
      record obj {
        spec = spec;
        status = record obj.status {
          stored_versions =
              if is_empty obj.status.stored_versions
              then to_store spec.versions
              else obj.status.stored_versions;
        };
      }

  -- SetObjectDefaults_CustomResourceDefinition
  unfoldable pub set_object_defaults : Crd → Crd
  unfolding set_defaults set_defaults_service_reference
  set_object_defaults obj =
      let crd = set_defaults obj in
      let spec = set_defaults_spec crd.spec in
      record crd {
        spec = record spec { conversion = at_target conversion_defaults spec.conversion };
      }
