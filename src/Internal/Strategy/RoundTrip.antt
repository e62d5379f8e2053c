-- ===== src/Internal/Strategy/RoundTrip.antt =====
-- pkg/apis/apiextensions/v1/conversion.go: a conversion strategy to the internal type and back.
use apiextensions_apiserver.Internal.Strategy.{
  conversion_in, conversion_out, webhook_in, webhook_out, client_config_in, client_config_out,
  service_in, service_out, port_or_zero,
}
use apiextensions_apiserver.Crd.{
  Conversion, WebhookConversion, WebhookClientConfig, ServiceReference,
}
use apiextensions_apiserver.Prelude.{ap₂, ap, List, ◌≡◌, ℤ, Option, String, refl, some, none}

abbrev IsPortSet : Option ServiceReference → Type 0
IsPortSet none = Unit
IsPortSet (some service) = (port : ℤ) × (service.port ≡ some port)

abbrev IsServicePortSet : Option WebhookClientConfig → Type 0
IsServicePortSet none = Unit
IsServicePortSet (some config) = IsPortSet (config.service)

abbrev HasContent : Option WebhookClientConfig → Option (List String) → Type 0
HasContent none none = ⊥
HasContent config versions = Unit

abbrev IsWebhookDefaulted : Option WebhookConversion → Type 0
IsWebhookDefaulted none = Unit
IsWebhookDefaulted (some webhook) =
    HasContent (webhook.client_config) (webhook.conversion_review_versions)
    × IsServicePortSet (webhook.client_config)

-- As defaulting and validation leave it: a webhook has a client configuration or review versions, and
-- a service has its port.
abbrev pub IsDefaulted : Option Conversion → Type 0
IsDefaulted none = Unit
IsDefaulted (some conversion) = IsWebhookDefaulted (conversion.webhook)

some-port_or_zero : (q : Option ℤ) (port : ℤ) → q ≡ some port → some (port_or_zero q) ≡ q
unfolding port_or_zero
some-port_or_zero none port e = cc
some-port_or_zero (some q) port e = refl

strategy-webhook_in :
    (strategy : String) (webhook : Option WebhookConversion)
    → (webhook_in strategy webhook).strategy ≡ strategy
unfolding webhook_in
strategy-webhook_in strategy none = refl
strategy-webhook_in strategy (some webhook) = refl

service_out-service_in :
    (service : Option ServiceReference)
    → IsPortSet service
    → service_out (service_in service) ≡ service
unfolding service_out service_in port_or_zero
service_out-service_in none h = refl
service_out-service_in (some service) (port, e) =
    ap (λ q. some (record service { port = q })) (some-port_or_zero (service.port) port e)

client_config_out-client_config_in :
    (config : Option WebhookClientConfig)
    → IsServicePortSet config
    → client_config_out (client_config_in config) ≡ config
unfolding client_config_out client_config_in
client_config_out-client_config_in none h = refl
client_config_out-client_config_in (some config) h =
    ap (λ service. some (record config { service = service }))
      (service_out-service_in (config.service) h)

webhook_out-client_config_in :
    (config : Option WebhookClientConfig) (versions : Option (List String))
    → HasContent config versions
    → IsServicePortSet config
    → webhook_out (client_config_in config) versions
      ≡ some (record { client_config = config; conversion_review_versions = versions })
unfolding webhook_out client_config_in client_config_out
webhook_out-client_config_in none none h p = elim h [ ]
webhook_out-client_config_in none (some versions) h p = refl
webhook_out-client_config_in (some config) versions h p =
    ap (λ c. some (record { client_config = c; conversion_review_versions = versions }))
      (client_config_out-client_config_in (some config) p)

webhook_out-webhook_in :
    (strategy : String) (webhook : Option WebhookConversion)
    → IsWebhookDefaulted webhook
    → webhook_out
        (webhook_in strategy webhook).webhook_client_config
        (webhook_in strategy webhook).conversion_review_versions
      ≡ webhook
unfolding webhook_in webhook_out
webhook_out-webhook_in strategy none h = refl
webhook_out-webhook_in strategy (some webhook) (content, port) =
    webhook_out-client_config_in (webhook.client_config) (webhook.conversion_review_versions)
      content port

pub conversion_out-conversion_in :
    (conversion : Option Conversion)
    → IsDefaulted conversion
    → conversion_out (conversion_in conversion) ≡ conversion
unfolding conversion_out conversion_in
conversion_out-conversion_in none h = refl
conversion_out-conversion_in (some conversion) h =
    ap₂ (λ s w. some (record { strategy = s; webhook = w }))
      (strategy-webhook_in (conversion.strategy) (conversion.webhook))
      (webhook_out-webhook_in (conversion.strategy) (conversion.webhook) h)
