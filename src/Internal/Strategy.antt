-- ===== src/Internal/Strategy.antt =====
-- pkg/apis/apiextensions/v1/conversion.go with the generated functions that it calls: a conversion
-- strategy to the internal type and back.
pub mod RoundTrip
use apiextensions_apiserver.Internal.{
  InternalConversion, InternalWebhookClientConfig, InternalServiceReference,
}
use apiextensions_apiserver.Crd.{
  Conversion, WebhookConversion, WebhookClientConfig, ServiceReference,
}
use apiextensions_apiserver.Prelude.{List, ℤ, Option, String, refl, some, none, pos}

port_or_zero : Option ℤ → ℤ
port_or_zero none = pos 0
port_or_zero (some port) = port

service_in : Option ServiceReference → Option InternalServiceReference
unfolding port_or_zero
service_in none = none
service_in (some service) = some (record {
  namespace = service.namespace;
  name = service.name;
  path = service.path;
  port = port_or_zero (service.port);
})

service_out : Option InternalServiceReference → Option ServiceReference
service_out none = none
service_out (some service) = some (record {
  namespace = service.namespace;
  name = service.name;
  path = service.path;
  port = some (service.port);
})

client_config_in : Option WebhookClientConfig → Option InternalWebhookClientConfig
unfolding service_in
client_config_in none = none
client_config_in (some config) = some (record {
  url = config.url;
  service = service_in (config.service);
  ca_bundle = config.ca_bundle;
})

client_config_out : Option InternalWebhookClientConfig → Option WebhookClientConfig
unfolding service_out
client_config_out none = none
client_config_out (some config) = some (record {
  url = config.url;
  service = service_out (config.service);
  ca_bundle = config.ca_bundle;
})

webhook_in : String → Option WebhookConversion → InternalConversion
unfolding client_config_in
webhook_in strategy none = record {
  strategy = strategy;
  webhook_client_config = none;
  conversion_review_versions = none;
}
webhook_in strategy (some webhook) = record {
  strategy = strategy;
  webhook_client_config = client_config_in (webhook.client_config);
  conversion_review_versions = webhook.conversion_review_versions;
}

unfoldable pub conversion_in : Option Conversion → Option InternalConversion
unfolding webhook_in
conversion_in none = none
conversion_in (some conversion) = some (webhook_in (conversion.strategy) (conversion.webhook))

webhook_out : Option InternalWebhookClientConfig → Option (List String) → Option WebhookConversion
unfolding client_config_out
webhook_out none none = none
webhook_out config versions =
    some
      (record { client_config = client_config_out config; conversion_review_versions = versions })

unfoldable pub conversion_out : Option InternalConversion → Option Conversion
unfolding webhook_out
conversion_out none = none
conversion_out (some conversion) = some (record {
  strategy = conversion.strategy;
  webhook = webhook_out (conversion.webhook_client_config) (conversion.conversion_review_versions);
})
