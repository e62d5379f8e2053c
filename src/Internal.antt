-- ===== src/Internal.antt =====
-- pkg/apis/apiextensions/types.go: the internal CustomResourceDefinition, which the registry works
-- on. A type with the fields of the v1 one is the record of Crd.
use apiextensions_apiserver.Prelude.{Bool, ℕ, List, ℤ, Option, String}
use apiextensions_apiserver.Crd.{
  Version, Names, Validation, Subresources, ColumnDefinition, CrdStatus,
}
pub mod Document
pub mod Strategy
pub mod Hoisting
pub mod Helpers
pub mod Tests

pub record InternalServiceReference : Type 0 where
  pub namespace : String
  pub name : String
  pub path : Option String
  pub port : ℤ

pub record InternalWebhookClientConfig : Type 0 where
  pub url : Option String
  pub service : Option InternalServiceReference
  pub ca_bundle : List ℕ

pub record InternalConversion : Type 0 where
  pub strategy : String
  pub webhook_client_config : Option InternalWebhookClientConfig
  pub conversion_review_versions : Option (List String)

pub record InternalSpec : Type 0 where
  pub group : String
  pub version : String
  pub names : Names
  pub scope : String
  pub validation : Option Validation
  pub subresources : Option Subresources
  pub versions : List Version
  pub additional_printer_columns : Option (List ColumnDefinition)
  pub selectable_fields : Option (List String)
  pub conversion : Option InternalConversion
  pub preserve_unknown_fields : Option Bool

pub record InternalCrd : Type 0 where
  pub name : String
  pub generation : ℤ
  pub spec : InternalSpec
  pub status : CrdStatus
