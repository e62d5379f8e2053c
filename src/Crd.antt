-- ===== src/Crd.antt =====
-- pkg/apis/apiextensions/v1/types.go: the CustomResourceDefinition, with the metadata that the
-- helpers and the controllers read; the internal types of the same fields are the same records. A
-- time is a number, and 0 is the zero time. Where a nil slice and an empty one lead to different
-- results, the slice is an Option.
pub mod Helpers
pub mod Defaults
pub mod Tests
use apiextensions_apiserver.Schema.Json.{Json}
use apiextensions_apiserver.Prelude.{Bool, ℤ, ℕ, List, Option, String}

pub record Condition : Type 0 where
  pub type : String
  pub status : String
  pub last_transition_time : ℕ
  pub reason : String
  pub message : String
  pub observed_generation : ℤ

pub record Names : Type 0 where
  pub plural : String
  pub singular : String
  pub short_names : List String
  pub kind : String
  pub list_kind : String
  pub categories : List String

pub record ColumnDefinition : Type 0 where
  pub name : String
  pub type : String
  pub format : String
  pub description : String
  pub priority : ℤ
  pub json_path : String

pub record Scale : Type 0 where
  pub spec_replicas_path : String
  pub status_replicas_path : String
  pub label_selector_path : Option String

pub record Subresources : Type 0 where
  pub status : Option (Unit {0})
  pub scale : Option Scale

-- A schema is the JSON document of its JSONSchemaProps.
pub record Validation : Type 0 where
  pub open_api_v3_schema : Option Json

pub record Version : Type 0 where
  pub name : String
  pub served : Bool
  pub storage : Bool
  pub deprecated : Bool
  pub deprecation_warning : Option String
  pub schema : Option Validation
  pub subresources : Option Subresources
  pub additional_printer_columns : Option (List ColumnDefinition)
  pub selectable_fields : Option (List String)

pub record ServiceReference : Type 0 where
  pub namespace : String
  pub name : String
  pub path : Option String
  pub port : Option ℤ

pub record WebhookClientConfig : Type 0 where
  pub url : Option String
  pub service : Option ServiceReference
  pub ca_bundle : List ℕ

pub record WebhookConversion : Type 0 where
  pub client_config : Option WebhookClientConfig
  pub conversion_review_versions : Option (List String)

pub record Conversion : Type 0 where
  pub strategy : String
  pub webhook : Option WebhookConversion

pub record CrdSpec : Type 0 where
  pub group : String
  pub names : Names
  pub scope : String
  pub versions : List Version
  pub conversion : Option Conversion
  pub preserve_unknown_fields : Bool

pub record CrdStatus : Type 0 where
  pub conditions : List Condition
  pub accepted_names : Names
  pub stored_versions : List String
  pub observed_generation : ℤ

pub record Crd : Type 0 where
  pub name : String
  pub resource_version : String
  pub annotations : List (String × String)
  pub finalizers : List String
  pub deletion_timestamp : Option ℕ
  pub spec : CrdSpec
  pub status : CrdStatus

abbrev pub condition_true : String
condition_true = "True"

abbrev pub condition_false : String
condition_false = "False"

abbrev pub condition_unknown : String
condition_unknown = "Unknown"

abbrev pub established : String
established = "Established"

abbrev pub names_accepted : String
names_accepted = "NamesAccepted"

abbrev pub terminating : String
terminating = "Terminating"

abbrev pub api_approval_policy_conformant : String
api_approval_policy_conformant = "KubernetesAPIApprovalPolicyConformant"

abbrev pub api_approved_annotation : String
api_approved_annotation = "api-approved.kubernetes.io"

abbrev pub cleanup_finalizer : String
cleanup_finalizer = "customresourcecleanup.apiextensions.k8s.io"
