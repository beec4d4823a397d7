-- ===== src/Filter/Types.antt =====
-- src/agent_control_plane/output_filter.py: enums, findings, the context and the result.
use llm_agent_control_plane.Base.{ℕ, String, Bool, Option, List, Eq}

-- `OutputDestination`
pub data OutputDestination : Type 0 where
  internal_display audit_log external_email external_export webhook : OutputDestination

unfoldable pub destination_value : OutputDestination → String
destination_value internal_display = "internal_display"
destination_value audit_log = "audit_log"
destination_value external_email = "external_email"
destination_value external_export = "external_export"
destination_value webhook = "webhook"

-- `SourceSensitivity`
pub data SourceSensitivity : Type 0 where
  public internal sensitive restricted : SourceSensitivity

unfoldable pub sensitivity_value : SourceSensitivity → String
sensitivity_value public = "public"
sensitivity_value internal = "internal"
sensitivity_value sensitive = "sensitive"
sensitivity_value restricted = "restricted"

OutputDestination-discrete : Discrete OutputDestination
OutputDestination-discrete = hlevel

SourceSensitivity-discrete : Discrete SourceSensitivity
SourceSensitivity-discrete = hlevel

instance unfoldable pub destination_eq : Eq OutputDestination
unfolding OutputDestination-discrete
destination_eq = record { dec = OutputDestination-discrete }

instance unfoldable pub sensitivity_eq : Eq SourceSensitivity
unfolding SourceSensitivity-discrete
sensitivity_eq = record { dec = SourceSensitivity-discrete }

-- `OutputFinding`
pub record OutputFinding : Type 0 where
  pub finding_type : String
  pub severity : String
  pub reason : String
  pub redacted_sample : String
  pub source : Option String
  pub tenant_id : Option String
  pub destination : Option String
  pub rule_id : String

-- `OutputFilterContext`
pub record OutputFilterContext : Type 0 where
  pub tenant_id : Option String
  pub destination : OutputDestination
  pub source_sensitivity : SourceSensitivity
  pub source_labels : List String
  pub strict_response_schema : Bool
  pub allowed_response_keys : Option (List String)

-- `OutputFilterResult`
pub record OutputFilterResult : Type 0 where
  pub allowed : Bool
  pub reason : String
  pub filtered_text : String
  pub findings : List OutputFinding
  pub output_filter_decision : String
  pub finding_count : ℕ
  pub finding_types : List String
  pub highest_severity : Option String
