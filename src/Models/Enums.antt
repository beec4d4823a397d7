-- ===== src/Models/Enums.antt =====
-- src/agent_control_plane/models.py: the `StrEnum` classes, each with its texts and its equality.
use llm_agent_control_plane.Base.{String, Eq}

-- `ContextTrust`
pub data ContextTrust : Type 0 where
  trusted untrusted : ContextTrust

unfoldable pub trust_value : ContextTrust → String
trust_value trusted = "trusted"
trust_value untrusted = "untrusted"

-- `ProvenanceSource`
pub data ProvenanceSource : Type 0 where
  user model retrieved tool_output system external web email support_ticket internal_reviewed :
      ProvenanceSource

unfoldable pub source_value : ProvenanceSource → String
source_value user = "user"
source_value model = "model"
source_value retrieved = "retrieved"
source_value tool_output = "tool_output"
source_value system = "system"
source_value external = "external"
source_value web = "web"
source_value email = "email"
source_value support_ticket = "support_ticket"
source_value internal_reviewed = "internal_reviewed"

-- `RiskLevel`
pub data RiskLevel : Type 0 where
  low medium high critical : RiskLevel

unfoldable pub risk_value : RiskLevel → String
risk_value low = "low"
risk_value medium = "medium"
risk_value high = "high"
risk_value critical = "critical"

ContextTrust-discrete : Discrete ContextTrust
ContextTrust-discrete = hlevel

ProvenanceSource-discrete : Discrete ProvenanceSource
ProvenanceSource-discrete = hlevel

instance unfoldable pub trust_eq : Eq ContextTrust
unfolding ContextTrust-discrete
trust_eq = record { dec = ContextTrust-discrete }

instance unfoldable pub source_eq : Eq ProvenanceSource
unfolding ProvenanceSource-discrete
source_eq = record { dec = ProvenanceSource-discrete }
