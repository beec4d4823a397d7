-- ===== src/Models.antt =====
-- src/agent_control_plane/models.py: the data that the components exchange. The JSON values of tool
-- arguments are in Models/Values, the token of approval_tokens.py in Models/Tokens.
pub mod Values
pub mod Tokens
pub mod Enums
pub mod Results
unfoldable pub use Values.*
pub use Tokens.*
unfoldable pub use Enums.*
unfoldable pub use Results.*
use llm_agent_control_plane.Base.{String, Bool, Option, none, List, []}

-- `RetrievedChunk`
pub record RetrievedChunk : Type 0 where
  pub id : String
  pub content : String
  pub trust : ContextTrust
  pub tenant_id : String

-- `ToolOutputSegment`
pub record ToolOutputSegment : Type 0 where
  pub execution_id : String
  pub tool_name : String
  pub content : String
  pub trust : ContextTrust

-- `Provenance`
pub record Provenance : Type 0 where
  pub source : ProvenanceSource
  pub trust : ContextTrust
  pub context_ids : List String
  pub tenant_id : Option String
  pub chunk_id : Option String
  pub content_hash : Option String
  pub signature : Option String

-- `Provenance` with the class's defaults for the fields that are not named.
unfoldable pub provenance_of : ProvenanceSource → ContextTrust → List String → Provenance
provenance_of source trust context_ids = record {
  source = source;
  trust = trust;
  context_ids = context_ids;
  tenant_id = none;
  chunk_id = none;
  content_hash = none;
  signature = none;
}

-- `AgentRequest`
pub record AgentRequest : Type 0 where
  pub request_id : String
  pub correlation_id : Option String
  pub user_id : String
  pub session_id : String
  pub tenant_id : String
  pub role : String
  pub model : String
  pub human_approval : Bool
  pub approval_token : Option ApprovalToken
  pub user_message : String
  pub retrieved_chunks : List RetrievedChunk
  pub tool_output_segments : List ToolOutputSegment
  pub scenario : String

-- `ToolCallPayload`; the arguments are a dict with text keys.
pub record ToolCallPayload : Type 0 where
  pub tool_name : String
  pub arguments : Fields
  pub target : Option String
  pub provenance : Option Provenance

-- `ModelTurnResult`
pub record ModelTurnResult : Type 0 where
  pub natural_language : String
  pub tool_call : Option ToolCallPayload
