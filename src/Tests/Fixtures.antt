-- ===== src/Tests/Fixtures.antt =====
-- A platform to run on, policies/default.yaml as a policy document, and a request.
use llm_agent_control_plane.Base.{String, ◌<>◌, true, false, none, some, List, [], ◌∷◌}
use llm_agent_control_plane.Models.{
  AgentRequest, ApprovalToken, ToolCallPayload, low, high, critical, model, trusted, Provenance,
  end,
}
use llm_agent_control_plane.Platform.{Platform, aware}
use llm_agent_control_plane.Policy.{ToolPolicy, PolicyDocument}
use llm_agent_control_plane.Approval.{minted_token}
use llm_agent_control_plane.Regex.{is_token_char}
use llm_agent_control_plane.Broker.{BrokerOptions}
use llm_agent_control_plane.Agent.{simulated_llm_adapter}
use llm_agent_control_plane.Pipeline.{World, Clock, ControlPlanePipeline}

-- Digests that keep their input apart, and a clock that stands at the end of every token's life.
abbrev pub lab : Platform
lab = record {
  sha256_hex = λ s. "sha256:" <> s;
  hmac_sha256_hex = λ key s. "ab12";
  isoformat = λ d. "2026-01-01T01:00:00+00:00";
  fromisoformat = λ s. some (aware 3600000000);
  validation_error = λ schema arguments. none;
  b64decode = λ s. none;
  is_word = is_token_char;
  set_order = λ ss. ss;
  lower = λ s. s;
  str_of = λ v. "";
  repr = λ s. "'" <> (s <> "'");
}

abbrev pub roles : List String
roles = "user" ∷ "admin" ∷ []

abbrev pub read_records : ToolPolicy
read_records = record {
  enabled = true;
  risk_level = low;
  external_effect = false;
  destructive = false;
  requires_human_approval = false;
  allowed_roles = roles;
}

abbrev pub send_email : ToolPolicy
send_email = record {
  enabled = true;
  risk_level = high;
  external_effect = true;
  destructive = false;
  requires_human_approval = true;
  allowed_roles = roles;
}

abbrev pub run_shell : ToolPolicy
run_shell = record {
  enabled = false;
  risk_level = critical;
  external_effect = true;
  destructive = true;
  requires_human_approval = true;
  allowed_roles = [];
}

abbrev pub default_policy : PolicyDocument
default_policy = record {
  default_decision = "deny";
  tools =
      ("read_records", read_records) ∷ ("send_email", send_email) ∷ ("run_shell", run_shell) ∷ [];
  tenant_isolation = "strict";
}

abbrev pub lax : BrokerOptions
lax = record {
  require_provenance_signature = false;
  provenance_hmac_key = none;
  require_approval_token = false;
}

abbrev pub demo : ControlPlanePipeline
demo = record { options = lax; llm_adapter = simulated_llm_adapter lab 3 }

abbrev pub noon : Clock
noon = record { now = aware 60000000; stamp = "2026-01-01T00:01:00+00:00"; audit_fault = none }

abbrev pub empty_world : World
empty_world = record { used = []; lines = [] }

abbrev pub asks : String → AgentRequest
asks scenario = record {
  request_id = "req-1";
  correlation_id = none;
  user_id = "user-1";
  session_id = "sess-1";
  tenant_id = "tenant-a";
  role = "user";
  model = "simulated-v1";
  human_approval = false;
  approval_token = none;
  user_message = "hello";
  retrieved_chunks = [];
  tool_output_segments = [];
  scenario = scenario;
}

abbrev pub reviewed : Provenance
reviewed = record {
  source = model;
  trust = trusted;
  context_ids = "model-turn" ∷ [];
  tenant_id = none;
  chunk_id = none;
  content_hash = none;
  signature = some "ab12";
}

abbrev pub reads : ToolCallPayload
reads = record {
  tool_name = "read_records";
  arguments = end;
  target = some "tenant-a";
  provenance = some reviewed;
}

abbrev pub strict : BrokerOptions
strict = record {
  require_provenance_signature = true;
  provenance_hmac_key = none;
  require_approval_token = true;
}

-- A token for this call, minted at the epoch for an hour.
abbrev pub stamped : ApprovalToken
stamped =
    minted_token lab "1" "approver-1" (asks "safe_read") reads read_records "reviewed" (aware 0)
      (aware 3600000000)

-- The same request with a token.
abbrev pub holds : AgentRequest
holds = record (asks "safe_read") { approval_token = some stamped }
