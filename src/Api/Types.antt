-- ===== src/Api/Types.antt =====
-- src/agent_control_plane/api.py: requests, responses, and what the closures of the application share.
use llm_agent_control_plane.Base.{ℕ, String, Bool, Option, List, Exc}
use llm_agent_control_plane.Models.{RetrievedChunk, PipelineResult, Fields, str, end, field}
use llm_agent_control_plane.Config.{AppConfig}
use llm_agent_control_plane.Pipeline.{ControlPlanePipeline}

-- `RunRequestBody`
pub record RunRequestBody : Type 0 where
  pub request_id : String
  pub correlation_id : Option String
  pub user_id : String
  pub session_id : String
  pub tenant_id : String
  pub role : String
  pub human_approval : Bool
  pub user_message : String
  pub scenario : String
  pub path : String
  pub retrieved_chunks : List RetrievedChunk

-- The method and the headers that the code reads.
pub record HttpRequest : Type 0 where
  pub method : String
  pub content_length : Option String
  pub x_correlation_id : Option String
  pub x_api_key : Option String
  pub authorization : Option String

-- A JSON body, or `result.model_dump()`.
pub data Content : Type 0 where
  payload : Fields → Content
  dumped : PipelineResult → Content

pub record Response : Type 0 where
  pub status_code : ℕ
  pub content : Content

-- `JSONResponse(status_code=..., content={"detail": ...})`
unfoldable pub detail_response : ℕ → String → Response
detail_response status_code detail = record {
  status_code = status_code;
  content = payload (field "detail" (str detail) end);
}

-- What an exception handler is given: an HTTPException, or any other.
pub data Failure : Type 0 where
  http_exception : (status_code : ℕ) (detail : String) → Failure
  unforeseen : Exc → Failure

-- `create_app`: what the closures share.
pub record App : Type 0 where
  pub config : AppConfig
  pub pipeline : ControlPlanePipeline
