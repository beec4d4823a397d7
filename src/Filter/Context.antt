-- ===== src/Filter/Context.antt =====
-- src/agent_control_plane/output_filter.py: `build_filter_context_from_request`.
use llm_agent_control_plane.Base.{
  String, ◌<>◌, false, ◌&&◌, ◌||◌, none, some, List, [], ◌∷◌, ◌++◌, ◌==◌, ◌!=◌, string_eq,
  if◌then◌else◌, has_substring,
}
use llm_agent_control_plane.Platform.{Platform}
use llm_agent_control_plane.Models.{
  AgentRequest, RetrievedChunk, ToolOutputSegment, untrusted, trust_eq,
}
use llm_agent_control_plane.Regex.{search, found}
use llm_agent_control_plane.Filter.Types.{
  OutputDestination, SourceSensitivity, public, sensitive, restricted, OutputFilterContext,
}
use llm_agent_control_plane.Filter.Patterns.{sensitive_classification_pattern}
use llm_agent_control_plane.Filter.Measures.{max_sensitivity}

-- The variables of the loops.
abbrev Gathered : Type 0
Gathered = SourceSensitivity × List String

module _ (platform : Platform) where
  -- One round of the loop over the retrieved chunks.
  gather_chunk : String → Gathered → RetrievedChunk → Gathered
  gather_chunk tenant_id (sensitivity, labels) chunk =
      let labels' =
        labels
        ++ (if chunk.tenant_id != tenant_id
            then ("retrieved_cross_tenant:" <> chunk.tenant_id) ∷ []
            else []) in
      let marked =
        if found (search (sensitive_classification_pattern platform.is_word) chunk.content)
        then max_sensitivity sensitivity sensitive
        else sensitivity in
      (
        if chunk.trust == untrusted && has_substring (platform.lower chunk.content) "sensitive"
            then max_sensitivity marked sensitive
            else marked,
        labels',
      )

  gather_chunks : String → Gathered → List RetrievedChunk → Gathered
  unfolding gather_chunk
  gather_chunks tenant_id g [] = g
  gather_chunks tenant_id g (c ∷ cs) = gather_chunks tenant_id (gather_chunk tenant_id g c) cs

  -- One round of the loop over the tool outputs.
  gather_segment : Gathered → ToolOutputSegment → Gathered
  gather_segment (sensitivity, labels) segment = (
    if has_substring (platform.lower segment.content) "sensitive"
          || has_substring (platform.lower segment.content) "confidential"
        then max_sensitivity sensitivity restricted
        else sensitivity,
    labels ++ "tool_output_untrusted" ∷ [],
  )

  gather_segments : Gathered → List ToolOutputSegment → Gathered
  unfolding gather_segment
  gather_segments g [] = g
  gather_segments g (s ∷ ss) = gather_segments (gather_segment g s) ss

  unfoldable pub build_filter_context_from_request :
      AgentRequest → OutputDestination → OutputFilterContext
  unfolding gather_chunks gather_segments
  build_filter_context_from_request request destination =
      let from_chunks = gather_chunks request.tenant_id (public, []) request.retrieved_chunks in
      let gathered = gather_segments from_chunks request.tool_output_segments in
      record {
        tenant_id = some request.tenant_id;
        destination = destination;
        source_sensitivity = gathered.0;
        source_labels = gathered.1;
        strict_response_schema = false;
        allowed_response_keys = none;
      }
