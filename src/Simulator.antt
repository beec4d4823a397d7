-- ===== src/Simulator.antt =====
-- src/agent_control_plane/simulator.py: the synthetic results of tools.
use Prim.Native.String.{String as Text}
use llm_agent_control_plane.Base.{
  String, ◌<>◌, true, false, none, some, ◌==◌, string_eq, Result, ok, raised, type_error, ◌>>=◌,
  if◌then◌else◌,
}
use llm_agent_control_plane.Models.{
  AgentRequest, ToolCallPayload, SimulationResult, Value, Items, Fields, null, bool, int, str, arr,
  obj, nil, cons, end, field, get,
}
use llm_agent_control_plane.Platform.{Platform, text_of}

-- `arguments.get(key, default)`
unfoldable pub get_or : String → Value → Fields → Value
unfolding get
get_or key default arguments = elim (get key arguments) [ none ↦ default | some v ↦ v ]

characters : Text → Items
characters Text.[] = nil
characters (Text.◌∷◌ c s) = cons (str (Text.◌∷◌ c "")) (characters s)

key_items : Fields → Items
key_items end = nil
key_items (field k v fs) = cons (str k) (key_items fs)

-- What `for x in value` runs over.
unfoldable pub iterate : Value → Result Items
unfolding characters key_items
iterate null = raised type_error
iterate (bool b) = raised type_error
iterate (int negative n) = raised type_error
iterate (str s) = ok (characters s)
iterate (arr vs) = ok vs
iterate (obj fs) = ok (key_items fs)

-- `[{"id": rid, "value": "simulated"} for rid in ids]`
records : Items → Items
records nil = nil
records (cons rid ids) =
    cons (obj (field "id" rid (field "value" (str "simulated") end))) (records ids)

unfoldable pub simulate_read_records : AgentRequest → ToolCallPayload → Result SimulationResult
unfolding iterate records get_or
simulate_read_records request tool_call = do
  ids ← iterate (get_or "record_ids" (arr nil) tool_call.arguments)
  ok (record {
    success = true;
    message = "simulated_read_records";
    simulated_output =
        field "tenant_id" (str request.tenant_id) (field "records" (arr (records ids)) end);
  })

simulate_send_email : ToolCallPayload → SimulationResult
unfolding get_or
simulate_send_email tool_call = record {
  success = true;
  message = "simulated_send_email";
  simulated_output =
      field "to" (get_or "to" null tool_call.arguments)
        (field "status" (str "simulated_queued") (field "note" (str "no real email sent") end));
}

simulate_export_records : ToolCallPayload → SimulationResult
unfolding get_or
simulate_export_records tool_call = record {
  success = true;
  message = "simulated_export_records";
  simulated_output =
      field "format" (get_or "format" (str "json") tool_call.arguments)
        (field "rows" (int false 3) (field "note" (str "simulated export only") end));
}

simulate_delete_records : ToolCallPayload → SimulationResult
unfolding get_or
simulate_delete_records tool_call = record {
  success = true;
  message = "simulated_delete_records";
  simulated_output =
      field "deleted_ids" (get_or "record_ids" (arr nil) tool_call.arguments)
        (field "note" (str "simulated delete only") end);
}

-- `simulate_tool_execution`
unfoldable pub simulate_tool_execution : AgentRequest → ToolCallPayload → Result SimulationResult
unfolding simulate_read_records simulate_send_email simulate_export_records simulate_delete_records
simulate_tool_execution request tool_call =
    let tool = tool_call.tool_name in
    if tool == "read_records"
    then simulate_read_records request tool_call
    else if tool == "send_email"
    then ok (simulate_send_email tool_call)
    else if tool == "export_records"
    then ok (simulate_export_records tool_call)
    else if tool == "delete_records"
    then ok (simulate_delete_records tool_call)
    else if tool == "run_shell"
    then ok (record {
      success = false;
      message = "run_shell_must_not_execute";
      simulated_output = field "note" (str "policy should block before simulation") end;
    })
    else ok (record {
      success = false;
      message = "unknown_tool_not_simulated:" <> tool;
      simulated_output = end;
    })

-- `simulate_vulnerable_execution`
unfoldable pub simulate_vulnerable_execution : Platform → ToolCallPayload → Fields
unfolding get_or text_of
simulate_vulnerable_execution platform tool_call =
    let tail =
      field "actually_executed" (bool false)
        (field "warning" (str "vulnerable_path_simulation_only") end) in
    if tool_call.tool_name == "run_shell"
    then field "unsafe_decision" (str "would_have_invoked_shell") (
        field "simulated_command"
          (str (text_of platform (get_or "command" (str "") tool_call.arguments))) tail)
    else if tool_call.tool_name == "send_email"
    then field "unsafe_decision" (str "would_have_sent_email_without_broker") tail
    else field "unsafe_decision" (str ("would_have_called_" <> tool_call.tool_name)) tail
