-- ===== src/Api/Authority.antt =====
-- src/agent_control_plane/api.py: what a turn that comes in by HTTP can execute.
use llm_agent_control_plane.Base.{
  String, true, false, Option, ◌≡◌, ap, ◌≢◌, ◌⊎◌, inl, inr, arith, string_eq, ok, Result-cases,
}
use llm_agent_control_plane.Models.{AgentRequest, ToolCallPayload, PipelineResult}
use llm_agent_control_plane.Platform.{Platform}
use llm_agent_control_plane.Host.{Host}
use llm_agent_control_plane.Policy.{PolicyDocument, ToolPolicy}
use llm_agent_control_plane.Policy.Loading.{load_policy}
use llm_agent_control_plane.Approval.GateLaws.{NeedsNone, IsApproved}
use llm_agent_control_plane.Pipeline.{
  World, Clock, run_vulnerable, run_protected_at, under_policy, consume_token,
}
use llm_agent_control_plane.Pipeline.Safety.{Executes, IsCleared, run_protected-IsCleared}
use llm_agent_control_plane.Pipeline.Harmless.{Harmless, run_vulnerable-Harmless}
use llm_agent_control_plane.Api.{RunRequestBody, App, agent_request, run_turn}

module _ (platform : Platform) (host : Host) (clock : Clock) (app : App) (body : RunRequestBody)
    (x_correlation_id : Option String) (w : World) where
  abbrev pub request_of : AgentRequest
  request_of = agent_request body x_correlation_id

  -- The call was cleared for the turn, for a tool that needs no approval, or on the word of the
  -- body where no token is asked for.
  pub record IsGranted (policy : PolicyDocument) (t : ToolCallPayload) : Type 0 where
    pub cleared : IsCleared platform app.pipeline policy clock request_of w t
    pub granted :
        NeedsNone cleared.authorized.permitted.tool_policy
        ⊎ ((app.pipeline.options.require_approval_token ≡ false) × (body.human_approval ≡ true))

  -- A body brings no token.
  granted_of :
      (tp : ToolPolicy) (t : ToolCallPayload)
      → IsApproved platform request_of tp t app.pipeline.options.require_approval_token clock.now
          w.used
      → NeedsNone tp
        ⊎ ((app.pipeline.options.require_approval_token ≡ false) × (body.human_approval ≡ true))
  unfolding agent_request
  granted_of tp t (inl needless) = inl needless
  granted_of tp t (inr (inl (token, carried, fresh, bound))) = absurd (cc carried)
  granted_of tp t (inr (inr (no_token, unasked, flagged))) = inr (unasked, flagged)

  vulnerable_turn_idle :
      (r : PipelineResult) (w' : World)
      → ¬ Executes (run_vulnerable platform app.pipeline clock request_of w) r w'
  unfolding run_vulnerable
  vulnerable_turn_idle r w' (h, done) =
      elim (Result-cases (app.pipeline.llm_adapter.generate request_of)) [
        | inr (e, failed) ↦ absurd (ground arith)
        | inl (response, produced) ↦
            let harmless =
              run_vulnerable-Harmless platform app.pipeline clock request_of w response produced in
            idle (rw h at harmless)
      ]
    where
      idle : {text : String} → Harmless clock text w (ok r, w') → ⊥
      idle (p, a, e, s, f, u) = cc (e, done)

  -- What a protected turn that executes has behind it.
  protected_turn :
      (r : PipelineResult) (w' : World)
      → Executes
          (run_protected_at platform app.pipeline clock request_of host app.config.policy_path w)
          r
          w'
      → (policy : PolicyDocument) × (load_policy platform host app.config.policy_path ≡ ok policy)
        × (t : ToolCallPayload) × IsCleared platform app.pipeline policy clock request_of w t
        × (w'.used ≡ w.used)
  unfolding run_protected_at under_policy agent_request consume_token
  protected_turn r w' (ran, done) =
      elim (Result-cases (load_policy platform host app.config.policy_path)) [
        | inr (e, failed) ↦ absurd (cc (ap (λ o. o.0) (rw failed at ran)))
        | inl (policy, loaded) ↦
            let (t, c, result, consumed) =
              run_protected-IsCleared platform app.pipeline policy clock request_of w r w'
                (rw loaded at ran) done in
            (policy, loaded, t, c, consumed)
      ]

  -- A turn that comes in by HTTP and executes a tool is on the protected path; the conditions of
  -- the turn held for the call under the policy file as it is read in the turn; the tool needs no
  -- approval, or no token is required and the body says that a human approved; and the registry of
  -- used approvals is left as it was.
  pub run_turn-IsGranted :
      (r : PipelineResult) (w' : World)
      → Executes (run_turn platform host clock app body x_correlation_id w) r w'
      → (body.path ≢ "vulnerable")
        × (policy : PolicyDocument) × (load_policy platform host app.config.policy_path ≡ ok policy)
        × (t : ToolCallPayload) × IsGranted policy t
        × (w'.used ≡ w.used)
  unfolding run_turn
  run_turn-IsGranted r w' (h, done) = elim (string_eq.dec body.path "vulnerable") [
    | yes same ↦ absurd (vulnerable_turn_idle r w' (ground arith, done))
    | no differ ↦
        let (policy, loaded, t, c, consumed) = protected_turn r w' (ground arith, done) in
        (
          differ,
          policy,
          loaded,
          t,
          record {
            cleared = c;
            granted = granted_of c.authorized.permitted.tool_policy t c.authorized.approved;
          },
          consumed,
        )
  ]
