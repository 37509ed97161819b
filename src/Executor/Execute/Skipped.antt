-- ===== src/Executor/Execute/Skipped.antt =====
-- What `skip` of executor.py returns and publishes, without strict publishing.
use coding_agent_neo.Prelude.{
  String, ◌≡◌, refl, sym, ap, ◌∙◌, Bool, false, Option, none, some, List, ◌∷◌, ◌++◌, arith, ok,
  take, Text, chars,
}
use mathlib.Core.Path.{subst}
use coding_agent_neo.Models.{EventType}
use coding_agent_neo.Json.{Value, get, bool, str}
use coding_agent_neo.Models.{ToolResult, ToolResultStatus}
use coding_agent_neo.Policy.Decide.{deny}
use coding_agent_neo.Executor.Results.{made}
use coding_agent_neo.Executor.Lifecycle.{
  Effect, ToolLifecycleEvent, Lifecycle, ToolExecutor, policy_event, tool_call_event,
}
use coding_agent_neo.Executor.Attempt.{safe_provider, safe_name}
use coding_agent_neo.Executor.Execute.{
  Run, Skip, publish_result, and_then, skip_request, skip_with, skip, reset, skipped,
}
use coding_agent_neo.Executor.Execute.Returns.{emit-quiet}
use coding_agent_neo.Executor.Execute.Trace.{kinds, emit-kinds, publish_result-kinds}

module _ (render : Value → Text) (loads : Text → Option Value) (sensitive : String → Bool)
    (x : ToolExecutor) (lax : x.strict_event_publishing ≡ false)
    (publisher : List Effect → ToolLifecycleEvent → Option Text)
    (handed : x.event_publisher ≡ some publisher)
    (makes : (log : List Effect) (type : EventType) → x.event_error log type ≡ none) where
  and_then-quiet :
      (p : Option Text × Lifecycle) (next : Lifecycle → Run)
      → p.0 ≡ none
      → and_then render loads sensitive p next ≡ next p.1
  and_then-quiet (none, s) next h = refl
  and_then-quiet (some e, s) next h = absurd (ground arith)

  -- The run returns the result, after three events.
  abbrev Completes : Lifecycle → ToolResult → Run → Type 0
  Completes s r run =
      (run.outcome ≡ ok r)
      × (kinds run.finished.log
          ≡ EventType.tool_result ∷ EventType.policy_decision ∷ EventType.tool_call ∷ kinds s.log)

  skip_with-Completes :
      (k : Skip) (name : Text) (provider : Option Text) (reason : Text) (status : ToolResultStatus)
      (s : Lifecycle)
      → Completes s
          (skipped k.operation_id provider name reason status)
          (skip_with render loads sensitive x k name provider reason status s)
  unfolding skip_with tool_call_event policy_event
  skip_with-Completes k name provider reason status s =
      let p = tool_call_event loads sensitive x name k.raw_arguments k.operation_id provider s in
      let q =
        policy_event loads sensitive x name k.operation_id provider deny deny none
          (take 160 (chars "not_executed_" ++ reason)) p.1 in
      let result = skipped k.operation_id provider name reason status in
      let published = publish_result render loads sensitive x name none result in
      let same =
        and_then-quiet p _ (emit-quiet loads sensitive x _ _ _ _ s lax)
        ∙ and_then-quiet q published (emit-quiet loads sensitive x _ _ _ _ p.1 lax) in
      let before : kinds q.1.log ≡ EventType.policy_decision ∷ EventType.tool_call ∷ kinds s.log =
        emit-kinds loads sensitive x publisher handed makes _ _ _ _ p.1
        ∙ ap (λ l. EventType.policy_decision ∷ l)
            (emit-kinds loads sensitive x publisher handed makes _ _ _ _ s) in
      subst (Completes s result) (sym same) (
        (publish_result-kinds render loads sensitive x lax publisher handed makes name none result
            q.1).1,
        (publish_result-kinds render loads sensitive x lax publisher handed makes name none result
              q.1).0
            ∙ ap (λ l. EventType.tool_result ∷ l) before,
      )

  -- With a publisher, without strict publishing, and where every event can be made, a `skip` whose
  -- reason and status are accepted returns a result of the operation and the provider's ID, with the
  -- status asked for, a text that says that the call was not executed and why, and metadata that
  -- say so too; and it publishes the call, a decision and the result.
  pub skip-Completes :
      (k : Skip) (reason : Text) (status : ToolResultStatus) (s : Lifecycle)
      → skip_request k ≡ ok (reason, status)
      → let run = skip render loads sensitive x k s in
        (q : ToolResult) × (run.outcome ≡ ok q)
        × (q.correlation_id ≡ k.operation_id)
        × (q.provider_tool_call_id ≡ (safe_provider k.provider_value).0)
        × (q.status ≡ status)
        × (q.text ≡ chars "tool call was not executed: " ++ take 160 reason)
        × (get "executed" q.metadata ≡ some (bool false))
        × (get "reason" q.metadata ≡ some (str (take 160 reason)))
        × (kinds run.finished.log
            ≡ EventType.tool_result ∷ EventType.policy_decision ∷ EventType.tool_call ∷ kinds s.log)
  unfolding skip skipped made get
  skip-Completes k reason status s accepted =
      let id = (safe_provider k.provider_value).0 in
      let done =
        skip_with-Completes k (safe_name x k.name_value) id (take 160 reason) status (reset s) in
      (
        skipped k.operation_id id (safe_name x k.name_value) (take 160 reason) status,
        ground (arith, accepted, done.0),
        refl,
        refl,
        refl,
        refl,
        refl,
        refl,
        ground (arith, accepted, done.1),
      )
