-- ===== src/Executor/Execute/Dispatch.antt =====
-- The whole of `execute` and `skip` of executor.py, and the registry.
use coding_agent_neo.Prelude.{
  ℕ, String, ◌≡◌, refl, sym, ap, ◌∙◌, inl, inr, Bool, Option, none, some, List, ◌∷◌, ◌++◌, arith,
  Result-cases, take, Text, chars,
}
use coding_agent_neo.Json.{Value}
use coding_agent_neo.Models.{ToolResult, ToolResultStatus}
use coding_agent_neo.Tools.Schema.{Arguments}
use coding_agent_neo.Tools.Output.{ToolResultProjection, project_tool_result, as_int}
use coding_agent_neo.Executor.Results.{normalize_result}
use coding_agent_neo.Policy.Decide.{deny}
use coding_agent_neo.Executor.Lifecycle.{
  Effect, Lifecycle, ToolExecutor, policy_event, tool_call_event, result_event,
}
use coding_agent_neo.Executor.Attempt.{
  Raised, ProviderValue, safe_provider, safe_name, Call, Attempt, attempt,
}
use coding_agent_neo.Executor.Execute.{
  Run, ending, publish_result, finish, begin, called, execute, Skip, and_then, skip_request,
  skip_with, skip, reset, skipped,
}
use coding_agent_neo.Executor.Execute.Gated.{emit-silent, dispatches, Gated, attempt-Gated}

-- The two states only matter by the calls they have sent to the registry.
Gated-between :
    (x : ToolExecutor) (n : Option Text) (a : Arguments) (log : List Effect) (s t u v : Lifecycle)
    → dispatches s.log ≡ dispatches u.log
    → dispatches t.log ≡ dispatches v.log
    → Gated x n a log s t
    → Gated x n a log u v
Gated-between x n a log s t u v before after (inl quiet) = inl (sym after ∙ quiet ∙ before)
Gated-between x n a log s t u v before after (inr (name, args, named, valid, cleared, one)) =
    inr (name, args, named, valid, cleared, sym after ∙ one ∙ ap (λ l. (name, args) ∷ l) before)

module _ (render : Value → Text) (loads : Text → Option Value) (sensitive : String → Bool) where
  ending-log :
      (raising : Option Raised) (r : ToolResult) (p : Option Text × Lifecycle)
      → (ending raising r p).finished.log ≡ p.1.log
  ending-log raising r (none, s) = refl
  ending-log raising r (some e, s) = refl

  result_event-silent :
      (x : ToolExecutor) (name : Text) (p : ToolResultProjection) (s : Lifecycle)
      → dispatches (result_event loads sensitive x name p s).1.log ≡ dispatches s.log
  unfolding result_event
  result_event-silent x name p s = emit-silent loads sensitive x _ _ _ _ s

  publish_result-silent :
      (x : ToolExecutor) (name : Text) (raising : Option Raised) (r : ToolResult) (s : Lifecycle)
      → dispatches (publish_result render loads sensitive x name raising r s).finished.log
        ≡ dispatches s.log
  unfolding publish_result
  publish_result-silent x name raising r s =
      elim (Result-cases (project_tool_result r (as_int x.model_output_limit) none none none)) [
        | inl (p, fits) ↦
            let recorded = record s { last_result = some r } in
            let event = result_event loads sensitive x name p recorded in
            ground (arith, fits, ending-log raising r event, result_event-silent x name p recorded)
        | inr (e, fails) ↦ ground (arith, fails)
      ]

  finish-silent :
      (x : ToolExecutor) (c : Call) (a : Attempt)
      → dispatches (finish render loads sensitive x c a).finished.log ≡ dispatches a.after.log
  unfolding finish
  finish-silent x c a =
      elim (Result-cases (
        normalize_result render sensitive x.model_output_limit c.operation_id c.provider_id c.name
          c.elapsed a.result)) [
            | inl (r, made) ↦
                ground (arith, made, publish_result-silent x c.name a.raising r a.after)
            | inr (e, fails) ↦ ground (arith, fails)
          ]

  begin-Gated :
      (x : ToolExecutor) (valid : Bool) (c : Call) (p : Option Text × Lifecycle)
      → Gated x c.name_value c.raw_arguments p.1.log p.1
          (begin render loads sensitive x valid c p).finished
  unfolding begin
  begin-Gated x valid c (some e, s) = inl refl
  begin-Gated x valid c (none, s) =
      let a = attempt render loads sensitive x valid c s in
      Gated-between x c.name_value c.raw_arguments s.log s a.after s
        (finish render loads sensitive x c a).finished refl (sym (finish-silent x c a))
        (attempt-Gated render loads sensitive x valid c s)

  -- `execute` sends at most one call to the registry. The call it sends has the given name and the
  -- arguments that the registry validated, and it is cleared: the policy allows it, or the policy
  -- asks, the executor is interactive, the approval port does not say that it is not, and it answers
  -- yes to this call, when all that was done for it is its tool_call event.
  pub execute-Gated :
      (x : ToolExecutor) (name_value : Option Text) (arguments : Arguments)
      (provider : ProviderValue) (operation : Text) (elapsed : ℕ) (s : Lifecycle)
      → Gated x name_value arguments
          (tool_call_event loads sensitive x
            (safe_name x name_value)
            arguments
            operation
            (safe_provider provider).0
            (reset s)).1.log
          s
          (execute render loads sensitive x name_value arguments provider operation elapsed
            s).finished
  unfolding execute tool_call_event
  execute-Gated x name_value arguments provider operation elapsed s =
      let (id, valid) = safe_provider provider in
      let c = called render loads sensitive x name_value arguments id operation elapsed in
      let p = tool_call_event loads sensitive x c.name arguments operation id (reset s) in
      let run = begin render loads sensitive x valid c p in
      Gated-between x name_value arguments p.1.log p.1 run.finished s run.finished
        (emit-silent loads sensitive x _ _ _ _ (reset s)) refl (begin-Gated x valid c p)

  and_then-silent :
      (p : Option Text × Lifecycle) (next : Lifecycle → Run)
      → dispatches (next p.1).finished.log ≡ dispatches p.1.log
      → dispatches (and_then render loads sensitive p next).finished.log ≡ dispatches p.1.log
  and_then-silent (none, s) next h = h
  and_then-silent (some e, s) next h = refl

  skip_with-silent :
      (x : ToolExecutor) (k : Skip) (name : Text) (provider : Option Text) (reason : Text)
      (status : ToolResultStatus) (s : Lifecycle)
      → dispatches (skip_with render loads sensitive x k name provider reason status s).finished.log
        ≡ dispatches s.log
  unfolding skip_with tool_call_event policy_event
  skip_with-silent x k name provider reason status s =
      let p = tool_call_event loads sensitive x name k.raw_arguments k.operation_id provider s in
      let q =
        policy_event loads sensitive x name k.operation_id provider deny deny none
          (take 160 (chars "not_executed_" ++ reason)) p.1 in
      let result = skipped k.operation_id provider name reason status in
      let published = publish_result render loads sensitive x name none result in
      let second =
        and_then-silent q published (publish_result-silent x name none result q.1)
        ∙ emit-silent loads sensitive x _ _ _ _ p.1 in
      and_then-silent p _ second ∙ emit-silent loads sensitive x _ _ _ _ s

  -- `skip` sends no call to the registry, whatever it is given.
  pub skip-silent :
      (x : ToolExecutor) (k : Skip) (s : Lifecycle)
      → dispatches (skip render loads sensitive x k s).finished.log ≡ dispatches s.log
  unfolding skip
  skip-silent x k s = elim (Result-cases (skip_request k)) [
    | inl ((reason, status), accepted) ↦
        let id = (safe_provider k.provider_value).0 in
        ground (
          arith,
          accepted,
          skip_with-silent x k (safe_name x k.name_value) id (take 160 reason) status (reset s),
        )
    | inr (e, rejected) ↦ ground (arith, rejected)
  ]
