-- ===== src/AgentLoop/Calls.antt =====
-- The tool calls of one response in agent_loop.py: planning, messages, execution and skipping.
use coding_agent_neo.Prelude.{
  ℕ, Bool, false, Option, none, some, List, [], ◌∷◌, Result, ok, err, ArgumentError, if◌then◌else◌,
  get_or, any, Text, chars, text_eq, member, is_empty,
}
use coding_agent_neo.Json.{Value, Items, Fields, str, arr, obj, nil, cons, end, field}
use coding_agent_neo.Models.{
  ToolResult, ToolResultStatus, NormalizedToolCall, NormalizedAssistantResponse,
}
use coding_agent_neo.Runtime.State.{ContextState}
use coding_agent_neo.Runtime.State
use coding_agent_neo.Context.Message.{detach_message}
use coding_agent_neo.Tools.Output.{as_int, to_dict, project_tool_result}
use coding_agent_neo.Executor.Attempt.{ProviderValue, absent, given}
use coding_agent_neo.AgentLoop.Monad.{
  Raise, interrupt, failure, pure, raise, gets, modify, ◌>>=◌, ◌>>◌,
}
use coding_agent_neo.AgentLoop.Boundary.{
  Boundary, PlannedToolCall, Executed, executed, interrupted, broken,
}
use coding_agent_neo.AgentLoop.Session.{Loop, outside, or_fail}

abbrev invalid_provider_diagnostics : List Text
invalid_provider_diagnostics =
    chars "missing_tool_call_id"
    ∷ chars "invalid_tool_call_id"
    ∷ chars "duplicate_tool_call_id"
    ∷ []

-- any(code in _INVALID_PROVIDER_DIAGNOSTICS for code in call.diagnostics)
unfoldable pub has_invalid_id : NormalizedToolCall → Bool
has_invalid_id call = any (λ code. member code invalid_provider_diagnostics) call.diagnostics

-- name or fallback
abbrev pub or_text : Option Text → Text → Text
or_text none fallback = fallback
or_text (some t) fallback = if is_empty t then fallback else t

-- One call of `_plan_calls`, with its correlation ID.
unfoldable pub planned : NormalizedToolCall → Text → PlannedToolCall
unfolding has_invalid_id
planned call correlation_id = record {
  call = call;
  correlation_id = correlation_id;
  context_tool_call_id =
      if has_invalid_id call
      then correlation_id
      else get_or call.provider_tool_call_id correlation_id;
}

abbrev pub declaration : PlannedToolCall → Value
declaration plan = obj (
    field "id" (str plan.context_tool_call_id) (
      field "type" (str (chars "function")) (
        field "function"
          (obj (
            field "name" (str (or_text plan.call.name (chars "invalid_tool_name")))
              (field "arguments" (str plan.call.raw_arguments) end)))
          end)))

abbrev pub declarations : List PlannedToolCall → Items
declarations [] = nil
declarations (plan ∷ plans) = cons (declaration plan) (declarations plans)

abbrev pub call_fields : List PlannedToolCall → Fields
call_fields [] = end
call_fields (plan ∷ plans) = field "tool_calls" (arr (declarations (plan ∷ plans))) end

unfoldable pub assistant_message : NormalizedAssistantResponse → List PlannedToolCall → Fields
assistant_message response plans =
    field "role" (str (chars "assistant")) (field "content" (str response.text) (call_fields plans))

-- The runtime's context with a message more.
unfoldable pub appended : Fields → Option ℕ → ContextState → Result Raise ContextState
appended message sequence c = elim (detach_message message) [
  | err e ↦ err (failure (chars "ContextIntegrityError") false)
  | ok detached ↦ elim (State.append_message detached (as_int sequence) c) [
    | err e ↦ err (failure (chars "ValueError") false)
    | ok c' ↦ ok c'
  ]
]

module _ {W : Type 0} where
  abbrev pub set_context : Result Raise ContextState → Loop W (Unit {0})
  set_context (ok c) = modify (λ s. record s { context_state = c })
  set_context (err e) = raise e

  unfoldable pub append_message : Fields → Option ℕ → Loop W (Unit {0})
  append_message message sequence =
      gets (λ s. appended message sequence s.context_state) >>= set_context

  abbrev pub set_pending : List PlannedToolCall → Loop W (Unit {0})
  set_pending plans = modify (λ s. record s { pending_plans = plans })

  module _ (x : Boundary W) where
    unfoldable pub plan_calls : List NormalizedToolCall → Loop W (List PlannedToolCall)
    plan_calls [] = pure []
    plan_calls (call ∷ calls) = do
      correlation_id ← outside x.new_correlation_id
      plans ← plan_calls calls
      pure (planned call correlation_id ∷ plans)

    -- `_tool_message`, then `_append_message` with the number of the executor's last event.
    abbrev pub or_invalid : Text → Result ArgumentError Fields → Loop W Fields
    or_invalid id (ok projection) = pure (
        field "role" (str (chars "tool"))
          (field "tool_call_id" (str id) (field "content" (str (x.dumps (obj projection))) end)))
    or_invalid id (err e) = raise (failure (chars "ValueError") false)

    unfoldable pub tool_message : ToolResult → Text → Loop W Fields
    tool_message result context_tool_call_id =
        or_invalid context_tool_call_id
          (elim (project_tool_result result (as_int x.model_output_limit) none none none) [
            | ok p ↦ ok (to_dict p)
            | err e ↦ err e
          ])

    unfoldable pub append_result : PlannedToolCall → ToolResult → Loop W (Unit {0})
    append_result plan result = do
      message ← tool_message result plan.context_tool_call_id
      sequence ← gets (λ s. x.last_sequence s.world)
      append_message message sequence

    abbrev provider_value : Option Text → ProviderValue
    provider_value none = absent
    provider_value (some t) = given t

    abbrev pub or_unwind : Executed → Loop W ToolResult
    or_unwind (executed result) = pure result
    or_unwind (interrupted error_type) = raise (interrupt error_type)
    or_unwind (broken error_type) = raise (failure error_type false)

    unfoldable pub execute_plan : PlannedToolCall → Loop W ToolResult
    execute_plan plan =
        let provider : ProviderValue =
          if has_invalid_id plan.call
          then given []
          else provider_value plan.call.provider_tool_call_id in
        outside (
          x.execute (get_or plan.call.name []) plan.call.raw_arguments provider plan.correlation_id)
        >>= or_unwind

    -- The loop of `_skip_pending_plans`; the plan leaves the list first.
    unfoldable pub skip_plans : Text → ToolResultStatus → List PlannedToolCall → Loop W (Unit {0})
    skip_plans reason status [] = pure tt
    skip_plans reason status (plan ∷ plans) = do
      set_pending plans
      outcome ← outside (
          x.skip (get_or plan.call.name []) plan.call.raw_arguments reason status
            plan.call.provider_tool_call_id plan.correlation_id)
      result ← or_fail outcome
      append_result plan result
      skip_plans reason status plans

    unfoldable pub skip_pending_plans : Text → ToolResultStatus → Loop W (Unit {0})
    skip_pending_plans reason status = gets (λ s. s.pending_plans) >>= skip_plans reason status

    abbrev pub consume : List PlannedToolCall → Option ToolResult → Loop W (Unit {0})
    consume [] result = pure tt
    consume (plan ∷ plans) none = pure tt
    consume (plan ∷ plans) (some result) =
        if text_eq result.correlation_id plan.correlation_id
        then set_pending plans >> append_result plan result
        else pure tt

    unfoldable pub consume_published_result : Loop W (Unit {0})
    consume_published_result = do
      plans ← gets (λ s. s.pending_plans)
      result ← gets (λ s. x.published s.world)
      consume plans result
