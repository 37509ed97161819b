-- ===== src/AgentLoop/Turn.antt =====
-- `AgentLoop.run_turn` of agent_loop.py.
use coding_agent_neo.Prelude.{
  ℕ, zero, suc, Bool, true, false, not, Option, none, some, List, [], ◌∷◌, Result, ok, err,
  ArgumentError, get_or, Text, chars, strip, is_empty,
}
use coding_agent_neo.Prelude.Int.{pos}
use coding_agent_neo.Json.{Fields, str, end, field}
use coding_agent_neo.Models.{
  running, completed_turn, ToolResult, ToolResultStatus, error, invalid, denied, cancelled,
  NormalizedAssistantResponse,
}
use coding_agent_neo.Runtime.Cancellation.{CancellationSignal, is_cancelled, reason_or, cancel}
use coding_agent_neo.Runtime.Budget.{
  BudgetTracker, LimitReason, tool_calls, protocol_errors, wall_time, context_window, exhausts,
  record_model_step, record_tool_call, record_protocol_error,
}
use coding_agent_neo.AgentLoop.Monad.{
  Raise, limit_exceeded, window_exceeded, interrupt, failure, pure, raise, gets, modify, ◌>>=◌,
  ◌>>◌, catch, when,
}
use coding_agent_neo.AgentLoop.Boundary.{
  LoopEvent, Boundary, AgentLoopResult, PlannedToolCall, empty_response,
}
use coding_agent_neo.AgentLoop.Session.{
  Loop, emit, start_session, check_interrupt, check_active_view, past_deadline, current_limit,
  limit_text, end_turn, limit_result, failed_result, interrupted_result,
}
use coding_agent_neo.AgentLoop.Calls.{
  append_message, set_pending, plan_calls, assistant_message, execute_plan, append_result,
  skip_pending_plans, consume_published_result,
}
use coding_agent_neo.AgentLoop.Prepare.{on_budget, record_usage, complete_model_request}

abbrev pub text_message : Text → Text → Fields
text_message role content = field "role" (str role) (field "content" (str content) end)

abbrev pub protocol_notice : Text
protocol_notice =
    chars
      "Protocol error: return non-empty assistant text or one or more native tool calls. Please correct the response."

-- budget.max_protocol_errors is not None and budget.protocol_errors >= budget.max_protocol_errors
abbrev pub errors_exhausted : BudgetTracker → Bool
errors_exhausted b = exhausts b.max_protocol_errors b.protocol_errors

abbrev pub calls_exhausted : BudgetTracker → Bool
calls_exhausted b = exhausts b.max_tool_calls b.tool_calls

abbrev pub is_invalid : ToolResultStatus → Bool
is_invalid invalid = true
is_invalid _ = false

-- A result of the turn, or none where the loop goes on.
abbrev pub Step : Type 0
Step = Option AgentLoopResult

module _ {W : Type 0} where
  abbrev pub returns : Loop W AgentLoopResult → Loop W Step
  returns m = m >>= λ r. pure (some r)

  -- budget.protocol_errors = 0
  abbrev pub reset_errors : Loop W (Unit {0})
  reset_errors = modify (λ s. record s { budget = record s.budget { protocol_errors = 0 } })

  module _ (x : Boundary W) where
    abbrev pub cancelled_reason : Text → Loop W Text
    cancelled_reason fallback = gets (λ s. reason_or fallback (x.signal s.world))

    -- Every pending plan is skipped, and the turn ends.
    unfoldable pub end_interrupted : Loop W Step
    end_interrupted = do
      skip_pending_plans x (chars "interrupted") cancelled
      reason ← cancelled_reason (chars "cancelled")
      returns (interrupted_result x reason)

    unfoldable pub end_limited : LimitReason → Loop W Step
    end_limited reason = do
      skip_pending_plans x (limit_text reason) denied
      returns (limit_result x reason)

    unfoldable pub recover_empty_response : NormalizedAssistantResponse → Loop W (Unit {0})
    recover_empty_response response = do
      on_budget (record_protocol_error (pos 1))
      errors ← gets (λ s. s.budget.protocol_errors)
      sequence ← emit x (empty_response response.diagnostics errors)
      append_message (text_message (chars "system") protocol_notice) (some sequence)

    abbrev pub limited_or_on : Bool → LimitReason → Loop W Step
    limited_or_on true reason = end_limited reason
    limited_or_on false reason = pure none

    -- A response without tool calls.
    unfoldable pub finish_or_recover : NormalizedAssistantResponse → Loop W Step
    finish_or_recover response = elim (is_empty response.text) [
      | false ↦
          reset_errors >> returns (end_turn x completed_turn (chars "assistant_completed") none)
      | true ↦ do
        recover_empty_response response
        exhausted ← gets (λ s. errors_exhausted s.budget)
        elim exhausted [ true ↦ returns (limit_result x protocol_errors) | false ↦ pure none ]
    ]

    -- What follows the result of one call.
    unfoldable pub count_result : ToolResult → Loop W (Unit {0})
    count_result result = elim (is_invalid result.status) [
      | true ↦ on_budget (record_protocol_error (pos 1))
      | false ↦ reset_errors
    ]

    abbrev pub execute_and_count : PlannedToolCall → List PlannedToolCall → Loop W Step
    execute_and_count plan plans = do
      result ← execute_plan x plan
      append_result x plan result
      set_pending plans
      count_result result
      is_set ← gets (λ s. is_cancelled (x.signal s.world))
      exhausted ← gets (λ s. errors_exhausted s.budget)
      elim is_set [ true ↦ end_interrupted | false ↦ limited_or_on exhausted protocol_errors ]

    abbrev pub run_plan : PlannedToolCall → List PlannedToolCall → Loop W Step
    run_plan plan plans = on_budget (record_tool_call (pos 1)) >> execute_and_count plan plans

    -- The loop over the pending plans.
    unfoldable pub run_calls : List PlannedToolCall → Loop W Step
    run_calls [] = pure none
    run_calls (plan ∷ plans) =
        let again = run_calls plans in
        do
          check_interrupt x
          check_active_view x
          past ← past_deadline x
          exhausted ← gets (λ s. calls_exhausted s.budget)
          elim past [
            | true ↦ end_limited wall_time
            | false ↦ elim exhausted [
              | true ↦ end_limited tool_calls
              | false ↦ run_plan plan plans >>= λ step. elim step [
                | some r ↦ pure (some r)
                | none ↦ again
              ]
            ]
          ]

    -- What is done with a response once it is part of the conversation.
    unfoldable pub act_on : NormalizedAssistantResponse → List PlannedToolCall → Loop W Step
    act_on response plans = do
      is_set ← gets (λ s. is_cancelled (x.signal s.world))
      elim is_set [
        | true ↦ end_interrupted
        | false ↦ past_deadline x >>= λ past. elim past [
          | true ↦ end_limited wall_time
          | false ↦ elim plans [
            | [] ↦ finish_or_recover response
            | plan ∷ rest ↦ run_calls (plan ∷ rest)
          ]
        ]
      ]

    abbrev pub remember : Text → Loop W (Unit {0})
    remember text =
        when (not (is_empty text)) (modify (λ s. record s { last_assistant_text = text }))

    -- One round after the limits: a model step.
    unfoldable pub model_step : Loop W Step
    model_step = do
      on_budget (record_model_step (pos 1))
      response ← complete_model_request x
      record_usage response.usage
      plans ← plan_calls x response.tool_calls
      sequence ← emit x (LoopEvent.assistant_message response plans)
      append_message (assistant_message response plans) (some sequence)
      set_pending plans
      remember response.text
      act_on response plans

    -- The checks in front of a round; `go_on` is what follows them.
    unfoldable pub checked : Loop W Step → Loop W Step
    checked go_on = do
      check_interrupt x
      check_active_view x
      limit ← current_limit x
      elim limit [ some reason ↦ returns (limit_result x reason) | none ↦ go_on ]

    abbrev pub or_again : Loop W Step → Step → Loop W Step
    or_again again (some r) = pure (some r)
    or_again again none = again

    -- `while True`; none where the fuel does not suffice.
    unfoldable pub turn_loop : ℕ → Loop W Step
    turn_loop zero = checked (pure none)
    turn_loop (suc n) = checked (model_step >>= or_again (turn_loop n))

    -- The `try` of `run_turn`. A round takes a model step, so their limit is enough fuel.
    unfoldable pub try_turn : Text → Loop W Step
    try_turn message = do
      check_active_view x
      start_session x
      sequence ← emit x (LoopEvent.user_message message)
      append_message (text_message (chars "user") message) (some sequence)
      fuel ← gets (λ s. get_or s.budget.max_steps 0)
      turn_loop fuel

    -- The `try` of the handlers: what it raises, where it raises.
    unfoldable pub pair_pending : Text → ToolResultStatus → Loop W (Option Raise)
    pair_pending reason status =
        catch (do consume_published_result x; skip_pending_plans x reason status; pure none)
          (λ e. pure (some e))

    abbrev pub set_cancelled : Result ArgumentError (CancellationSignal × Bool) → Loop W (Unit {0})
    set_cancelled (ok (signal, changed)) =
        modify (λ s. record s { world = x.set_signal signal s.world })
    set_cancelled (err e) = raise (failure (chars "ValueError") false)

    unfoldable pub cancel_by_keyboard : Loop W (Unit {0})
    cancel_by_keyboard = do
      signal ← gets (λ s. x.signal s.world)
      when (not (is_cancelled signal)) (set_cancelled (cancel (chars "keyboard_interrupt") signal))

    abbrev pub interrupted_by : Text → Option Raise → Loop W Step
    interrupted_by error_type (some e) = returns (failed_result x e)
    interrupted_by error_type none = do
      cancel_by_keyboard
      reason ← cancelled_reason error_type
      returns (interrupted_result x reason)

    -- The handlers of `run_turn`.
    unfoldable pub handle_raise : Raise → Loop W Step
    handle_raise (limit_exceeded reason) = returns (limit_result x reason)
    handle_raise window_exceeded = returns (limit_result x context_window)
    handle_raise (interrupt error_type) =
        pair_pending (chars "interrupted") cancelled >>= interrupted_by error_type
    handle_raise (failure error_type overflow) =
        pair_pending (chars "agent_failed") error >>= λ raised.
        returns (failed_result x (get_or raised (failure error_type overflow)))

    abbrev pub start_turn : Loop W (Unit {0})
    start_turn = modify (λ s. record s {
      state = running;
      turn_active = true;
      last_assistant_text = [];
      pending_plans = [];
    })

    unfoldable pub run_turn : Text → Loop W Step
    run_turn message = do
      when (is_empty (strip message)) (raise (failure (chars "ValueError") false))
      closed ← gets (λ s. s.session_closed)
      when closed (raise (failure (chars "LoopClosedError") false))
      active ← gets (λ s. s.turn_active)
      when active (raise (failure (chars "RuntimeError") false))
      start_turn
      catch (try_turn message) handle_raise
