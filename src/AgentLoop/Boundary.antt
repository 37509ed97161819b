-- ===== src/AgentLoop/Boundary.antt =====
-- What `AgentLoop` of agent_loop.py keeps, and the parts of the program that it calls. `W` is the
-- state of all that is outside the loop; every call may change it, and what it gives back may
-- depend on it. An exception of those parts is a class name; KeyboardInterrupt and CancelledError
-- arise in the model's and in the tools' calls.
use coding_agent_neo.Prelude.{ℕ, Bool, Option, List, Result, Text}
use coding_agent_neo.Json.{Value, Fields}
use coding_agent_neo.Models.{
  RuntimeState, ToolResult, ToolResultStatus, NormalizedToolCall, NormalizedAssistantResponse,
}
use coding_agent_neo.Runtime.Cancellation.{CancellationSignal}
use coding_agent_neo.Runtime.Budget.{BudgetTracker, LimitReason}
use coding_agent_neo.Runtime.State.{ContextState}
use coding_agent_neo.Context.Builder.{ContextBuilder}
use coding_agent_neo.Compactor.{Compactor, CompactionOutcome, ModelReply}
use coding_agent_neo.Executor.Attempt.{ProviderValue}

pub record PlannedToolCall : Type 0 where
  pub call : NormalizedToolCall
  pub correlation_id : Text
  pub context_tool_call_id : Text

-- The events that the loop emits itself, with what their payloads say; the snapshot of the budget
-- and the stack of an error are left out.
pub data LoopEvent : Type 0 where
  session_start agent_start retry : LoopEvent
  user_message : Text → LoopEvent
  assistant_message : NormalizedAssistantResponse → List PlannedToolCall → LoopEvent
  compaction : CompactionOutcome → (covered : ℕ) → (degraded : Option ℕ) → LoopEvent
  empty_response : (diagnostics : List Text) → (protocol_errors : ℕ) → LoopEvent
  error_event : (error_type : Text) → LoopEvent
  turn_end :
      RuntimeState → (reason : Text) → Option LimitReason → (assistant_text : Text) → LoopEvent
  agent_end session_end : RuntimeState → (reason : Text) → LoopEvent

-- How a call of the executor ends: with a result, by one of the exceptions that interrupt, or by
-- another one.
pub data Executed : Type 0 where
  executed : ToolResult → Executed
  interrupted broken : (error_type : Text) → Executed

-- `publish` gives the sequence number of the stored event, whatever its observers did, or the
-- class of the exception where nothing was stored. `published` is the executor's last result, once
-- it is published, and `last_sequence` the number of the executor's last stored event.
pub record Boundary (W : Type 0) : Type 0 where
  pub dumps : Value → Text
  pub casefold : Text → Text
  pub context_builder : ContextBuilder
  pub compactor : Compactor
  pub max_compactions_per_request : ℕ
  pub model_output_limit : Option ℕ
  pub clock : W → ℕ × W
  pub signal : W → CancellationSignal
  pub set_signal : CancellationSignal → W → W
  pub publish : LoopEvent → W → Result Text ℕ × W
  pub start_environment : W → Result Text (Unit {0}) × W
  pub close_environment : W → Result Text (Unit {0}) × W
  pub is_active_view : W → Bool
  pub schemas : W → List Fields
  pub new_correlation_id : W → Text × W
  pub complete : (messages schemas : List Fields) → W → ModelReply × W
  pub execute : Text → Text → ProviderValue → Text → W → Executed × W
  pub skip :
      Text → Text → Text → ToolResultStatus → Option Text → Text → W → Result Text ToolResult × W
  pub published : W → Option ToolResult
  pub last_sequence : W → Option ℕ

-- The loop's own fields and those of its runtime, with the local variable `pending_plans` of
-- `run_turn`, which its handlers read.
pub record AgentLoop (W : Type 0) : Type 0 where
  pub world : W
  pub budget : BudgetTracker
  pub context_state : ContextState
  pub state : RuntimeState
  pub session_started : Bool
  pub session_closed : Bool
  pub environment_started : Bool
  pub turn_active : Bool
  pub last_assistant_text : Text
  pub pending_plans : List PlannedToolCall

pub record AgentLoopResult : Type 0 where
  pub state : RuntimeState
  pub assistant_text : Text
  pub reason : Text
  pub limit_reason : Option LimitReason
  pub error_type : Option Text
