-- ===== src/Models.antt =====
-- The values of models.py that the components exchange.
use coding_agent_neo.Prelude.{ℕ, Bool, Option, List, Text}
use coding_agent_neo.Prelude.Int.{ℤ}
use coding_agent_neo.Json.{Fields}

pub data EventType : Type 0 where
  session_start agent_start user_message assistant_message tool_call policy_decision : EventType
  approval_request tool_result compaction retry turn_end error agent_end session_end : EventType

pub data RuntimeState : Type 0 where
  running waiting_for_approval completed_turn limit_reached interrupted failed : RuntimeState

pub data ToolResultStatus : Type 0 where
  success error denied invalid cancelled timeout : ToolResultStatus

-- `duration_seconds` counts the fixed fraction of a second that the clock does.
pub record ToolResult : Type 0 where
  pub correlation_id : Text
  pub status : ToolResultStatus
  pub text : Text
  pub provider_tool_call_id : Option Text
  pub metadata : Fields
  pub truncated : Bool
  pub original_length : Option ℕ
  pub duration_seconds : Option ℕ
  pub exit_code : Option ℤ
  pub timed_out : Bool
  pub path : Option Text

pub record NormalizedUsage : Type 0 where
  pub input_tokens : Option ℕ
  pub output_tokens : Option ℕ
  pub total_tokens : Option ℕ

pub record NormalizedToolCall : Type 0 where
  pub provider_tool_call_id : Option Text
  pub name : Option Text
  pub raw_arguments : Text
  pub arguments_valid : Bool
  pub diagnostics : List Text

pub record NormalizedAssistantResponse : Type 0 where
  pub text : Text
  pub tool_calls : List NormalizedToolCall
  pub usage : Option NormalizedUsage
  pub finish_reason : Option Text
  pub diagnostics : List Text
