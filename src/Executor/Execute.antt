-- ===== src/Executor/Execute.antt =====
-- `ToolExecutor.execute` and `skip` of executor.py, from the point where the operation has its
-- correlation ID and the clock has been read.
pub mod Gated
pub mod Trace
pub mod Skipped
pub mod Total
pub mod Returns
pub mod Dispatch
use coding_agent_neo.Prelude.{
  ℕ, String, Bool, true, false, not, ◌&&◌, ◌||◌, Option, none, some, [], ◌∷◌, ◌++◌, Result, ok, err,
  ◌>>=◌, ◌>>◌, ArgumentError, value_error, leb, ◌==◌, if◌then◌else◌, length, take, all, Text, chars,
}
use coding_agent_neo.Json.{Value, bool, str, end, field}
use coding_agent_neo.Models.{ToolResultStatus, success, ToolResult}
use coding_agent_neo.Tools.Schema.{Arguments}
use coding_agent_neo.Tools.Output.{as_int, project_tool_result}
use coding_agent_neo.Policy.Decide.{deny}
use coding_agent_neo.Executor.Results.{normalize_result, made}
use coding_agent_neo.Executor.Lifecycle.{
  Lifecycle, ToolExecutor, policy_event, tool_call_event, result_event,
}
use coding_agent_neo.Executor.Attempt.{
  publication, bad_argument, Raised, ProviderValue, safe_provider, safe_name, Call, Attempt,
  attempt,
}

pub record Run : Type 0 where
  pub outcome : Result Raised ToolResult
  pub finished : Lifecycle

-- The `finally` block's exception replaces the pending one.
abbrev pub pending : Option Raised → ToolResult → Result Raised ToolResult
pending none result = ok result
pending (some e) result = err e

abbrev pub ending : Option Raised → ToolResult → Option Text × Lifecycle → Run
ending raising result (none, s) = record {
  outcome = pending raising result;
  finished = record s { last_result_published = true };
}
ending raising result (some e, s) = record { outcome = err (publication e); finished = s }

abbrev pub stopped : ArgumentError → Lifecycle → Run
stopped e s = record { outcome = err (bad_argument e); finished = s }

abbrev is_lower : ℕ → Bool
is_lower c = leb 97 c && leb c 122

abbrev is_digit : ℕ → Bool
is_digit c = leb 48 c && leb c 57

-- _SAFE_SKIP_REASON.fullmatch(reason)
unfoldable pub is_safe_reason : Text → Bool
is_safe_reason [] = false
is_safe_reason (c ∷ cs) =
    is_lower c && all (λ d. is_lower d || is_digit d || (d == 95)) cs && leb (length cs) 63

-- What a caller asks to skip: the status is none where it is no `ToolResultStatus`, the reason
-- where it is no string.
pub record Skip : Type 0 where
  pub name_value : Option Text
  pub raw_arguments : Arguments
  pub operation_id : Text
  pub provider_value : ProviderValue
  pub reason : Option Text
  pub status : Option ToolResultStatus

unfoldable pub skip_status : Option ToolResultStatus → Result ArgumentError ToolResultStatus
skip_status none = err value_error
skip_status (some success) = err value_error
skip_status (some status) = ok status

unfoldable pub skip_reason : Option Text → Result ArgumentError Text
skip_reason none = err value_error
skip_reason (some t) = if is_safe_reason t then ok t else err value_error

-- The checks of `skip`, in their order.
unfoldable pub skip_request : Skip → Result ArgumentError (Text × ToolResultStatus)
unfolding skip_reason skip_status
skip_request k = do
  reason ← skip_reason k.reason
  status ← skip_status k.status
  ok (reason, status)

-- The two fields that `execute` and `skip` reset first.
abbrev pub reset : Lifecycle → Lifecycle
reset s = record s { last_result = none; last_result_published = false }

-- The metadata of a call that is not executed.
unfoldable pub skipped : Text → Option Text → Text → Text → ToolResultStatus → ToolResult
unfolding made
skipped correlation provider name reason status =
    made correlation provider status (chars "tool call was not executed: " ++ reason)
      (field "error_code" (str (chars "not_executed")) (
        field "reason" (str reason)
          (field "executed" (bool false) (field "tool_name" (str name) end))))
      none

module _ (render : Value → Text) (loads : Text → Option Value) (sensitive : String → Bool) where
  -- `last_result` and the result event.
  unfoldable pub publish_result : ToolExecutor → Text → Option Raised → ToolResult → Lifecycle → Run
  publish_result x name raising result s =
      let recorded = record s { last_result = some result } in
      elim (project_tool_result result (as_int x.model_output_limit) none none none) [
        | err e ↦ stopped e recorded
        | ok projected ↦
            ending raising result (result_event loads sensitive x name projected recorded)
      ]

  -- The `finally` block.
  unfoldable pub finish : ToolExecutor → Call → Attempt → Run
  unfolding publish_result
  finish x c a =
      elim (normalize_result render sensitive x.model_output_limit c.operation_id c.provider_id
        c.name c.elapsed a.result) [
          | err e ↦ stopped e a.after
          | ok result ↦ publish_result x c.name a.raising result a.after
        ]

  -- The tool_call event stands before the `try`.
  unfoldable pub begin : ToolExecutor → Bool → Call → Option Text × Lifecycle → Run
  unfolding finish
  begin x valid c (some e, s) = record { outcome = err (publication e); finished = s }
  begin x valid c (none, s) = finish x c (attempt render loads sensitive x valid c s)

  abbrev pub called : ToolExecutor → Option Text → Arguments → Option Text → Text → ℕ → Call
  called x name_value arguments provider operation elapsed = record {
    name_value = name_value;
    raw_arguments = arguments;
    operation_id = operation;
    provider_id = provider;
    name = safe_name x name_value;
    elapsed = elapsed;
  }

  unfoldable pub execute :
      ToolExecutor → Option Text → Arguments → ProviderValue → Text → ℕ → Lifecycle → Run
  unfolding begin safe_provider
  execute x name_value arguments provider_value operation elapsed s =
      let (provider, valid) = safe_provider provider_value in
      let c = called x name_value arguments provider operation elapsed in
      begin x valid c
        (tool_call_event loads sensitive x c.name arguments operation provider (reset s))

  abbrev pub and_then : Option Text × Lifecycle → (Lifecycle → Run) → Run
  and_then (none, s) next = next s
  and_then (some e, s) next = record { outcome = err (publication e); finished = s }

  unfoldable pub skip_with :
      ToolExecutor → Skip → Text → Option Text → Text → ToolResultStatus → Lifecycle → Run
  unfolding publish_result skipped
  skip_with x k name provider reason status s =
      and_then (tool_call_event loads sensitive x name k.raw_arguments k.operation_id provider s)
        (λ t.
          and_then
            (policy_event loads sensitive x name k.operation_id provider deny deny none
              (take 160 (chars "not_executed_" ++ reason)) t)
            (publish_result x name none (skipped k.operation_id provider name reason status)))

  unfoldable pub skip : ToolExecutor → Skip → Lifecycle → Run
  unfolding skip_with skip_request safe_provider
  skip x k s = elim (skip_request k) [
    | err e ↦ stopped e (reset s)
    | ok (reason, status) ↦
        skip_with x k (safe_name x k.name_value) (safe_provider k.provider_value).0
          (take 160 reason) status (reset s)
  ]
