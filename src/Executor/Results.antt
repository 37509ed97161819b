-- ===== src/Executor/Results.antt =====
-- The results that executor.py makes itself, and `_normalize_result`.
use coding_agent_neo.Prelude.{
  ℕ, String, Bool, false, not, ◌||◌, Option, none, some, ◌++◌, Result, ok, ◌>>=◌, ArgumentError,
  if◌then◌else◌, is_none, get_or, Text, chars, text_eq,
}
use coding_agent_neo.Prelude.Int.{pos}
use coding_agent_neo.Json.{Value, Fields, str, end, field, get}
use coding_agent_neo.Models.{ToolResultStatus, error, denied, invalid, ToolResult}
use coding_agent_neo.Tools.Output.{project_tool_result, to_tool_result}
use coding_agent_neo.Executor.Redact.{json_safe_fields}

-- None for a missing text
abbrev pub with_name : Option Text → Fields → Fields
with_name none rest = rest
with_name (some name) rest = field "tool_name" (str name) rest

unfoldable pub made : Text → Option Text → ToolResultStatus → Text → Fields → Option ℕ → ToolResult
made correlation provider status text metadata duration = record {
  correlation_id = correlation;
  status = status;
  text = text;
  provider_tool_call_id = provider;
  metadata = metadata;
  truncated = false;
  original_length = none;
  duration_seconds = duration;
  exit_code = none;
  timed_out = false;
  path = none;
}

unfoldable pub protocol_result : Text → Option Text → Text → Text → Option Text → ToolResult
unfolding made
protocol_result correlation provider code message tool_name =
    made correlation provider invalid message
      (field "error_code" (str code) (with_name tool_name end)) none

unfoldable pub executor_error_result : Text → Option Text → Text → Text → Option ℕ → ToolResult
unfolding made
executor_error_result correlation provider tool_name code duration =
    made correlation provider error (chars "tool execution failed")
      (field "error_code" (str code) (field "tool_name" (str tool_name) end)) duration

unfoldable pub denied_result : Text → Option Text → Text → Text → Text → Text → ToolResult
unfolding made
denied_result correlation provider tool_name code text reason =
    made correlation provider denied text
      (field "error_code" (str code)
        (field "tool_name" (str tool_name) (field "reason" (str reason) end)))
      none

-- f"invalid tool arguments ({code} at $)"
unfoldable pub safe_error_message : Text → Text
safe_error_message code = chars "invalid tool arguments (" ++ code ++ chars " at $)"

-- What a registry gives back for a dispatch: it may raise an `Exception`, return None, something
-- that is no `ToolResult`, or a result, or raise another exception, of this class.
pub data Returned : Type 0 where
  raised nothing other : Returned
  returned : ToolResult → Returned
  interrupted : (error_type : Text) → Returned

-- The test for the registry's own failures, whose text may quote an exception.
unfoldable pub is_internal : Fields → Bool
unfolding get
is_internal metadata =
    is_internal_code (get "error_code" metadata) || not (is_none (get "error_type" metadata))
  where
    is_internal_code : Option Value → Bool
    is_internal_code (some (str t)) = text_eq t (chars "internal_tool_error")
    is_internal_code _ = false

-- `project_tool_result(result, limit).to_tool_result()`, where a limit is set.
unfoldable pub limited : Option ℕ → ToolResult → Result ArgumentError ToolResult
unfolding project_tool_result to_tool_result
limited none result = ok result
limited (some n) result = do
  p ← project_tool_result result (some (pos n)) none none none
  ok (to_tool_result p)

-- `render` stands for Python's `str` of a value that is no string, `sensitive` for the search of
-- `_SENSITIVE_KEY`.
module _ (render : Value → Text) (sensitive : String → Bool) where
  -- str(metadata.get("error_code", ProtocolErrorCode.INTERNAL_TOOL_ERROR))
  unfoldable pub code_text : Option Value → Text
  code_text none = chars "internal_tool_error"
  code_text (some (str t)) = t
  code_text (some v) = render v

  -- The result with the call's IDs, a duration, and no text of an internal failure.
  unfoldable pub owned : Text → Option Text → Text → ℕ → ToolResult → ToolResult
  unfolding is_internal code_text get
  owned correlation provider name elapsed result =
      let internal = is_internal result.metadata in
      let cleaned : Fields =
        if internal
        then field "error_code" (str (code_text (get "error_code" result.metadata)))
            (field "tool_name" (str name) end)
        else result.metadata in
      record {
        correlation_id = correlation;
        status = result.status;
        text = if internal then chars "tool execution failed" else result.text;
        provider_tool_call_id = provider;
        metadata = json_safe_fields sensitive cleaned;
        truncated = result.truncated;
        original_length = result.original_length;
        duration_seconds = some (get_or result.duration_seconds elapsed);
        exit_code = result.exit_code;
        timed_out = result.timed_out;
        path = result.path;
      }

  -- The guard of `execute` on a missing result, then `_normalize_result`.
  unfoldable pub normalize_result :
      Option ℕ → Text → Option Text → Text → ℕ → Returned → Result ArgumentError ToolResult
  unfolding owned limited executor_error_result
  normalize_result limit correlation provider name elapsed (returned result) =
      limited limit (owned correlation provider name elapsed result)
  normalize_result limit correlation provider name elapsed other =
      ok (
        executor_error_result correlation provider name (chars "invalid_tool_result")
          (some elapsed))
  normalize_result limit correlation provider name elapsed _ = limited limit (
      owned correlation provider name elapsed
        (executor_error_result correlation provider name (chars "executor_error") (some elapsed)))
