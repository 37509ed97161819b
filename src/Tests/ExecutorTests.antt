-- ===== src/Tests/ExecutorTests.antt =====
-- The theorems on executor.py at concrete inputs.
use coding_agent_neo.Prelude.{
  String, str_eq, ◌≡◌, refl, ◌⊎◌, Bool, true, false, Option, none, some, List, [], ◌∷◌, ◌++◌, ok,
  err, take, Text, chars, text_eq,
}
use coding_agent_neo.Models.{EventType}
use coding_agent_neo.Json.{get, bool, Value, num, str, end, field, obj}
use coding_agent_neo.Prelude.Int.{pos}
use coding_agent_neo.Models.{denied, ToolResult}
use coding_agent_neo.Tools.Schema.{mapping}
use coding_agent_neo.Tools.Truncate.{slice, only_one, head_tail_truncate}
use coding_agent_neo.Tools.Output.{from_result, project_tool_result}
use coding_agent_neo.Policy.Decide.{ask}
use coding_agent_neo.Executor.Redact.{json_safe, is_redacted, json_safe-is_redacted}
use coding_agent_neo.Executor.Results.{normalize_result, nothing}
use coding_agent_neo.Executor.Lifecycle.{
  Effect, ToolLifecycleEvent, gives, tool_call_event, policy_event, result_event, publish,
  Lifecycle, ApprovalPort, ToolExecutor,
}
use coding_agent_neo.Executor.Attempt.{uncaught, safe_name, attempt, given, safe_provider}
use coding_agent_neo.Executor.Execute.{
  reset, skip_request, skip_reason, skip_status, is_safe_reason, Skip, execute, skip,
}
use coding_agent_neo.Executor.Execute.Gated.{dispatches, Gated}
use coding_agent_neo.Executor.Execute.Dispatch.{execute-Gated, skip-silent}
use coding_agent_neo.Executor.Execute.Trace.{kinds, execute-kinds}
use coding_agent_neo.Executor.Execute.Skipped.{skip-Completes}

abbrev as_text : Value → Text
as_text v = []

abbrev unread : Text → Option Value
unread t = none

abbrev is_token : String → Bool
is_token k = str_eq k "token"

abbrev secret : Value
secret = obj (field "a" (obj (field "token" (str (chars "x")) end)) (field "b" (num (pos 1)) end))

json_safe-is_redacted_example : is_redacted is_token (json_safe is_token secret) ≡ true
json_safe-is_redacted_example = json_safe-is_redacted is_token secret

abbrev agreeing : ApprovalPort
agreeing = record { port_interactive = some true; answer = λ log name args. gives true }

abbrev broken : List Effect → ToolLifecycleEvent → Option Text
broken log event = some (chars "OSError")

-- A registry that knows every name, a policy that asks, a user who agrees, a publisher that raises.
abbrev executor : ToolExecutor
executor = record {
  registered = λ name. true;
  validate = λ name arguments. ok end;
  dispatch = λ log name args. nothing;
  policy = λ name args. gives ask;
  approval_port = some agreeing;
  interactive = true;
  event_error = λ log type. none;
  event_publisher = some broken;
  strict_event_publishing = false;
  model_output_limit = some 100;
}

abbrev start : Lifecycle
start = record { log = []; event_errors = []; last_result = none; last_result_published = false }

execute-Gated_example :
    Gated executor
      (some (chars "bash"))
      (mapping end)
      (tool_call_event unread is_token executor
        (safe_name executor (some (chars "bash")))
        (mapping end)
        (chars "c1")
        (safe_provider (given (chars "p1"))).0
        (reset start)).1.log
      start
      (execute as_text unread is_token executor
        (some (chars "bash"))
        (mapping end)
        (given (chars "p1"))
        (chars "c1")
        5
        start).finished
execute-Gated_example =
    execute-Gated as_text unread is_token executor (some (chars "bash")) (mapping end)
      (given (chars "p1")) (chars "c1") 5 start

-- The call is cleared, and reaches the registry.
dispatched_test :
    dispatches
      (execute as_text unread is_token executor
        (some (chars "bash"))
        (mapping end)
        (given (chars "p1"))
        (chars "c1")
        5
        start).finished.log
    ≡ (chars "bash", end) ∷ []
unfolding execute dispatches tool_call_event normalize_result attempt policy_event only_one
    from_result head_tail_truncate slice result_event project_tool_result publish text_eq
dispatched_test = refl

execute-kinds_example :
    let run =
      execute as_text unread is_token executor
        (some (chars "bash"))
        (mapping end)
        (given (chars "p1"))
        (chars "c1")
        5
        start in
    (kinds run.finished.log
      ≡ EventType.tool_result ∷ EventType.policy_decision ∷ EventType.tool_call ∷ kinds start.log)
    ⊎ ((kinds run.finished.log ≡ EventType.tool_result ∷ EventType.tool_call ∷ kinds start.log)
        × (e : Text) × (run.outcome ≡ err (uncaught e)))
execute-kinds_example =
    execute-kinds as_text unread is_token executor refl broken refl (λ log type. refl)
      (some (chars "bash")) (mapping end) (given (chars "p1")) (chars "c1") 5 start

abbrev skipping : Skip
skipping = record {
  name_value = some (chars "bash");
  raw_arguments = mapping end;
  operation_id = chars "c1";
  provider_value = given (chars "p1");
  reason = some (chars "limit_reached");
  status = some denied;
}

skip-silent_example :
    dispatches (skip as_text unread is_token executor skipping start).finished.log
    ≡ dispatches start.log
skip-silent_example = skip-silent as_text unread is_token executor skipping start

skip-Completes_example :
    let run = skip as_text unread is_token executor skipping start in
    (q : ToolResult) × (run.outcome ≡ ok q)
    × (q.correlation_id ≡ chars "c1")
    × (q.provider_tool_call_id ≡ (safe_provider (given (chars "p1"))).0)
    × (q.status ≡ denied)
    × (q.text ≡ chars "tool call was not executed: " ++ take 160 (chars "limit_reached"))
    × (get "executed" q.metadata ≡ some (bool false))
    × (get "reason" q.metadata ≡ some (str (take 160 (chars "limit_reached"))))
    × (kinds run.finished.log
        ≡ EventType.tool_result ∷ EventType.policy_decision ∷ EventType.tool_call ∷ kinds start.log)
unfolding skip_request skip_reason skip_status is_safe_reason
skip-Completes_example =
    skip-Completes as_text unread is_token executor refl broken refl (λ log type. refl) skipping
      (chars "limit_reached") denied start refl
