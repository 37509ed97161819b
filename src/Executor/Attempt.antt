-- ===== src/Executor/Attempt.antt =====
-- The `try` of `ToolExecutor.execute` of executor.py, from where the operation has its
-- correlation ID and the clock has been read. The outer `except` is the branch in which a
-- publication raised. `render` stands for Python's `str` of a value that is no string, `loads` and `sensitive`
-- for `json.loads` and the search of `_SENSITIVE_KEY`.
use coding_agent_neo.Prelude.{
  ℕ, String, Bool, true, false, not, ◌||◌, Option, none, some, ◌++◌, Result, ok, err, ArgumentError,
  if◌then◌else◌, Text, chars, text_eq, is_empty,
}
use coding_agent_neo.Json.{Value, Fields}
use coding_agent_neo.Models.{ToolResult}
use coding_agent_neo.Tools.Schema.{Arguments}
use coding_agent_neo.Policy.Decide.{PolicyDecision, allow, ask, deny, has_nul, is_false}
use coding_agent_neo.Executor.Results.{
  interrupted, Returned, raised, nothing, returned, protocol_result, executor_error_result,
  denied_result, safe_error_message,
}
use coding_agent_neo.Executor.Lifecycle.{
  gives, errs, aborts, Reply, Reply, asked, dispatched, Lifecycle, ApprovalPort, ToolExecutor, note,
  policy_event,
}

-- The argument `provider_tool_call_id`: None, a string, or something that is no provider ID.
pub data ProviderValue : Type 0 where
  absent foreign : ProviderValue
  given : Text → ProviderValue

-- The ID, and whether it is one.
unfoldable pub safe_provider : ProviderValue → Option Text × Bool
safe_provider absent = (none, true)
safe_provider foreign = (none, false)
safe_provider (given t) = if is_empty t || has_nul t then (none, false) else (some t, true)

abbrev invalid_tool_name : Text
invalid_tool_name = chars "<invalid-tool-name>"

-- `name_value` is none where it is no string.
unfoldable pub safe_name : ToolExecutor → Option Text → Text
safe_name x none = invalid_tool_name
safe_name x (some t) =
    if is_empty t then invalid_tool_name else if x.registered t then t else invalid_tool_name

-- One call: the operation's ID, what the caller gave, the names and IDs that are safe to show, and
-- the clock's difference.
pub record Call : Type 0 where
  pub name_value : Option Text
  pub raw_arguments : Arguments
  pub operation_id : Text
  pub provider_id : Option Text
  pub name : Text
  pub elapsed : ℕ

-- The decision on one call: what the policy asked for and what it comes to.
pub record Gate : Type 0 where
  pub requested : PolicyDecision
  pub decision : PolicyDecision
  pub approved : Option Bool
  pub reason : Text

-- What `execute` and `skip` raise: a `ToolEventPublicationError`, an exception that no handler here
-- stops, or that of a bad argument.
pub data Raised : Type 0 where
  publication : Text → Raised
  uncaught : (error_type : Text) → Raised
  bad_argument : ArgumentError → Raised

-- How the `try` ends: the exception that leaves it, and the local `result`.
pub record Attempt : Type 0 where
  pub raising : Option Raised
  pub result : Returned
  pub after : Lifecycle

abbrev pub settled : Returned → Lifecycle → Attempt
settled result s = record { raising = none; result = result; after = s }

abbrev pub after_event :
    Option Text × Lifecycle → (Lifecycle → Attempt) → (Lifecycle → Attempt) → Attempt
after_event (none, s) next handler = next s
after_event (some e, s) next handler = handler s

abbrev pub or_raise : Option Text × Lifecycle → Attempt
or_raise (none, s) = settled nothing s
or_raise (some e, s) = record { raising = some (publication e); result = nothing; after = s }

-- An exception that no handler stops, before there is a result.
abbrev pub leave : Text → Lifecycle → Attempt
leave e s = record { raising = some (uncaught e); result = nothing; after = s }

-- `reason` and `text` of a refusal
unfoldable pub denied_text : Text → Text
denied_text reason =
    if text_eq reason (chars "user_rejected")
    then chars "tool execution denied by user"
    else if text_eq reason (chars "non_interactive_approval_required")
    then chars "tool execution denied: approval is unavailable"
    else if text_eq reason (chars "approval_error")
    then chars "tool execution denied: approval failed"
    else if text_eq reason (chars "policy_denied")
    then chars "tool execution denied by policy"
    else chars "tool execution denied"

abbrev approved_gate : Gate
approved_gate = record {
  requested = ask;
  decision = allow;
  approved = some true;
  reason = chars "approved";
}

abbrev rejected_gate : Text → Gate
rejected_gate reason = record {
  requested = ask;
  decision = deny;
  approved = some false;
  reason = reason;
}

-- The gate of an answer, or the exception that passes through.
unfoldable pub answered : Reply Bool → Result Text Gate
answered errs = ok (rejected_gate (chars "approval_error"))
answered (gives true) = ok approved_gate
answered (gives false) = ok (rejected_gate (chars "user_rejected"))
answered (aborts e) = err e

-- Refusals of an approval that is not asked for.
abbrev unasked : Text → Gate
unasked reason = record { requested = ask; decision = deny; approved = none; reason = reason }

abbrev pub port_refuses : Option ApprovalPort → Bool
port_refuses none = false
port_refuses (some port) = is_false port.port_interactive

unfoldable pub ask_port :
    Option ApprovalPort → Text → Fields → Lifecycle → Result Text Gate × Lifecycle
unfolding answered
ask_port none name parsed s = (ok (unasked (chars "approval_unavailable")), s)
ask_port (some port) name parsed s =
    (answered (port.answer s.log name parsed), note (asked name parsed) s)

unfoldable pub gate :
    ToolExecutor → Text → Fields → PolicyDecision → Lifecycle → Result Text Gate × Lifecycle
unfolding ask_port
gate x name parsed allow s = (
  ok (record {
    requested = allow;
    decision = allow;
    approved = none;
    reason = chars "policy_allow";
  }),
  s,
)
gate x name parsed deny s = (
  ok (record {
    requested = deny;
    decision = deny;
    approved = none;
    reason = chars "policy_denied";
  }),
  s,
)
gate x name parsed ask s =
    if not x.interactive || port_refuses x.approval_port
    then (ok (unasked (chars "non_interactive_approval_required")), s)
    else ask_port x.approval_port name parsed s

module _ (render : Value → Text) (loads : Text → Option Value) (sensitive : String → Bool) where
  -- The policy event of a call that no policy has allowed.
  unfoldable pub deny_event : ToolExecutor → Call → Text → Lifecycle → Option Text × Lifecycle
  deny_event x c reason s =
      policy_event loads sensitive x c.name c.operation_id c.provider_id deny deny none reason s

  abbrev pub failed : Call → Text → Returned
  failed c code = returned (executor_error_result c.operation_id c.provider_id c.name code none)

  -- The outer `except`, before any policy event was published.
  unfoldable pub outer : ToolExecutor → Call → Lifecycle → Attempt
  unfolding deny_event
  outer x c s =
      let published = deny_event x c (chars "executor_error") s in
      after_event published (settled (failed c (chars "executor_error"))) (λ _. or_raise published)

  -- A refusal before the policy is asked.
  unfoldable pub refuse : ToolExecutor → Call → Text → ToolResult → Lifecycle → Attempt
  unfolding outer
  refuse x c reason result s =
      after_event (deny_event x c reason s) (settled (returned result)) (outer x c)

  -- The inner `except`, before the decision was published.
  unfoldable pub policy_error : ToolExecutor → Call → Lifecycle → Attempt
  unfolding refuse
  policy_error x c s =
      refuse x c (chars "policy_error")
        (denied_result c.operation_id c.provider_id c.name (chars "policy_error")
          (chars "tool execution denied") (chars "policy_error"))
        s

  abbrev pub from_registry : Call → Returned → Lifecycle → Attempt
  from_registry c raised s = settled (failed c (chars "executor_error")) s
  from_registry c (interrupted e) s = leave e s
  from_registry c result s = settled result s

  unfoldable pub run_gate : ToolExecutor → Call → Text → Fields → Gate → Lifecycle → Attempt
  unfolding denied_text
  run_gate x c name parsed g s = elim g.decision [
    | allow ↦ from_registry c (x.dispatch s.log name parsed) (note (dispatched name parsed) s)
    | _ ↦
        settled
          (returned (
            denied_result c.operation_id c.provider_id c.name (chars "policy_denied")
              (denied_text g.reason) g.reason))
          s
  ]

  -- The decision is published before the registry is reached.
  unfoldable pub judge :
      ToolExecutor → Call → Text → Fields → Result Text Gate × Lifecycle → Attempt
  unfolding run_gate policy_error
  judge x c name parsed (err e, s) = leave e s
  judge x c name parsed (ok g, s) =
      after_event
        (policy_event loads sensitive x c.name c.operation_id c.provider_id g.requested g.decision
          g.approved g.reason s)
        (run_gate x c name parsed g) (policy_error x c)

  unfoldable pub run_validated : ToolExecutor → Call → Text → Fields → Lifecycle → Attempt
  unfolding judge gate
  run_validated x c name parsed s = elim (x.policy name parsed) [
    | errs ↦ policy_error x c s
    | aborts e ↦ leave e s
    | gives requested ↦ judge x c name parsed (gate x name parsed requested s)
  ]

  unfoldable pub run_named : ToolExecutor → Call → Text → Lifecycle → Attempt
  unfolding run_validated
  run_named x c name s = elim (x.validate name c.raw_arguments) [
    | ok parsed ↦ run_validated x c name parsed s
    | err (gives code) ↦
        refuse x c (chars "validation_" ++ code)
          (protocol_result c.operation_id c.provider_id code (safe_error_message code)
            (some c.name))
          s
    | err (aborts e) ↦ leave e s
    | err errs ↦
        refuse x c (chars "registry_validation_error")
          (executor_error_result c.operation_id c.provider_id c.name
            (chars "registry_validation_error") none)
          s
  ]

  unfoldable pub nameless : ToolExecutor → Call → Lifecycle → Attempt
  nameless x c s =
      refuse x c (chars "invalid_tool_name")
        (protocol_result c.operation_id c.provider_id (chars "unknown_tool")
          (chars "tool name is required") none)
        s

  -- The `try` of `execute`.
  unfoldable pub attempt : ToolExecutor → Bool → Call → Lifecycle → Attempt
  unfolding run_named nameless
  attempt x false c s =
      refuse x c (chars "invalid_provider_tool_call_id")
        (protocol_result c.operation_id none (chars "invalid_value")
          (chars "invalid provider tool-call ID") (some c.name))
        s
  attempt x true c s = elim c.name_value [
    | none ↦ nameless x c s
    | some name ↦ if is_empty name then nameless x c s else run_named x c name s
  ]
