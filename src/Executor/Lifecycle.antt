-- ===== src/Executor/Lifecycle.antt =====
-- What `ToolExecutor` of executor.py keeps and what it is connected to, and the publication of its
-- events. An event's own ID, owner and timestamp are left out.
-- `loads` stands for `json.loads`, `sensitive` for the search of `_SENSITIVE_KEY`.
use coding_agent_neo.Prelude.{
  ℕ, zero, suc, ◌+◌, String, ◌≡◌, refl, ◌⊎◌, inl, inr, Bool, Option, none, some, List, [], ◌∷◌,
  ◌++◌, Result, if◌then◌else◌, length, take, Text, chars,
}
use coding_agent_neo.Prelude.Int.{pos}
use coding_agent_neo.Json.{
  Value, Items, Fields, null, bool, num, str, arr, obj, nil, cons, end, field,
}
pub use coding_agent_neo.Models.{EventType}
use coding_agent_neo.Models.{ToolResult}
use coding_agent_neo.Tools.Schema.{Arguments, mapping, raw}
use coding_agent_neo.Tools.Output.{ToolResultProjection, status_text, to_dict}
use coding_agent_neo.Policy.Decide.{PolicyDecision, allow, ask, deny}
use coding_agent_neo.Executor.Redact.{json_safe_fields}
use coding_agent_neo.Executor.Results.{Returned}

pub record ToolLifecycleEvent : Type 0 where
  pub type : EventType
  pub correlation_id : Text
  pub provider_tool_call_id : Option Text
  pub payload : Fields

-- What the executor has done: an event handed to the publisher, an event that could not be made, an
-- approval asked for, a call passed to the registry.
pub data Effect : Type 0 where
  emitted : ToolLifecycleEvent → Effect
  unmade : EventType → Effect
  asked : Text → Fields → Effect
  dispatched : Text → Fields → Effect

-- The executor's own fields, with the newest effect first.
pub record Lifecycle : Type 0 where
  pub log : List Effect
  pub event_errors : List Text
  pub last_result : Option ToolResult
  pub last_result_published : Bool

-- How a call of a collaborator ends: it gives an answer, it fails with an `Exception` or with an
-- answer of the wrong kind, or it raises another exception, of this class, such as
-- KeyboardInterrupt, which no handler here stops.
pub data Reply (A : Type 0) : Type 0 where
  gives : A → Reply A
  errs : Reply A
  aborts : (error_type : Text) → Reply A

-- `port_interactive` is the port's attribute `interactive`, where it has one. What a collaborator does may depend on what was done so far.
pub record ApprovalPort : Type 0 where
  pub port_interactive : Option Bool
  pub answer : List Effect → Text → Fields → Reply Bool

pub Reply-cases :
    {A : Type 0} (r : Reply A)
    → ((a : A) × (r ≡ gives a)) ⊎ ((r ≡ errs) ⊎ ((e : Text) × (r ≡ aborts e)))
Reply-cases (gives a) = inl (a, refl)
Reply-cases errs = inr (inl refl)
Reply-cases (aborts e) = inr (inr (e, refl))

-- The executor's collaborators and settings. `registered` tells the names that the registry knows;
-- where `validate` raises, a code is that of a `ToolProtocolError`; `event_error` gives the type of
-- the `Exception` that the making of an event raises, the publisher that of the one it raises.
pub record ToolExecutor : Type 0 where
  pub registered : Text → Bool
  pub validate : Text → Arguments → Result (Reply Text) Fields
  pub dispatch : List Effect → Text → Fields → Returned
  pub policy : Text → Fields → Reply PolicyDecision
  pub approval_port : Option ApprovalPort
  pub interactive : Bool
  pub event_error : List Effect → EventType → Option Text
  pub event_publisher : Option (List Effect → ToolLifecycleEvent → Option Text)
  pub strict_event_publishing : Bool
  pub model_output_limit : Option ℕ

abbrev pub note : Effect → Lifecycle → Lifecycle
note e s = record s { log = e ∷ s.log }

-- A `ToolEventPublicationError`, where the publication raises one, and the state after it.
unfoldable pub publish : ToolExecutor → ToolLifecycleEvent → Lifecycle → Option Text × Lifecycle
publish x event s = elim x.event_publisher [
  | none ↦ (none, s)
  | some publisher ↦ elim (publisher s.log event) [
    | none ↦ (none, note (emitted event) s)
    | some e ↦ (
      if x.strict_event_publishing then some e else none,
      record s { log = emitted event ∷ s.log; event_errors = s.event_errors ++ e ∷ [] },
    )
  ]
]

abbrev count : Fields → ℕ
count end = 0
count (field _ _ fs) = 1 + count fs

abbrev object_count : Option Value → ℕ
object_count (some (obj fields)) = count fields
object_count _ = 0

abbrev placeholders : ℕ → Items
placeholders zero = nil
placeholders (suc n) = cons (str (chars "<redacted>")) (placeholders n)

-- All the keys of the dictionary are the same placeholder.
abbrev placeholder_dict : ℕ → Fields
placeholder_dict zero = end
placeholder_dict (suc n) = field "<redacted>" (str (chars "<redacted>")) end

abbrev raw_length : Arguments → Value
raw_length (mapping _) = null
raw_length (raw t) = num (pos (length t))

abbrev pub decision_text : PolicyDecision → Text
decision_text allow = chars "allow"
decision_text ask = chars "ask"
decision_text deny = chars "deny"

abbrev approved_value : Option Bool → Value
approved_value none = null
approved_value (some b) = bool b

abbrev length_value : Option ℕ → Value
length_value none = null
length_value (some n) = num (pos n)

module _ (loads : Text → Option Value) (sensitive : String → Bool) where
  unfoldable pub argument_keys : Arguments → ℕ
  argument_keys (mapping fields) = count fields
  argument_keys (raw t) = object_count (loads t)

  unfoldable pub emit :
      ToolExecutor → EventType → Text → Option Text → Fields → Lifecycle → Option Text × Lifecycle
  unfolding publish
  emit x type correlation provider payload s = elim (x.event_error s.log type) [
    | some e ↦
        (none, record s { log = unmade type ∷ s.log; event_errors = s.event_errors ++ e ∷ [] })
    | none ↦
        publish x
          (record {
            type = type;
            correlation_id = correlation;
            provider_tool_call_id = provider;
            payload = json_safe_fields sensitive payload;
          })
          s
  ]

  unfoldable pub tool_call_event :
      ToolExecutor → Text → Arguments → Text → Option Text → Lifecycle → Option Text × Lifecycle
  unfolding emit argument_keys
  tool_call_event x name arguments correlation provider s =
      emit x EventType.tool_call correlation provider
        (field "tool_name" (str name) (
          field "name" (str name) (
            field "argument_keys" (arr (placeholders (argument_keys arguments))) (
              field "arguments" (obj (placeholder_dict (argument_keys arguments)))
                (field "arguments_length" (raw_length arguments) end)))))
        s

  unfoldable pub policy_event :
      ToolExecutor
      → Text
      → Text
      → Option Text
      → PolicyDecision
      → PolicyDecision
      → Option Bool
      → Text
      → Lifecycle
      → Option Text × Lifecycle
  unfolding emit
  policy_event x name correlation provider requested decision approved reason s =
      emit x EventType.policy_decision correlation provider
        (field "tool_name" (str name) (
          field "name" (str name) (
            field "requested" (str (decision_text requested)) (
              field "requested_decision" (str (decision_text requested)) (
                field "decision" (str (decision_text decision)) (
                  field "action" (str (decision_text decision)) (
                    field "approved" (approved_value approved)
                      (field "reason" (str (take 160 reason)) end))))))))
        s

  -- `_result_event`, from the projection of the result.
  unfoldable pub result_event :
      ToolExecutor → Text → ToolResultProjection → Lifecycle → Option Text × Lifecycle
  unfolding emit to_dict
  result_event x name projected s =
      emit x EventType.tool_result projected.correlation_id projected.provider_tool_call_id
        (field "tool_name" (str name) (
          field "name" (str name) (
            field "status" (str (status_text projected.status)) (
              field "text" (str projected.text) (
                field "truncated" (bool projected.truncated) (
                  field "original_length" (length_value projected.original_length) (
                    field "result" (obj (to_dict projected))
                      (field "tool_result" (obj (to_dict projected)) end))))))))
        s
