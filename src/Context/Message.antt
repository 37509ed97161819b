-- ===== src/Context/Message.antt =====
-- Messages of context.py: `detach_message` and `_tool_call_ids`. A message is a JSON object. Values
-- that are not JSON, which `_detach_value` refuses, are not in the model, and detaching is the
-- identity on the others.
use coding_agent_neo.Prelude.{
  ℕ, Bool, false, Option, none, some, List, [], ◌∷◌, ◌++◌, Result, ok, err, ◌>>=◌, if◌then◌else◌,
  is_none, Text, text_eq, member, is_empty,
}
use coding_agent_neo.Json.{Value, Fields, null, str, arr, obj, get, values}

-- The numbers that bound a request.
pub record ContextEstimate : Type 0 where
  pub input_tokens : ℕ
  pub reserved_output_tokens : ℕ
  pub total_tokens : ℕ
  pub trigger_tokens : ℕ
  pub context_window : ℕ

pub data ContextError : Type 0 where
  integrity_error value_error encode_error : ContextError
  window_exceeded : ContextEstimate → Text → ContextError

-- message.get("role"), where it is a non-empty string
unfoldable pub role_of : Fields → Option Text
role_of m = elim (get "role" m) [
  | some (str role) ↦ if is_empty role then none else some role
  | _ ↦ none
]

abbrev pub has_role : Text → Fields → Bool
has_role role m = elim (role_of m) [ none ↦ false | some r ↦ text_eq r role ]

unfoldable pub detach_message : Fields → Result ContextError Fields
detach_message m = if is_none (role_of m) then err integrity_error else ok m

-- [detach_message(m) for m in messages]
unfoldable pub detach_all : List Fields → Result ContextError (List Fields)
detach_all [] = ok []
detach_all (m ∷ ms) = do d ← detach_message m; ds ← detach_all ms; ok (d ∷ ds)

-- call.get("id") of one entry of `tool_calls`, where the entry is an object with a non-empty ID
unfoldable pub call_id : Value → Option Text
call_id (obj call) = elim (get "id" call) [
  | some (str i) ↦ if is_empty i then none else some i
  | _ ↦ none
]
call_id _ = none

-- The loop over `raw_calls`; `call_ids` are those met before.
unfoldable pub collect_ids : List Text → List Value → Result ContextError (List Text)
unfolding call_id
collect_ids call_ids [] = ok call_ids
collect_ids call_ids (call ∷ calls) = elim (call_id call) [
  | none ↦ err integrity_error
  | some i ↦
      let rest = collect_ids (call_ids ++ i ∷ []) calls in
      if member i call_ids then err integrity_error else rest
]

unfoldable pub tool_call_ids : Fields → Result ContextError (List Text)
tool_call_ids m = elim (get "tool_calls" m) [
  | none ↦ ok []
  | some null ↦ ok []
  | some (arr calls) ↦ collect_ids [] (values calls)
  | some _ ↦ err integrity_error
]

-- result.get("tool_call_id"), where it is a string
unfoldable pub result_id : Fields → Option Text
result_id m = elim (get "tool_call_id" m) [ some (str i) ↦ some i | _ ↦ none ]
