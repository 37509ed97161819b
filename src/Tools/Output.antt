-- ===== src/Tools/Output.antt =====
-- `ToolResultProjection`, `project_tool_result` and `OutputProjector` of tools/output.py.
pub mod Projection
use coding_agent_neo.Prelude.{
  ℕ, String, str_eq, Bool, true, ◌&&◌, ◌||◌, Option, none, some, [], ◌∷◌, Result, ok, err, ◌>>=◌,
  ◌>>◌, ArgumentError, value_error, if◌then◌else◌, is_none, length, Text, chars, text_eq, member,
}
use coding_agent_neo.Prelude.Int.{ℤ, pos}
use coding_agent_neo.Json.{Value, Fields, null, bool, num, str, obj, field, end, get}
use coding_agent_neo.Models.{
  ToolResultStatus, success, error, denied, invalid, cancelled, timeout, ToolResult,
}
use coding_agent_neo.Runtime.Budget.{validate_optional}
use coding_agent_neo.Tools.Truncate.{OutputSlice, only_one, slice, head_tail_truncate}

pub record ToolResultProjection : Type 0 where
  pub correlation_id : Text
  pub provider_tool_call_id : Option Text
  pub status : ToolResultStatus
  pub text : Text
  pub metadata : Fields
  pub truncated : Bool
  pub original_length : Option ℕ
  pub duration_seconds : Option ℕ
  pub exit_code : Option ℤ
  pub timed_out : Bool
  pub path : Option Text

-- metadata.setdefault(key, value): a new key goes to the end.
unfoldable pub set_default : String → Value → Fields → Fields
set_default k v end = field k v end
set_default k v (field j w fs) =
    let rest = set_default k v fs in if str_eq j k then field j w fs else field j w rest

-- The metadata of a truncated result.
unfoldable pub mark_truncated : Option ℕ → Fields → Fields
unfolding set_default
mark_truncated none metadata = set_default "truncated" (bool true) metadata
mark_truncated (some n) metadata =
    set_default "original_length" (num (pos n)) (set_default "truncated" (bool true) metadata)

-- The length to report: that of the slice, or that of the text for a result that came truncated
-- and says no length.
unfoldable pub effective_length : ToolResult → OutputSlice → Option ℕ
effective_length result sliced =
    if (result.truncated || sliced.truncated) && is_none sliced.original_length
    then some (length result.text)
    else sliced.original_length

-- The projection, once the text is cut.
unfoldable pub from_slice : ToolResult → OutputSlice → ToolResultProjection
unfolding mark_truncated effective_length
from_slice result sliced = record {
  correlation_id = result.correlation_id;
  provider_tool_call_id = result.provider_tool_call_id;
  status = result.status;
  text = sliced.text;
  metadata =
      if result.truncated || sliced.truncated
      then mark_truncated (effective_length result sliced) result.metadata
      else result.metadata;
  truncated = result.truncated || sliced.truncated;
  original_length = effective_length result sliced;
  duration_seconds = result.duration_seconds;
  exit_code = result.exit_code;
  timed_out = result.timed_out;
  path = result.path;
}

abbrev pub as_int : Option ℕ → Option ℤ
as_int none = none
as_int (some n) = some (pos n)

unfoldable pub from_result : ToolResult → Option ℤ → Result ArgumentError ToolResultProjection
unfolding from_slice
from_result result limit = do
  sliced ← head_tail_truncate result.text limit (as_int result.original_length) none none
  ok (from_slice result sliced)

unfoldable pub to_tool_result : ToolResultProjection → ToolResult
to_tool_result p = record {
  correlation_id = p.correlation_id;
  status = p.status;
  text = p.text;
  provider_tool_call_id = p.provider_tool_call_id;
  metadata = p.metadata;
  truncated = p.truncated;
  original_length = p.original_length;
  duration_seconds = p.duration_seconds;
  exit_code = p.exit_code;
  timed_out = p.timed_out;
  path = p.path;
}

unfoldable pub project_tool_result :
    ToolResult
    → Option ℤ
    → Option ℤ
    → Option ℤ
    → Option ℤ
    → Result ArgumentError ToolResultProjection
project_tool_result result limit max_chars max_output max_bytes = do
  effective_limit ← only_one (max_chars ∷ max_output ∷ max_bytes ∷ []) limit
  from_result result effective_limit

-- `project_for_model`; `project_for_persistence` has the same body.
unfoldable pub project_for_model :
    ToolResult → Option ℤ → Option ℤ → Option ℤ → Result ArgumentError ToolResultProjection
project_for_model result limit max_chars max_output =
    project_tool_result result limit max_chars max_output none

pub record OutputProjector : Type 0 where
  pub model_limit : Option ℕ
  pub persistence_limit : Option ℕ

-- The constructor, on the three spellings of each limit. The first two tests that fail are those of
-- the keyword spellings, so the aliases are joined first.
unfoldable pub joined : Option ℤ → Option ℤ → Option ℤ → Result ArgumentError (Option ℤ)
joined limit output_limit max_chars = do
  keyword ← only_one (max_chars ∷ []) output_limit
  only_one (keyword ∷ []) limit

unfoldable pub projector :
    Option ℤ
    → Option ℤ
    → Option ℤ
    → Option ℤ
    → Option ℤ
    → Option ℤ
    → Result ArgumentError OutputProjector
unfolding joined
projector model_limit persistence_limit model_output_limit persistence_output_limit model_max_chars
      persistence_max_chars =
    do
      m ← joined model_limit model_output_limit model_max_chars
      p ← joined persistence_limit persistence_output_limit persistence_max_chars
      model ← validate_optional m
      persistence ← validate_optional p
      ok (record { model_limit = model; persistence_limit = persistence })

unfoldable pub for_model : OutputProjector → ToolResult → Result ArgumentError ToolResultProjection
for_model o result = project_tool_result result (as_int o.model_limit) none none none

unfoldable pub for_persistence :
    OutputProjector → ToolResult → Result ArgumentError ToolResultProjection
for_persistence o result = project_tool_result result (as_int o.persistence_limit) none none none

unfoldable pub project_for :
    OutputProjector → ToolResult → Text → Result ArgumentError ToolResultProjection
project_for o result target =
    if text_eq target (chars "model")
    then for_model o result
    else if member target (chars "persistence" ∷ chars "persistent" ∷ chars "session" ∷ [])
    then for_persistence o result
    else err value_error

abbrev pub status_text : ToolResultStatus → Text
status_text success = chars "success"
status_text error = chars "error"
status_text denied = chars "denied"
status_text invalid = chars "invalid"
status_text cancelled = chars "cancelled"
status_text timeout = chars "timeout"

abbrev text_or_null : Option Text → Value
text_or_null none = null
text_or_null (some t) = str t

abbrev number_or_null : Option ℕ → Value
number_or_null none = null
number_or_null (some n) = num (pos n)

abbrev int_or_null : Option ℤ → Value
int_or_null none = null
int_or_null (some n) = num n

-- `to_dict` of a projection, whose metadata are JSON already.
unfoldable pub to_dict : ToolResultProjection → Fields
to_dict p = field "correlation_id" (str p.correlation_id) (
    field "provider_tool_call_id" (text_or_null p.provider_tool_call_id) (
      field "status" (str (status_text p.status)) (
        field "text" (str p.text) (
          field "metadata" (obj p.metadata) (
            field "truncated" (bool p.truncated) (
              field "original_length" (number_or_null p.original_length) (
                field "duration_seconds" (number_or_null p.duration_seconds) (
                  field "exit_code" (int_or_null p.exit_code) (
                    field "timed_out" (bool p.timed_out)
                      (field "path" (text_or_null p.path) end))))))))))
