-- ===== src/Policy/Decide.antt =====
-- `DefaultExecutionPolicy` of policy.py. `lower` stands for `str.lower`, `loads` and `encodable`
-- for the functions of `json` (tools/schema.py).
pub mod Laws
use coding_agent_neo.Prelude.{
  Bool, true, false, not, ◌&&◌, ◌||◌, Option, none, some, List, [], ◌∷◌, ◌++◌, Result, ok, err,
  ArgumentError, value_error, ◌==◌, if◌then◌else◌, get_or, any, Text, chars, text_eq, member, strip,
  is_empty,
}
use coding_agent_neo.Json.{
  Value, Items, Fields, null, bool, num, str, arr, obj, nil, cons, end, field, get,
}
use coding_agent_neo.Tools.Schema.{Arguments, mapping, raw, parse_json_arguments}
use coding_agent_neo.Policy.Path.{safe_relative_path}

pub data PolicyDecision : Type 0 where
  allow ask deny : PolicyDecision

-- `INTERACTIVE` is an alias of `ASK`.
pub data ApprovalMode : Type 0 where
  ask_mode auto_mode yolo_mode deny_mode : ApprovalMode

pub record DefaultExecutionPolicy : Type 0 where
  pub approval_mode : ApprovalMode
  pub interactive : Option Bool
  pub workspace : Option Text

abbrev pub read_tools : List Text
read_tools = chars "read_file" ∷ chars "list_files" ∷ chars "search" ∷ []

abbrev pub write_tools : List Text
write_tools = chars "write_file" ∷ chars "edit_file" ∷ []

abbrev pub file_tools : List Text
file_tools = read_tools ++ write_tools

abbrev pub bash_tool : Text
bash_tool = chars "bash"

-- "\x00" in value
abbrev pub has_nul : Text → Bool
has_nul t = any (λ c. c == 0) t

unfoldable mutual
  pub contains_nul : Value → Bool
  contains_nul (str t) = has_nul t
  contains_nul (obj fields) = contains_nul_fields fields
  contains_nul (arr items) = contains_nul_items items
  contains_nul _ = false

  pub contains_nul_items : Items → Bool
  contains_nul_items nil = false
  contains_nul_items (cons v vs) = contains_nul v || contains_nul_items vs

  pub contains_nul_fields : Fields → Bool
  contains_nul_fields end = false
  contains_nul_fields (field k v fs) = has_nul (chars k) || contains_nul v || contains_nul_fields fs

-- isinstance(value, str) on parsed.get(key)
abbrev pub is_str : Option Value → Bool
is_str (some (str t)) = true
is_str _ = false

-- isinstance(value, str) and value
abbrev pub is_nonempty_str : Option Value → Bool
is_nonempty_str (some (str t)) = not (is_empty t)
is_nonempty_str _ = false

-- isinstance(value, str) and value.strip()
abbrev pub is_nonblank_str : Option Value → Bool
is_nonblank_str (some (str t)) = not (is_empty (strip t))
is_nonblank_str _ = false

-- parsed.get(key, "")
abbrev pub or_empty : Option Value → Value
or_empty none = str []
or_empty (some v) = v

-- The mode that a name stands for, among the members of `ApprovalMode`.
unfoldable pub mode_named : Text → Option ApprovalMode
mode_named name =
    if text_eq name (chars "ask")
    then some ask_mode
    else if text_eq name (chars "auto")
    then some auto_mode
    else if text_eq name (chars "yolo")
    then some yolo_mode
    else if text_eq name (chars "deny")
    then some deny_mode
    else none

module _ (lower : Text → Text) where
  -- `__init__`, on the text of `approval_mode` and the optional `mode` that replaces it.
  unfoldable pub init :
      Text
      → Option Text
      → Option Bool
      → Bool
      → Bool
      → Option Text
      → Result ArgumentError DefaultExecutionPolicy
  unfolding mode_named
  init approval_mode mode interactive auto yolo workspace =
      let named = get_or mode approval_mode in
      let chosen = lower (if auto || yolo then chars "auto" else named) in
      let normalized = if text_eq chosen (chars "interactive") then chars "ask" else chosen in
      elim (mode_named normalized) [
        | none ↦ err value_error
        | some m ↦
            ok (record { approval_mode = m; interactive = interactive; workspace = workspace })
      ]

  -- The new policy; `yolo` is not accepted here.
  unfoldable pub set_approval_mode :
      Text → DefaultExecutionPolicy → Result ArgumentError DefaultExecutionPolicy
  unfolding mode_named
  set_approval_mode value p =
      let normalized = lower value in
      if member normalized (chars "ask" ∷ chars "auto" ∷ chars "deny" ∷ [])
      then elim (mode_named normalized) [
        | none ↦ err value_error
        | some m ↦ ok (record p { approval_mode = m })
      ]
      else err value_error

-- self.interactive is False
abbrev pub is_false : Option Bool → Bool
is_false (some false) = true
is_false _ = false

unfoldable pub decide_side_effect : DefaultExecutionPolicy → PolicyDecision
decide_side_effect p = elim p.approval_mode [
  | auto_mode ↦ allow
  | yolo_mode ↦ allow
  | deny_mode ↦ deny
  | ask_mode ↦ if is_false p.interactive then deny else ask
]

unfoldable pub decide_file : DefaultExecutionPolicy → Text → Fields → PolicyDecision
decide_file p name parsed =
    if not (
      safe_relative_path (or_empty (get "path" parsed))
        (member name (chars "list_files" ∷ chars "search" ∷ [])))
    then deny
    else if text_eq name (chars "search") && not (is_nonempty_str (get "query" parsed))
    then deny
    else if text_eq name (chars "write_file") && not (is_str (get "content" parsed))
    then deny
    else if text_eq name (chars "edit_file")
        && (not (is_nonempty_str (get "old_text" parsed)) || not (is_str (get "new_text" parsed)))
    then deny
    else if member name write_tools
    then decide_side_effect p
    else allow

-- working_directory is not None and not _safe_relative_path(working_directory, allow_empty=True)
abbrev pub unsafe_directory : Option Value → Bool
unsafe_directory none = false
unsafe_directory (some null) = false
unsafe_directory (some v) = not (safe_relative_path v true)

unfoldable pub decide_bash : DefaultExecutionPolicy → Fields → PolicyDecision
decide_bash p parsed =
    if not (is_nonblank_str (get "command" parsed))
    then deny
    else if unsafe_directory (get "working_directory" parsed)
    then deny
    else decide_side_effect p

unfoldable pub decide_parsed : DefaultExecutionPolicy → Text → Fields → PolicyDecision
decide_parsed p name parsed =
    if contains_nul (obj parsed)
    then deny
    else if member name file_tools
    then decide_file p name parsed
    else if text_eq name bash_tool
    then decide_bash p parsed
    else deny

module _ (loads : Text → Option Value) (encodable : Value → Bool) where
  unfoldable pub coerce_arguments : Arguments → Option Fields
  coerce_arguments (mapping fields) = some fields
  coerce_arguments (raw t) = elim (parse_json_arguments loads encodable (raw t)) [
    | ok fields ↦ some fields
    | err _ ↦ none
  ]

  -- `decide`; arguments that are not given are the empty text.
  unfoldable pub decide : DefaultExecutionPolicy → Text → Option Arguments → PolicyDecision
  decide p name arguments =
      let given = get_or arguments (raw []) in
      if is_empty name
      then deny
      else elim (coerce_arguments given) [ none ↦ deny | some parsed ↦ decide_parsed p name parsed ]
