-- ===== src/Tests/PolicyTests.antt =====
-- The theorems on policy.py at concrete inputs.
use coding_agent_neo.Prelude.{
  ◌≡◌, refl, ◌≢◌, ◌⊎◌, Bool, true, false, Option, none, some, List, [], ◌∷◌, ◌++◌, arith, Text,
  chars, text_eq, member,
}
use coding_agent_neo.Json.{get, Value, Fields, str, end, field}
use coding_agent_neo.Tools.Schema.{mapping}
use coding_agent_neo.Policy.Path.{safe_relative_path, split_parts}
use coding_agent_neo.Policy.Path.Confined.{safe-target_below, target, walk}
use coding_agent_neo.Policy.Decide.{
  contains_nul, coerce_arguments, contains_nul, coerce_arguments, DefaultExecutionPolicy, ask_mode,
  yolo_mode, auto_mode, ask, deny, decide, decide_parsed, decide_file, decide_side_effect, is_false,
  read_tools, or_empty,
}
use coding_agent_neo.Policy.Decide.Laws.{
  decide-allow, decide-ask, decide-path_below, decide-mode_independent,
}

abbrev no_loads : Text → Option Value
no_loads t = none

abbrev all_encodable : Value → Bool
all_encodable v = true

abbrev asking : DefaultExecutionPolicy
asking = record { approval_mode = ask_mode; interactive = some true; workspace = none }

abbrev unattended : DefaultExecutionPolicy
unattended = record { approval_mode = yolo_mode; interactive = none; workspace = none }

abbrev source_path : Text
source_path = chars "src/./main.py"

abbrev write_arguments : Fields
write_arguments = field "path" (str source_path) (field "content" (str (chars "x")) end)

safe-target_below_example :
    target (chars "home" ∷ []) source_path
    ≡ some ((chars "home" ∷ []) ++ walk [] (split_parts source_path))
unfolding safe_relative_path text_eq split_parts
safe-target_below_example = safe-target_below (chars "home" ∷ []) source_path false refl

decide-allow_example :
    (member (chars "write_file") read_tools ≡ true)
    ⊎ ((unattended.approval_mode ≡ auto_mode) ⊎ (unattended.approval_mode ≡ yolo_mode))
unfolding decide decide_parsed decide_file decide_side_effect text_eq coerce_arguments contains_nul
    safe_relative_path get split_parts
decide-allow_example =
    decide-allow no_loads all_encodable unattended (chars "write_file")
      (some (mapping write_arguments)) refl

decide-ask_example : (asking.approval_mode ≡ ask_mode) × (is_false asking.interactive ≡ false)
unfolding decide decide_parsed decide_file decide_side_effect text_eq coerce_arguments contains_nul
    safe_relative_path get split_parts
decide-ask_example =
    decide-ask no_loads all_encodable asking (chars "write_file") (some (mapping write_arguments))
      refl

asked :
    decide no_loads all_encodable asking (chars "write_file") (some (mapping write_arguments)) ≡ ask
unfolding decide decide_parsed decide_file decide_side_effect text_eq coerce_arguments contains_nul
    safe_relative_path get split_parts
asked = refl

not_denied :
    decide no_loads all_encodable asking (chars "write_file") (some (mapping write_arguments))
    ≢ deny
not_denied h = ground (arith, asked, h)

decide-path_below_example :
    (path : Text) × (or_empty (get "path" write_arguments) ≡ str path)
    × ((dir : List Text) → target dir path ≡ some (dir ++ walk [] (split_parts path)))
unfolding coerce_arguments text_eq
decide-path_below_example =
    decide-path_below no_loads all_encodable asking (chars "write_file") (mapping write_arguments)
      write_arguments refl refl not_denied

decide-mode_independent_example :
    decide no_loads all_encodable
      (record asking { approval_mode = yolo_mode })
      (chars "read_file")
      (some (mapping write_arguments))
    ≡ decide no_loads all_encodable asking (chars "read_file") (some (mapping write_arguments))
unfolding text_eq
decide-mode_independent_example =
    decide-mode_independent no_loads all_encodable asking yolo_mode (chars "read_file")
      (some (mapping write_arguments)) refl refl
