-- ===== src/Tools/Schema.antt =====
-- `parse_json_arguments` of tools/schema.py. `loads` stands for `json.loads` with its refusal of
-- NaN and the infinities (none: it raises), `encodable` for `json.dumps` not raising.
use coding_agent_neo.Prelude.{Bool, Option, none, some, Result, ok, err, ◌>>=◌, if◌then◌else◌, Text}
use coding_agent_neo.Json.{Value, Fields, obj}

-- The codes of `ToolProtocolError` that the parser raises.
pub data ParseError : Type 0 where
  invalid_json arguments_not_object : ParseError

-- Arguments as a caller gives them: a decoded mapping or the model's text.
pub data Arguments : Type 0 where
  mapping : Fields → Arguments
  raw : Text → Arguments

module _ (loads : Text → Option Value) (encodable : Value → Bool) where
  unfoldable pub decode : Arguments → Result ParseError Value
  decode (mapping fields) = ok (obj fields)
  decode (raw t) = elim (loads t) [ none ↦ err invalid_json | some v ↦ ok v ]

  unfoldable pub as_object : Value → Result ParseError Fields
  as_object (obj fields) = if encodable (obj fields) then ok fields else err invalid_json
  as_object _ = err arguments_not_object

  unfoldable pub parse_json_arguments : Arguments → Result ParseError Fields
  unfolding decode as_object
  parse_json_arguments arguments = do decoded ← decode arguments; as_object decoded
