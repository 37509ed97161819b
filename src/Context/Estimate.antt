-- ===== src/Context/Estimate.antt =====
-- `ApproximateTokenEstimator` and `ContextEstimate` of context.py. `dumps` stands for `json.dumps`,
-- `scaled` for the floating-point ceil(bytes / bytes_per_token * safety_multiplier).
use coding_agent_neo.Prelude.{
  ℕ, ◌+◌, max, Bool, ◌&&◌, Option, none, some, List, [], ◌∷◌, ltb, leb, if◌then◌else◌, Text,
}
use coding_agent_neo.Json.{Value, Fields, obj}
use coding_agent_neo.Context.Message.{ContextEstimate}

pub record ApproximateTokenEstimator : Type 0 where
  pub scaled : ℕ → ℕ
  pub item_overhead : ℕ

-- A sum, where both parts are there.
abbrev plus : Option ℕ → Option ℕ → Option ℕ
plus (some m) (some n) = some (m + n)
plus none n = none
plus (some m) none = none

abbrev is_surrogate : ℕ → Bool
is_surrogate c = leb 55296 c && leb c 57343

-- len(value.encode("utf-8")), which raises at a lone surrogate: none.
unfoldable pub utf8_length : Text → Option ℕ
utf8_length [] = some 0
utf8_length (c ∷ cs) =
    let rest = utf8_length cs in
    if is_surrogate c
    then none
    else plus
        (some (if ltb c 128 then 1 else if ltb c 2048 then 2 else if ltb c 65536 then 3 else 4))
        rest

-- The estimates are none where the text cannot be encoded.
unfoldable pub text_tokens : ApproximateTokenEstimator → Text → Option ℕ
text_tokens e value = elim (utf8_length value) [ none ↦ none | some n ↦ some (max 1 (e.scaled n)) ]

module _ (dumps : Value → Text) where
  unfoldable pub json_value : ApproximateTokenEstimator → Value → Option ℕ
  json_value e value = plus (text_tokens e (dumps value)) (some e.item_overhead)

  abbrev pub sum_tokens : ApproximateTokenEstimator → List Fields → Option ℕ
  sum_tokens e [] = some 0
  sum_tokens e (m ∷ ms) = plus (json_value e (obj m)) (sum_tokens e ms)

  unfoldable pub request : ApproximateTokenEstimator → List Fields → List Fields → Option ℕ
  request e messages tool_schemas =
      plus (plus (sum_tokens e messages) (sum_tokens e tool_schemas)) (some e.item_overhead)

unfoldable pub needs_compaction : ContextEstimate → Bool
needs_compaction e = ltb e.trigger_tokens e.total_tokens

unfoldable pub exceeds_window : ContextEstimate → Bool
exceeds_window e = ltb e.context_window e.total_tokens
