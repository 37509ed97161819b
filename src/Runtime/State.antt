-- ===== src/Runtime/State.antt =====
-- `ContextState` of runtime.py: the projection of the session that one agent's model sees.
use coding_agent_neo.Prelude.{
  ℕ, ◌-◌, Option, none, List, [], ◌∷◌, ◌++◌, Result, ok, ◌>>=◌, ArgumentError, length, replicate,
  Text,
}
use coding_agent_neo.Prelude.Int.{ℤ}
use coding_agent_neo.Json.{Fields}
use coding_agent_neo.Runtime.Budget.{validate_optional}

pub record ContextState : Type 0 where
  pub latest_summary : Option Text
  pub covered_through_sequence : ℕ
  pub recent_messages : List Fields
  pub recent_message_sequences : List (Option ℕ)
  pub degraded_through_sequence : ℕ
  pub degraded_notice : Option Text

unfoldable pub empty : ContextState
empty = record {
  latest_summary = none;
  covered_through_sequence = 0;
  recent_messages = [];
  recent_message_sequences = [];
  degraded_through_sequence = 0;
  degraded_notice = none;
}

-- sequences.extend([None] * (len(messages) - len(sequences)))
unfoldable pub pad : List Fields → List (Option ℕ) → List (Option ℕ)
pad messages sequences = sequences ++ replicate (length messages - length sequences) none

unfoldable pub append_message : Fields → Option ℤ → ContextState → Result ArgumentError ContextState
unfolding pad
append_message message sequence s = do
  n ← validate_optional sequence
  ok (record s {
    recent_messages = s.recent_messages ++ message ∷ [];
    recent_message_sequences = pad s.recent_messages s.recent_message_sequences ++ n ∷ [];
  })
