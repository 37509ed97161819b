-- ===== src/Context/Builder.antt =====
-- `ContextBuilder` of context.py. Its operations fill in missing sequence numbers of the context
-- state, so each returns the state too, beside the error where it raises.
pub mod Plan
pub mod Entries
pub mod Messages
use coding_agent_neo.Prelude.{
  ℕ, ◌+◌, ◌-◌, ◌*◌, max, Bool, not, Option, none, some, List, [], ◌∷◌, ◌++◌, map, Result, ok, err,
  ltb, leb, if◌then◌else◌, length, take, any, all, Text, chars, decimal,
}
use coding_agent_neo.Json.{Value, Fields, str, field, end}
use coding_agent_neo.Runtime.State.{ContextState, pad}
use coding_agent_neo.Context.Message.{
  encode_error, ContextError, integrity_error, ContextEstimate, detach_all,
}
use coding_agent_neo.Context.Group.{MessageGroup, group_messages, start_sequence, end_sequence}
use coding_agent_neo.Context.Estimate.{ApproximateTokenEstimator, request}

-- `floor_share` stands for the floating-point floor(window * compaction_threshold).
pub record ContextBuilder : Type 0 where
  pub system_prompt : Text
  pub context_window : ℕ
  pub reserved_output_tokens : ℕ
  pub floor_share : ℕ → ℕ
  pub keep_recent_groups : ℕ
  pub estimator : ApproximateTokenEstimator

pub record CompactionPlan : Type 0 where
  pub old_summary : Option Text
  pub groups : List MessageGroup
  pub forced : Bool
  pub previous_covered_sequence : ℕ

-- groups[0].start_sequence and groups[-1].end_sequence. The program makes no plan without groups.
abbrev pub first_start : List MessageGroup → ℕ
first_start [] = 0
first_start (g ∷ gs) = start_sequence g

abbrev pub last_end : List MessageGroup → ℕ
last_end [] = 0
last_end (g ∷ []) = end_sequence g
last_end (g ∷ h ∷ gs) = last_end (h ∷ gs)

unfoldable pub plan_start : CompactionPlan → ℕ
plan_start plan = first_start plan.groups

unfoldable pub plan_covered : CompactionPlan → ℕ
plan_covered plan = last_end plan.groups

pub record ContextProjection : Type 0 where
  pub messages : List Fields
  pub estimate : ContextEstimate
  pub groups : List MessageGroup

-- A result, or the exception, and the state afterwards.
abbrev pub Outcome {ℓ} : Type ℓ → Type ℓ
Outcome A = Result ContextError A × ContextState

abbrev pub degraded_context_notice : Text
degraded_context_notice =
    chars
      "Context compaction failed. Some earlier conversation is not loaded; use the retained summary and recent complete interactions, and verify important assumptions before acting."

unfoldable pub cutoff : ContextState → ℕ
cutoff s = max s.covered_through_sequence s.degraded_through_sequence

-- The loop of `_entries`: a missing number is one more than all before it.
unfoldable pub fill : ℕ → List (Option ℕ) → List ℕ
fill current [] = []
fill current (none ∷ rest) = (current + 1) ∷ fill (current + 1) rest
fill current (some v ∷ rest) = v ∷ fill (max current v) rest

unfoldable pub entries : ContextState → Outcome (List Fields × List ℕ)
unfolding cutoff fill
entries s = elim (detach_all s.recent_messages) [
  | err e ↦ (err e, s)
  | ok messages ↦
      let sequences = fill (cutoff s) (pad messages s.recent_message_sequences) in
      if ltb (length messages) (length s.recent_message_sequences)
      then (err integrity_error, s)
      else (ok (messages, sequences), record s { recent_message_sequences = map some sequences })
]

unfoldable pub all_groups : ContextState → Outcome (List MessageGroup)
all_groups s =
    let (found, s') = entries s in
    elim found [
      | err e ↦ (err e, s')
      | ok (messages, sequences) ↦ (group_messages messages sequences, s')
    ]

-- The groups that end after a sequence number.
unfoldable pub ending_after : ℕ → List MessageGroup → List MessageGroup
ending_after limit [] = []
ending_after limit (g ∷ gs) =
    let rest = ending_after limit gs in if leb (end_sequence g) limit then rest else g ∷ rest

unfoldable pub effective_groups : ContextState → Outcome (List MessageGroup)
unfolding cutoff
effective_groups s =
    let (found, s') = all_groups s in
    elim found [ err e ↦ (err e, s') | ok groups ↦ (ok (ending_after (cutoff s) groups), s') ]

abbrev pub system_message : Text → Fields
system_message content = field "role" (str (chars "system")) (field "content" (str content) end)

-- The messages in front of the groups: the prompt, the summary and the notice, where there are any.
unfoldable pub preamble : ContextBuilder → ContextState → List Fields
preamble b s =
    system_message b.system_prompt
    ∷ (elim s.latest_summary [
      | none ↦ []
      | some summary ↦
          system_message (
            chars "Incremental context summary through sequence "
            ++ (decimal s.covered_through_sequence ++ (b':' ∷ 10 ∷ summary)))
          ∷ []
    ]
        ++ elim s.degraded_notice [ none ↦ [] | some notice ↦ system_message notice ∷ [] ])

abbrev pub messages_of_groups : List MessageGroup → List Fields
messages_of_groups [] = []
messages_of_groups (g ∷ gs) = g.messages ++ messages_of_groups gs

module _ (dumps : Value → Text) where
  unfoldable pub estimate : ContextBuilder → List Fields → List Fields → Option ContextEstimate
  estimate b messages tool_schemas = elim (request dumps b.estimator messages tool_schemas) [
    | none ↦ none
    | some input_tokens ↦ some (record {
      input_tokens = input_tokens;
      reserved_output_tokens = b.reserved_output_tokens;
      total_tokens = input_tokens + b.reserved_output_tokens;
      trigger_tokens = max 1 (b.floor_share b.context_window);
      context_window = b.context_window;
    })
  ]

  abbrev projected :
      List Fields
      → List MessageGroup
      → Option ContextEstimate
      → Result ContextError ContextProjection
  projected messages groups none = err encode_error
  projected messages groups (some e) =
      ok (record { messages = messages; estimate = e; groups = groups })

  unfoldable pub project : ContextBuilder → List Fields → ContextState → Outcome ContextProjection
  project b tool_schemas s =
      let (found, s') = effective_groups s in
      elim found [
        | err e ↦ (err e, s')
        | ok groups ↦
            let messages = preamble b s ++ messages_of_groups groups in
            (projected messages groups (estimate b messages tool_schemas), s')
      ]

  -- The result of the projection at the end is not used; its exception is.
  unfoldable pub apply_degraded_fallback :
      ContextBuilder → CompactionPlan → ContextState → Outcome ContextProjection
  apply_degraded_fallback b plan s = project b [] (record s {
    degraded_through_sequence = max s.degraded_through_sequence (plan_covered plan);
    degraded_notice = some degraded_context_notice;
  })

-- The first `n` of the groups after the covered ones, if any are left to plan.
unfoldable pub plan_compaction :
    ContextBuilder → Bool → ContextState → Outcome (Option CompactionPlan)
plan_compaction b forced s =
    let (found, s') = all_groups s in
    elim found [
      | err e ↦ (err e, s')
      | ok all ↦
          let groups = ending_after s.covered_through_sequence all in
          let retained_count = if forced then 1 else b.keep_recent_groups in
          if leb (length groups) retained_count then (ok none, s') else (
            ok (
                some (record {
                  old_summary = s.latest_summary;
                  groups = take (length groups - retained_count) groups;
                  forced = forced;
                  previous_covered_sequence = s.covered_through_sequence;
                })),
            s',
          )
    ]
