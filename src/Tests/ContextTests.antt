-- ===== src/Tests/ContextTests.antt =====
-- The theorems on context.py and compactor.py at concrete inputs.
use coding_agent_neo.Prelude.{
  ℕ, ◌+◌, ◌≡◌, refl, ◌≢◌, true, false, none, some, List, [], ◌∷◌, ◌++◌, map, arith, ok, leb,
  if◌then◌else◌, length, All, Text, chars, text_eq, strip,
}
use coding_agent_neo.Json.{get, get, Value, Fields, str, arr, obj, nil, cons, end, field}
use coding_agent_neo.Runtime.State.{ContextState, pad}
use coding_agent_neo.Context.Message.{
  result_id, result_id, collect_ids, tool_call_ids, result_id, collect_ids, tool_call_ids,
  detach_all, detach_message, role_of,
}
use coding_agent_neo.Context.Estimate.{
  utf8_length, text_tokens, json_value, request, utf8_length, text_tokens, json_value, request,
  ApproximateTokenEstimator,
}
use coding_agent_neo.Context.Group.{
  end_sequence, start_sequence, start_sequence, end_sequence, end_sequence, MessageGroup,
  group_messages, next_group, collect, close_group, expected_ids,
}
use coding_agent_neo.Context.Group.Partition.{messages_of, sequences_of, group_messages-partition}
use coding_agent_neo.Context.Group.Complete.{Interaction, IsComplete, conversation}
use coding_agent_neo.Context.Group.Decides.{AreGroups, group_messages-IsComplete}
use coding_agent_neo.Context.Builder.{
  ContextBuilder, CompactionPlan, entries, all_groups, ending_after, cutoff, plan_compaction,
}
use coding_agent_neo.Context.Builder.Plan.{retained, plan_compaction-leaves}
use coding_agent_neo.Context.Builder.Entries.{Keeps, entries_stable}
use coding_agent_neo.Compactor.{
  select, contains, summary_with_required_sections, succeed, select, Compactor, CompactionOutcome,
  ModelReply, response, other_error, compact, fits, messages_for, in_sections,
}
use coding_agent_neo.Compactor.Covers.{compact-covers, compact-asks_within, compact-failed}

abbrev user_message : Fields
user_message = field "role" (str (chars "user")) (field "content" (str (chars "hi")) end)

abbrev assistant_message : Fields
assistant_message =
    field "role" (str (chars "assistant"))
      (field "tool_calls" (arr (cons (obj (field "id" (str (chars "a")) end)) nil)) end)

abbrev tool_message : Fields
tool_message = field "role" (str (chars "tool")) (field "tool_call_id" (str (chars "a")) end)

abbrev messages : List Fields
messages = user_message ∷ assistant_message ∷ tool_message ∷ []

abbrev user_group : MessageGroup
user_group = record { messages = user_message ∷ []; sequences = 1 ∷ [] }

abbrev call_group : MessageGroup
call_group = record { messages = assistant_message ∷ tool_message ∷ []; sequences = 2 ∷ 3 ∷ [] }

abbrev groups : List MessageGroup
groups = user_group ∷ call_group ∷ []

abbrev interactions : List Interaction
interactions =
    record { head = user_message; results = [] }
    ∷ record { head = assistant_message; results = tool_message ∷ [] }
    ∷ []

grouped_messages : group_messages messages (1 ∷ 2 ∷ 3 ∷ []) ≡ ok groups
unfolding group_messages detach_message role_of get next_group text_eq expected_ids tool_call_ids
    collect_ids collect result_id close_group
grouped_messages = refl

group_messages-partition_example :
    (messages_of groups ≡ messages) × (sequences_of groups ≡ 1 ∷ 2 ∷ 3 ∷ [])
group_messages-partition_example =
    group_messages-partition messages (1 ∷ 2 ∷ 3 ∷ []) groups grouped_messages

group_messages-IsComplete_example :
    (is : List Interaction) × All IsComplete is × (conversation is ≡ messages) × AreGroups groups is
group_messages-IsComplete_example =
    group_messages-IsComplete messages (1 ∷ 2 ∷ 3 ∷ []) groups grouped_messages

abbrev numbers : List ℕ
numbers = 1 ∷ 2 ∷ 3 ∷ []

abbrev state : ContextState
state = record {
  latest_summary = none;
  covered_through_sequence = 0;
  recent_messages = messages;
  recent_message_sequences = some 1 ∷ some 2 ∷ some 3 ∷ [];
  degraded_through_sequence = 0;
  degraded_notice = none;
}

entries_stable_example :
    (messages ≡ state.recent_messages)
    × (length numbers ≡ length messages)
    × Keeps (cutoff state) (pad messages state.recent_message_sequences) (1 ∷ 2 ∷ 3 ∷ [])
    × (state ≡ record state { recent_message_sequences = map some (1 ∷ 2 ∷ 3 ∷ []) })
    × (entries state ≡ (ok (messages, 1 ∷ 2 ∷ 3 ∷ []), state))
unfolding entries detach_all detach_message role_of get pad
entries_stable_example = entries_stable state state messages (1 ∷ 2 ∷ 3 ∷ []) refl

abbrev estimator : ApproximateTokenEstimator
estimator = record { scaled = λ n. n; item_overhead = 4 }

abbrev builder : ContextBuilder
builder = record {
  system_prompt = chars "be brief";
  context_window = 1000;
  reserved_output_tokens = 100;
  floor_share = λ n. n;
  keep_recent_groups = 1;
  estimator = estimator;
}

abbrev plan : CompactionPlan
plan = record {
  old_summary = none;
  groups = user_group ∷ [];
  forced = false;
  previous_covered_sequence = 0;
}

plan_compaction-leaves_example :
    (kept : List MessageGroup) × (plan.groups ++ kept
      ≡ ending_after state.covered_through_sequence groups)
    × (length kept ≡ retained builder false)
    × (plan.groups ≢ [])
    × (plan.forced ≡ false)
    × (plan.old_summary ≡ state.latest_summary)
    × (plan.previous_covered_sequence ≡ state.covered_through_sequence)
unfolding all_groups plan_compaction entries detach_all detach_message role_of get group_messages
    pad next_group text_eq expected_ids tool_call_ids collect_ids collect result_id close_group
    ending_after end_sequence
plan_compaction-leaves_example =
    plan_compaction-leaves builder false state state groups plan refl refl

abbrev no_dumps : Value → Text
no_dumps v = []

abbrev same_case : Text → Text
same_case t = t

abbrev compactor : Compactor
compactor = record {
  system_prompt = chars "be brief";
  context_window = 10000;
  reserved_output_tokens = 100;
  estimator = estimator;
}

abbrev reply : List Fields → ModelReply
reply ms = response (record {
  text = chars "said hi";
  tool_calls = [];
  usage = none;
  finish_reason = none;
  diagnostics = [];
})

abbrev no_reply : List Fields → ModelReply
no_reply ms = other_error (chars "OSError")

abbrev compacted : ContextState
compacted = record state {
  latest_summary = some (in_sections (chars "said hi"));
  covered_through_sequence = 1;
}

abbrev outcome : CompactionOutcome
outcome = record {
  succeeded = true;
  forced = false;
  source_start_sequence = 1;
  source_end_sequence = 1;
  covered_through_sequence = 1;
  summary = some (in_sections (chars "said hi"));
  usage = none;
  error_type = none;
  reason = none;
}

abbrev failed_outcome : CompactionOutcome
failed_outcome = record {
  succeeded = false;
  forced = false;
  source_start_sequence = 1;
  source_end_sequence = 1;
  covered_through_sequence = 0;
  summary = none;
  usage = none;
  error_type = some (chars "OSError");
  reason = some (chars "compaction_model_failed");
}

compact-covers_example :
    (summarized : List MessageGroup) × (rest : List MessageGroup) × (plan.groups
      ≡ summarized ++ rest)
    × (summarized ≢ [])
    × (ending_after (cutoff compacted) groups ≡ rest ++ call_group ∷ [])
    × (compacted.latest_summary ≡ outcome.summary)
    × (compacted.degraded_notice ≡ none)
    × (compacted.recent_messages ≡ state.recent_messages)
    × (compacted.covered_through_sequence ≡ outcome.source_end_sequence)
unfolding compact ending_after end_sequence select fits request messages_for json_value text_tokens
    utf8_length strip succeed start_sequence summary_with_required_sections contains
compact-covers_example =
    compact-covers no_dumps same_case compactor reply plan state compacted outcome 0 groups
      (call_group ∷ []) (omega arith, (omega arith, tt)) refl refl refl

-- A model that fails on the requests that are too long.
abbrev short_only : List Fields → ModelReply
short_only messages = elim (request no_dumps compactor.estimator messages []) [
  | none ↦ ModelReply.other_error (chars "unsent")
  | some n ↦
      if leb (n + compactor.reserved_output_tokens) compactor.context_window
      then reply messages
      else ModelReply.other_error (chars "unsent")
]

compact-asks_within_example :
    compact no_dumps same_case compactor reply plan state
    ≡ compact no_dumps same_case compactor short_only plan state
compact-asks_within_example =
    compact-asks_within no_dumps same_case compactor reply short_only plan state
      (λ gs n given h. ground (arith, given, h))

compact-failed_example :
    (state ≡ state)
    × (failed_outcome.summary ≡ none)
    × (failed_outcome.covered_through_sequence ≡ plan.previous_covered_sequence)
unfolding compact select fits request messages_for json_value text_tokens utf8_length start_sequence
    end_sequence
compact-failed_example =
    compact-failed no_dumps same_case compactor no_reply plan state state failed_outcome refl refl
