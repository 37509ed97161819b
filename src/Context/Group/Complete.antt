-- ===== src/Context/Group/Complete.antt =====
-- What `group_messages` of context.py accepts: conversations in which every declared tool call has
-- exactly one result, right behind the message that declares it.
pub mod Accepts
use coding_agent_neo.Prelude.{
  ◌≡◌, refl, inl, inr, true, false, not, some, List, [], ◌∷◌, ◌++◌, map, arith, ok, ◌>>=◌, ◌>>◌,
  is_none, Option-cases, any, all, Text, chars,
}
use coding_agent_neo.Prelude.Distinct.{distinct, subset, distinct-snoc}
use coding_agent_neo.Json.{Value, Fields, values, null, arr, get, obj, str, num, bool}
use coding_agent_neo.Context.Message.{
  ContextError, has_role, role_of, result_id, collect_ids, tool_call_ids, call_id,
}
use coding_agent_neo.Context.Group.{
  MessageGroup, Entry, Collected, collect, expected_ids, same_ids, close_group, next_group,
}

-- A message and the messages that answer it.
pub record Interaction : Type 0 where
  pub head : Fields
  pub results : List Fields

abbrev pub messages_in : Interaction → List Fields
messages_in i = i.head ∷ i.results

abbrev pub conversation : List Interaction → List Fields
conversation [] = []
conversation (i ∷ is) = messages_in i ++ conversation is

-- The results answer the calls: all are tool messages, and their IDs are the declared ones, each
-- once, in any order.
pub record Answers (ids : List Text) (results : List Fields) : Type 0 where
  pub answered : List Text
  pub by_id : map result_id results ≡ map some answered
  pub by_tools : all (has_role (chars "tool")) results ≡ true
  pub once : distinct answered ≡ true
  pub declared : subset answered ids ≡ true
  pub every : subset ids answered ≡ true

pub record IsComplete (i : Interaction) : Type 0 where
  pub ids : List Text
  pub has_a_role : is_none (role_of i.head) ≡ false
  pub no_result : has_role (chars "tool") i.head ≡ false
  pub calls : expected_ids i.head ≡ ok ids
  pub answers : Answers ids i.results

-- The IDs that one message declares do not repeat.
collect_ids-distinct :
    (before : List Text) (calls : List Value) (ids : List Text)
    → distinct before ≡ true
    → collect_ids before calls ≡ ok ids
    → distinct ids ≡ true
unfolding collect_ids
collect_ids-distinct before [] ids d h = ground arith
collect_ids-distinct before (call ∷ calls) ids d h = elim (Option-cases (call_id call)) [
  | inl bad ↦ absurd (ground arith)
  | inr (i, found) ↦
      ground (arith, collect_ids-distinct (before ++ i ∷ []) calls ids, distinct-snoc before i)
]

pub expected_ids-distinct :
    (m : Fields) (ids : List Text) → expected_ids m ≡ ok ids → distinct ids ≡ true
unfolding expected_ids tool_call_ids
expected_ids-distinct m ids h = elim (Option-cases (get "tool_calls" m)) [
  | inl absent ↦ ground arith
  | inr (null, is_null) ↦ ground arith
  | inr (arr calls, is_list) ↦ ground (arith, collect_ids-distinct [] (values calls) ids refl)
  | inr (_, other) ↦ ground arith
]
