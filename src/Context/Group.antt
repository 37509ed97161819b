-- ===== src/Context/Group.antt =====
-- `MessageGroup` and `group_messages` of context.py.
pub mod Partition
pub mod Complete
pub mod Decides
use coding_agent_neo.Prelude.{
  ℕ, zero, suc, min, max, Bool, not, ◌&&◌, none, some, List, [], ◌∷◌, ◌++◌, map, Result, ok, err,
  ◌>>=◌, ◌>>◌, value_error, ltb, ◌==◌, if◌then◌else◌, length, all, Text, chars, member,
}
use coding_agent_neo.Json.{Fields}
use coding_agent_neo.Context.Message.{
  ContextError, integrity_error, role_of, has_role, detach_all, tool_call_ids, result_id,
}

-- The constructor's checks hold wherever the program makes a group: `grouped` below makes both
-- lists from one that is not empty.
pub record MessageGroup : Type 0 where
  pub messages : List Fields
  pub sequences : List ℕ

-- A message beside its sequence number.
abbrev pub Entry : Type 0
Entry = Fields × ℕ

abbrev pub grouped : List Entry → MessageGroup
grouped entries = record { messages = map (λ e. e.0) entries; sequences = map (λ e. e.1) entries }

-- min(self.sequences) and max(self.sequences)
abbrev pub min_of : List ℕ → ℕ
min_of [] = 0
min_of (n ∷ []) = n
min_of (n ∷ m ∷ ns) = min n (min_of (m ∷ ns))

abbrev pub max_of : List ℕ → ℕ
max_of [] = 0
max_of (n ∷ ns) = max n (max_of ns)

unfoldable pub start_sequence : MessageGroup → ℕ
start_sequence g = min_of g.sequences

unfoldable pub end_sequence : MessageGroup → ℕ
end_sequence g = max_of g.sequences

-- What the inner loop has read: the result messages, their IDs, and what follows.
pub record Collected : Type 0 where
  pub results : List Entry
  pub seen_ids : List Text
  pub rest : List Entry

abbrev pub with_result : Entry → Collected → Collected
with_result e c = record c { results = e ∷ c.results }

-- The inner loop: results of one assistant message, until each ID was seen or another role comes.
unfoldable pub collect : List Text → List Text → List Entry → Result ContextError Collected
collect expected seen [] = ok (record { results = []; seen_ids = seen; rest = [] })
collect expected seen (e ∷ entries) =
    let read : Result ContextError Collected = elim (result_id e.0) [
      | none ↦ err integrity_error
      | some i ↦
          let more = collect expected (seen ++ i ∷ []) entries in
          if not (member i expected)
          then err integrity_error
          else if member i seen
          then err integrity_error
          else more >>= λ c. ok (with_result e c)
    ] in
    let stop : Result ContextError Collected =
      ok (record { results = []; seen_ids = seen; rest = e ∷ entries }) in
    if not (ltb (length seen) (length expected))
    then stop
    else if not (has_role (chars "tool") e.0)
    then stop
    else read

-- seen_ids == set(expected_ids)
abbrev pub same_ids : List Text → List Text → Bool
same_ids seen expected = all (λ i. member i expected) seen && all (λ i. member i seen) expected

-- _tool_call_ids(message) if role == "assistant" else ()
unfoldable pub expected_ids : Fields → Result ContextError (List Text)
expected_ids m = if has_role (chars "assistant") m then tool_call_ids m else ok []

-- What the inner loop has read makes a group if no declared call is left without its result.
unfoldable pub close_group :
    Entry → List Text → Collected → Result ContextError (List Entry × List Entry)
close_group e expected c =
    if same_ids c.seen_ids expected then ok (e ∷ c.results, c.rest) else err integrity_error

-- One round of the outer loop: the entries of the next group, and what follows.
unfoldable pub next_group : Entry → List Entry → Result ContextError (List Entry × List Entry)
next_group e entries =
    if has_role (chars "tool") e.0
    then err integrity_error
    else expected_ids e.0 >>= λ expected. elim expected [
      | [] ↦ ok (e ∷ [], entries)
      | i ∷ is ↦ collect (i ∷ is) [] entries >>= close_group e (i ∷ is)
    ]

-- The outer loop. Each round takes at least one entry, so the number of entries is enough fuel.
unfoldable pub group_loop : ℕ → List Entry → Result ContextError (List MessageGroup)
group_loop zero entries = ok []
group_loop (suc fuel) [] = ok []
group_loop (suc fuel) (e ∷ entries) = do
  (group, rest) ← next_group e entries
  groups ← group_loop fuel rest
  ok (grouped group ∷ groups)

abbrev pub zip : List Fields → List ℕ → List Entry
zip (m ∷ ms) (n ∷ ns) = (m, n) ∷ zip ms ns
zip _ _ = []

unfoldable pub group_messages : List Fields → List ℕ → Result ContextError (List MessageGroup)
unfolding detach_all group_loop
group_messages messages sequences =
    if not (length messages == length sequences)
    then err ContextError.value_error
    else do detached ← detach_all messages; group_loop (length detached) (zip detached sequences)
