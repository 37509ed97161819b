-- ===== src/Context/Group/Decides.antt =====
-- `group_messages` of context.py accepts a conversation exactly if it is a row of complete
-- interactions, and its groups are those interactions.
use coding_agent_neo.Prelude.{
  ℕ, zero, suc, ◌≤◌, ◌≡◌, refl, ap, ◌∙◌, inl, inr, true, false, not, List, [], ◌∷◌, map, arith, ok,
  is_none, Result-cases, length, all, All, length-append, all-append,
}
use mathlib.Core.List.{map-append}
use coding_agent_neo.Json.{Fields}
use coding_agent_neo.Context.Message.{detach_all, detach_message, detach_message, role_of}
use coding_agent_neo.Context.Group.{
  zip, group_messages, MessageGroup, Entry, collect, expected_ids, close_group, next_group,
  group_loop,
}
use coding_agent_neo.Context.Group.Partition.{detach_all-eq, zip-projections, next_group-partition}
use coding_agent_neo.Context.Group.Complete.{Interaction, messages_in, conversation, IsComplete}
use coding_agent_neo.Context.Group.Complete.Accepts.{firsts, collect-Reads}

-- The groups are the given interactions, in order.
abbrev pub AreGroups : List MessageGroup → List Interaction → Type 0
AreGroups gs is = map (λ g. g.messages) gs ≡ map messages_in is

next_group-IsComplete :
    (e : Entry) (es rs rest : List Entry)
    → is_none (role_of e.0) ≡ false
    → next_group e es ≡ ok (e ∷ rs, rest)
    → IsComplete (record { head = e.0; results = firsts rs })
unfolding next_group close_group
next_group-IsComplete e es rs rest role h = elim (Result-cases (expected_ids e.0)) [
  | inr (x, failed) ↦ absurd (ground arith)
  | inl ([], silent) ↦
      let empty : rs ≡ [] = ground arith in
      record {
        ids = [];
        has_a_role = role;
        no_result = ground arith;
        calls = silent;
        answers = record {
          answered = [];
          by_id = rw empty;
          by_tools = rw empty;
          once = refl;
          declared = refl;
          every = refl;
        };
      }
  | inl (i ∷ is, declares) ↦ elim (Result-cases (collect (i ∷ is) [] es)) [
    | inr (x, failed) ↦ absurd (ground arith)
    | inl (c, read) ↦
        let r = collect-Reads (i ∷ is) [] es c refl refl read in
        let same : rs ≡ c.results = ground arith in
        record {
          ids = i ∷ is;
          has_a_role = role;
          no_result = ground arith;
          calls = declares;
          answers = record {
            answered = r.answered;
            by_id = rw same r.by_id;
            by_tools = rw same r.by_tools;
            once = r.once;
            declared = r.declared;
            every = ground (arith, r.seen_all);
          };
        }
  ]
]

group_loop-IsComplete :
    (fuel : ℕ) (es : List Entry) (gs : List MessageGroup)
    → length es ≤ fuel
    → all (λ m. not (is_none (role_of m))) (firsts es) ≡ true
    → group_loop fuel es ≡ ok gs
    → (is : List Interaction) × All IsComplete is × (conversation is ≡ firsts es) × AreGroups gs is
unfolding group_loop
group_loop-IsComplete zero [] gs le roles h = ([], tt, refl, ground arith)
group_loop-IsComplete zero (e ∷ es) gs le roles h = absurd (omega arith)
group_loop-IsComplete (suc fuel) [] gs le roles h = ([], tt, refl, ground arith)
group_loop-IsComplete (suc fuel) (e ∷ es) gs le roles h = elim (Result-cases (next_group e es)) [
  | inr (x, failed) ↦ absurd (ground arith)
  | inl ((group, rest), step) ↦ elim (Result-cases (group_loop fuel rest)) [
    | inr (x, failed) ↦ absurd (ground arith)
    | inl (gs', made) ↦
        let (rs, is_group, is_rest) = next_group-partition e es group rest step in
        let shorter : length rest ≤ fuel =
          omega (arith, ap length is_rest, length-append {0} rs rest) in
        let step' : next_group e es ≡ ok (e ∷ rs, rest) = ground arith in
        let complete = next_group-IsComplete e es rs rest (ground arith) step' in
        let parts = map-append (λ (x : Entry). x.0) rs rest in
        let roles' : all (λ m. not (is_none (role_of m))) (firsts rest) ≡ true = ground (
          arith,
          parts,
          is_rest,
          all-append (λ m. not (is_none (role_of m))) (firsts rs) (firsts rest),
        ) in
        let (is, all_complete, whole, same) =
          group_loop-IsComplete fuel rest gs' shorter roles' made in
        (
          record { head = e.0; results = firsts rs } ∷ is,
          (complete, all_complete),
          ground (arith, whole, parts, is_rest),
          ground (arith, same),
        )
  ]
]

detach_all-roles :
    (ms ds : List Fields) → detach_all ms ≡ ok ds → all (λ m. not (is_none (role_of m))) ms ≡ true
unfolding detach_all detach_message
detach_all-roles [] ds h = refl
detach_all-roles (m ∷ ms) ds h = elim (Result-cases (detach_all ms)) [
  | inr (x, failed) ↦ absurd (ground arith)
  | inl (ds', k) ↦ ground (arith, detach_all-roles ms ds' k)
]

-- What is accepted is a row of complete interactions: every declared call has exactly one result,
-- behind the message that declares it, every result answers such a call, and every message has a
-- role. The groups are those interactions.
pub group_messages-IsComplete :
    (ms : List Fields) (ns : List ℕ) (gs : List MessageGroup)
    → group_messages ms ns ≡ ok gs
    → (is : List Interaction) × All IsComplete is × (conversation is ≡ ms) × AreGroups gs is
unfolding group_messages
group_messages-IsComplete ms ns gs h = elim (Result-cases (detach_all ms)) [
  | inr (x, failed) ↦ absurd (ground arith)
  | inl (ds, k) ↦
      let same : ds ≡ ms = detach_all-eq ms ds k in
      let equal : length ms ≡ length ns = ground arith in
      let (by_messages, _, size) = zip-projections ms ns equal in
      let made : group_loop (length ms) (zip ms ns) ≡ ok gs = ground (arith, same) in
      let roles : all (λ m. not (is_none (role_of m))) (firsts (zip ms ns)) ≡ true =
        rw by_messages (detach_all-roles ms ds k) in
      let (is, c, whole, groups) =
        group_loop-IsComplete (length ms) (zip ms ns) gs (omega (arith, size)) roles made in
      (is, c, whole ∙ by_messages, groups)
]
