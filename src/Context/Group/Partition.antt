-- ===== src/Context/Group/Partition.antt =====
-- The groups that `group_messages` of context.py makes are a partition of its input.
use coding_agent_neo.Prelude.{
  ℕ, zero, suc, ◌≤◌, ◌≡◌, refl, sym, ap, ◌∙◌, inl, inr, List, [], ◌∷◌, ◌++◌, map, arith, ok,
  Result-cases, Option-cases, length, length-append, Text,
}
use mathlib.Core.List.{map-append}
use coding_agent_neo.Json.{Fields}
use coding_agent_neo.Context.Message.{detach_message, detach_all, result_id}
use coding_agent_neo.Context.Group.{
  MessageGroup, Entry, Collected, collect, expected_ids, close_group, next_group, group_loop, zip,
  group_messages,
}

abbrev pub messages_of : List MessageGroup → List Fields
messages_of [] = []
messages_of (g ∷ gs) = g.messages ++ messages_of gs

abbrev pub sequences_of : List MessageGroup → List ℕ
sequences_of [] = []
sequences_of (g ∷ gs) = g.sequences ++ sequences_of gs

collect-partition :
    (expected seen : List Text) (es : List Entry) (c : Collected)
    → collect expected seen es ≡ ok c
    → es ≡ c.results ++ c.rest
unfolding collect
collect-partition expected seen [] c h = ground arith
collect-partition expected seen (e ∷ es) c h = elim (Option-cases (result_id e.0)) [
  | inl missing ↦ ground arith
  | inr (i, found) ↦ elim (Result-cases (collect expected (seen ++ i ∷ []) es)) [
    | inl (d, more) ↦ ground (arith, collect-partition expected (seen ++ i ∷ []) es d more)
    | inr (x, failed) ↦ ground arith
  ]
]

pub next_group-partition :
    (e : Entry) (es group rest : List Entry)
    → next_group e es ≡ ok (group, rest)
    → (results : List Entry) × (group ≡ e ∷ results) × (es ≡ results ++ rest)
unfolding next_group close_group
next_group-partition e es group rest h = elim (Result-cases (expected_ids e.0)) [
  | inl ([], none_declared) ↦ ([], ground arith, ground arith)
  | inl (i ∷ is, declared) ↦ elim (Result-cases (collect (i ∷ is) [] es)) [
    | inl (c, read) ↦
        (c.results, ground arith, ground (arith, collect-partition (i ∷ is) [] es c read))
    | inr (x, failed) ↦ absurd (ground arith)
  ]
  | inr (x, failed) ↦ absurd (ground arith)
]

pub group_loop-partition :
    (fuel : ℕ) (es : List Entry) (gs : List MessageGroup)
    → length es ≤ fuel
    → group_loop fuel es ≡ ok gs
    → (map (λ e. e.0) es ≡ messages_of gs) × (map (λ e. e.1) es ≡ sequences_of gs)
unfolding group_loop
group_loop-partition zero [] gs le h = ground arith
group_loop-partition zero (e ∷ es) gs le h = absurd (omega arith)
group_loop-partition (suc fuel) [] gs le h = ground arith
group_loop-partition (suc fuel) (e ∷ es) gs le h = elim (Result-cases (next_group e es)) [
  | inl ((group, rest), k) ↦ elim (Result-cases (group_loop fuel rest)) [
    | inl (gs', k') ↦
        let (results, is_group, is_rest) = next_group-partition e es group rest k in
        let shorter : length rest ≤ fuel =
          omega (arith, ap length is_rest, length-append {0} results rest) in
        let (ms, ns) = group_loop-partition fuel rest gs' shorter k' in
        ground (
          arith,
          ms,
          ns,
          map-append (λ (x : Entry). x.0) results rest,
          map-append (λ (x : Entry). x.1) results rest,
        )
    | inr (x, failed) ↦ absurd (ground arith)
  ]
  | inr (x, failed) ↦ absurd (ground arith)
]

pub detach_all-eq : (ms ds : List Fields) → detach_all ms ≡ ok ds → ds ≡ ms
unfolding detach_all detach_message
detach_all-eq [] ds h = ground arith
detach_all-eq (m ∷ ms) ds h = elim (Result-cases (detach_all ms)) [
  | inl (d, k) ↦ ground (arith, detach_all-eq ms d k)
  | inr (x, failed) ↦ absurd (ground arith)
]

pub zip-projections :
    (ms : List Fields) (ns : List ℕ)
    → length ms ≡ length ns
    → (map (λ e. e.0) (zip ms ns) ≡ ms)
      × (map (λ e. e.1) (zip ms ns) ≡ ns)
      × (length (zip ms ns) ≡ length ms)
zip-projections [] [] h = (refl, refl, refl)
zip-projections [] (n ∷ ns) h = absurd (omega arith)
zip-projections (m ∷ ms) [] h = absurd (omega arith)
zip-projections (m ∷ ms) (n ∷ ns) h = ground (arith, zip-projections ms ns)

-- Grouping loses nothing, repeats nothing and keeps the order: when it succeeds, the messages of
-- the groups, put one after another, are the given messages, and so are the sequence numbers.
pub group_messages-partition :
    (ms : List Fields) (ns : List ℕ) (gs : List MessageGroup)
    → group_messages ms ns ≡ ok gs
    → (messages_of gs ≡ ms) × (sequences_of gs ≡ ns)
unfolding group_messages
group_messages-partition ms ns gs h = elim (Result-cases (detach_all ms)) [
  | inl (ds, k) ↦
      let same : ds ≡ ms = detach_all-eq ms ds k in
      let equal : length ms ≡ length ns = ground arith in
      let (firsts, seconds, size) = zip-projections ms ns equal in
      let made : group_loop (length ms) (zip ms ns) ≡ ok gs = ground (arith, same) in
      let (by_messages, by_sequences) =
        group_loop-partition (length ms) (zip ms ns) gs (omega (arith, size)) made in
      (sym by_messages ∙ firsts, sym by_sequences ∙ seconds)
  | inr (x, failed) ↦ absurd (ground arith)
]
