-- ===== src/Context/Builder/Entries.antt =====
-- The sequence numbers that `_entries` of context.py gives to messages without one.
use mathlib.Core.Path.{subst}
use mathlib.Core.List.{append-nil}
use native.Mathlib.Nat.{le_refl}
use coding_agent_neo.Context.Group.Partition.{detach_all-eq}
use coding_agent_neo.Prelude.{
  ℕ, suc, ◌+◌, ◌-◌, ◌≤◌, ◌<◌, max, ◌≡◌, refl, sym, ap, ◌∙◌, inl, inr, Option, none, some, List, [],
  ◌∷◌, map, arith, ok, Result-cases, length, replicate, length-append, length-replicate,
}
use coding_agent_neo.Json.{Fields}
use coding_agent_neo.Runtime.State.{ContextState, pad}
use coding_agent_neo.Context.Message.{detach_all}
use coding_agent_neo.Context.Builder.{fill, cutoff, entries}

length-fill : (current : ℕ) (ns : List (Option ℕ)) → length (fill current ns) ≡ length ns
unfolding fill
length-fill current [] = refl
length-fill current (none ∷ ns) = ap suc (length-fill (current + 1) ns)
length-fill current (some v ∷ ns) = ap suc (length-fill (max current v) ns)

-- Numbers that are there stay as they are.
fill-some : (current : ℕ) (ns : List ℕ) → fill current (map some ns) ≡ ns
unfolding fill
fill-some current [] = refl
fill-some current (n ∷ ns) = ground (arith, fill-some (max current n) ns)

-- A number that was given, against what stood in its place before: an own number stays, and a new
-- one is above the cutoff.
abbrev pub Keeps : ℕ → List (Option ℕ) → List ℕ → Type 0
Keeps low [] [] = Unit
Keeps low (some v ∷ ns) (m ∷ ms) = (m ≡ v) × Keeps low ns ms
Keeps low (none ∷ ns) (m ∷ ms) = (low < m) × Keeps low ns ms
Keeps low _ _ = ⊥

fill-Keeps :
    (low current : ℕ) (ns : List (Option ℕ)) → low ≤ current → Keeps low ns (fill current ns)
unfolding fill
fill-Keeps low current [] h = tt
fill-Keeps low current (none ∷ ns) h = (omega arith, fill-Keeps low (current + 1) ns (omega arith))
fill-Keeps low current (some v ∷ ns) h = (refl, fill-Keeps low (max current v) ns (omega arith))

pad-whole : (ms : List Fields) (ns : List (Option ℕ)) → length ns ≡ length ms → pad ms ns ≡ ns
unfolding pad
pad-whole ms ns h =
    let nothing : length ms - length ns ≡ 0 = omega arith in rw (nothing, append-nil ns)

length-pad :
    (ms : List Fields) (ns : List (Option ℕ))
    → length ns ≤ length ms
    → length (pad ms ns) ≡ length ms
unfolding pad
length-pad ms ns h = omega (
  arith,
  length-append {0} ns (replicate (length ms - length ns) none),
  length-replicate {A = Option ℕ} (length ms - length ns) none,
)

length-some : (ns : List ℕ) → length (map {A = ℕ} {B = Option ℕ} some ns) ≡ length ns
length-some [] = refl
length-some (n ∷ ns) = ap suc (length-some ns)

entries_again :
    (s : ContextState) (ns : List ℕ)
    → detach_all s.recent_messages ≡ ok s.recent_messages
    → length ns ≡ length s.recent_messages
    → entries (record s { recent_message_sequences = map some ns })
      ≡ (ok (s.recent_messages, ns), record s { recent_message_sequences = map some ns })
unfolding entries
entries_again s ns d h =
    let same_length = length-some ns in
    let whole = pad-whole s.recent_messages (map some ns) (length-some ns ∙ h) in
    let again = fill-some (cutoff s) ns in ground (arith, d, whole, again, same_length)

-- When `_entries` succeeds, the messages are the recent ones, each has one number, numbers that
-- were there are kept, and new ones lie above everything that is covered or degraded; the state
-- changes in the numbers alone, and a second call finds the same and changes nothing.
pub entries_stable :
    (s s' : ContextState) (ms : List Fields) (ns : List ℕ)
    → entries s ≡ (ok (ms, ns), s')
    → (ms ≡ s.recent_messages)
      × (length ns ≡ length ms)
      × Keeps (cutoff s) (pad ms s.recent_message_sequences) ns
      × (s' ≡ record s { recent_message_sequences = map some ns })
      × (entries s' ≡ (ok (ms, ns), s'))
unfolding entries
entries_stable s s' ms ns h = elim (Result-cases (detach_all s.recent_messages)) [
  | inr (x, failed) ↦ absurd (ground arith)
  | inl (ds, k) ↦
      let same : ds ≡ s.recent_messages = detach_all-eq s.recent_messages ds k in
      let is_ms : ms ≡ s.recent_messages = ground arith in
      let fits : length s.recent_message_sequences ≤ length ds = ground arith in
      let filled : ns ≡ fill (cutoff s) (pad ds s.recent_message_sequences) = ground arith in
      let after : s' ≡ record s { recent_message_sequences = map some ns } = ground arith in
      let size : length ns ≡ length ds = rw filled (
        length-fill (cutoff s) (pad ds s.recent_message_sequences)
        ∙ length-pad ds s.recent_message_sequences fits) in
      let again = entries_again s ns (rw same at k) (size ∙ ap length same) in
      let kept = fill-Keeps (cutoff s) (cutoff s) (pad ds s.recent_message_sequences) (le_refl _) in
      (
        is_ms,
        size ∙ ap length (same ∙ sym is_ms),
        rw is_ms (rw same at (rw (← filled) at kept)),
        after,
        subst (λ (t : ContextState). entries t ≡ (ok (ms, ns), t)) (sym after) (rw is_ms again),
      )
]
