-- ===== src/Session/Store/AppendOnly.antt =====
-- What an append of the store of session.py does to its file and its counters.
use coding_agent_neo.Prelude.{ℕ, ◌+◌, ◌≡◌, ◌⊎◌, true, false, List, [], ◌∷◌, ◌++◌, Result, ok, err}
use coding_agent_neo.Session.{EventEnvelope, SessionError, Codec, newline}
use coding_agent_neo.Session.Store.{SessionStore, separator}

-- A store that differs in its session at most.
abbrev Same : SessionStore → SessionStore → Type 0
Same s t =
    (t.bytes ≡ s.bytes)
    × (t.event_ids ≡ s.event_ids)
    × (t.next_sequence ≡ s.next_sequence)
    × (t.needs_separator ≡ s.needs_separator)

-- The file grows at its end alone. A success adds the event's whole line, behind a separator where
-- one is needed, and counts the event; a failure counts nothing, and where it has left bytes the
-- store takes no further append.
abbrev pub Appends :
    Codec → SessionStore → Result SessionError EventEnvelope × SessionStore → Type 0
Appends codec s (ok e, t) =
    (t.bytes ≡ s.bytes ++ (separator codec s.needs_separator ++ codec.encode e ++ newline ∷ []))
    × (t.event_ids ≡ s.event_ids ++ e.event_id ∷ [])
    × (t.next_sequence ≡ s.next_sequence + 1)
    × (t.needs_separator ≡ false)
Appends codec s (err x, t) =
    (tail : List ℕ) × (t.bytes ≡ s.bytes ++ tail)
    × (t.event_ids ≡ s.event_ids)
    × (t.next_sequence ≡ s.next_sequence)
    × ((tail ≡ []) ⊎ (t.write_failed ≡ true))
