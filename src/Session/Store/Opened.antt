-- ===== src/Session/Store/Opened.antt =====
-- The constructor of the store of session.py, on the bytes of any file.
use coding_agent_neo.Prelude.{
  ℕ, ◌<◌, ◌≡◌, refl, inl, inr, Option, none, some, List, [], ◌∷◌, arith, ok, Result-cases, All,
  Text,
}
use coding_agent_neo.Session.{EventEnvelope, SessionReadResult, Codec, read_session}
use coding_agent_neo.Session.Sound.{Ascending, OneSession, ids, read_session-Sound}
use coding_agent_neo.Session.Store.{SessionStore, init, next_after, first_session}

next_after-above :
    (es : List EventEnvelope) → Ascending es → All (λ e. e.sequence < next_after es) es
next_after-above [] a = tt
next_after-above (e ∷ []) a = (omega arith, tt)
next_after-above (e ∷ d ∷ es) a =
    let rest = next_after-above (d ∷ es) a.1 in (omega (arith, a.0.0, rest.0), rest)

same-owner :
    (owner session : Option Text) (es : List EventEnvelope)
    → owner ≡ session
    → All (λ e. owner ≡ some e.session_id) es
    → All (λ e. session ≡ some e.session_id) es
same-owner owner session es same h = rw same at h

first_session-owns :
    (expected : Option Text) (es : List EventEnvelope)
    → OneSession expected es
    → All (λ e. first_session expected es ≡ some e.session_id) es
first_session-owns none [] one = tt
first_session-owns none (e ∷ es) (owner, owned, expects) =
    same-owner owner (some e.session_id) (e ∷ es) owned.0 owned
first_session-owns (some t) es (owner, owned, expects) =
    same-owner owner (some t) es (expects t refl) owned

-- What a store that is opened has to do with the events of its file.
abbrev pub Follows : SessionStore → SessionReadResult → Type 0
Follows s r =
    (s.event_ids ≡ ids r.events)
    × All (λ e. e.sequence < s.next_sequence) r.events
    × All (λ e. s.session_id ≡ some e.session_id) r.events
    × (s.tail_diagnostic ≡ r.diagnostic)

-- Whatever the bytes of a file are, and however a record is decoded: a store that is opened on them
-- has the IDs of the file's events, a next number above all of theirs, their session, and the
-- report of a tail that was left out.
pub init-Follows :
    (codec : Codec) (expected : Option Text) (bytes : List ℕ) (s : SessionStore)
    → init codec expected bytes ≡ ok s
    → (r : SessionReadResult) × (read_session codec expected bytes ≡ ok r) × Follows s r
unfolding init
init-Follows codec expected bytes s opened =
    elim (Result-cases (read_session codec expected bytes)) [
      | inr (e, fails) ↦ absurd (ground (arith, opened, fails))
      | inl (r, given) ↦
          let (one, different, ascends, tail) = read_session-Sound codec expected bytes r given in
          let number : s.next_sequence ≡ next_after r.events = ground (arith, opened, given) in
          let session : s.session_id ≡ first_session expected r.events =
            ground (arith, opened, given) in
          (
            r,
            given,
            (
              ground (arith, opened, given),
              rw number (next_after-above r.events ascends),
              rw session (first_session-owns expected r.events one),
              ground (arith, opened, given),
            ),
          )
    ]
