-- ===== src/Session/Store.antt =====
-- `SessionStore` of session.py: the owner of a session's sequence numbers.
pub mod AppendOnly
pub mod Opened
use coding_agent_neo.Prelude.{
  ℕ, suc, ◌+◌, Bool, true, false, not, ◌&&◌, ◌||◌, Option, none, some, List, [], ◌∷◌, ◌++◌, map,
  Result, ok, err, ◌>>=◌, ◌>>◌, if◌then◌else◌, is_none, take, all, Text, text_eq, member,
}
use coding_agent_neo.Json.{Value}
use coding_agent_neo.Session.{
  EventEnvelope, SessionError, write_error, incomplete_tail, duplicate_event_id, value_error,
  SessionDiagnostic, Codec, newline, read_session,
}

-- What `_prepare` calls: `canonicalize_event` with a sequence number and, where one is given, an
-- event ID, `has_explicit_event_id`, `_unique_generated_id`, and `_bounded_payload`. They are
-- parameters, and nothing is assumed of them.
pub record Producer (E : Type 0) : Type 0 where
  pub canonicalize : E → ℕ → Option Text → Result SessionError EventEnvelope
  pub has_explicit_event_id : E → Bool
  pub unique_generated_id : Text → List Text → Text
  pub bounded_payload : Value → Result SessionError Value

pub record SessionStore : Type 0 where
  pub bytes : List ℕ
  pub session_id : Option Text
  pub event_ids : List Text
  pub next_sequence : ℕ
  pub tail_diagnostic : Option SessionDiagnostic
  pub needs_separator : Bool
  pub closed : Bool
  pub write_failed : Bool

abbrev pub first_session : Option Text → List EventEnvelope → Option Text
first_session none (e ∷ es) = some e.session_id
first_session expected es = expected

abbrev pub next_after : List EventEnvelope → ℕ
next_after [] = 1
next_after (e ∷ []) = suc e.sequence
next_after (e ∷ d ∷ es) = next_after (d ∷ es)

abbrev pub has_events : List EventEnvelope → Bool
has_events [] = false
has_events (e ∷ es) = true

-- The constructor, on the bytes of the file.
unfoldable pub init : Codec → Option Text → List ℕ → Result SessionError SessionStore
init codec expected bytes = do
  result ← read_session codec expected bytes
  ok (record {
    bytes = bytes;
    session_id = first_session expected result.events;
    event_ids = map (λ e. e.event_id) result.events;
    next_sequence = next_after result.events;
    tail_diagnostic = result.diagnostic;
    needs_separator = has_events result.events && not result.ended_with_newline;
    closed = false;
    write_failed = false;
  })

-- The session of the first event is the store's.
unfoldable pub claim : EventEnvelope → SessionStore → Result SessionError SessionStore
claim envelope s = elim s.session_id [
  | none ↦ ok (record s { session_id = some envelope.session_id })
  | some session ↦ if text_eq session envelope.session_id then ok s else err value_error
]

module _ {E : Type 0} (p : Producer E) where
  -- The event with an ID that the session does not have.
  unfoldable pub with_new_id : E → ℕ → EventEnvelope → List Text → Result SessionError EventEnvelope
  with_new_id event sequence envelope ids =
      if member envelope.event_id ids
      then if p.has_explicit_event_id event
        then err duplicate_event_id
        else p.canonicalize event sequence (some (p.unique_generated_id envelope.event_id ids))
      else ok envelope

  unfoldable pub bounded : EventEnvelope → Result SessionError EventEnvelope
  bounded envelope = do
    payload ← p.bounded_payload envelope.rest
    ok (record envelope { rest = payload })

  abbrev pub claimed :
      E
      → SessionStore
      → EventEnvelope
      → Result SessionError SessionStore
      → Result SessionError EventEnvelope × SessionStore
  claimed event s envelope (err e) = (err e, s)
  claimed event s envelope (ok s') =
      (with_new_id event s'.next_sequence envelope s'.event_ids >>= bounded, s')

  abbrev pub canonical :
      E
      → SessionStore
      → Result SessionError EventEnvelope
      → Result SessionError EventEnvelope × SessionStore
  canonical event s (err e) = (err e, s)
  canonical event s (ok envelope) = claimed event s envelope (claim envelope s)

  unfoldable pub prepare : E → SessionStore → Result SessionError EventEnvelope × SessionStore
  prepare event s = canonical event s (p.canonicalize event s.next_sequence none)

-- A write of the line: all of it, or no more than its first bytes, where it raises.
abbrev pub Write : Type 0
Write = Option ℕ

module _ (codec : Codec) where
  abbrev pub separator : Bool → List ℕ
  separator true = newline ∷ []
  separator false = []

  unfoldable pub write_line :
      Write → EventEnvelope → SessionStore → Result SessionError EventEnvelope × SessionStore
  write_line write envelope s =
      let line = separator s.needs_separator ++ codec.encode envelope ++ newline ∷ [] in
      elim write [
        | none ↦ (
          ok envelope,
          record s {
            bytes = s.bytes ++ line;
            event_ids = s.event_ids ++ envelope.event_id ∷ [];
            next_sequence = s.next_sequence + 1;
            needs_separator = false;
          },
        )
        | some n ↦
            (err write_error, record s { bytes = s.bytes ++ take n line; write_failed = true })
      ]

  abbrev pub prepared :
      Write
      → Result SessionError EventEnvelope × SessionStore
      → Result SessionError EventEnvelope × SessionStore
  prepared write (ok envelope, s) = write_line write envelope s
  prepared write (err e, s) = (err e, s)

  -- `append`; `write` is how the write ends, where there is one.
  unfoldable pub append :
      {E : Type 0}
      → Producer E
      → Write
      → E
      → SessionStore
      → Result SessionError EventEnvelope × SessionStore
  append p write event s =
      if s.closed || s.write_failed
      then (err write_error, s)
      else if not (is_none s.tail_diagnostic)
      then (err incomplete_tail, s)
      else prepared write (prepare p event s)
