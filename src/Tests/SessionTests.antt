-- ===== src/Tests/SessionTests.antt =====
-- The theorems on session.py at concrete inputs: records of one byte, their number.
use coding_agent_neo.Prelude.{
  ℕ, ◌≡◌, refl, true, false, Option, none, some, List, [], ◌∷◌, Result, ok, err, Text, chars,
  text_eq,
}
use coding_agent_neo.Json.{null}
use coding_agent_neo.Session.{
  EventEnvelope, SessionError, SessionReadResult, Codec, read_session, write_error, violates,
  accept, record_of, bad_line, content,
}
use coding_agent_neo.Session.Sound.{Sound, read_session-Sound}
use coding_agent_neo.Session.Store.{Producer, SessionStore, init}
use coding_agent_neo.Session.Store.Opened.{Follows, init-Follows}

abbrev sample : ℕ → EventEnvelope
sample n = record { session_id = chars "s"; event_id = n ∷ []; sequence = n; rest = null }

abbrev one_byte : List ℕ → Option EventEnvelope
one_byte (n ∷ []) = some (sample n)
one_byte _ = none

abbrev codec : Codec
codec = record { encode = λ e. e.sequence ∷ []; decode = one_byte }

-- Two records, and the beginning of a third.
abbrev file : List ℕ
file = 1 ∷ 10 ∷ 2 ∷ 10 ∷ 3 ∷ 4 ∷ []

abbrev read : SessionReadResult
read = record {
  events = sample 1 ∷ sample 2 ∷ [];
  diagnostic = some (record { line_number = 3; byte_offset = 4; byte_length = 2 });
  ended_with_newline = false;
}

read_session-Sound_example : Sound none 6 read
unfolding read_session violates accept text_eq bad_line record_of content
read_session-Sound_example = read_session-Sound codec none file read refl

abbrev opened : SessionStore
opened = record {
  bytes = 1 ∷ 10 ∷ 2 ∷ [];
  session_id = some (chars "s");
  event_ids = (1 ∷ []) ∷ (2 ∷ []) ∷ [];
  next_sequence = 3;
  tail_diagnostic = none;
  needs_separator = true;
  closed = false;
  write_failed = false;
}

init-Follows_example :
    (r : SessionReadResult) × (read_session codec none (1 ∷ 10 ∷ 2 ∷ []) ≡ ok r) × Follows opened r
unfolding init read_session violates accept text_eq bad_line record_of content
init-Follows_example = init-Follows codec none (1 ∷ 10 ∷ 2 ∷ []) opened refl

-- Events that have no ID of their own.
abbrev canonicalize : ℕ → Option Text → Result SessionError EventEnvelope
canonicalize n none = ok (sample n)
canonicalize n (some i) = err write_error

abbrev producer : Producer Unit
producer = record {
  canonicalize = λ event. canonicalize;
  has_explicit_event_id = λ event. true;
  unique_generated_id = λ i ids. i;
  bounded_payload = λ v. ok v;
}

abbrev grown : SessionStore
grown = record opened {
  bytes = 1 ∷ 10 ∷ 2 ∷ 10 ∷ 3 ∷ 10 ∷ [];
  event_ids = (1 ∷ []) ∷ (2 ∷ []) ∷ (3 ∷ []) ∷ [];
  next_sequence = 4;
  needs_separator = false;
}
