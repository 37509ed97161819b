-- ===== src/Session.antt =====
-- `read_session` and `SessionStore` of session.py: a session's file of one JSON record for each line.
-- The file is the list of its bytes.
pub mod Sound
pub mod Store
use coding_agent_neo.Prelude.{
  ℕ, suc, ◌+◌, Bool, true, false, not, ◌&&◌, ◌||◌, Option, none, some, List, [], ◌∷◌, ◌++◌, Result,
  ok, err, leb, ◌==◌, if◌then◌else◌, get_or, length, Text, text_eq, member,
}
use coding_agent_neo.Json.{Value}

-- What the store looks at in an `EventEnvelope`, and the rest of it.
pub record EventEnvelope : Type 0 where
  pub session_id : Text
  pub event_id : Text
  pub sequence : ℕ
  pub rest : Value

pub data SessionError : Type 0 where
  format_error : (line_number byte_offset : ℕ) → SessionError
  write_error incomplete_tail duplicate_event_id value_error : SessionError

pub record SessionDiagnostic : Type 0 where
  pub line_number : ℕ
  pub byte_offset : ℕ
  pub byte_length : ℕ

pub record SessionReadResult : Type 0 where
  pub events : List EventEnvelope
  pub diagnostic : Option SessionDiagnostic
  pub ended_with_newline : Bool

-- A record's line without its end, and how it is read: `decode` is none where it raises. They are
-- parameters, and nothing is assumed of them.
pub record Codec : Type 0 where
  pub encode : EventEnvelope → List ℕ
  pub decode : List ℕ → Option EventEnvelope

abbrev pub newline : ℕ
newline = 10

abbrev pub carriage_return : ℕ
carriage_return = 13

abbrev with_head : ℕ → List (List ℕ) → List (List ℕ)
with_head b [] = (b ∷ []) ∷ []
with_head b (l ∷ ls) = (b ∷ l) ∷ ls

-- data.splitlines(keepends=True)
unfoldable pub splitlines : List ℕ → List (List ℕ)
splitlines [] = []
splitlines (b ∷ []) = (b ∷ []) ∷ []
splitlines (b ∷ c ∷ bytes) =
    let rest = splitlines (c ∷ bytes) in
    if b == newline
    then (b ∷ []) ∷ rest
    else if (b == carriage_return) && not (c == newline)
    then (b ∷ []) ∷ rest
    else with_head b rest

-- line.endswith(...)
unfoldable pub ends_with : ℕ → List ℕ → Bool
ends_with b [] = false
ends_with b (c ∷ []) = c == b
ends_with b (c ∷ d ∷ line) = ends_with b (d ∷ line)

-- line[:-1]
unfoldable pub without_last : List ℕ → List ℕ
without_last [] = []
without_last (b ∷ []) = []
without_last (b ∷ c ∷ line) = b ∷ without_last (c ∷ line)

abbrev without : ℕ → List ℕ → List ℕ
without b line = if ends_with b line then without_last line else line

-- The line without its end.
unfoldable pub content : List ℕ → List ℕ
unfolding ends_with without_last
content line = without carriage_return (without newline line)

-- What the loop has read.
pub record Reading : Type 0 where
  pub inferred_session : Option Text
  pub events : List EventEnvelope
  pub event_ids : List Text
  pub previous_sequence : Option ℕ
  pub line_number : ℕ
  pub offset : ℕ

abbrev pub other_session : Option Text → Text → Bool
other_session none s = false
other_session (some t) s = not (text_eq s t)

abbrev pub not_after : Option ℕ → ℕ → Bool
not_after none n = false
not_after (some m) n = leb n m

-- Whether an event breaks the invariants of the file.
unfoldable pub violates : Reading → EventEnvelope → Bool
violates r e =
    other_session r.inferred_session e.session_id
    || member e.event_id r.event_ids
    || not_after r.previous_sequence e.sequence

unfoldable pub accept : EventEnvelope → List ℕ → Reading → Reading
accept e line r = record {
  inferred_session = some (get_or r.inferred_session e.session_id);
  events = r.events ++ e ∷ [];
  event_ids = r.event_ids ++ e.event_id ∷ [];
  previous_sequence = some e.sequence;
  line_number = suc r.line_number;
  offset = r.offset + length line;
}

-- `line_number` counts the lines read, and errors the line that is being read.
abbrev at_line : Reading → SessionError
at_line r = format_error (suc r.line_number) r.offset

abbrev pub decoded : Codec → List ℕ → Option EventEnvelope
decoded codec [] = none
decoded codec (b ∷ bytes) = codec.decode (b ∷ bytes)

-- The record on a line, where there is one.
unfoldable pub record_of : Codec → List ℕ → Option EventEnvelope
unfolding content
record_of codec line = decoded codec (content line)

module _ (codec : Codec) (ended : Bool) where
  -- A line that is no record: the interrupted append, or an error.
  unfoldable pub bad_line : Reading → List ℕ → List (List ℕ) → Result SessionError SessionReadResult
  bad_line r line [] =
      if ends_with newline line
      then err (at_line r)
      else ok (record {
        events = r.events;
        diagnostic = some (record {
          line_number = suc r.line_number;
          byte_offset = r.offset;
          byte_length = length line;
        });
        ended_with_newline = ended;
      })
  bad_line r line (l ∷ lines) = err (at_line r)

  unfoldable pub read_lines : Reading → List (List ℕ) → Result SessionError SessionReadResult
  read_lines r [] = ok (record { events = r.events; diagnostic = none; ended_with_newline = ended })
  read_lines r (line ∷ lines) = elim (record_of codec line) [
    | none ↦ bad_line r line lines
    | some e ↦
        let rest = read_lines (accept e line r) lines in
        if violates r e then err (at_line r) else rest
  ]

abbrev pub start : Option Text → Reading
start expected = record {
  inferred_session = expected;
  events = [];
  event_ids = [];
  previous_sequence = none;
  line_number = 0;
  offset = 0;
}

-- `read_session`, on the bytes of the file; a file that is not there has none.
unfoldable pub read_session : Codec → Option Text → List ℕ → Result SessionError SessionReadResult
unfolding read_lines splitlines ends_with
read_session codec expected [] =
    ok (record { events = []; diagnostic = none; ended_with_newline = true })
read_session codec expected (b ∷ bytes) =
    read_lines codec (ends_with newline (b ∷ bytes)) (start expected) (splitlines (b ∷ bytes))
