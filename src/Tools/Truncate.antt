-- ===== src/Tools/Truncate.antt =====
-- `head_tail_truncate` of tools/output.py.
pub mod Bounds
use coding_agent_neo.Prelude.{
  ℕ, ◌+◌, ◌-◌, ◌/◌, max, Bool, true, false, Option, none, some, List, [], ◌∷◌, ◌++◌, Result, ok,
  err, ◌>>=◌, ◌>>◌, ArgumentError, value_error, leb, ◌==◌, if◌then◌else◌, get_or, length, take,
  drop, Text, chars, decimal,
}
use coding_agent_neo.Prelude.Int.{ℤ, pos, negsuc}
use coding_agent_neo.Runtime.Budget.{validate_optional}

pub record OutputSlice : Type 0 where
  pub text : Text
  pub truncated : Bool
  pub original_length : Option ℕ

-- The limit among its aliases, of which at most one may be given.
unfoldable pub only_one : List (Option ℤ) → Option ℤ → Result ArgumentError (Option ℤ)
only_one [] limit = ok limit
only_one (none ∷ rest) limit = only_one rest limit
only_one (some a ∷ rest) none = only_one rest (some a)
only_one (some a ∷ rest) (some b) = err value_error

unfoldable pub marker : ℕ → Text
marker source_length =
    (10 ∷ chars "... output truncated; original length: ")
    ++ (decimal source_length ++ (chars " ..." ++ 10 ∷ []))

-- text[-n:] if n else "", for n at most the length
abbrev pub last : ℕ → Text → Text
last n text = drop (length text - n) text

-- The cut once the limit is known, with the length to report.
unfoldable pub cut : Text → ℕ → ℕ → Text
cut text limit source_length =
    if limit == 0
    then []
    else if leb limit (length (marker source_length))
    then take limit (marker source_length)
    else (let available = limit - length (marker source_length) in
        let head_length = (available + 1) / 2 in
        take head_length text ++ (marker source_length ++ last (available - head_length) text))

unfoldable pub slice : Text → Option ℕ → Option ℕ → OutputSlice
slice text none original_length = record {
  text = text;
  truncated = false;
  original_length = original_length;
}
slice text (some limit) original_length =
    if leb (length text) limit
    then record { text = text; truncated = false; original_length = original_length }
    else (let source_length = max (length text) (get_or original_length 0) in
        record {
          text = cut text limit source_length;
          truncated = true;
          original_length = some source_length;
        })

unfoldable pub head_tail_truncate :
    Text → Option ℤ → Option ℤ → Option ℤ → Option ℤ → Result ArgumentError OutputSlice
unfolding only_one validate_optional
head_tail_truncate text limit original_length max_length max_chars = do
  chosen ← only_one (max_length ∷ max_chars ∷ []) limit
  n ← validate_optional chosen
  given ← validate_optional original_length
  ok (slice text n given)
