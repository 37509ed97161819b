-- ===== src/Tools/Truncate/Bounds.antt =====
-- What a truncated output of tools/output.py keeps to.
use coding_agent_neo.Prelude.{
  ℕ, ◌+◌, ◌-◌, ◌/◌, ◌≤◌, ◌<◌, max, ◌≡◌, refl, ◌⊎◌, inl, inr, true, false, Option, none, some, ◌++◌,
  arith, get_or, length, take, length-append, length-take, length-drop, Text,
}
use native.Mathlib.Decide.{dec_le}
use coding_agent_neo.Tools.Truncate.{OutputSlice, cut, slice, marker, last}

-- The lengths of the head and the tail add up to what the marker leaves.
length-parts :
    (text mark : Text) (limit : ℕ)
    → limit < length text
    → length mark < limit
    → length (
        take ((limit - length mark + 1) / 2) text
        ++ (mark ++ last (limit - length mark - (limit - length mark + 1) / 2) text))
      ≡ limit
length-parts text mark limit h room =
    let head_length : ℕ = (limit - length mark + 1) / 2 in
    let tail_length : ℕ = limit - length mark - head_length in
    rw
      (
        length-append (take head_length text) (mark ++ last tail_length text),
        length-append mark (last tail_length text),
        length-take head_length text,
        length-drop (length text - tail_length) text,
      )
      (omega arith)

-- A text longer than the limit is cut to exactly the limit.
length-cut :
    (text : Text) (limit source_length : ℕ)
    → limit < length text
    → length (cut text limit source_length) ≡ limit
unfolding cut
length-cut text limit n h =
    ground (arith, length-take limit (marker n), length-parts text (marker n) limit)

pub slice_fits :
    (text : Text) (limit : ℕ) (original : Option ℕ)
    → length text ≤ limit
    → slice text (some limit) original
      ≡ record { text = text; truncated = false; original_length = original }
unfolding slice
slice_fits text limit original h = ground arith

slice_cuts :
    (text : Text) (limit : ℕ) (original : Option ℕ)
    → limit < length text
    → slice text (some limit) original ≡ record {
      text = cut text limit (max (length text) (get_or original 0));
      truncated = true;
      original_length = some (max (length text) (get_or original 0));
    }
unfolding slice
slice_cuts text limit original h = ground arith

-- A slice is the text itself, unmarked, or it is marked, cut to the limit, and reports a length.
abbrev pub IsSliceOf : Text → ℕ → Option ℕ → OutputSlice → Type 0
IsSliceOf text limit original s =
    ((s.truncated ≡ false)
      × (s.text ≡ text)
      × (length text ≤ limit)
      × (s.original_length ≡ original))
    ⊎ ((s.truncated ≡ true)
        × (length s.text ≡ limit)
        × (limit < length text)
        × (n : ℕ) × (s.original_length ≡ some n)
        × (length text ≤ n)
        × (get_or original 0 ≤ n))

-- Under a limit the text that is returned is the given text, unmarked, which fits, with the length
-- that the caller reported; or it is marked as truncated, the given text does not fit, the returned
-- one is exactly as long as the limit allows, and the length that is reported is at least that of
-- the given text and at least what the caller reported.
pub slice-IsSliceOf :
    (text : Text) (limit : ℕ) (original : Option ℕ)
    → IsSliceOf text limit original (slice text (some limit) original)
slice-IsSliceOf text limit original = elim (dec_le (length text) limit) [
  | yes h ↦ rw (slice_fits text limit original h) (inl (refl, refl, h, refl))
  | no h ↦
      let cut_to = length-cut text limit (max (length text) (get_or original 0)) (omega arith) in
      rw (slice_cuts text limit original (omega arith))
        (inr (refl, cut_to, omega arith, _, refl, omega arith, omega arith))
]

pub slice-within :
    (text : Text) (limit : ℕ) (original : Option ℕ)
    → length (slice text (some limit) original).text ≤ limit
slice-within text limit original = ground (arith, slice-IsSliceOf text limit original)

-- Cutting once more at the same limit, with the length that was reported, keeps the text and the
-- reported length.
pub slice-slice :
    (text : Text) (limit : Option ℕ) (original : Option ℕ)
    → slice (slice text limit original).text limit (slice text limit original).original_length
      ≡ record {
        text = (slice text limit original).text;
        truncated = false;
        original_length = (slice text limit original).original_length;
      }
slice-slice text none original = unfold slice in refl
slice-slice text (some limit) original = slice_fits _ limit _ (slice-within text limit original)
