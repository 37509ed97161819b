-- ===== src/Tools/Output/Projection.antt =====
-- Projecting a result twice, as the executor does before it returns a result and once more when it
-- publishes it.
use text.Mathlib.TextPositions.{eq_refl}
use coding_agent_neo.Prelude.{
  ℕ, String, ◌≡◌, refl, sym, ap, ◌∙◌, inl, inr, Bool, true, false, not, Option, none, some, arith,
  ok, is_none, Option-cases, length, Text,
}
use coding_agent_neo.Prelude.Int.{pos}
use coding_agent_neo.Json.{Value, Fields, bool, num, field, end, get}
use coding_agent_neo.Models.{ToolResult}
use coding_agent_neo.Tools.Truncate.{OutputSlice, slice, head_tail_truncate}
use coding_agent_neo.Tools.Truncate.Bounds.{slice-within, slice_fits}
use coding_agent_neo.Tools.Output.{
  ToolResultProjection, set_default, mark_truncated, from_slice, as_int, from_result,
  to_tool_result,
}

abbrev has : String → Fields → Bool
has k fs = not (is_none (get k fs))

-- A key that has a value keeps it.
set_default-has : (k : String) (v : Value) (fs : Fields) → has k fs ≡ true → set_default k v fs ≡ fs
unfolding set_default get
set_default-has k v end h = ground arith
set_default-has k v (field j u fs) h = ground (arith, set_default-has k v fs)

has-set_default : (k : String) (v : Value) (fs : Fields) → has k (set_default k v fs) ≡ true
unfolding set_default get
has-set_default k v end = ground (arith, eq_refl k)
has-set_default k v (field j u fs) = ground (arith, has-set_default k v fs)

has-set_default_other :
    (k j : String) (v : Value) (fs : Fields) → has k fs ≡ true → has k (set_default j v fs) ≡ true
unfolding set_default get
has-set_default_other k j v end h = ground arith
has-set_default_other k j v (field i u fs) h = ground (arith, has-set_default_other k j v fs)

mark_truncated_twice :
    (n : ℕ) (fs : Fields)
    → mark_truncated (some n) (mark_truncated (some n) fs) ≡ mark_truncated (some n) fs
unfolding mark_truncated
mark_truncated_twice n fs =
    let once : Fields = set_default "truncated" (bool true) fs in
    let twice : Fields = set_default "original_length" (num (pos n)) once in
    let marked =
      has-set_default_other "truncated" "original_length" (num (pos n)) once
        (has-set_default "truncated" (bool true) fs) in
    let sized = has-set_default "original_length" (num (pos n)) once in
    rw (set_default-has "truncated" (bool true) twice marked)
      (set_default-has "original_length" (num (pos n)) twice sized)

truncate-slice :
    (t : Text) (limit original : Option ℕ)
    → head_tail_truncate t (as_int limit) (as_int original) none none ≡ ok (slice t limit original)
unfolding head_tail_truncate
truncate-slice t none none = refl
truncate-slice t none (some o) = refl
truncate-slice t (some n) none = refl
truncate-slice t (some n) (some o) = refl

pub from_result-slice :
    (r : ToolResult) (limit : Option ℕ)
    → from_result r (as_int limit) ≡ ok (from_slice r (slice r.text limit r.original_length))
unfolding from_result
from_result-slice r limit = rw (truncate-slice r.text limit r.original_length)

-- A text that is already cut is not cut again, whatever length is reported with it.
cut_again :
    (t : Text) (limit original later : Option ℕ)
    → slice (slice t limit original).text limit later
      ≡ record { text = (slice t limit original).text; truncated = false; original_length = later }
cut_again t none original later = unfold slice in refl
cut_again t (some n) original later = slice_fits _ n later (slice-within t n original)

from_slice_twice :
    (r : ToolResult) (s : OutputSlice)
    → let p = from_slice r s in
      from_slice
        (to_tool_result p)
        (record { text = p.text; truncated = false; original_length = p.original_length })
      ≡ p
unfolding from_slice to_tool_result
from_slice_twice r s = elim (Option-cases s.original_length) [
  | inl given ↦ ground (arith, mark_truncated_twice (length r.text) r.metadata, given)
  | inr (n, given) ↦ ground (arith, mark_truncated_twice n r.metadata, given)
]

slice_again :
    (r : ToolResult) (limit : Option ℕ)
    → let cut = from_slice r (slice r.text limit r.original_length) in
      slice (to_tool_result cut).text limit (to_tool_result cut).original_length
      ≡ record { text = cut.text; truncated = false; original_length = cut.original_length }
unfolding from_slice to_tool_result
slice_again r limit =
    let cut = from_slice r (slice r.text limit r.original_length) in
    cut_again r.text limit r.original_length cut.original_length

-- Projecting a projected result once more at the same limit gives the same projection.
pub from_result_twice :
    (result : ToolResult) (limit : Option ℕ) (p : ToolResultProjection)
    → from_result result (as_int limit) ≡ ok p
    → from_result (to_tool_result p) (as_int limit) ≡ ok p
from_result_twice result limit p h =
    let sliced = slice result.text limit result.original_length in
    let cut = from_slice result sliced in
    let same : ok cut ≡ ok p = sym (from_result-slice result limit) ∙ h in
    let made : cut ≡ p = cc in
    let again : from_result (to_tool_result cut) (as_int limit) ≡ ok cut =
      from_result-slice (to_tool_result cut) limit
      ∙ ap ok (
          ap (from_slice (to_tool_result cut)) (slice_again result limit)
          ∙ from_slice_twice result sliced) in
    cc
