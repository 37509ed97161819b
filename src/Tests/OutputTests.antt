-- ===== src/Tests/OutputTests.antt =====
-- The theorems on tools/output.py at concrete inputs.
use coding_agent_neo.Prelude.{◌≡◌, refl, false, none, some, ok, Text, chars}
use coding_agent_neo.Json.{end}
use coding_agent_neo.Models.{ToolResult, success}
use coding_agent_neo.Tools.Truncate.{slice, head_tail_truncate}
use coding_agent_neo.Tools.Truncate.Bounds.{IsSliceOf, slice-IsSliceOf, slice-slice}
use coding_agent_neo.Tools.Output.{
  ToolResultProjection, from_result, from_slice, to_tool_result, as_int,
}
use coding_agent_neo.Tools.Output.Projection.{from_result_twice}

abbrev output : Text
output = chars "0123456789"

slice-IsSliceOf_example : IsSliceOf output 4 none (slice output (some 4) none)
slice-IsSliceOf_example = slice-IsSliceOf output 4 none

slice-slice_example :
    slice (slice output (some 4) none).text (some 4) (slice output (some 4) none).original_length
    ≡ record {
      text = (slice output (some 4) none).text;
      truncated = false;
      original_length = (slice output (some 4) none).original_length;
    }
slice-slice_example = slice-slice output (some 4) none

abbrev result : ToolResult
result = record {
  correlation_id = chars "c1";
  status = success;
  text = output;
  provider_tool_call_id = none;
  metadata = end;
  truncated = false;
  original_length = none;
  duration_seconds = some 3;
  exit_code = none;
  timed_out = false;
  path = none;
}

abbrev projected : ToolResultProjection
projected = from_slice result (slice output (some 4) none)

from_result_twice_example : from_result (to_tool_result projected) (as_int (some 4)) ≡ ok projected
unfolding from_result from_slice slice head_tail_truncate
from_result_twice_example = from_result_twice result (some 4) projected refl
