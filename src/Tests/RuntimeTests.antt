-- ===== src/Tests/RuntimeTests.antt =====
-- The theorems on runtime.py at concrete inputs.
use coding_agent_neo.Prelude.{
  ◌≡◌, refl, ◌↔◌, true, false, none, some, arith, err, Text, chars, strip,
}
use coding_agent_neo.Prelude.Int.{pos}
use coding_agent_neo.Runtime.Cancellation.{
  CancellationSignal, clear, cancel, throw_if_cancelled, cancellation_requested, IsCoherent,
  cancel_first_wins, cancel-IsCoherent,
}
use coding_agent_neo.Runtime.Budget.{BudgetTracker, BudgetOptions, init, limit_reached, tool_calls}
use coding_agent_neo.Runtime.Budget.Limits.{
  Room, RoomBefore, IsWithin, Follows, IsDeadline, limit_reached_iff, limit_reached_first,
  init_deadline,
}

abbrev stopped : CancellationSignal
stopped = record { event = true; reason = some (chars "limit") }

cancel_first_wins_example :
    (stopped ≡ stopped)
    × (false ≡ false)
    × (stopped.reason ≡ some (chars "limit"))
    × (clear.event ≡ false)
unfolding cancel clear strip
cancel_first_wins_example =
    cancel_first_wins clear stopped stopped (chars "limit") (chars "user") false refl refl

cancel-IsCoherent_example :
    IsCoherent stopped
    × ((t : Text) × (stopped.reason ≡ some t)
        × (throw_if_cancelled stopped ≡ err (cancellation_requested t)))
unfolding cancel clear strip
cancel-IsCoherent_example =
    cancel-IsCoherent clear stopped (chars "limit") true (refl, λ t h. ground (arith, h)) refl

abbrev options : BudgetOptions
options = record {
  max_steps = some (pos 4);
  max_tool_calls = some (pos 2);
  max_protocol_errors = none;
  max_wall_seconds = some (pos 600);
  model_steps = pos 1;
  tool_calls = pos 2;
  protocol_errors = pos 0;
  input_tokens = pos 0;
  output_tokens = pos 0;
  started_at = none;
  deadline = none;
}

abbrev tracker : BudgetTracker
tracker = record {
  max_steps = some 4;
  max_tool_calls = some 2;
  max_protocol_errors = none;
  max_wall_seconds = some 600;
  model_steps = 1;
  tool_calls = 2;
  protocol_errors = 0;
  input_tokens = 0;
  output_tokens = 0;
  started_at = some 50;
  deadline = some 650;
}

limit_reached_iff_example : (limit_reached tracker 60 ≡ none) ↔ IsWithin tracker 60
limit_reached_iff_example = limit_reached_iff tracker 60

limit_reached_first_example : (¬ Room tracker 60 tool_calls) × RoomBefore tracker 60 tool_calls
unfolding limit_reached
limit_reached_first_example = limit_reached_first tracker 60 tool_calls refl

init_deadline_example : Follows tracker.started_at tracker.deadline × IsDeadline options 600 tracker
unfolding init
init_deadline_example = init_deadline options (pos 50) tracker 600 refl refl
