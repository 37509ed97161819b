-- ===== src/Tests/LoopTests.antt =====
-- The theorems on agent_loop.py at a turn of two model steps and one tool call.
use coding_agent_neo.Prelude.{
  ℕ, zero, suc, ◌≡◌, refl, ◌≢◌, true, false, none, some, List, [], ◌∷◌, arith, ok, err, Text, chars,
}
use coding_agent_neo.Json.{end, get}
use coding_agent_neo.Models.{completed_turn, running, ToolResult, success, NormalizedToolCall}
use coding_agent_neo.Runtime.State
use coding_agent_neo.Tools.Truncate.{head_tail_truncate}
use coding_agent_neo.Runtime.State.{empty}
use coding_agent_neo.Context.Estimate.{ApproximateTokenEstimator}
use coding_agent_neo.Compactor.{ModelReply, response}
use coding_agent_neo.AgentLoop.Monad.{failure}
use coding_agent_neo.AgentLoop.Boundary.{Boundary, AgentLoop, AgentLoopResult, executed}
use coding_agent_neo.AgentLoop.Turn.{run_turn}
use coding_agent_neo.AgentLoop.Paired.{IsPaired, awaited}
use coding_agent_neo.AgentLoop.Paired.Handlers.{run_turn-IsPaired}
use coding_agent_neo.AgentLoop.Frame.{counters}
use coding_agent_neo.AgentLoop.Tally.Limits.{IsBounded, run_turn-IsBounded, run_turn-returns}
use coding_agent_neo.AgentLoop.Lifecycle.{run_turn-refuses}
use coding_agent_neo.AgentLoop.Lifecycle.Outcome.{Concluded}
use coding_agent_neo.AgentLoop.Lifecycle.Outcome.Turn.{run_turn-Concluded}
use coding_agent_neo.AgentLoop.Monad.{gets, modify, ◌>>=◌, ◌>>◌, catch, when}
use coding_agent_neo.AgentLoop.Session.{
  counted_limit, outside, emit, start_session, check_interrupt, check_active_view, past_deadline,
  current_limit, check_context_preparation_allowed, loop_result, end_turn,
}
use coding_agent_neo.AgentLoop.Calls.{
  planned, assistant_message, appended, append_message, plan_calls, tool_message, append_result,
  execute_plan,
}
use coding_agent_neo.AgentLoop.Prepare.{
  on_context, on_budget, record_usage, project_context, prepare_attempts, prepare_context,
  complete_model_request,
}
use coding_agent_neo.AgentLoop.Turn.{
  finish_or_recover, count_result, run_calls, act_on, model_step, checked, turn_loop, try_turn,
}
use coding_agent_neo.Prelude.{strip, text_eq}
use coding_agent_neo.Context.Message.{
  detach_message, role_of, result_id, tool_call_ids, collect_ids,
}
use coding_agent_neo.Context.Builder.{
  entries, all_groups, ending_after, effective_groups, preamble, estimate, project,
}
use coding_agent_neo.Context.Estimate.{
  utf8_length, text_tokens, json_value, request, needs_compaction,
}
use coding_agent_neo.Context.Group.{
  end_sequence, collect, expected_ids, close_group, next_group, group_messages,
}
use coding_agent_neo.Runtime.State.{pad}
use coding_agent_neo.Runtime.Budget.{record_model_step, record_tool_call}
use coding_agent_neo.Tools.Output.{from_result, project_tool_result}

abbrev estimator : ApproximateTokenEstimator
estimator = record { scaled = λ n. n; item_overhead = 4 }

abbrev call : NormalizedToolCall
call = record {
  provider_tool_call_id = some (chars "p");
  name = some (chars "read");
  raw_arguments = chars "{}";
  arguments_valid = true;
  diagnostics = [];
}

abbrev result : ToolResult
result = record {
  correlation_id = chars "c";
  status = success;
  text = chars "ok";
  provider_tool_call_id = some (chars "p");
  metadata = end;
  truncated = false;
  original_length = none;
  duration_seconds = none;
  exit_code = none;
  timed_out = false;
  path = none;
}

abbrev says : Text → List NormalizedToolCall → ModelReply
says text calls = response (record {
  text = text;
  tool_calls = calls;
  usage = none;
  finish_reason = none;
  diagnostics = [];
})

-- The first request is answered by a call, and each later one by a text.
abbrev answer : ℕ → ModelReply
answer zero = says [] (call ∷ [])
answer (suc n) = says (chars "done") []

-- The world counts the requests.
abbrev boundary : Boundary ℕ
boundary = record {
  dumps = λ v. chars "{}";
  casefold = λ t. t;
  context_builder = record {
    system_prompt = chars "be brief";
    context_window = 1000;
    reserved_output_tokens = 100;
    floor_share = λ n. n;
    keep_recent_groups = 1;
    estimator = estimator;
  };
  compactor = record {
    system_prompt = chars "sum up";
    context_window = 1000;
    reserved_output_tokens = 100;
    estimator = estimator;
  };
  max_compactions_per_request = 2;
  model_output_limit = none;
  clock = λ n. (0, n);
  signal = λ n. record { event = false; reason = none };
  set_signal = λ signal n. n;
  publish = λ event n. (ok 1, n);
  start_environment = λ n. (ok tt, n);
  close_environment = λ n. (ok tt, n);
  is_active_view = λ n. true;
  schemas = λ n. [];
  new_correlation_id = λ n. (chars "c", n);
  complete = λ messages schemas n. (answer n, suc n);
  execute = λ name arguments provider id n. (executed result, n);
  skip = λ name arguments reason status provider id n. (ok result, n);
  published = λ n. none;
  last_sequence = λ n. some 1;
}

abbrev start : AgentLoop ℕ
start = record {
  world = 0;
  budget = record {
    max_steps = some 3;
    max_tool_calls = some 2;
    max_protocol_errors = some 3;
    max_wall_seconds = none;
    model_steps = 0;
    tool_calls = 0;
    protocol_errors = 0;
    input_tokens = 0;
    output_tokens = 0;
    started_at = some 0;
    deadline = some 900;
  };
  context_state = record {
    latest_summary = none;
    covered_through_sequence = 0;
    recent_messages = [];
    recent_message_sequences = [];
    degraded_through_sequence = 0;
    degraded_notice = none;
  };
  state = running;
  session_started = false;
  session_closed = false;
  environment_started = false;
  turn_active = false;
  last_assistant_text = [];
  pending_plans = [];
}

abbrev outcome : AgentLoopResult
outcome = record {
  state = completed_turn;
  assistant_text = chars "done";
  reason = chars "assistant_completed";
  limit_reason = none;
  error_type = none;
}

abbrev after : AgentLoop ℕ
after = (run_turn boundary (chars "hi") start).1

turn : run_turn boundary (chars "hi") start ≡ (ok (some outcome), after)
unfolding gets modify ◌>>=◌ ◌>>◌ catch when counted_limit outside emit start_session check_interrupt
    check_active_view past_deadline current_limit check_context_preparation_allowed loop_result
    end_turn planned assistant_message appended append_message plan_calls tool_message append_result
    execute_plan on_context on_budget record_usage project_context prepare_attempts prepare_context
    complete_model_request finish_or_recover count_result run_calls act_on model_step checked
    turn_loop try_turn run_turn strip text_eq get detach_message role_of result_id tool_call_ids
    collect_ids entries all_groups ending_after effective_groups preamble estimate project
    utf8_length text_tokens json_value request needs_compaction end_sequence collect expected_ids
    close_group next_group group_messages record_model_step record_tool_call from_result
    project_tool_result State.append_message head_tail_truncate
turn = refl

run_turn-IsPaired_example : IsPaired after.context_state.recent_messages
unfolding awaited
run_turn-IsPaired_example =
    run_turn-IsPaired boundary (chars "hi") start after outcome refl turn (λ h. ground arith)

within : IsBounded (some 3) (some 2) (counters start.budget)
within = record {
  max_steps = refl;
  max_tool_calls = refl;
  model_steps = omega arith;
  tool_calls = omega arith;
}

run_turn-IsBounded_example : IsBounded (some 3) (some 2) (counters after.budget)
run_turn-IsBounded_example = run_turn-IsBounded boundary (chars "hi") start (some 3) (some 2) within

run_turn-returns_example : (run_turn boundary (chars "hi") start).0 ≢ ok none
run_turn-returns_example = run_turn-returns boundary (chars "hi") start 3 refl

run_turn-Concluded_example : Concluded outcome after
run_turn-Concluded_example = run_turn-Concluded boundary (chars "hi") start after outcome turn

run_turn-refuses_example :
    (error_type : Text) × (run_turn boundary (chars " ") start
      ≡ (err (failure error_type false), start))
unfolding strip
run_turn-refuses_example = run_turn-refuses boundary (chars " ") start refl
