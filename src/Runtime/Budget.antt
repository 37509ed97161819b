-- ===== src/Runtime/Budget.antt =====
-- `LimitReason` and `BudgetTracker` of runtime.py. Seconds are counted in one fixed fraction of a
-- second, so that clock readings, limits and deadlines are integers. A reading of the clock is an
-- argument of the operation that makes it.
pub mod Limits
use coding_agent_neo.Prelude.{
  ℕ, ◌+◌, ◌-◌, max, Bool, true, false, not, Option, none, some, Result, ok, err, ◌>>=◌, ◌>>◌,
  ArgumentError, value_error, ltb, leb, if◌then◌else◌,
}
use coding_agent_neo.Prelude.Int.{ℤ, pos, negsuc}

pub data LimitReason : Type 0 where
  model_steps tool_calls protocol_errors wall_time context_window : LimitReason

pub record BudgetTracker : Type 0 where
  pub max_steps : Option ℕ
  pub max_tool_calls : Option ℕ
  pub max_protocol_errors : Option ℕ
  pub max_wall_seconds : Option ℕ
  pub model_steps : ℕ
  pub tool_calls : ℕ
  pub protocol_errors : ℕ
  pub input_tokens : ℕ
  pub output_tokens : ℕ
  pub started_at : Option ℕ
  pub deadline : Option ℕ

-- `_validate_nonnegative` on a number that is given; the number, once it is known to be at least 0.
unfoldable pub validate_nonnegative : ℤ → Result ArgumentError ℕ
validate_nonnegative (pos n) = ok n
validate_nonnegative (negsuc n) = err value_error

-- The same where None is accepted.
unfoldable pub validate_optional : Option ℤ → Result ArgumentError (Option ℕ)
unfolding validate_nonnegative
validate_optional none = ok none
validate_optional (some v) = do n ← validate_nonnegative v; ok (some n)

-- The arguments of the constructor.
pub record BudgetOptions : Type 0 where
  pub max_steps : Option ℤ
  pub max_tool_calls : Option ℤ
  pub max_protocol_errors : Option ℤ
  pub max_wall_seconds : Option ℤ
  pub model_steps : ℤ
  pub tool_calls : ℤ
  pub protocol_errors : ℤ
  pub input_tokens : ℤ
  pub output_tokens : ℤ
  pub started_at : Option ℤ
  pub deadline : Option ℤ

-- `started_at` is the clock's reading where the caller gives none.
unfoldable pub start_time : Option ℤ → ℤ → ℤ
start_time none reading = reading
start_time (some t) reading = t

-- The deadline that the wall-time limit leads to.
unfoldable pub expected_deadline : Option ℕ → Option ℕ → ℕ → Result ArgumentError (Option ℕ)
expected_deadline none deadline started = ok deadline
expected_deadline (some wall) none started = ok (some (started + wall))
expected_deadline (some wall) (some d) started =
    if ltb d started then err value_error else ok (some d)

-- `__post_init__`, at a reading of the clock.
unfoldable pub init : BudgetOptions → ℤ → Result ArgumentError BudgetTracker
unfolding validate_nonnegative validate_optional start_time expected_deadline
init o reading = do
  max_steps ← validate_optional o.max_steps
  max_tool_calls ← validate_optional o.max_tool_calls
  max_protocol_errors ← validate_optional o.max_protocol_errors
  max_wall_seconds ← validate_optional o.max_wall_seconds
  steps ← validate_nonnegative o.model_steps
  calls ← validate_nonnegative o.tool_calls
  errors ← validate_nonnegative o.protocol_errors
  input_tokens ← validate_nonnegative o.input_tokens
  output_tokens ← validate_nonnegative o.output_tokens
  started ← validate_nonnegative (start_time o.started_at reading)
  given ← validate_optional o.deadline
  deadline ← expected_deadline max_wall_seconds given started
  ok (record {
    max_steps = max_steps;
    max_tool_calls = max_tool_calls;
    max_protocol_errors = max_protocol_errors;
    max_wall_seconds = max_wall_seconds;
    model_steps = steps;
    tool_calls = calls;
    protocol_errors = errors;
    input_tokens = input_tokens;
    output_tokens = output_tokens;
    started_at = some started;
    deadline = deadline;
  })

-- The counters. A negative count is refused before anything changes.
unfoldable pub record_model_step : ℤ → BudgetTracker → Result ArgumentError BudgetTracker
unfolding validate_nonnegative
record_model_step count b = do
  n ← validate_nonnegative count
  ok (record b { model_steps = b.model_steps + n })

unfoldable pub record_tool_call : ℤ → BudgetTracker → Result ArgumentError BudgetTracker
unfolding validate_nonnegative
record_tool_call count b = do
  n ← validate_nonnegative count
  ok (record b { tool_calls = b.tool_calls + n })

unfoldable pub record_protocol_error : ℤ → BudgetTracker → Result ArgumentError BudgetTracker
unfolding validate_nonnegative
record_protocol_error count b = do
  n ← validate_nonnegative count
  ok (record b { protocol_errors = b.protocol_errors + n })

unfoldable pub record_tokens : ℤ → ℤ → BudgetTracker → Result ArgumentError BudgetTracker
unfolding validate_nonnegative
record_tokens input_tokens output_tokens b = do
  i ← validate_nonnegative input_tokens
  o ← validate_nonnegative output_tokens
  ok (record b { input_tokens = b.input_tokens + i; output_tokens = b.output_tokens + o })

-- limit is not None and counter >= limit
unfoldable pub exhausts : Option ℕ → ℕ → Bool
exhausts none n = false
exhausts (some limit) n = leb limit n

unfoldable pub limit_reached : BudgetTracker → ℕ → Option LimitReason
unfolding exhausts
limit_reached b now =
    if exhausts b.max_steps b.model_steps
    then some model_steps
    else if exhausts b.max_tool_calls b.tool_calls
    then some tool_calls
    else if exhausts b.max_protocol_errors b.protocol_errors
    then some protocol_errors
    else if exhausts b.deadline now
    then some wall_time
    else none

unfoldable pub exhausted : BudgetTracker → ℕ → Bool
unfolding limit_reached
exhausted b now = elim (limit_reached b now) [ none ↦ false | some _ ↦ true ]

-- max(0.0, self.clock() - (self.started_at or 0.0)): subtraction on ℕ stops at 0.
unfoldable pub elapsed_seconds : BudgetTracker → ℕ → ℕ
elapsed_seconds b now = elim b.started_at [ none ↦ now | some t ↦ now - t ]

unfoldable pub remaining_wall_seconds : BudgetTracker → ℕ → Option ℕ
remaining_wall_seconds b now = elim b.deadline [ none ↦ none | some d ↦ some (d - now) ]
