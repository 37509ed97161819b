-- ===== src/Runtime/Budget/Limits.antt =====
-- What the budget of runtime.py enforces.
use coding_agent_neo.Prelude.{
  ℕ, ◌+◌, ◌≤◌, ◌<◌, ◌≡◌, refl, ◌↔◌, ◌⊎◌, false, Option, none, some, arith, ok,
}
use coding_agent_neo.Runtime.Budget.{
  pos, LimitReason, BudgetTracker, BudgetOptions, init, exhausts, limit_reached, model_steps,
  tool_calls, protocol_errors, wall_time, context_window,
}
use coding_agent_neo.Prelude.Int.{ℤ, pos}

-- A counter is below its limit, where one is set.
abbrev pub Below : Option ℕ → ℕ → Type 0
Below none n = Unit
Below (some limit) n = n < limit

pub record IsWithin (b : BudgetTracker) (now : ℕ) : Type 0 where
  pub steps : Below b.max_steps b.model_steps
  pub calls : Below b.max_tool_calls b.tool_calls
  pub errors : Below b.max_protocol_errors b.protocol_errors
  pub time : Below b.deadline now

pub exhausts-Below : (limit : Option ℕ) (n : ℕ) → (exhausts limit n ≡ false) ↔ Below limit n
unfolding exhausts
exhausts-Below none n = (λ _. tt, λ _. refl)
exhausts-Below (some limit) n = ground arith

abbrev pub Room : BudgetTracker → ℕ → LimitReason → Type 0
Room b now model_steps = Below b.max_steps b.model_steps
Room b now tool_calls = Below b.max_tool_calls b.tool_calls
Room b now protocol_errors = Below b.max_protocol_errors b.protocol_errors
Room b now wall_time = Below b.deadline now
Room b now context_window = Unit

-- `limit_reached` reports nothing exactly when every configured limit still leaves room: each
-- counter is below its limit and the clock is before the deadline.
pub limit_reached_iff :
    (b : BudgetTracker) (now : ℕ) → (limit_reached b now ≡ none) ↔ IsWithin b now
unfolding limit_reached
limit_reached_iff b now = (λ h. ground arith, λ h. ground arith)

-- There is room in every dimension that is tested before one.
abbrev pub RoomBefore : BudgetTracker → ℕ → LimitReason → Type 0
RoomBefore b now model_steps = Unit
RoomBefore b now tool_calls = Room b now model_steps
RoomBefore b now protocol_errors = Room b now model_steps × Room b now tool_calls
RoomBefore b now wall_time =
    Room b now model_steps × Room b now tool_calls × Room b now protocol_errors
RoomBefore b now context_window = IsWithin b now

-- A reported reason is a dimension with no room left, and every dimension that is tested before it
-- has room.
pub limit_reached_first :
    (b : BudgetTracker) (now : ℕ) (r : LimitReason)
    → limit_reached b now ≡ some r
    → (¬ Room b now r) × RoomBefore b now r
unfolding limit_reached
limit_reached_first b now r h = (λ p. ground arith, ground arith)

-- Both times are set, and the deadline does not precede the start.
abbrev pub Follows : Option ℕ → Option ℕ → Type 0
Follows (some started) (some deadline) = started ≤ deadline
Follows _ _ = ⊥

abbrev pub plus : Option ℕ → ℕ → Option ℕ
plus none w = none
plus (some t) w = some (t + w)

abbrev pub given : Option ℕ → Option ℤ
given none = none
given (some n) = some (pos n)

-- The deadline is the start plus the limit, or the one that the caller chose.
abbrev pub IsDeadline : BudgetOptions → ℕ → BudgetTracker → Type 0
IsDeadline o w b =
    ((o.deadline ≡ none) × (b.deadline ≡ plus b.started_at w)) ⊎ (o.deadline ≡ given b.deadline)

-- A tracker that `__post_init__` accepts with a wall-time limit has a starting time and a deadline
-- that does not precede it; the deadline is the start plus the limit, or the caller's where the
-- caller chose one.
pub init_deadline :
    (o : BudgetOptions) (reading : ℤ) (b : BudgetTracker) (w : ℕ)
    → init o reading ≡ ok b
    → b.max_wall_seconds ≡ some w
    → Follows b.started_at b.deadline × IsDeadline o w b
unfolding init
init_deadline o reading b w h k = ground arith
