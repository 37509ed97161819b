-- ===== src/AgentLoop/Session.antt =====
-- The session of agent_loop.py: events, the environment, interruption, limits and how a turn ends.
use coding_agent_neo.Prelude.{
  ℕ, ◌+◌, ◌*◌, Bool, true, false, not, ◌&&◌, Option, none, some, ◌++◌, Result, ok, err, ltb, leb,
  if◌then◌else◌, get_or, Text, chars, is_empty,
}
use coding_agent_neo.Models.{
  RuntimeState, running, completed_turn, limit_reached, interrupted, failed,
}
use coding_agent_neo.Runtime.Cancellation.{is_cancelled}
use coding_agent_neo.Runtime.Budget.{
  BudgetTracker, LimitReason, model_steps, tool_calls, protocol_errors, wall_time, context_window,
  exhausts,
}
use coding_agent_neo.AgentLoop.Monad.{
  Action, Raise, limit_exceeded, window_exceeded, interrupt, failure, pure, raise, gets, modify,
  ◌>>=◌, ◌>>◌, catch, when,
}
use coding_agent_neo.AgentLoop.Boundary.{
  Boundary, AgentLoop, AgentLoopResult, LoopEvent, session_start, agent_start, turn_end, agent_end,
  session_end, error_event,
}

-- `_apply_default_limits`, in the clock's fraction of a second; `unit` is a second. The tracker has
-- its start since `__post_init__`; the clock's reading stands in where it has none.
unfoldable pub apply_default_limits : ℕ → ℕ → BudgetTracker → BudgetTracker
apply_default_limits unit reading b =
    let wall = get_or b.max_wall_seconds (900 * unit) in
    record b {
      max_steps = some (get_or b.max_steps 32);
      max_tool_calls = some (get_or b.max_tool_calls 64);
      max_protocol_errors = some (get_or b.max_protocol_errors 3);
      max_wall_seconds = some wall;
      deadline = some (get_or b.deadline (get_or b.started_at reading + wall));
    }

-- limit.value
abbrev pub limit_text : LimitReason → Text
limit_text model_steps = chars "model_steps"
limit_text tool_calls = chars "tool_calls"
limit_text protocol_errors = chars "protocol_errors"
limit_text wall_time = chars "wall_time"
limit_text context_window = chars "context_window"

abbrev pub or_fail : {S A : Type 0} → Result Text A → Action S A
or_fail (ok a) = pure a
or_fail (err error_type) = raise (failure error_type false)

-- The class of an exception.
abbrev pub class_name : Raise → Text
class_name (limit_exceeded _) = chars "_LoopLimitReached"
class_name window_exceeded = chars "ContextWindowExceeded"
class_name (interrupt t) = t
class_name (failure t _) = t

abbrev pub is_overflow : Raise → Bool
is_overflow (failure _ overflow) = overflow
is_overflow _ = false

abbrev pub final_state : RuntimeState → RuntimeState
final_state running = completed_turn
final_state state = state

-- The limits that are read off the counters.
unfoldable pub counted_limit : BudgetTracker → Option LimitReason
unfolding exhausts
counted_limit b =
    if exhausts b.max_steps b.model_steps
    then some model_steps
    else if ltb 0 b.protocol_errors && exhausts b.max_protocol_errors b.protocol_errors
    then some protocol_errors
    else none

abbrev pub wall_limit : Bool → Option LimitReason
wall_limit true = some wall_time
wall_limit false = none

abbrev pub is_completed : RuntimeState → Bool
is_completed completed_turn = true
is_completed _ = false

abbrev pub Loop : Type 0 → Type 0 → Type 0
Loop W A = Action (AgentLoop W) A

module _ {W : Type 0} where
  -- A call of something outside.
  unfoldable pub outside : {A : Type 0} → (W → A × W) → Loop W A
  outside f s = let (a, w) = f s.world in (ok a, record s { world = w })

  module _ (x : Boundary W) where
    unfoldable pub emit : LoopEvent → Loop W ℕ
    emit event = outside (x.publish event) >>= or_fail

    unfoldable pub emit_best_effort : LoopEvent → Loop W (Unit {0})
    emit_best_effort event = catch (emit event >> pure tt) (λ _. pure tt)

    abbrev open_session : Loop W (Unit {0})
    open_session = do
      modify (λ s. record s { environment_started = true })
      started ← outside x.start_environment
      or_fail started
      emit session_start
      emit agent_start
      modify (λ s. record s { session_started = true })

    unfoldable pub start_session : Loop W (Unit {0})
    start_session = do started ← gets (λ s. s.session_started); when (not started) open_session

    -- `_close_environment` where the environment was started; the flag goes down either way.
    abbrev pub close_started : Loop W (Unit {0})
    close_started = do
      closed ← outside x.close_environment
      modify (λ s. record s { environment_started = false })
      or_fail closed

    unfoldable pub close_environment : Loop W (Unit {0})
    close_environment = do started ← gets (λ s. s.environment_started); when started close_started

    abbrev pub finish_open : RuntimeState → Text → Loop W (Unit {0})
    finish_open state reason = do
      emit_best_effort (agent_end state reason)
      emit_best_effort (session_end state reason)
      catch close_environment (λ _. pure tt)
      modify (λ s. record s { session_closed = true })

    unfoldable pub finish_session : RuntimeState → Text → Loop W (Unit {0})
    finish_session state reason = do
      closed ← gets (λ s. s.session_closed)
      when (not closed) (finish_open state reason)

    abbrev pub close_open : Text → Loop W (Unit {0})
    close_open reason = do state ← gets (λ s. s.state); finish_session (final_state state) reason

    unfoldable pub close : Text → Loop W (Unit {0})
    close reason = do
      when (is_empty reason) (raise (failure (chars "ValueError") false))
      closed ← gets (λ s. s.session_closed)
      when (not closed) (close_open reason)

    unfoldable pub check_interrupt : Loop W (Unit {0})
    check_interrupt = do
      cancelled ← gets (λ s. is_cancelled (x.signal s.world))
      when cancelled (raise (interrupt (chars "CancellationRequested")))

    unfoldable pub check_active_view : Loop W (Unit {0})
    check_active_view = do
      active ← gets (λ s. x.is_active_view s.world)
      when (not active) (raise (failure (chars "ActiveToolsMismatchError") false))

    -- budget.deadline is not None and budget.clock() >= budget.deadline
    abbrev pub reached : Option ℕ → Loop W Bool
    reached none = pure false
    reached (some deadline) = do now ← outside x.clock; pure (leb deadline now)

    unfoldable pub past_deadline : Loop W Bool
    past_deadline = gets (λ s. s.budget.deadline) >>= reached

    abbrev pub limit_after : Option LimitReason → Loop W (Option LimitReason)
    limit_after (some r) = pure (some r)
    limit_after none = do past ← past_deadline; pure (wall_limit past)

    unfoldable pub current_limit : Loop W (Option LimitReason)
    current_limit = gets (λ s. counted_limit s.budget) >>= limit_after

    unfoldable pub check_context_preparation_allowed : Loop W (Unit {0})
    check_context_preparation_allowed = do
      check_interrupt
      past ← past_deadline
      when past (raise (limit_exceeded wall_time))

    -- `_result`
    unfoldable pub loop_result :
        RuntimeState → Text → Option LimitReason → Option Text → Loop W AgentLoopResult
    loop_result state reason limit_reason error_type = do
      modify (λ s. record s { state = state })
      text ← gets (λ s. s.last_assistant_text)
      pure (record {
        state = state;
        assistant_text = text;
        reason = reason;
        limit_reason = limit_reason;
        error_type = error_type;
      })

    unfoldable pub end_turn : RuntimeState → Text → Option LimitReason → Loop W AgentLoopResult
    end_turn state reason limit_reason = do
      text ← gets (λ s. s.last_assistant_text)
      emit (turn_end state reason limit_reason text)
      modify (λ s. record s { turn_active = false })
      result ← loop_result state reason limit_reason none
      when (not (is_completed state)) (finish_session state reason)
      pure result

    unfoldable pub limit_result : LimitReason → Loop W AgentLoopResult
    limit_result reason =
        end_turn limit_reached (chars "limit_reached:" ++ limit_text reason) (some reason)

    -- The TURN_END event of a turn that fails or is interrupted.
    abbrev pub end_active_turn : RuntimeState → Text → Loop W (Unit {0})
    end_active_turn state reason = do
      active ← gets (λ s. s.turn_active)
      text ← gets (λ s. s.last_assistant_text)
      when active (emit_best_effort (turn_end state reason none text))
      modify (λ s. record s { turn_active = false })

    unfoldable pub failed_result : Raise → Loop W AgentLoopResult
    failed_result error =
        let reason : Text =
          if is_overflow error
          then chars "context_overflow_after_forced_compaction"
          else chars "unhandled_system_exception" in
        do
          emit_best_effort (error_event (class_name error))
          end_active_turn failed reason
          result ← loop_result failed reason none (some (class_name error))
          finish_session failed reason
          pure result

    unfoldable pub interrupted_result : Text → Loop W AgentLoopResult
    interrupted_result reason = do
      end_active_turn interrupted reason
      result ← loop_result interrupted reason none none
      finish_session interrupted reason
      pure result
