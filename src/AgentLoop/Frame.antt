-- ===== src/AgentLoop/Frame.antt =====
-- What the session, the limits and the requests to the model of agent_loop.py leave alone.
pub mod Compaction
pub mod Prepare
use coding_agent_neo.Prelude.{ℕ, Bool, false, Option, none, some, List, Result, ok, err, Text}
use coding_agent_neo.Json.{Fields}
use coding_agent_neo.Models.{RuntimeState}
use coding_agent_neo.Runtime.Budget.{BudgetTracker, LimitReason}
use coding_agent_neo.AgentLoop.Monad.{Raise, interrupt, failure, raise}
use coding_agent_neo.AgentLoop.Monad.Keeps.{
  Keeps, Keeps-pure, Keeps-raise, Keeps->>=, Keeps-catch, keeps_rules,
}
use coding_agent_neo.AgentLoop.Boundary.{Boundary, AgentLoop, LoopEvent}
use coding_agent_neo.AgentLoop.Session.{
  end_active_turn, limit_after, reached, outside, or_fail, emit, emit_best_effort, start_session,
  close_environment, finish_session, check_interrupt, check_active_view, past_deadline,
  current_limit, loop_result, end_turn, limit_result, failed_result, interrupted_result,
}
use coding_agent_neo.AgentLoop.Boundary.{PlannedToolCall}

-- The numbers that bound the turns of a session.
pub record Counters : Type 0 where
  pub max_steps : Option ℕ
  pub max_tool_calls : Option ℕ
  pub model_steps : ℕ
  pub tool_calls : ℕ

abbrev pub counters : BudgetTracker → Counters
counters b = record {
  max_steps = b.max_steps;
  max_tool_calls = b.max_tool_calls;
  model_steps = b.model_steps;
  tool_calls = b.tool_calls;
}

-- The part of the loop's state that the properties speak of.
pub record View : Type 0 where
  pub recent_messages : List Fields
  pub pending_plans : List PlannedToolCall
  pub counted : Counters

abbrev pub view : {W : Type 0} → AgentLoop W → View
view s = record {
  recent_messages = s.context_state.recent_messages;
  pending_plans = s.pending_plans;
  counted = counters s.budget;
}

-- The exceptions that the outside, the limits aside, brings about.
pub record Mild (After : Raise → View → Type 0) (P : View → Type 0) : Type 0 where
  pub interrupts : (t : Text) (v : View) → P v → After (interrupt t) v
  pub fails : (t : Text) (o : Bool) (v : View) → P v → After (failure t o) v

all_mild : (P : View → Type 0) → Mild (λ _. P) P
all_mild P = record { interrupts = λ t v p. p; fails = λ t o v p. p }

module _ {W : Type 0} {After : Raise → View → Type 0} {P : View → Type 0} where
  pub Keeps-outside : {A : Type 0} (f : W → A × W) → Keeps view After P (outside f)
  unfolding outside
  Keeps-outside f = record { holds = record { run = λ s p. p } }

  module _ (mild : Mild After P) where
    pub Keeps-or_fail :
        {A : Type 0} (r : Result Text A) → Keeps {S = AgentLoop W} view After P (or_fail r)
    Keeps-or_fail (ok a) = Keeps-pure a
    Keeps-or_fail (err t) = Keeps-raise _ (mild.fails t false)

    pub Keeps-interrupt :
        {A : Type 0} (t : Text) → Keeps {S = AgentLoop W} {A = A} view After P (raise (interrupt t))
    Keeps-interrupt t = Keeps-raise _ (mild.interrupts t)

    pub Keeps-failure :
        {A : Type 0} (t : Text) (o : Bool)
        → Keeps {S = AgentLoop W} {A = A} view After P (raise (failure t o))
    Keeps-failure t o = Keeps-raise _ (mild.fails t o)

    module _ (x : Boundary W) where
      pub Keeps-emit : (event : LoopEvent) → Keeps view After P (emit x event)
      unfolding emit
      Keeps-emit event = Keeps->>= (Keeps-outside _) Keeps-or_fail

      pub Keeps-check_interrupt : Keeps view After P (check_interrupt x)
      unfolding check_interrupt
      Keeps-check_interrupt = search (keeps_rules, Keeps-interrupt) depth 12

      pub Keeps-check_active_view : Keeps view After P (check_active_view x)
      unfolding check_active_view
      Keeps-check_active_view = search (keeps_rules, Keeps-failure) depth 12

      pub Keeps-start_session : Keeps view After P (start_session x)
      unfolding start_session
      Keeps-start_session = search (keeps_rules, Keeps-outside, Keeps-or_fail, Keeps-emit) depth 12

module _ {W : Type 0} {P : View → Type 0} (x : Boundary W) where
  Keeps-close_environment : Keeps view (λ _. P) P (close_environment x)
  unfolding close_environment
  Keeps-close_environment = search (keeps_rules, Keeps-outside, Keeps-or_fail (all_mild P)) depth 12

module _ {W : Type 0} {After : Raise → View → Type 0} {P : View → Type 0} where
  module _ (x : Boundary W) where
    Keeps-reached : (deadline : Option ℕ) → Keeps view After P (reached x deadline)
    Keeps-reached none = Keeps-pure false
    Keeps-reached (some deadline) = search (keeps_rules, Keeps-outside) depth 12

    pub Keeps-past_deadline : Keeps view After P (past_deadline x)
    unfolding past_deadline
    Keeps-past_deadline = search (keeps_rules, Keeps-reached) depth 12

    pub Keeps-limit_after : (limit : Option LimitReason) → Keeps view After P (limit_after x limit)
    Keeps-limit_after none = search (keeps_rules, Keeps-past_deadline) depth 12
    Keeps-limit_after (some reason) = Keeps-pure (some reason)

    pub Keeps-current_limit : Keeps view After P (current_limit x)
    unfolding current_limit
    Keeps-current_limit = search (keeps_rules, Keeps-limit_after) depth 12

    pub Keeps-emit_best_effort : (event : LoopEvent) → Keeps view After P (emit_best_effort x event)
    unfolding emit_best_effort
    Keeps-emit_best_effort event =
        Keeps-catch (search (keeps_rules, Keeps-emit (all_mild P) x) depth 12) (λ e. Keeps-pure tt)

    pub Keeps-finish_session :
        (state : RuntimeState) (reason : Text) → Keeps view After P (finish_session x state reason)
    unfolding finish_session
    Keeps-finish_session state reason =
        search (keeps_rules, Keeps-emit_best_effort, Keeps-catch, Keeps-close_environment) depth 12

    pub Keeps-loop_result :
        (state : RuntimeState) (reason : Text) (limit : Option LimitReason)
        (error_type : Option Text)
        → Keeps view After P (loop_result x state reason limit error_type)
    unfolding loop_result
    Keeps-loop_result state reason limit error_type = search (keeps_rules) depth 12

    pub Keeps-end_active_turn :
        (state : RuntimeState) (reason : Text) → Keeps view After P (end_active_turn x state reason)
    Keeps-end_active_turn state reason = search (keeps_rules, Keeps-emit_best_effort) depth 12

    pub Keeps-interrupted_result :
        (reason : Text) → Keeps view After P (interrupted_result x reason)
    unfolding interrupted_result
    Keeps-interrupted_result reason =
        search (keeps_rules, Keeps-end_active_turn, Keeps-loop_result, Keeps-finish_session) depth
          12

    pub Keeps-failed_result : (error : Raise) → Keeps view After P (failed_result x error)
    unfolding failed_result
    Keeps-failed_result error =
        search
          (
            keeps_rules, Keeps-emit_best_effort, Keeps-end_active_turn, Keeps-loop_result,
            Keeps-finish_session,
          )
          depth 12

  module _ (mild : Mild After P) (x : Boundary W) where
    pub Keeps-end_turn :
        (state : RuntimeState) (reason : Text) (limit : Option LimitReason)
        → Keeps view After P (end_turn x state reason limit)
    unfolding end_turn
    Keeps-end_turn state reason limit =
        search (keeps_rules, Keeps-emit mild x, Keeps-loop_result, Keeps-finish_session) depth 12

    pub Keeps-limit_result : (reason : LimitReason) → Keeps view After P (limit_result x reason)
    unfolding limit_result
    Keeps-limit_result reason = Keeps-end_turn _ _ _
