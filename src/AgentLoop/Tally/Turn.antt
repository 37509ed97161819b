-- ===== src/AgentLoop/Tally/Turn.antt =====
-- What the parts of a round of agent_loop.py, and the handlers, do to the counters of the budget.
use coding_agent_neo.Prelude.{
  refl, Bool, true, false, Option, none, some, List, Result, ok, err, ArgumentError, Text, is_empty,
}
use coding_agent_neo.Prelude.Int.{pos}
use coding_agent_neo.Models.{ToolResult, ToolResultStatus, NormalizedAssistantResponse}
use coding_agent_neo.Runtime.Cancellation.{CancellationSignal}
use coding_agent_neo.Runtime.Budget.{
  validate_nonnegative, BudgetTracker, LimitReason, record_protocol_error,
}
use coding_agent_neo.AgentLoop.Monad.{
  Holds, Holds-any, Holds-pure, Holds->>, Holds->>=, Raise, failure, limit_exceeded,
  window_exceeded, interrupt,
}
use coding_agent_neo.AgentLoop.Monad.Keeps.{
  Keeps, Keeps-pure, Keeps-gets, Keeps-modify, Keeps-when, Keeps-elim, Keeps-catch, Keeps->>=,
  Keeps->>,
}
use coding_agent_neo.AgentLoop.Boundary.{Boundary, AgentLoopResult, PlannedToolCall}
use coding_agent_neo.AgentLoop.Session.{failed_result, Loop, limit_result}
use coding_agent_neo.AgentLoop.Prepare.{on_budget}
use coding_agent_neo.AgentLoop.Turn.{
  Step, execute_and_count, returns, end_interrupted, end_limited, recover_empty_response,
  finish_or_recover, reset_errors, is_invalid, count_result, limited_or_on, remember, pair_pending,
  cancel_by_keyboard, set_cancelled, interrupted_by, handle_raise,
}
use coding_agent_neo.AgentLoop.Frame.{
  Counters, Keeps-emit, Keeps-end_turn, Keeps-limit_result, Keeps-interrupted_result,
  Keeps-failed_result,
}
use coding_agent_neo.AgentLoop.Frame.Compaction.{Keeps-on_budget, Spares}
use coding_agent_neo.AgentLoop.Tally.{
  AgentLoop, tally, of_view, counted_mild, append_message-Stays, append_result-Stays,
  execute_plan-Stays, set_pending-Stays, skip_pending_plans-Stays, consume_published_result-Stays,
  raises,
}

record_protocol_error-Spares : (b : BudgetTracker) → Spares b (record_protocol_error (pos 1) b)
unfolding record_protocol_error validate_nonnegative
record_protocol_error-Spares b = refl

module _ {W : Type 0} {E P : Counters → Type 0} (covers : (c : Counters) → P c → E c)
    (x : Boundary W) where
  abbrev Stays : {A : Type 0} → Loop W A → Type 0
  Stays m = Keeps tally (λ _. E) P m

  pub returns-Stays : {m : Loop W AgentLoopResult} → Stays m → Stays (returns m)
  returns-Stays h = Keeps->>= h (λ r. Keeps-pure (some r))

  limits-Stays : (reason : LimitReason) → Stays (returns (limit_result x reason))
  limits-Stays reason = returns-Stays (of_view (Keeps-limit_result (counted_mild covers) x reason))

  pub end_interrupted-Stays : Stays (end_interrupted x)
  unfolding end_interrupted
  end_interrupted-Stays = Keeps->> (skip_pending_plans-Stays covers x _ _) (
      Keeps->>= (Keeps-gets _)
        (λ reason. returns-Stays (of_view (Keeps-interrupted_result x reason))))

  pub end_limited-Stays : (reason : LimitReason) → Stays (end_limited x reason)
  unfolding end_limited
  end_limited-Stays reason = Keeps->> (skip_pending_plans-Stays covers x _ _) (limits-Stays reason)

  count_error-Stays : Stays (on_budget (record_protocol_error (pos 1)))
  count_error-Stays = of_view (Keeps-on_budget (counted_mild covers) _ record_protocol_error-Spares)

  reset_errors-Stays : Stays reset_errors
  reset_errors-Stays = Keeps-modify _ (λ s. refl)

  recover_empty_response-Stays :
      (response : NormalizedAssistantResponse) → Stays (recover_empty_response x response)
  unfolding recover_empty_response
  recover_empty_response-Stays response = Keeps->> count_error-Stays (
      Keeps->>= (Keeps-gets _) (λ errors.
        Keeps->>= (of_view (Keeps-emit (counted_mild covers) x _))
          (λ sequence. append_message-Stays covers _ _)))

  pub finish_or_recover-Stays :
      (response : NormalizedAssistantResponse) → Stays (finish_or_recover x response)
  unfolding finish_or_recover
  finish_or_recover-Stays response =
      Keeps-elim (is_empty response.text)
        (Keeps->> (recover_empty_response-Stays response) (
          Keeps->>= (Keeps-gets _)
            (λ exhausted. Keeps-elim exhausted (limits-Stays _) (Keeps-pure none))))
        (Keeps->> reset_errors-Stays
          (returns-Stays (of_view (Keeps-end_turn (counted_mild covers) x _ _ _))))

  count_result-Stays : (result : ToolResult) → Stays (count_result x result)
  unfolding count_result
  count_result-Stays result =
      Keeps-elim (is_invalid result.status) count_error-Stays reset_errors-Stays

  limited_or_on-Stays :
      (exhausted : Bool) (reason : LimitReason) → Stays (limited_or_on x exhausted reason)
  limited_or_on-Stays true reason = end_limited-Stays reason
  limited_or_on-Stays false reason = Keeps-pure none

  -- What `run_plan` does once the call is counted.
  pub execute_and_count-Stays :
      (plan : PlannedToolCall) (plans : List PlannedToolCall)
      → Stays (execute_and_count x plan plans)
  execute_and_count-Stays plan plans = Keeps->>= (execute_plan-Stays covers x plan) (λ result.
      Keeps->> (append_result-Stays covers x plan result) (
        Keeps->> (set_pending-Stays covers plans) (
          Keeps->> (count_result-Stays result) (
            Keeps->>= (Keeps-gets _) (λ is_set. Keeps->>= (Keeps-gets _) (λ exhausted.
              Keeps-elim is_set end_interrupted-Stays (limited_or_on-Stays exhausted _)))))))

  pub remember-Stays : (text : Text) → Stays (remember x text)
  remember-Stays text = Keeps-when _ (Keeps-modify _ (λ s. refl))

module _ {W : Type 0} (E : Counters → Type 0) (x : Boundary W) where
  abbrev Remains : {A : Type 0} → Loop W A → Type 0
  Remains m = Keeps tally (λ _. E) E m

  same : (c : Counters) → E c → E c
  same c p = p

  pair_pending-Remains :
      (reason : Text) (status : ToolResultStatus) → Remains (pair_pending x reason status)
  unfolding pair_pending
  pair_pending-Remains reason status =
      Keeps-catch
        (Keeps->> (consume_published_result-Stays same x)
          (Keeps->> (skip_pending_plans-Stays same x reason status) (Keeps-pure none)))
        (λ e. Keeps-pure (some e))

  set_cancelled-Remains :
      (r : Result ArgumentError (CancellationSignal × Bool)) → Remains (set_cancelled x r)
  set_cancelled-Remains (ok (signal, changed)) = Keeps-modify _ (λ s. refl)
  set_cancelled-Remains (err e) = raises same _

  cancel_by_keyboard-Remains : Remains (cancel_by_keyboard x)
  unfolding cancel_by_keyboard
  cancel_by_keyboard-Remains =
      Keeps->>= (Keeps-gets _) (λ signal. Keeps-when _ (set_cancelled-Remains _))

  fails-Remains : (e : Raise) → Remains (returns (failed_result x e))
  fails-Remains e = returns-Stays same x (of_view (Keeps-failed_result x e))

  interrupted_by-Remains : (t : Text) (raised : Option Raise) → Remains (interrupted_by x t raised)
  interrupted_by-Remains t (some e) = fails-Remains e
  interrupted_by-Remains t none = Keeps->> cancel_by_keyboard-Remains (
      Keeps->>= (Keeps-gets _)
        (λ reason. returns-Stays same x (of_view (Keeps-interrupted_result x reason))))

  pub handle_raise-Remains : (e : Raise) → Remains (handle_raise x e)
  unfolding handle_raise
  handle_raise-Remains (limit_exceeded reason) = limits-Stays same x reason
  handle_raise-Remains window_exceeded = limits-Stays same x _
  handle_raise-Remains (interrupt t) =
      Keeps->>= (pair_pending-Remains _ _) (interrupted_by-Remains t)
  handle_raise-Remains (failure t o) =
      Keeps->>= (pair_pending-Remains _ _) (λ raised. fails-Remains _)

-- A handler ends the turn.
abbrev pub Final : Step → Type 0
Final (some r) = Unit
Final none = ⊥

module _ {W : Type 0} (x : Boundary W) {P : AgentLoop W → Type 0} where
  returns-Final :
      (m : Loop W AgentLoopResult) → Holds (λ _ _. Unit) P (returns m) (λ step s. Final step)
  returns-Final m = Holds->>= (λ _ _. Unit) (Holds-any m) (λ r. Holds-pure (some r) (λ s p. tt))

module _ {W : Type 0} (x : Boundary W) where
  interrupted_by-Final :
      (t : Text) (raised : Option Raise)
      → Holds (λ _ _. Unit) (λ s. Unit) (interrupted_by x t raised) (λ step s. Final step)
  interrupted_by-Final t (some e) = returns-Final x _
  interrupted_by-Final t none =
      Holds->> (λ s. Unit) (Holds-any _)
        (Holds->>= (λ _ s. Unit) (Holds-any _) (λ reason. returns-Final x _))

  pub handle_raise-Final :
      {P : AgentLoop W → Type 0} (e : Raise)
      → Holds (λ _ _. Unit) P (handle_raise x e) (λ step s. Final step)
  unfolding handle_raise
  handle_raise-Final (limit_exceeded reason) = returns-Final x _
  handle_raise-Final window_exceeded = returns-Final x _
  handle_raise-Final (interrupt t) = Holds->>= (λ _ s. Unit) (Holds-any _) (interrupted_by-Final t)
  handle_raise-Final (failure t o) =
      Holds->>= (λ _ s. Unit) (Holds-any _) (λ raised. returns-Final x _)
