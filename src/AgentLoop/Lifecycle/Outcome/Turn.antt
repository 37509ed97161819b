-- ===== src/AgentLoop/Lifecycle/Outcome/Turn.antt =====
-- Every way through `run_turn` of agent_loop.py ends by one of the functions that make a result.
use coding_agent_neo.Prelude.{
  ℕ, zero, suc, ◌≡◌, Bool, true, false, Option, none, some, List, [], ◌∷◌, ok, Text, is_empty,
}
use coding_agent_neo.Models.{NormalizedAssistantResponse}
use coding_agent_neo.Runtime.Budget.{LimitReason}
use coding_agent_neo.AgentLoop.Monad.{
  Raise, failure, limit_exceeded, window_exceeded, interrupt, pure, Holds, Holds-pure, Holds->>=,
  Holds-catch, Holds-elim, Holds-ok,
}
use coding_agent_neo.AgentLoop.Boundary.{Boundary, AgentLoop, AgentLoopResult, PlannedToolCall}
use coding_agent_neo.AgentLoop.Session.{Loop, limit_result, failed_result}
use coding_agent_neo.AgentLoop.Turn.{
  Step, returns, end_interrupted, end_limited, finish_or_recover, limited_or_on, run_plan,
  run_calls, act_on, model_step, checked, or_again, turn_loop, try_turn, interrupted_by,
  handle_raise, run_turn,
}
use coding_agent_neo.AgentLoop.Lifecycle.Outcome.{
  Concluded, After, Tells, then, next, end_turn-Concluded, failed_result-Concluded,
  interrupted_result-Concluded,
}

module _ {W : Type 0} (x : Boundary W) where
  returns-After : {m : Loop W AgentLoopResult} → Tells x m Concluded → Tells x (returns m) After
  returns-After h = Holds->>= Concluded h (λ r. Holds-pure (some r) (λ s p. p))

  limit_result-After : (reason : LimitReason) → Tells x (returns (limit_result x reason)) After
  unfolding limit_result
  limit_result-After reason = returns-After (end_turn-Concluded x _ _ _)

  end_interrupted-After : Tells x (end_interrupted x) After
  unfolding end_interrupted
  end_interrupted-After =
      next x _ (then x _ (λ reason. returns-After (interrupted_result-Concluded x reason)))

  end_limited-After : (reason : LimitReason) → Tells x (end_limited x reason) After
  unfolding end_limited
  end_limited-After reason = next x _ (limit_result-After reason)

  finish_or_recover-After :
      (response : NormalizedAssistantResponse) → Tells x (finish_or_recover x response) After
  unfolding finish_or_recover
  finish_or_recover-After response =
      Holds-elim (is_empty response.text)
        (next x _ (
          then x _ (λ exhausted.
            Holds-elim exhausted (limit_result-After _) (Holds-pure none (λ s p. p)))))
        (next x _ (returns-After (end_turn-Concluded x _ _ _)))

  limited_or_on-After :
      (exhausted : Bool) (reason : LimitReason) → Tells x (limited_or_on x exhausted reason) After
  limited_or_on-After true reason = end_limited-After reason
  limited_or_on-After false reason = Holds-pure none (λ s p. p)

  run_plan-After :
      (plan : PlannedToolCall) (plans : List PlannedToolCall)
      → Tells x (run_plan x plan plans) After
  run_plan-After plan plans = next x _ (
      then x _ (λ result. next x _ (
        next x _ (
          next x _ (
            then x _ (λ is_set. then x _ (λ exhausted.
              Holds-elim is_set end_interrupted-After (limited_or_on-After exhausted _))))))))

  go_on-After :
      {m : Loop W Step} (step : Step)
      → Tells x m After
      → Holds (λ _ _. Unit) (After step) (elim step [ some r ↦ pure (some r) | none ↦ m ]) After
  go_on-After (some r) h = Holds-pure (some r) (λ s p. p)
  go_on-After none h = h

  run_calls-After : (plans : List PlannedToolCall) → Tells x (run_calls x plans) After
  unfolding run_calls
  run_calls-After [] = Holds-pure none (λ s p. p)
  run_calls-After (plan ∷ plans) = next x _ (
      next x _ (
        then x _ (λ past. then x _ (λ exhausted. Holds-elim past (end_limited-After _) (
          Holds-elim exhausted (end_limited-After _) (
            Holds->>= After (run_plan-After plan plans)
              (λ step. go_on-After step (run_calls-After plans))))))))

  act_on-After :
      (response : NormalizedAssistantResponse) (plans : List PlannedToolCall)
      → Tells x (act_on x response plans) After
  unfolding act_on
  act_on-After response plans = then x _ (λ is_set.
      Holds-elim is_set end_interrupted-After
        (then x _ (λ past. Holds-elim past (end_limited-After _) (answer plans))))
    where
      answer :
          (plans : List PlannedToolCall)
          → Tells x
              (elim plans [
                | [] ↦ finish_or_recover x response
                | plan ∷ rest ↦ run_calls x (plan ∷ rest)
              ])
              After
      answer [] = finish_or_recover-After response
      answer (plan ∷ rest) = run_calls-After (plan ∷ rest)

  model_step-After : Tells x (model_step x) After
  unfolding model_step
  model_step-After = next x _ (
      then x _ (λ response. next x _ (
        then x _ (λ plans.
          then x _ (λ sequence. next x _ (next x _ (next x _ (act_on-After response plans))))))))

  limited-After :
      {m : Loop W Step} (limit : Option LimitReason)
      → Tells x m After
      → Tells x (elim limit [ some reason ↦ returns (limit_result x reason) | none ↦ m ]) After
  limited-After none h = h
  limited-After (some reason) h = limit_result-After reason

  checked-After : {m : Loop W Step} → Tells x m After → Tells x (checked x m) After
  unfolding checked
  checked-After h = next x _ (next x _ (then x _ (λ limit. limited-After limit h)))

  or_again-After :
      {m : Loop W Step} (step : Step)
      → Tells x m After
      → Holds (λ _ _. Unit) (After step) (or_again x m step) After
  or_again-After (some r) h = Holds-pure (some r) (λ s p. p)
  or_again-After none h = h

  turn_loop-After : (n : ℕ) → Tells x (turn_loop x n) After
  unfolding turn_loop
  turn_loop-After zero = checked-After (Holds-pure none (λ s p. p))
  turn_loop-After (suc n) =
      checked-After
        (Holds->>= After model_step-After (λ step. or_again-After step (turn_loop-After n)))

  try_turn-After : (message : Text) → Tells x (try_turn x message) After
  unfolding try_turn
  try_turn-After message =
      next x _ (next x _ (then x _ (λ sequence. next x _ (then x _ turn_loop-After))))

  fails-After : (e : Raise) → Tells x (returns (failed_result x e)) After
  fails-After e = returns-After (failed_result-Concluded x e)

  interrupted_by-After :
      (t : Text) (raised : Option Raise) → Tells x (interrupted_by x t raised) After
  interrupted_by-After t (some e) = fails-After e
  interrupted_by-After t none =
      next x _ (then x _ (λ reason. returns-After (interrupted_result-Concluded x reason)))

  handle_raise-After : (e : Raise) → Tells x (handle_raise x e) After
  unfolding handle_raise
  handle_raise-After (limit_exceeded reason) = limit_result-After reason
  handle_raise-After window_exceeded = limit_result-After _
  handle_raise-After (interrupt t) = then x _ (interrupted_by-After t)
  handle_raise-After (failure t o) = then x _ (λ raised. fails-After _)

  run_turn-After : (message : Text) → Tells x (run_turn x message) After
  unfolding run_turn
  run_turn-After message = next x _ (
      then x _ (λ closed. next x _ (
        then x _ (λ active.
          next x _
            (next x _ (Holds-catch (λ _ _. Unit) (try_turn-After message) handle_raise-After))))))

-- Where a turn gives a result, the loop is in the state that the result names, no turn is under way,
-- and the session is closed unless the turn was completed.
pub run_turn-Concluded :
    {W : Type 0} (x : Boundary W) (message : Text) (s t : AgentLoop W) (r : AgentLoopResult)
    → run_turn x message s ≡ (ok (some r), t)
    → Concluded r t
run_turn-Concluded x message s t r gives = Holds-ok (run_turn-After x message) tt gives
