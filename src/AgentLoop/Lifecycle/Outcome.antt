-- ===== src/AgentLoop/Lifecycle/Outcome.antt =====
-- What the result of a turn of agent_loop.py says of the loop.
pub mod Turn
use coding_agent_neo.Prelude.{
  ◌≡◌, refl, sym, ap, ◌∙◌, ◌≢◌, Bool, true, false, not, Option, none, some, all, Text,
}
use coding_agent_neo.Models.{
  running, waiting_for_approval, RuntimeState, completed_turn, failed, interrupted, limit_reached,
  NormalizedAssistantResponse,
}
use coding_agent_neo.Runtime.Budget.{LimitReason}
use coding_agent_neo.AgentLoop.Monad.{
  Action, Raise, failure, limit_exceeded, window_exceeded, interrupt, pure, raise, gets, modify,
  when, ◌>>=◌, ◌>>◌, catch, Holds, Ends, Holds-pure, Holds-raise, Holds-gets, Holds-modify,
  Holds->>=, Holds->>, Holds-weaken, Holds-any, Holds-when, Holds-catch, Holds-elim, Holds-both,
  Holds-ok,
}
use coding_agent_neo.AgentLoop.Boundary.{Boundary, AgentLoop, AgentLoopResult, PlannedToolCall}
use coding_agent_neo.AgentLoop.Session.{
  Loop, finish_session, finish_open, loop_result, end_turn, end_active_turn, limit_result,
  failed_result, interrupted_result, is_completed,
}
use coding_agent_neo.AgentLoop.Turn.{
  Step, returns, end_interrupted, end_limited, finish_or_recover, execute_and_count, limited_or_on,
  run_plan, run_calls, act_on, model_step, checked, or_again, turn_loop, try_turn, interrupted_by,
  handle_raise, run_turn,
}
use coding_agent_neo.AgentLoop.Lifecycle.{ended, Keeps-finish_session}

-- The result names the state that the loop is in, no turn is under way, and the session is closed
-- unless the turn was completed.
pub record Concluded {W : Type 0} (r : AgentLoopResult) (s : AgentLoop W) : Type 0 where
  pub state : s.state ≡ r.state
  pub idle : s.turn_active ≡ false
  pub closed : r.state ≢ completed_turn → s.session_closed ≡ true

abbrev pub After : {W : Type 0} → Step → AgentLoop W → Type 0
After (some r) s = Concluded r s
After none s = Unit

module _ {W : Type 0} (x : Boundary W) where
  -- Code whose value is all that matters.
  abbrev pub Tells : {A : Type 0} → Loop W A → (A → AgentLoop W → Type 0) → Type 0
  Tells m after = Holds (λ _ _. Unit) (λ _. Unit) m after

  pub then :
      {A B : Type 0} {Q : B → AgentLoop W → Type 0} (m : Loop W A) {f : A → Loop W B}
      → ((a : A) → Tells (f a) Q)
      → Tells (m >>= f) Q
  then m h = Holds->>= (λ _ _. Unit) (Holds-any m) h

  pub next :
      {A B : Type 0} {Q : B → AgentLoop W → Type 0} (m : Loop W A) {k : Loop W B}
      → Tells k Q
      → Tells (m >> k) Q
  next m h = Holds->> (λ _. Unit) (Holds-any m) h

  finish_session-closed :
      (state : RuntimeState) (reason : Text)
      → Tells (finish_session x state reason) (λ _ s. s.session_closed ≡ true)
  unfolding finish_session when pure
  finish_session-closed state reason =
      Holds->>= (λ closed s. s.session_closed ≡ closed) (Holds-gets _ (λ s p. refl)) finishes
    where
      finishes :
          (closed : Bool)
          → Holds
              (λ _ _. Unit)
              (λ s. s.session_closed ≡ closed)
              (when (not closed) (finish_open x state reason))
              (λ _ s. s.session_closed ≡ true)
      finishes true = Holds-pure tt (λ s p. p)
      finishes false =
          Holds-weaken _ (next _ (next _ (next _ (Holds-modify _ (λ s p. refl))))) (λ s p. tt)
            (λ _ s p. p)

  -- The state that a result names, once no turn is under way.
  abbrev Named : RuntimeState → AgentLoopResult → AgentLoop W → Type 0
  Named state r s = (ended s ≡ (state, false)) × (r.state ≡ state)

  loop_result-Named :
      (state : RuntimeState) (reason : Text) (limit : Option LimitReason) (error_type : Option Text)
      → Holds
          (λ _ _. Unit)
          (λ s. s.turn_active ≡ false)
          (loop_result x state reason limit error_type)
          (Named state)
  unfolding loop_result
  loop_result-Named state reason limit error_type =
      Holds->> (λ s. ended s ≡ (state, false)) (Holds-modify _ (λ s p. rw p refl))
        (Holds->>= (λ _ s. ended s ≡ (state, false)) (Holds-gets _ (λ s p. p))
          (λ text. Holds-pure _ (λ s p. (p, refl))))

  -- Where the session is finished after the result.
  finished :
      (state : RuntimeState) (reason : Text) (r : AgentLoopResult)
      → Holds (λ _ _. Unit) (Named state r) (finish_session x state reason >> pure r) Concluded
  finished state reason r =
      Holds->> (λ s. Named state r s × (s.session_closed ≡ true))
        (Holds-both
          (Keeps-finish_session x {P = λ v. (v ≡ (state, false)) × (r.state ≡ state)}
            {After = λ _ _. Unit} state reason).holds
          (Holds-weaken _ (finish_session-closed state reason) (λ s p. tt) (λ _ s p. p)))
        (Holds-pure r (λ s p. record {
          state = ap (λ v. v.0) p.0.0 ∙ sym p.0.1;
          idle = ap (λ v. v.1) p.0.0;
          closed = λ _. p.1;
        }))

  completes :
      (r : AgentLoopResult)
      → Holds (λ _ _. Unit) (Named completed_turn r) (pure {S = AgentLoop W} r) Concluded
  completes r = Holds-pure r (λ s p. record {
    state = ap (λ v. v.0) p.0 ∙ sym p.1;
    idle = ap (λ v. v.1) p.0;
    closed = λ other. absurd (other p.1);
  })

  end_active_turn-idle :
      (state : RuntimeState) (reason : Text)
      → Tells (end_active_turn x state reason) (λ _ s. s.turn_active ≡ false)
  end_active_turn-idle state reason =
      then _ (λ active. then _ (λ text. next _ (Holds-modify _ (λ s p. refl))))

  closing :
      (state : RuntimeState) (reason : Text) (r : AgentLoopResult)
      → Holds
          (λ _ _. Unit)
          (Named state r)
          (when (not (is_completed state)) (finish_session x state reason) >> pure r)
          Concluded
  unfolding when pure
  closing completed_turn reason r =
      Holds->> (Named completed_turn r) (Holds-pure tt (λ s p. p)) (completes r)
  closing running reason r = finished running reason r
  closing waiting_for_approval reason r = finished waiting_for_approval reason r
  closing limit_reached reason r = finished limit_reached reason r
  closing interrupted reason r = finished interrupted reason r
  closing failed reason r = finished failed reason r

  pub end_turn-Concluded :
      (state : RuntimeState) (reason : Text) (limit : Option LimitReason)
      → Tells (end_turn x state reason limit) Concluded
  unfolding end_turn
  end_turn-Concluded state reason limit = then _ (λ text. next _ (
      Holds->> (λ s. s.turn_active ≡ false) (Holds-modify _ (λ s p. refl))
        (Holds->>= (Named state) (loop_result-Named state reason limit none)
          (closing state reason))))

  pub failed_result-Concluded : (e : Raise) → Tells (failed_result x e) Concluded
  unfolding failed_result
  failed_result-Concluded e = next _ (
      Holds->> (λ s. s.turn_active ≡ false) (end_active_turn-idle _ _)
        (Holds->>= (Named failed) (loop_result-Named failed _ none _) (finished failed _)))

  pub interrupted_result-Concluded : (reason : Text) → Tells (interrupted_result x reason) Concluded
  unfolding interrupted_result
  interrupted_result-Concluded reason =
      Holds->> (λ s. s.turn_active ≡ false) (end_active_turn-idle _ _)
        (Holds->>= (Named interrupted) (loop_result-Named interrupted _ none _)
          (finished interrupted _))
