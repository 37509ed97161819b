-- ===== src/AgentLoop/Paired/Round.antt =====
-- What the calls and the answers of a round of agent_loop.py lead to.
use coding_agent_neo.Prelude.{
  ◌≡◌, refl, Bool, true, false, none, some, List, [], ◌∷◌, Result, ok, err, ArgumentError, Text,
  chars, text_eq, is_empty,
}
use coding_agent_neo.Json.{get}
use coding_agent_neo.Models.{ToolResult, NormalizedAssistantResponse}
use coding_agent_neo.Runtime.Budget.{BudgetTracker, LimitReason}
use coding_agent_neo.Context.Message.{role_of}
use coding_agent_neo.AgentLoop.Monad.{
  Holds-elim, ◌>>=◌, pure, raise, gets, modify, Holds, Ends, Holds-pure, Holds-modify, Holds->>=,
  Holds->>,
}
use coding_agent_neo.AgentLoop.Monad.Keeps.{Keeps-gets}
use coding_agent_neo.AgentLoop.Boundary.{Boundary, AgentLoop, AgentLoopResult, PlannedToolCall}
use coding_agent_neo.AgentLoop.Session.{Loop}
use coding_agent_neo.AgentLoop.Prepare.{on_budget, set_budget}
use coding_agent_neo.AgentLoop.Turn.{
  is_invalid, text_message, Step, returns, end_interrupted, end_limited, recover_empty_response,
  finish_or_recover, count_result, run_plan, run_calls, act_on, reset_errors, limited_or_on,
}
use coding_agent_neo.AgentLoop.Frame.{
  View, view, Mild, Keeps-emit, Keeps-check_interrupt, Keeps-check_active_view, Keeps-past_deadline,
  Keeps-end_turn, Keeps-limit_result, Keeps-interrupted_result,
}
use coding_agent_neo.AgentLoop.Paired.{meet, ids_of}
use coding_agent_neo.AgentLoop.Paired.Calls.{
  Awaiting, Open, Left, Open-Mild, Leads, kept, set_pending-Leads, append_message-Leads,
  append_result-Leads, execute_plan-Keeps, skip_pending_plans-Leads,
}

meet-system : (content : Text) → meet [] (text_message (chars "system") content) ≡ some []
unfolding meet role_of get text_eq
meet-system content = refl

module _ {W : Type 0} (ids : List Text) (plans : List PlannedToolCall) where
  set_budget-run :
      (s : AgentLoop W) (r : Result ArgumentError BudgetTracker)
      → Awaiting ids plans (view s)
      → Ends (λ e t. Left e (view t)) (λ _ t. Awaiting ids plans (view t)) (set_budget r s)
  unfolding modify raise
  set_budget-run s (ok b) p = record { awaits = p.awaits; pends = p.pends }
  set_budget-run s (err e) p = tt

  pub on_budget-Leads :
      (f : BudgetTracker → Result ArgumentError BudgetTracker)
      → Leads {W = W} (Awaiting ids plans) (on_budget f) (Awaiting ids plans)
  unfolding on_budget ◌>>=◌ gets
  on_budget-Leads f = record { run = λ s. set_budget-run s (f s.budget) }

  reset_errors-Leads : Leads {W = W} (Awaiting ids plans) reset_errors (Awaiting ids plans)
  reset_errors-Leads = Holds-modify _ (λ s p. record { awaits = p.awaits; pends = p.pends })

  count_result-Leads :
      (x : Boundary W) (result : ToolResult)
      → Leads {W = W} (Awaiting ids plans) (count_result x result) (Awaiting ids plans)
  unfolding count_result
  count_result-Leads x result =
      Holds-elim (is_invalid result.status) (on_budget-Leads _) reset_errors-Leads

-- A round that ends the turn awaits nothing, and after another one these plans are pending.
abbrev pub Goes : List PlannedToolCall → Step → View → Type 0
Goes plans (some r) = Open []
Goes plans none = Open plans

abbrev pub Rounds :
    {W : Type 0} → List PlannedToolCall → Loop W Step → List PlannedToolCall → Type 0
Rounds plans m rest =
    Holds (λ e s. Left e (view s)) (λ s. Open plans (view s)) m (λ step s. Goes rest step (view s))

module _ {W : Type 0} (x : Boundary W) where
  pub returns-Rounds :
      (rest : List PlannedToolCall) {m : Loop W AgentLoopResult}
      → Leads (Open []) m (Open [])
      → Rounds [] (returns m) rest
  returns-Rounds rest h = Holds->>= _ h (λ r. Holds-pure (some r) (λ s p. p))

  pub end_interrupted-Rounds :
      (plans rest : List PlannedToolCall) → Rounds plans (end_interrupted x) rest
  unfolding end_interrupted
  end_interrupted-Rounds plans rest = Holds->> _ (skip_pending_plans-Leads x _ _ plans) (
      Holds->>= _ (kept (Open []) (Keeps-gets _))
        (λ reason. returns-Rounds rest (kept (Open []) (Keeps-interrupted_result x reason))))

  end_limited-Rounds :
      (reason : LimitReason) (plans rest : List PlannedToolCall)
      → Rounds plans (end_limited x reason) rest
  unfolding end_limited
  end_limited-Rounds reason plans rest =
      Holds->> _ (skip_pending_plans-Leads x _ _ plans)
        (returns-Rounds rest (kept (Open []) (Keeps-limit_result (Open-Mild []) x reason)))

  recover_empty_response-Leads :
      (response : NormalizedAssistantResponse)
      → Leads (Open []) (recover_empty_response x response) (Open [])
  unfolding recover_empty_response
  recover_empty_response-Leads response = Holds->> _ (on_budget-Leads [] [] _) (
      Holds->>= _ (kept (Open []) (Keeps-gets _)) (λ errors.
        Holds->>= _ (kept (Open []) (Keeps-emit (Open-Mild []) x _))
          (λ sequence. append_message-Leads _ _ [] [] [] (meet-system _))))

  finish_or_recover-Rounds :
      (response : NormalizedAssistantResponse) → Rounds [] (finish_or_recover x response) []
  unfolding finish_or_recover
  finish_or_recover-Rounds response =
      Holds-elim (is_empty response.text)
        (Holds->> _ (recover_empty_response-Leads response) (
          Holds->>= _ (kept (Open []) (Keeps-gets _)) (λ exhausted.
            Holds-elim exhausted
              (returns-Rounds [] (kept (Open []) (Keeps-limit_result (Open-Mild []) x _)))
              (Holds-pure none (λ s p. p)))))
        (Holds->> _ (reset_errors-Leads [] [])
          (returns-Rounds [] (kept (Open []) (Keeps-end_turn (Open-Mild []) x _ _ _))))

  limited_or_on-Rounds :
      (exhausted : Bool) (reason : LimitReason) (plans : List PlannedToolCall)
      → Rounds plans (limited_or_on x exhausted reason) plans
  limited_or_on-Rounds true reason plans = end_limited-Rounds reason plans plans
  limited_or_on-Rounds false reason plans = Holds-pure none (λ s p. p)

  run_plan-Rounds :
      (plan : PlannedToolCall) (plans : List PlannedToolCall)
      → Rounds (plan ∷ plans) (run_plan x plan plans) plans
  run_plan-Rounds plan plans =
      let here : List PlannedToolCall = plan ∷ plans in
      Holds->> _ (on_budget-Leads (ids_of here) here _) (
        Holds->>= _ (kept (Open here) (execute_plan-Keeps x (Open-Mild here) plan)) (λ result.
          Holds->> _ (append_result-Leads x plan result (ids_of plans) here) (
            Holds->> _ (set_pending-Leads _ _ plans) (
              Holds->> _ (count_result-Leads _ _ x result) (
                Holds->>= _ (kept (Open plans) (Keeps-gets _)) (λ is_set.
                  Holds->>= _ (kept (Open plans) (Keeps-gets _)) (λ exhausted.
                    Holds-elim is_set (end_interrupted-Rounds plans plans)
                      (limited_or_on-Rounds exhausted _ plans))))))))

  go_on-Rounds :
      (plans : List PlannedToolCall) {m : Loop W Step} (step : Step)
      → Rounds plans m []
      → Holds
          (λ e s. Left e (view s))
          (λ s. Goes plans step (view s))
          (elim step [ some r ↦ pure (some r) | none ↦ m ])
          (λ after s. Goes [] after (view s))
  go_on-Rounds plans (some r) h = Holds-pure (some r) (λ s p. p)
  go_on-Rounds plans none h = h

  run_calls-Rounds : (plans : List PlannedToolCall) → Rounds plans (run_calls x plans) []
  unfolding run_calls
  run_calls-Rounds [] = Holds-pure none (λ s p. p)
  run_calls-Rounds (plan ∷ plans) =
      let here : List PlannedToolCall = plan ∷ plans in
      let left : Mild Left (Open here) = Open-Mild here in
      Holds->> _ (kept (Open here) (Keeps-check_interrupt left x)) (
        Holds->> _ (kept (Open here) (Keeps-check_active_view left x)) (
          Holds->>= _ (kept (Open here) (Keeps-past_deadline x)) (λ past.
            Holds->>= _ (kept (Open here) (Keeps-gets _)) (λ exhausted.
              Holds-elim past (end_limited-Rounds _ here []) (
                Holds-elim exhausted (end_limited-Rounds _ here []) (
                  Holds->>= _ (run_plan-Rounds plan plans)
                    (λ step. go_on-Rounds plans step (run_calls-Rounds plans))))))))

  pub act_on-Rounds :
      (response : NormalizedAssistantResponse) (plans : List PlannedToolCall)
      → Rounds plans (act_on x response plans) []
  unfolding act_on
  act_on-Rounds response plans = Holds->>= _ (kept (Open plans) (Keeps-gets _)) (λ is_set.
      Holds-elim is_set (end_interrupted-Rounds plans []) (
        Holds->>= _ (kept (Open plans) (Keeps-past_deadline x))
          (λ past. Holds-elim past (end_limited-Rounds _ plans []) (answer plans))))
    where
      answer :
          (plans : List PlannedToolCall)
          → Rounds plans
              (elim plans [
                | [] ↦ finish_or_recover x response
                | plan ∷ rest ↦ run_calls x (plan ∷ rest)
              ])
              []
      answer [] = finish_or_recover-Rounds response
      answer (plan ∷ rest) = run_calls-Rounds (plan ∷ rest)
