-- ===== src/AgentLoop/Paired/Turn.antt =====
-- What the rounds of `run_turn` in agent_loop.py lead to, from a conversation that awaits nothing.
use coding_agent_neo.Prelude.{
  ℕ, zero, suc, ◌≡◌, refl, Option, none, some, List, [], ◌∷◌, Text, chars, text_eq,
}
use coding_agent_neo.Json.{get}
use coding_agent_neo.Models.{NormalizedToolCall}
use coding_agent_neo.Runtime.Budget.{LimitReason}
use coding_agent_neo.Context.Message.{role_of}
use coding_agent_neo.AgentLoop.Monad.{Raise, Holds, Holds-pure, Holds->>=, Holds->>}
use coding_agent_neo.AgentLoop.Monad.Keeps.{
  Keeps, Keeps-pure, Keeps-gets, Keeps-modify, Keeps-when, Keeps->>=,
}
use coding_agent_neo.AgentLoop.Boundary.{Boundary}
use coding_agent_neo.AgentLoop.Session.{limit_result, Loop}
use coding_agent_neo.AgentLoop.Calls.{plan_calls}
use coding_agent_neo.AgentLoop.Turn.{
  or_again, text_message, Step, returns, remember, model_step, checked, turn_loop, try_turn,
}
use coding_agent_neo.AgentLoop.Frame.{
  View, view, Mild, Keeps-outside, Keeps-emit, Keeps-check_interrupt, Keeps-check_active_view,
  Keeps-current_limit, Keeps-start_session, Keeps-limit_result,
}
use coding_agent_neo.AgentLoop.Frame.Compaction.{Keeps-record_usage}
use coding_agent_neo.AgentLoop.Frame.Prepare.{Keeps-complete_model_request}
use coding_agent_neo.AgentLoop.Paired.{meet, ids_of, meet-assistant_message}
use coding_agent_neo.AgentLoop.Paired.Round.{
  on_budget-Leads, returns-Rounds, act_on-Rounds, Goes, Rounds,
}
use coding_agent_neo.AgentLoop.Paired.Calls.{
  Open, Left, Open-Mild, Open-covers, kept, set_pending-Leads, append_message-Leads,
}

meet-user : (content : Text) → meet [] (text_message (chars "user") content) ≡ some []
unfolding meet role_of get text_eq
meet-user content = refl

module _ {W : Type 0} {After : Raise → View → Type 0} {P : View → Type 0} (x : Boundary W) where
  pub plan_calls-Keeps : (calls : List NormalizedToolCall) → Keeps view After P (plan_calls x calls)
  unfolding plan_calls
  plan_calls-Keeps [] = Keeps-pure []
  plan_calls-Keeps (call ∷ calls) =
      Keeps->>= (Keeps-outside _) (λ id. Keeps->>= (plan_calls-Keeps calls) (λ plans. Keeps-pure _))

  remember-Keeps : (text : Text) → Keeps view After P (remember x text)
  remember-Keeps text = Keeps-when _ (Keeps-modify _ (λ s. refl))

module _ {W : Type 0} (x : Boundary W) where
  model_step-Rounds : Rounds [] (model_step x) []
  unfolding model_step
  model_step-Rounds =
      let left : Mild Left (Open []) = Open-Mild [] in
      Holds->> _ (on_budget-Leads [] [] _) (
        Holds->>= _ (kept (Open []) (Keeps-complete_model_request Open-covers x)) (λ response.
          Holds->> _ (kept (Open []) (Keeps-record_usage left response.usage)) (
            Holds->>= _ (kept (Open []) (plan_calls-Keeps x response.tool_calls)) (λ plans.
              Holds->>= _ (kept (Open []) (Keeps-emit left x _)) (λ sequence.
                Holds->> _
                  (append_message-Leads _ _ [] (ids_of plans) []
                    (meet-assistant_message response plans))
                  (Holds->> _ (set_pending-Leads (ids_of plans) [] plans) (
                    Holds->> _ (kept (Open plans) (remember-Keeps x response.text))
                      (act_on-Rounds x response plans))))))))

  limited-Rounds :
      {m : Loop W Step}
      → Rounds [] m []
      → (limit : Option LimitReason)
      → Rounds [] (elim limit [ some reason ↦ returns (limit_result x reason) | none ↦ m ]) []
  limited-Rounds h none = h
  limited-Rounds h (some reason) =
      returns-Rounds x [] (kept (Open []) (Keeps-limit_result (Open-Mild []) x reason))

  checked-Rounds : {m : Loop W Step} → Rounds [] m [] → Rounds [] (checked x m) []
  unfolding checked
  checked-Rounds h =
      let left : Mild Left (Open []) = Open-Mild [] in
      Holds->> _ (kept (Open []) (Keeps-check_interrupt left x)) (
        Holds->> _ (kept (Open []) (Keeps-check_active_view left x))
          (Holds->>= _ (kept (Open []) (Keeps-current_limit x)) (limited-Rounds h)))

  or_again-Rounds :
      {m : Loop W Step} (step : Step)
      → Rounds [] m []
      → Holds
          (λ e s. Left e (view s))
          (λ s. Goes [] step (view s))
          (or_again x m step)
          (λ after s. Goes [] after (view s))
  or_again-Rounds (some r) h = Holds-pure (some r) (λ s p. p)
  or_again-Rounds none h = h

  turn_loop-Rounds : (n : ℕ) → Rounds [] (turn_loop x n) []
  unfolding turn_loop
  turn_loop-Rounds zero = checked-Rounds (Holds-pure none (λ s p. p))
  turn_loop-Rounds (suc n) =
      checked-Rounds
        (Holds->>= _ model_step-Rounds (λ step. or_again-Rounds step (turn_loop-Rounds n)))

  pub try_turn-Rounds : (message : Text) → Rounds [] (try_turn x message) []
  unfolding try_turn
  try_turn-Rounds message =
      let left : Mild Left (Open []) = Open-Mild [] in
      Holds->> _ (kept (Open []) (Keeps-check_active_view left x)) (
        Holds->> _ (kept (Open []) (Keeps-start_session left x)) (
          Holds->>= _ (kept (Open []) (Keeps-emit left x _)) (λ sequence.
            Holds->> _ (append_message-Leads _ _ [] [] [] (meet-user message))
              (Holds->>= _ (kept (Open []) (Keeps-gets _)) turn_loop-Rounds))))
