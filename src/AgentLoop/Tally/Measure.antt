-- ===== src/AgentLoop/Tally/Measure.antt =====
-- A measure of the counters of the budget, which a model step of agent_loop.py lowers and a tool call
-- does not raise.
use coding_agent_neo.Prelude.{ℕ, suc, ◌+◌, ◌≡◌, refl, Bool, true, false, none, some, List, [], ◌∷◌}
use coding_agent_neo.Prelude.Int.{pos}
use coding_agent_neo.Models.{NormalizedAssistantResponse}
use coding_agent_neo.Runtime.Budget.{
  tool_calls, wall_time, LimitReason, exhausts, record_model_step, record_tool_call,
  validate_nonnegative,
}
use coding_agent_neo.AgentLoop.Monad.{
  ◌>>=◌, pure, gets, modify, Holds, Holds-pure, Holds-gets, Holds->>=, Holds->>, Holds-weaken,
  Holds-elim,
}
use coding_agent_neo.AgentLoop.Monad.Keeps.{Keeps, Keeps-gets}
use coding_agent_neo.AgentLoop.Boundary.{Boundary, PlannedToolCall}
use coding_agent_neo.AgentLoop.Session.{Loop}
use coding_agent_neo.AgentLoop.Prepare.{on_budget}
use coding_agent_neo.AgentLoop.Turn.{
  Step, calls_exhausted, end_limited, run_plan, run_calls, act_on, model_step, finish_or_recover,
}
use coding_agent_neo.AgentLoop.Frame.{
  Counters, Mild, Keeps-emit, Keeps-check_interrupt, Keeps-check_active_view, Keeps-past_deadline,
}
use coding_agent_neo.AgentLoop.Frame.Compaction.{Keeps-record_usage}
use coding_agent_neo.AgentLoop.Frame.Prepare.{Keeps-complete_model_request}
use coding_agent_neo.AgentLoop.Paired.Turn.{plan_calls-Keeps}
use coding_agent_neo.AgentLoop.Tally.{
  tally, of_view, counted_mild, append_message-Stays, set_pending-Stays,
}
use coding_agent_neo.AgentLoop.Tally.Turn.{
  end_interrupted-Stays, end_limited-Stays, finish_or_recover-Stays, execute_and_count-Stays,
  remember-Stays,
}

-- `P n` is what the counters satisfy where `n` more rounds suffice, `E` what they do at the end, and
-- `D` what they would where the rounds did not suffice.
pub record Measure (P : ℕ → Counters → Type 0) (E D : Counters → Type 0) : Type 0 where
  pub calls :
      (n : ℕ) (c : Counters)
      → exhausts c.max_tool_calls c.tool_calls ≡ false
      → P n c
      → P n (record c { tool_calls = c.tool_calls + 1 })
  pub steps :
      (n : ℕ) (c : Counters)
      → exhausts c.max_steps c.model_steps ≡ false
      → P (suc n) c
      → P n (record c { model_steps = c.model_steps + 1 })
  pub ends : (n : ℕ) (c : Counters) → P n c → E c
  pub stops : (c : Counters) → exhausts c.max_steps c.model_steps ≡ false → P 0 c → D c

-- The end of a turn, and of one that its rounds do not suffice for.
abbrev pub Ended : (E D : Counters → Type 0) → Step → Counters → Type 0
Ended E D (some r) c = E c
Ended E D none c = D c

abbrev pub HasSteps : Counters → Type 0
HasSteps c = exhausts c.max_steps c.model_steps ≡ false

module _ {W : Type 0} {P : ℕ → Counters → Type 0} {E D : Counters → Type 0}
    (measure : Measure P E D) (x : Boundary W) where
  abbrev Runs : {A : Type 0} → (Counters → Type 0) → Loop W A → (A → Counters → Type 0) → Type 0
  Runs before m after =
      Holds (λ _ s. E (tally s)) (λ s. before (tally s)) m (λ a s. after a (tally s))

  go_on-Runs :
      (n : ℕ) {m : Loop W Step} (step : Step)
      → Runs (P n) m (λ _. P n)
      → Runs (P n) (elim step [ some r ↦ pure (some r) | none ↦ m ]) (λ _. P n)
  go_on-Runs n (some r) h = Holds-pure (some r) (λ s p. p)
  go_on-Runs n none h = h

  run_plan-Runs :
      (n : ℕ) (plan : PlannedToolCall) (plans : List PlannedToolCall)
      → Runs
          (λ c. P n c × (exhausts c.max_tool_calls c.tool_calls ≡ false))
          (run_plan x plan plans)
          (λ _. P n)
  unfolding on_budget ◌>>=◌ gets modify record_tool_call validate_nonnegative
  run_plan-Runs n plan plans =
      Holds->> _ counts (execute_and_count-Stays (measure.ends n) x plan plans).holds
    where
      counts :
          Runs
            (λ c. P n c × (exhausts c.max_tool_calls c.tool_calls ≡ false))
            (on_budget (record_tool_call (pos 1)))
            (λ _. P n)
      counts = record { run = λ s p. measure.calls n _ p.1 p.0 }

  stays :
      {A : Type 0} (n : ℕ) {m : Loop W A} → Keeps tally (λ _. E) (P n) m → Runs (P n) m (λ _. P n)
  stays n h = h.holds

  limited-Runs :
      (n : ℕ) (reason : LimitReason) (b : Bool)
      → Runs
          (λ c. P n c × (exhausts c.max_tool_calls c.tool_calls ≡ b))
          (end_limited x reason)
          (λ _. P n)
  limited-Runs n reason b =
      Holds-weaken _ (end_limited-Stays (measure.ends n) x reason).holds (λ s p. p.0) (λ _ s p. p)

  -- The tests in front of a call, and the call.
  within-Runs :
      (n : ℕ) (plan : PlannedToolCall) (plans : List PlannedToolCall) {m : Loop W Step}
      → Runs (P n) m (λ _. P n)
      → (past exhausted : Bool)
      → Runs
          (λ c. P n c × (exhausts c.max_tool_calls c.tool_calls ≡ exhausted))
          (elim past [
            | true ↦ end_limited x wall_time
            | false ↦ elim exhausted [
              | true ↦ end_limited x tool_calls
              | false ↦
                  run_plan x plan plans >>= λ step. elim step [ some r ↦ pure (some r) | none ↦ m ]
            ]
          ])
          (λ _. P n)
  within-Runs n plan plans h true exhausted = limited-Runs n _ exhausted
  within-Runs n plan plans h false true = limited-Runs n _ true
  within-Runs n plan plans h false false =
      Holds->>= _ (run_plan-Runs n plan plans) (λ step. go_on-Runs n step h)

  run_calls-Runs :
      (n : ℕ) (plans : List PlannedToolCall) → Runs (P n) (run_calls x plans) (λ _. P n)
  unfolding run_calls
  run_calls-Runs n [] = Holds-pure none (λ s p. p)
  run_calls-Runs n (plan ∷ plans) =
      let mild : Mild (λ _ v. E v.counted) (λ v. P n v.counted) = counted_mild (measure.ends n) in
      Holds->> _ (stays n (of_view (Keeps-check_interrupt mild x))) (
        Holds->> _ (stays n (of_view (Keeps-check_active_view mild x))) (
          Holds->>= _ (stays n (of_view (Keeps-past_deadline x))) (λ past.
            Holds->>= (λ b s. P n (tally s) × (calls_exhausted s.budget ≡ b))
              (Holds-gets _ (λ s p. (p, refl)))
              (within-Runs n plan plans (run_calls-Runs n plans) past))))

  act_on-Runs :
      (n : ℕ) (response : NormalizedAssistantResponse) (plans : List PlannedToolCall)
      → Runs (P n) (act_on x response plans) (λ _. P n)
  unfolding act_on
  act_on-Runs n response plans = Holds->>= _ (stays n (Keeps-gets _)) (λ is_set.
      Holds-elim is_set (stays n (end_interrupted-Stays (measure.ends n) x)) (
        Holds->>= _ (stays n (of_view (Keeps-past_deadline x))) (λ past.
          Holds-elim past (stays n (end_limited-Stays (measure.ends n) x _)) (answer plans))))
    where
      answer :
          (plans : List PlannedToolCall)
          → Runs
              (P n)
              (elim plans [
                | [] ↦ finish_or_recover x response
                | plan ∷ rest ↦ run_calls x (plan ∷ rest)
              ])
              (λ _. P n)
      answer [] = stays n (finish_or_recover-Stays (measure.ends n) x response)
      answer (plan ∷ rest) = run_calls-Runs n (plan ∷ rest)

  count_step-Runs :
      (n : ℕ)
      → Runs (λ c. P (suc n) c × HasSteps c) (on_budget (record_model_step (pos 1))) (λ _. P n)
  unfolding on_budget ◌>>=◌ gets modify record_model_step validate_nonnegative
  count_step-Runs n = record { run = λ s p. measure.steps n _ p.1 p.0 }

  pub model_step-Runs : (n : ℕ) → Runs (λ c. P (suc n) c × HasSteps c) (model_step x) (λ _. P n)
  unfolding model_step
  model_step-Runs n =
      let mild : Mild (λ _ v. E v.counted) (λ v. P n v.counted) = counted_mild (measure.ends n) in
      Holds->> _ (count_step-Runs n) (
        Holds->>= _
          (stays n (of_view (Keeps-complete_model_request (λ e v. measure.ends n v.counted) x)))
          (λ response. Holds->> _ (stays n (of_view (Keeps-record_usage mild response.usage))) (
            Holds->>= _ (stays n (of_view (plan_calls-Keeps x response.tool_calls))) (λ plans.
              Holds->>= _ (stays n (of_view (Keeps-emit mild x _))) (λ sequence.
                Holds->> _ (stays n (append_message-Stays (measure.ends n) _ _)) (
                  Holds->> _ (stays n (set_pending-Stays (measure.ends n) plans)) (
                    Holds->> _ (stays n (remember-Stays (measure.ends n) x response.text))
                      (act_on-Runs n response plans))))))))
