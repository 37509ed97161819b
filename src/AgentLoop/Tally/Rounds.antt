-- ===== src/AgentLoop/Tally/Rounds.antt =====
-- What `run_turn` of agent_loop.py does to a measure of the counters of the budget.
use coding_agent_neo.Prelude.{
  ℕ, zero, suc, ◌≡◌, refl, Bool, false, Option, none, some, arith, get_or, Text,
}
use coding_agent_neo.Runtime.Budget.{BudgetTracker, LimitReason, exhausts}
use coding_agent_neo.AgentLoop.Monad.{
  Holds-both, Raise, raise, when, Holds, Holds-pure, Holds-raise, Holds-gets, Holds-modify,
  Holds->>=, Holds->>, Holds-weaken, Holds-catch, Holds-when,
}
use coding_agent_neo.AgentLoop.Monad.Keeps.{Keeps}
use coding_agent_neo.AgentLoop.Boundary.{Boundary}
use coding_agent_neo.AgentLoop.Session.{
  limit_after, Loop, limit_result, counted_limit, current_limit,
}
use coding_agent_neo.AgentLoop.Turn.{
  handle_raise, Step, returns, checked, or_again, turn_loop, try_turn, run_turn,
}
use coding_agent_neo.AgentLoop.Frame.{
  Counters, Mild, Keeps-emit, Keeps-limit_result, Keeps-check_interrupt, Keeps-check_active_view,
  Keeps-limit_after, Keeps-start_session,
}
use coding_agent_neo.AgentLoop.Tally.{tally, of_view, counted_mild, append_message-Stays}
use coding_agent_neo.AgentLoop.Tally.Turn.{handle_raise-Final, Final, handle_raise-Remains}
use coding_agent_neo.AgentLoop.Tally.Measure.{Ended, Measure, HasSteps, model_step-Runs}

counted_limit-none :
    (b : BudgetTracker) → counted_limit b ≡ none → exhausts b.max_steps b.model_steps ≡ false
unfolding counted_limit
counted_limit-none b h = ground (arith, h)

module _ {W : Type 0} {P : ℕ → Counters → Type 0} {E D : Counters → Type 0}
    (measure : Measure P E D) (x : Boundary W) where
  abbrev Runs : {A : Type 0} → (Counters → Type 0) → Loop W A → (A → Counters → Type 0) → Type 0
  Runs before m after =
      Holds (λ _ s. E (tally s)) (λ s. before (tally s)) m (λ a s. after a (tally s))

  stays :
      {A : Type 0} (n : ℕ) {m : Loop W A} → Keeps tally (λ _. E) (P n) m → Runs (P n) m (λ _. P n)
  stays n h = h.holds

  -- Where no limit is met, the model steps left are at least one.
  limit_after-Runs :
      (n : ℕ) (limit : Option LimitReason)
      → Runs
          (λ c. P n c × (limit ≡ none → HasSteps c))
          (limit_after x limit)
          (λ l c. P n c × (l ≡ none → HasSteps c))
  limit_after-Runs n (some reason) = Holds-pure (some reason) (λ s p. p)
  limit_after-Runs n none =
      Holds-weaken _ here.holds (λ s p. (p.0, p.1 refl)) (λ l s p. (p.0, λ _. p.1))
    where
      here : Keeps tally (λ _. E) (λ c. P n c × HasSteps c) (limit_after x none)
      here = of_view (Keeps-limit_after x none)

  current_limit-Runs :
      (n : ℕ) → Runs (P n) (current_limit x) (λ l c. P n c × (l ≡ none → HasSteps c))
  unfolding current_limit
  current_limit-Runs n =
      Holds->>= (λ l s. P n (tally s) × (l ≡ none → HasSteps (tally s)))
        (Holds-gets _ (λ s p. (p, counted_limit-none s.budget))) (limit_after-Runs n)

  limit-Runs :
      (n : ℕ) {m : Loop W Step} (limit : Option LimitReason)
      → Runs (λ c. P n c × HasSteps c) m (Ended E D)
      → Runs
          (λ c. P n c × (limit ≡ none → HasSteps c))
          (elim limit [ some reason ↦ returns (limit_result x reason) | none ↦ m ])
          (Ended E D)
  limit-Runs n none h = Holds-weaken _ h (λ s p. (p.0, p.1 refl)) (λ _ s p. p)
  limit-Runs n (some reason) h =
      Holds->>= (λ r s. P n (tally s))
        (Holds-weaken _
          (stays n (of_view (Keeps-limit_result (counted_mild (measure.ends n)) x reason)))
          (λ s p. p.0) (λ _ s p. p))
        (λ r. Holds-pure (some r) (λ s p. measure.ends n _ p))

  checked-Runs :
      (n : ℕ) {m : Loop W Step}
      → Runs (λ c. P n c × HasSteps c) m (Ended E D)
      → Runs (P n) (checked x m) (Ended E D)
  unfolding checked
  checked-Runs n h =
      let mild : Mild (λ _ v. E v.counted) (λ v. P n v.counted) = counted_mild (measure.ends n) in
      Holds->> _ (stays n (of_view (Keeps-check_interrupt mild x))) (
        Holds->> _ (stays n (of_view (Keeps-check_active_view mild x)))
          (Holds->>= _ (current_limit-Runs n) (λ limit. limit-Runs n limit h)))

  or_again-Runs :
      (n : ℕ) {m : Loop W Step} (step : Step)
      → Runs (P n) m (Ended E D)
      → Runs (P n) (or_again x m step) (Ended E D)
  or_again-Runs n (some r) h = Holds-pure (some r) (λ s p. measure.ends n _ p)
  or_again-Runs n none h = h

  turn_loop-Runs : (n : ℕ) → Runs (P n) (turn_loop x n) (Ended E D)
  unfolding turn_loop
  turn_loop-Runs zero = checked-Runs 0 (Holds-pure none (λ s p. measure.stops _ p.1 p.0))
  turn_loop-Runs (suc n) =
      checked-Runs (suc n) (
        Holds->>= _ (model_step-Runs measure x n) (λ step. or_again-Runs n step (turn_loop-Runs n)))

  -- The measure that `try_turn` starts with.
  abbrev Whole : Counters → Type 0
  Whole c = P (get_or c.max_steps 0) c

  try_turn-Runs : (message : Text) → Runs Whole (try_turn x message) (Ended E D)
  unfolding try_turn
  try_turn-Runs message =
      let covers : (c : Counters) → Whole c → E c = λ c. measure.ends _ c in
      let mild : Mild (λ _ v. E v.counted) (λ v. Whole v.counted) = counted_mild covers in
      Holds->> _ (whole (of_view (Keeps-check_active_view mild x))) (
        Holds->> _ (whole (of_view (Keeps-start_session mild x))) (
          Holds->>= _ (whole (of_view (Keeps-emit mild x _))) (λ sequence.
            Holds->> _ (whole (append_message-Stays covers _ _))
              (Holds->>= (λ fuel s. P fuel (tally s)) (Holds-gets _ (λ s p. p)) turn_loop-Runs))))
    where
      whole : {A : Type 0} {m : Loop W A} → Keeps tally (λ _. E) Whole m → Runs Whole m (λ _. Whole)
      whole h = h.holds

  settled : (step : Step) (c : Counters) → E c × Final step → (Ended E D) step c
  settled (some r) c p = p.0
  settled none c p = absurd (p.1)

  handle_raise-Runs : (e : Raise) → Runs E (handle_raise x e) (Ended E D)
  handle_raise-Runs e =
      Holds-weaken _ (Holds-both (handle_raise-Remains E x e).holds (handle_raise-Final x e))
        (λ s p. p) (λ step s. settled step (tally s))

  pub run_turn-Runs : (message : Text) → Runs Whole (run_turn x message) (Ended E D)
  unfolding run_turn
  run_turn-Runs message = Holds->> _ (refuses _ _) (
      Holds->>= _ (Holds-gets _ (λ s p. p)) (λ closed. Holds->> _ (refuses closed _) (
        Holds->>= _ (Holds-gets _ (λ s p. p)) (λ active. Holds->> _ (refuses active _) (
          Holds->> (λ s. Whole (tally s)) (Holds-modify _ (λ s p. p))
            (Holds-catch (λ _ s. E (tally s)) (try_turn-Runs message) handle_raise-Runs))))))
    where
      refuses : (b : Bool) (e : Raise) → Runs Whole (when b (raise e)) (λ _. Whole)
      refuses b e = Holds-when b (Holds-raise e (λ s p. measure.ends _ _ p)) (λ s p. p)
