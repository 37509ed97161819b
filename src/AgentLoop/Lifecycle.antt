-- ===== src/AgentLoop/Lifecycle.antt =====
-- When the session of agent_loop.py takes a turn, and how it closes.
pub mod Outcome
use coding_agent_neo.Prelude.{
  ◌≡◌, refl, inl, inr, Bool, true, false, ◌||◌, arith, Result, ok, err, if◌then◌else◌, Bool-cases,
  all, Text, chars, strip, is_empty,
}
use coding_agent_neo.Models.{RuntimeState}
use coding_agent_neo.AgentLoop.Monad.{
  Raise, failure, pure, raise, gets, when, ◌>>=◌, ◌>>◌, Holds, Ends, Holds-pure, Holds-any,
  Holds-catch,
}
use coding_agent_neo.AgentLoop.Monad.Keeps.{
  Keeps, Keeps-pure, Keeps-raise, Keeps-gets, Keeps-modify, Keeps->>=, Keeps->>, Keeps-when,
  Keeps-catch,
}
use coding_agent_neo.AgentLoop.Boundary.{LoopEvent, Boundary, AgentLoop, agent_end, session_end}
use coding_agent_neo.AgentLoop.Session.{
  emit, or_fail, outside, finish_session, close_environment, emit_best_effort,
}
use coding_agent_neo.AgentLoop.Turn.{run_turn}

-- A turn is refused, and nothing at all changes, where the message is blank, the session closed or
-- another turn under way.
pub run_turn-refuses :
    {W : Type 0} (x : Boundary W) (message : Text) (s : AgentLoop W)
    → is_empty (strip message) || s.session_closed || s.turn_active ≡ true
    → (error_type : Text) × (run_turn x message s ≡ (err (failure error_type false), s))
unfolding run_turn when raise gets ◌>>=◌ ◌>>◌ pure
run_turn-refuses x message s refused = elim (Bool-cases (is_empty (strip message))) [
  | inl blank ↦ (chars "ValueError", rw blank refl)
  | inr filled ↦ elim (Bool-cases s.session_closed) [
    | inl closed ↦ (chars "LoopClosedError", rw (filled, closed) refl)
    | inr free ↦
        let active : s.turn_active ≡ true = ground arith in
        (chars "RuntimeError", rw (filled, free, active) refl)
  ]
]

-- The state that the last turn ended in, and whether a turn is under way.
abbrev pub ended : {W : Type 0} → AgentLoop W → RuntimeState × Bool
ended s = (s.state, s.turn_active)

module _ {W : Type 0} (x : Boundary W) {P : RuntimeState × Bool → Type 0} where
  Keeps-outside :
      {After : Raise → RuntimeState × Bool → Type 0} {A : Type 0} (f : W → A × W)
      → Keeps ended After P (outside f)
  unfolding outside
  Keeps-outside f = record { holds = record { run = λ s p. p } }

  Keeps-or_fail :
      {A : Type 0} (r : Result Text A) → Keeps {S = AgentLoop W} ended (λ _. P) P (or_fail r)
  Keeps-or_fail (ok a) = Keeps-pure a
  Keeps-or_fail (err t) = Keeps-raise _ (λ v p. p)

  Keeps-emit_best_effort :
      {After : Raise → RuntimeState × Bool → Type 0} (event : LoopEvent)
      → Keeps ended After P (emit_best_effort x event)
  unfolding emit_best_effort emit
  Keeps-emit_best_effort event =
      Keeps-catch (Keeps->> (Keeps->>= (Keeps-outside _) Keeps-or_fail) (Keeps-pure tt))
        (λ e. Keeps-pure tt)

  Keeps-close_environment : Keeps ended (λ _. P) P (close_environment x)
  unfolding close_environment
  Keeps-close_environment = Keeps->>= (Keeps-gets _) (λ started. Keeps-when started (
      Keeps->>= (Keeps-outside _)
        (λ closed. Keeps->> (Keeps-modify _ (λ s. refl)) (Keeps-or_fail closed))))

  pub Keeps-finish_session :
      {After : Raise → RuntimeState × Bool → Type 0} (state : RuntimeState) (reason : Text)
      → Keeps ended After P (finish_session x state reason)
  unfolding finish_session
  Keeps-finish_session state reason = Keeps->>= (Keeps-gets _) (λ closed. Keeps-when _ (
      Keeps->> (Keeps-emit_best_effort _) (
        Keeps->> (Keeps-emit_best_effort _) (
          Keeps->> (Keeps-catch Keeps-close_environment (λ e. Keeps-pure tt))
            (Keeps-modify _ (λ s. refl))))))

-- The flag of the environment is down where the session is closed.
abbrev pub IsSound : {W : Type 0} → AgentLoop W → Type 0
IsSound s = s.session_closed ≡ true → s.environment_started ≡ false

abbrev pub IsShut : {W : Type 0} → AgentLoop W → Type 0
IsShut s = (s.session_closed ≡ true) × (s.environment_started ≡ false)

module _ {W : Type 0} (x : Boundary W) where
  pub outside-Holds :
      {After : Raise → AgentLoop W → Type 0} {P : AgentLoop W → Type 0} {A : Type 0} (f : W → A × W)
      → Holds After P (outside f) (λ _ s. Unit)
  unfolding outside
  outside-Holds f = record { run = λ s p. tt }

  pub emit_best_effort-Holds :
      {After : Raise → AgentLoop W → Type 0} {P : AgentLoop W → Type 0} (event : LoopEvent)
      → Holds After P (emit_best_effort x event) (λ _ s. Unit)
  unfolding emit_best_effort
  emit_best_effort-Holds event =
      Holds-catch (λ e s. Unit) (Holds-any _) (λ e. Holds-pure tt (λ s p. tt))

gives :
    {W : Type 0} (r : Result Raise (Unit {0}) × AgentLoop W)
    → Ends (λ e t. ⊥) (λ _ t. IsShut t) r
    → (t : AgentLoop W) × ((r ≡ (ok tt, t)) × IsShut t)
gives (ok tt, t) p = (t, (refl, p))
gives (err e, t) p = absurd p

-- The events of an end go out, and then the environment is closed, where it was started.
abbrev pub closing : {W : Type 0} → Boundary W → RuntimeState → Text → AgentLoop W → W
closing x state reason s =
    let ended_agent = (x.publish (agent_end state reason) s.world).1 in
    let ended_session = (x.publish (session_end state reason) ended_agent).1 in
    if s.environment_started then (x.close_environment ended_session).1 else ended_session
