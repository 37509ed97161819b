-- ===== src/AgentLoop/Paired/Handlers.antt =====
-- How the handlers of `run_turn` in agent_loop.py leave the conversation, and so how a turn does.
use coding_agent_neo.Prelude.{
  ◌≡◌, refl, ◌≢◌, Bool, Option, none, some, List, [], Result, ok, err, ArgumentError, Text,
}
use coding_agent_neo.Models.{failed, ToolResultStatus}
use coding_agent_neo.Runtime.Cancellation.{CancellationSignal}
use coding_agent_neo.Runtime.Budget.{context_window, LimitReason}
use coding_agent_neo.AgentLoop.Monad.{
  when, Raise, limit_exceeded, window_exceeded, interrupt, failure, raise, Holds, Holds-pure,
  Holds-raise, Holds-gets, Holds-modify, Holds->>=, Holds->>, Holds-weaken, Holds-any, Holds-ok,
  Holds-catch, Holds-when,
}
use coding_agent_neo.AgentLoop.Monad.Keeps.{
  Keeps, Keeps-raise, Keeps-gets, Keeps-modify, Keeps-when, Keeps->>=,
}
use coding_agent_neo.AgentLoop.Boundary.{Boundary, AgentLoop, AgentLoopResult, PlannedToolCall}
use coding_agent_neo.AgentLoop.Session.{
  finish_session, Loop, failed_result, loop_result, limit_result,
}
use coding_agent_neo.AgentLoop.Turn.{
  Step, returns, pair_pending, cancel_by_keyboard, set_cancelled, interrupted_by, handle_raise,
  run_turn,
}
use coding_agent_neo.AgentLoop.Frame.{
  View, view, Mild, Keeps-finish_session, Keeps-limit_result, Keeps-interrupted_result,
}
use coding_agent_neo.AgentLoop.Paired.{IsPaired}
use coding_agent_neo.AgentLoop.Paired.Calls.{
  Open, Left, skip_pending_plans-Leads, consume_published_result-Leads,
}
use coding_agent_neo.AgentLoop.Paired.Turn.{try_turn-Rounds}
use coding_agent_neo.AgentLoop.Paired.Round.{Goes}

-- What a turn promises of the conversation: nothing, where it failed.
abbrev Ended : Step → View → Type 0
Ended (some r) v = r.state ≢ failed → Open [] v
Ended none v = Open [] v

abbrev Nothing : {A : Type 0} → A → View → Type 0
Nothing _ _ = Unit

-- Whether the conversation was settled by a handler, or an exception was raised there.
abbrev Owed : Option Raise → View → Type 0
Owed none v = Open [] v
Owed (some e) v = Unit

lax : (P : View → Type 0) → Mild Nothing P
lax P = record { interrupts = λ t v p. tt; fails = λ t o v p. tt }

module _ {W : Type 0} (x : Boundary W) where
  abbrev Concludes : {A : Type 0} → (View → Type 0) → Loop W A → (A → View → Type 0) → Type 0
  Concludes P m Q = Holds (λ e s. Unit) (λ s. P (view s)) m (λ a s. Q a (view s))

  failed_result-Concludes :
      (error : Raise) → Concludes (λ v. Unit) (failed_result x error) (λ r v. r.state ≡ failed)
  unfolding failed_result loop_result
  failed_result-Concludes error = Holds->> _ (Holds-any _) (
      Holds->> _ (Holds-any _) (
        Holds->>= (λ r s. r.state ≡ failed)
          (Holds->> _ (Holds-any _)
            (Holds->>= _ (Holds-any _) (λ text. Holds-pure _ (λ s p. refl))))
          (λ result.
            Holds->> _ (finished (λ v. result.state ≡ failed) _) (Holds-pure result (λ s p. p)))))
    where
      finished :
          (P : View → Type 0) (reason : Text)
          → Concludes P (finish_session x failed reason) (λ _. P)
      finished P reason = (Keeps-finish_session {After = Nothing} {P = P} x failed reason).holds

  fails-Concludes : (error : Raise) → Concludes (λ v. Unit) (returns (failed_result x error)) Ended
  fails-Concludes error =
      Holds->>= _ (failed_result-Concludes error)
        (λ r. Holds-pure (some r) (λ s p not. absurd (not p)))

  pair_pending-Concludes :
      (reason : Text) (status : ToolResultStatus) (plans : List PlannedToolCall)
      → Concludes (Open plans) (pair_pending x reason status) Owed
  unfolding pair_pending
  pair_pending-Concludes reason status plans =
      Holds-catch (λ e s. Left e (view s))
        (Holds->> _ (consume_published_result-Leads x plans) (
          Holds->> _
            (record { run = λ s. (skip_pending_plans-Leads x reason status s.pending_plans).run s })
            (Holds-pure none (λ s p. p))))
        (λ e. Holds-pure (some e) (λ s p. tt))

  set_cancelled-Keeps :
      (P : View → Type 0) (r : Result ArgumentError (CancellationSignal × Bool))
      → Keeps view Nothing P (set_cancelled x r)
  set_cancelled-Keeps P (ok (signal, changed)) = Keeps-modify _ (λ s. refl)
  set_cancelled-Keeps P (err e) = Keeps-raise _ (λ v p. tt)

  cancel_by_keyboard-Keeps : (P : View → Type 0) → Keeps view Nothing P (cancel_by_keyboard x)
  unfolding cancel_by_keyboard
  cancel_by_keyboard-Keeps P =
      Keeps->>= (Keeps-gets _) (λ signal. Keeps-when _ (set_cancelled-Keeps P _))

  ended :
      {m : Loop W AgentLoopResult}
      → Concludes (Open []) m (λ _. Open [])
      → Concludes (Open []) (returns m) Ended
  ended h = Holds->>= _ h (λ r. Holds-pure (some r) (λ s p _. p))

  settled :
      {A : Type 0} {m : Loop W A}
      → Keeps view Nothing (Open []) m
      → Concludes (Open []) m (λ _. Open [])
  settled h = h.holds

  interrupted_by-Concludes :
      (error_type : Text) (raised : Option Raise)
      → Concludes (Owed raised) (interrupted_by x error_type raised) Ended
  interrupted_by-Concludes error_type (some e) = fails-Concludes e
  interrupted_by-Concludes error_type none =
      Holds->> _ (settled (cancel_by_keyboard-Keeps (Open []))) (
        Holds->>= _ (settled (Keeps-gets _))
          (λ reason. ended (settled (Keeps-interrupted_result x reason))))

  limit-Concludes :
      (reason : LimitReason) → Concludes (Open []) (returns (limit_result x reason)) Ended
  limit-Concludes reason = ended (settled (Keeps-limit_result (lax (Open [])) x reason))

  handle_raise-Concludes : (e : Raise) → Concludes (Left e) (handle_raise x e) Ended
  unfolding handle_raise
  handle_raise-Concludes (limit_exceeded reason) = limit-Concludes reason
  handle_raise-Concludes window_exceeded = limit-Concludes context_window
  handle_raise-Concludes (interrupt error_type) =
      Holds->>= (λ raised s. Owed raised (view s))
        (record { run = λ s. (pair_pending-Concludes _ _ s.pending_plans).run s })
        (interrupted_by-Concludes error_type)
  handle_raise-Concludes (failure error_type overflow) =
      Holds->>= _ (Holds-any _) (λ raised. fails-Concludes _)

  Goes-Ended : (step : Step) (v : View) → Goes [] step v → Ended step v
  Goes-Ended (some r) v p = λ _. p
  Goes-Ended none v p = p

  run_turn-Concludes :
      (message : Text) → Concludes (λ v. IsPaired v.recent_messages) (run_turn x message) Ended
  unfolding run_turn
  run_turn-Concludes message = Holds->> _ (refuses _ _) (
      Holds->>= _ (Holds-gets _ (λ s p. p)) (λ closed. Holds->> _ (refuses closed _) (
        Holds->>= _ (Holds-gets _ (λ s p. p)) (λ active. Holds->> _ (refuses active _) (
          Holds->> (λ s. Open [] (view s))
            (Holds-modify _ (λ s p. record { awaits = p; pends = refl }))
            (Holds-catch (λ e s. Left e (view s))
              (Holds-weaken _ (try_turn-Rounds x message) (λ s p. p)
                (λ step s. Goes-Ended step (view s)))
              handle_raise-Concludes))))))
    where
      refuses :
          (b : Bool) (e : Raise)
          → Concludes
              (λ v. IsPaired v.recent_messages)
              (when b (raise e))
              (λ _ v. IsPaired v.recent_messages)
      refuses b e = Holds-when b (Holds-raise _ (λ s p. tt)) (λ s p. p)

-- A turn that does not fail answers every tool call that its assistant messages declare, whichever
-- way it ends: from a conversation in which every call is answered by a tool message with its ID, in
-- the order of the calls and before any other message, it leads to another such conversation.
pub run_turn-IsPaired :
    {W : Type 0} (x : Boundary W) (message : Text) (s t : AgentLoop W) (r : AgentLoopResult)
    → IsPaired s.context_state.recent_messages
    → run_turn x message s ≡ (ok (some r), t)
    → r.state ≢ failed
    → IsPaired t.context_state.recent_messages
run_turn-IsPaired x message s t r paired ends lasts =
    (Holds-ok (run_turn-Concludes x message) paired ends lasts).awaits
