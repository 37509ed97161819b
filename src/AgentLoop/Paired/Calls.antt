-- ===== src/AgentLoop/Paired/Calls.antt =====
-- The calls of agent_loop.py that answer, execute or skip what a conversation awaits.
use coding_agent_neo.Prelude.{
  ℕ, ◌≡◌, refl, ◌∙◌, Bool, true, false, Option, none, some, List, [], ◌∷◌, Result, ok, err,
  ArgumentError, if◌then◌else◌, Text, text_eq,
}
use coding_agent_neo.Json.{Fields}
use coding_agent_neo.Models.{ToolResult, ToolResultStatus}
use coding_agent_neo.Runtime.State.{ContextState}
use coding_agent_neo.AgentLoop.Monad.{
  Holds-fact, ◌>>◌, ◌>>=◌, Raise, limit_exceeded, window_exceeded, interrupt, failure, pure, raise,
  gets, modify, Holds, Ends, Holds-pure, Holds-raise, Holds-gets, Holds->>=, Holds->>, Holds-weaken,
}
use coding_agent_neo.AgentLoop.Monad.Keeps.{Keeps, Keeps-pure, Keeps-raise, Keeps-gets, Keeps->>=}
use coding_agent_neo.AgentLoop.Boundary.{
  Boundary, AgentLoop, PlannedToolCall, Executed, executed, interrupted, broken,
}
use coding_agent_neo.AgentLoop.Session.{Loop, or_fail}
use coding_agent_neo.AgentLoop.Calls.{
  or_unwind, or_invalid, set_context, append_message, append_result, tool_message, execute_plan,
  skip_plans, skip_pending_plans, consume, consume_published_result, set_pending,
}
use coding_agent_neo.AgentLoop.Frame.{
  View, view, Mild, Keeps-outside, Keeps-interrupt, Keeps-failure,
}
use coding_agent_neo.AgentLoop.Paired.{
  awaited, awaited-append, meet, ids_of, Extends, appended-Extends, result_message,
  meet-result_message,
}

-- The conversation awaits these answers, and these plans are pending.
pub record Awaiting (ids : List Text) (plans : List PlannedToolCall) (v : View) : Type 0 where
  pub awaits : awaited [] v.recent_messages ≡ some ids
  pub pends : v.pending_plans ≡ plans

abbrev pub Open : List PlannedToolCall → View → Type 0
Open plans = Awaiting (ids_of plans) plans

-- What holds beside an exception of the turn.
abbrev pub Left : Raise → View → Type 0
Left (interrupt t) v = Open v.pending_plans v
Left (failure t o) v = Unit
Left _ v = Open [] v

Open-self : (plans : List PlannedToolCall) (v : View) → Open plans v → Open v.pending_plans v
Open-self plans v p = record { awaits = rw p.pends p.awaits; pends = refl }

pub Open-Mild : (plans : List PlannedToolCall) → Mild Left (Open plans)
Open-Mild plans = record { interrupts = λ t. Open-self plans; fails = λ t o v p. tt }

pub Open-covers : (e : Raise) (v : View) → Open [] v → Left e v
Open-covers (limit_exceeded r) v p = p
Open-covers window_exceeded v p = p
Open-covers (interrupt t) v p = (Open-Mild []).interrupts t v p
Open-covers (failure t o) v p = tt

-- Code that leads from one property of the view to another.
abbrev pub Leads : {W A : Type 0} → (View → Type 0) → Loop W A → (View → Type 0) → Type 0
Leads P m Q = Holds (λ e s. Left e (view s)) (λ s. P (view s)) m (λ _ s. Q (view s))

module _ {W : Type 0} where
  pub kept : {A : Type 0} (P : View → Type 0) {m : Loop W A} → Keeps view Left P m → Leads P m P
  kept P h = h.holds

  -- A failure leaves nothing to show.
  or_fail-Keeps :
      {A : Type 0} {P : View → Type 0} (r : Result Text A)
      → Keeps {S = AgentLoop W} view Left P (or_fail r)
  or_fail-Keeps (ok a) = Keeps-pure a
  or_fail-Keeps (err t) = Keeps-raise _ (λ v p. tt)

  pub set_pending-Leads :
      (ids : List Text) (old plans : List PlannedToolCall)
      → Leads {W = W} (Awaiting ids old) (set_pending plans) (Awaiting ids plans)
  unfolding modify
  set_pending-Leads ids old plans = record {
    run = λ s p. record { awaits = p.awaits; pends = refl };
  }

  set_context-run :
      (message : Fields) (ids more : List Text) (plans : List PlannedToolCall) (s : AgentLoop W)
      (r : Result Raise ContextState)
      → meet ids message ≡ some more
      → Extends message s.context_state r
      → Awaiting ids plans (view s)
      → Ends (λ e t. Left e (view t)) (λ _ t. Awaiting more plans (view t)) (set_context r s)
  unfolding modify raise
  set_context-run message ids more plans s (ok c) fits longer p = record {
    awaits =
        rw longer (awaited-append [] ids s.context_state.recent_messages message p.awaits ∙ fits);
    pends = p.pends;
  }
  set_context-run message ids more plans s (err (failure t o)) fits longer p = tt
  set_context-run message ids more plans s (err (limit_exceeded _)) fits longer p = elim longer [ ]
  set_context-run message ids more plans s (err window_exceeded) fits longer p = elim longer [ ]
  set_context-run message ids more plans s (err (interrupt _)) fits longer p = elim longer [ ]

  pub append_message-Leads :
      (message : Fields) (sequence : Option ℕ) (ids more : List Text) (plans : List PlannedToolCall)
      → meet ids message ≡ some more
      → Leads {W = W} (Awaiting ids plans) (append_message message sequence) (Awaiting more plans)
  unfolding append_message ◌>>=◌ gets
  append_message-Leads message sequence ids more plans fits = record {
    run = λ s p.
        set_context-run message ids more plans s _ fits
          (appended-Extends message sequence s.context_state) p;
  }

  module _ (x : Boundary W) where
    or_invalid-Holds :
        (id : Text) (r : Result ArgumentError Fields) (ids : List Text)
        (plans : List PlannedToolCall)
        → Holds
            (λ e s. Left e (view s))
            (λ s. Awaiting ids plans (view s))
            (or_invalid x id r)
            (λ m s.
              Awaiting ids plans (view s) × ((content : Text) × (m ≡ result_message id content)))
    or_invalid-Holds id (ok projection) ids plans = Holds-pure _ (λ s p. (p, (_, refl)))
    or_invalid-Holds id (err e) ids plans = Holds-raise _ (λ s p. tt)

    pub append_result-Leads :
        (plan : PlannedToolCall) (result : ToolResult) (ids : List Text)
        (plans : List PlannedToolCall)
        → Leads {W = W}
            (Awaiting (plan.context_tool_call_id ∷ ids) plans)
            (append_result x plan result)
            (Awaiting ids plans)
    unfolding append_result tool_message
    append_result-Leads plan result ids plans =
        Holds->>= _ (or_invalid-Holds plan.context_tool_call_id _ _ plans) (λ m. Holds-fact (λ made.
          Holds->>= _ (Holds-gets _ (λ s p. p)) (λ sequence.
            append_message-Leads m sequence (plan.context_tool_call_id ∷ ids) ids plans
              (rw (made.1) (meet-result_message plan.context_tool_call_id made.0 ids)))))

    or_unwind-Keeps :
        {P : View → Type 0} (mild : Mild Left P) (r : Executed) → Keeps view Left P (or_unwind x r)
    or_unwind-Keeps mild (executed result) = Keeps-pure result
    or_unwind-Keeps mild (interrupted t) = Keeps-interrupt mild t
    or_unwind-Keeps mild (broken t) = Keeps-failure mild t false

    pub execute_plan-Keeps :
        {P : View → Type 0} (mild : Mild Left P) (plan : PlannedToolCall)
        → Keeps view Left P (execute_plan x plan)
    unfolding execute_plan
    execute_plan-Keeps mild plan = Keeps->>= (Keeps-outside _) (or_unwind-Keeps mild)

    pub skip_plans-Leads :
        (reason : Text) (status : ToolResultStatus) (plans : List PlannedToolCall)
        → Leads {W = W} (Open plans) (skip_plans x reason status plans) (Open [])
    unfolding skip_plans
    skip_plans-Leads reason status [] = Holds-pure tt (λ s p. p)
    skip_plans-Leads reason status (plan ∷ plans) = Holds->> _ (set_pending-Leads _ _ plans) (
        let P : View → Type 0 = Awaiting (ids_of (plan ∷ plans)) plans in
        Holds->>= _ (kept P (Keeps-outside _)) (λ outcome.
          Holds->>= _ (kept P (or_fail-Keeps outcome)) (λ result.
            Holds->> _ (append_result-Leads plan result (ids_of plans) plans)
              (skip_plans-Leads reason status plans))))

    pub skip_pending_plans-Leads :
        (reason : Text) (status : ToolResultStatus) (plans : List PlannedToolCall)
        → Leads {W = W} (Open plans) (skip_pending_plans x reason status) (Open [])
    unfolding skip_pending_plans
    skip_pending_plans-Leads reason status plans =
        Holds->>= (λ pending s. Open plans (view s) × (pending ≡ plans))
          (Holds-gets _ (λ s p. (p, p.pends)))
          (λ pending. Holds-fact (λ same. rw same (skip_plans-Leads reason status plans)))

    consume-Leads :
        (plans : List PlannedToolCall) (result : Option ToolResult)
        → Leads {W = W} (Open plans) (consume x plans result) (λ v. Open v.pending_plans v)
    consume-Leads [] result = Holds-pure tt (λ s. Open-self [] (view s))
    consume-Leads (plan ∷ plans) none = Holds-pure tt (λ s. Open-self (plan ∷ plans) (view s))
    consume-Leads (plan ∷ plans) (some result) =
        go (text_eq result.correlation_id plan.correlation_id)
      where
        go :
            (b : Bool)
            → Leads {W = W}
                (Open (plan ∷ plans))
                (if b then set_pending plans >> append_result x plan result else pure tt)
                (λ v. Open v.pending_plans v)
        go true = Holds->> _ (set_pending-Leads _ _ plans) (
            Holds-weaken _ (append_result-Leads plan result (ids_of plans) plans) (λ s p. p)
              (λ _ s. Open-self plans (view s)))
        go false = Holds-pure tt (λ s. Open-self (plan ∷ plans) (view s))

    pub consume_published_result-Leads :
        (plans : List PlannedToolCall)
        → Leads {W = W} (Open plans) (consume_published_result x) (λ v. Open v.pending_plans v)
    unfolding consume_published_result
    consume_published_result-Leads plans =
        Holds->>= (λ pending s. Open plans (view s) × (pending ≡ plans))
          (Holds-gets _ (λ s p. (p, p.pends)))
          (λ pending. Holds-fact (λ same.
            Holds->>= _ (kept (Open plans) (Keeps-gets _))
              (λ result. rw same (consume-Leads plans result))))
