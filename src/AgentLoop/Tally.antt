-- ===== src/AgentLoop/Tally.antt =====
-- What the calls of agent_loop.py do to the counters of the budget: nothing, but for `run_turn`'s own
-- steps and tool calls.
pub mod Turn
pub mod Measure
pub mod Rounds
pub mod Limits
use coding_agent_neo.Prelude.{
  ℕ, refl, Bool, true, false, Option, none, some, List, [], ◌∷◌, Result, ok, err, ArgumentError,
  if◌then◌else◌, Text, text_eq,
}
use coding_agent_neo.Json.{Fields}
use coding_agent_neo.Models.{
  ToolResult, ToolResultStatus, NormalizedToolCall, NormalizedAssistantResponse,
}
use coding_agent_neo.Runtime.State.{ContextState}
use coding_agent_neo.Runtime.Budget.{BudgetTracker, LimitReason, record_protocol_error}
use coding_agent_neo.AgentLoop.Monad.{
  ◌>>=◌, ◌>>◌, Action, Raise, failure, interrupt, pure, raise, gets, modify, Holds,
}
use coding_agent_neo.AgentLoop.Monad.Keeps.{
  Keeps, Keeps-pure, Keeps-raise, Keeps-gets, Keeps-modify, Keeps-when, Keeps-elim, Keeps-catch,
  Keeps->>=, Keeps->>, keeps_rules,
}
use coding_agent_neo.AgentLoop.Boundary.{
  Boundary, AgentLoop, AgentLoopResult, PlannedToolCall, Executed, executed, interrupted, broken,
}
use coding_agent_neo.AgentLoop.Session.{Loop}
use coding_agent_neo.AgentLoop.Calls.{
  append_message, set_context, append_result, tool_message, or_invalid, execute_plan, or_unwind,
  skip_plans, skip_pending_plans, consume, consume_published_result, set_pending, plan_calls,
}
use coding_agent_neo.AgentLoop.Turn.{
  Step, returns, end_interrupted, end_limited, recover_empty_response, finish_or_recover,
  count_result, limited_or_on, remember, pair_pending, cancel_by_keyboard, set_cancelled,
  interrupted_by, handle_raise,
}
use coding_agent_neo.AgentLoop.Frame.{
  View, view, Counters, counters, Mild, Keeps-outside, Keeps-or_fail, Keeps-emit, Keeps-end_turn,
  Keeps-limit_result, Keeps-interrupted_result, Keeps-failed_result,
}
use coding_agent_neo.AgentLoop.Frame.Compaction.{Keeps-on_budget}

abbrev pub tally : {W : Type 0} → AgentLoop W → Counters
tally s = counters s.budget

-- What keeps a property of the view keeps one of the counters.
pub of_view :
    {W A : Type 0} {After : Raise → Counters → Type 0} {P : Counters → Type 0} {m : Loop W A}
    → Keeps view (λ e v. After e v.counted) (λ v. P v.counted) m
    → Keeps tally After P m
of_view h = record { holds = record { run = h.holds.run } }

pub counted_mild :
    {E P : Counters → Type 0} (covers : (c : Counters) → P c → E c)
    → Mild (λ _ v. E v.counted) (λ v. P v.counted)
counted_mild covers = record {
  interrupts = λ t v. covers v.counted;
  fails = λ t o v. covers v.counted;
}

module _ {W : Type 0} {E P : Counters → Type 0} (covers : (c : Counters) → P c → E c) where
  abbrev Stays : {A : Type 0} → Loop W A → Type 0
  Stays m = Keeps tally (λ _. E) P m

  pub raises : {A : Type 0} (e : Raise) → Stays (raise {A = A} e)
  raises e = Keeps-raise e covers

  set_context-Stays : (r : Result Raise ContextState) → Stays (set_context r)
  set_context-Stays (ok c) = Keeps-modify _ (λ s. refl)
  set_context-Stays (err e) = raises e

  pub append_message-Stays :
      (message : Fields) (sequence : Option ℕ) → Stays (append_message message sequence)
  unfolding append_message
  append_message-Stays message sequence = Keeps->>= (Keeps-gets _) set_context-Stays

  pub set_pending-Stays : (plans : List PlannedToolCall) → Stays (set_pending plans)
  set_pending-Stays plans = Keeps-modify _ (λ s. refl)

  module _ (x : Boundary W) where
    or_invalid-Stays : (id : Text) (r : Result ArgumentError Fields) → Stays (or_invalid x id r)
    or_invalid-Stays id (ok projection) = Keeps-pure _
    or_invalid-Stays id (err e) = raises _

    pub append_result-Stays :
        (plan : PlannedToolCall) (result : ToolResult) → Stays (append_result x plan result)
    unfolding append_result tool_message
    append_result-Stays plan result =
        Keeps->>= (or_invalid-Stays _ _) (λ m. Keeps->>= (Keeps-gets _) (append_message-Stays m))

    or_unwind-Stays : (r : Executed) → Stays (or_unwind x r)
    or_unwind-Stays (executed result) = Keeps-pure result
    or_unwind-Stays (interrupted t) = raises _
    or_unwind-Stays (broken t) = raises _

    pub execute_plan-Stays : (plan : PlannedToolCall) → Stays (execute_plan x plan)
    unfolding execute_plan
    execute_plan-Stays plan = Keeps->>= (of_view (Keeps-outside _)) or_unwind-Stays

    skip_plans-Stays :
        (reason : Text) (status : ToolResultStatus) (plans : List PlannedToolCall)
        → Stays (skip_plans x reason status plans)
    unfolding skip_plans
    skip_plans-Stays reason status [] = Keeps-pure tt
    skip_plans-Stays reason status (plan ∷ plans) = Keeps->> (set_pending-Stays plans) (
        Keeps->>= (of_view (Keeps-outside _)) (λ outcome.
          Keeps->>= (of_view (Keeps-or_fail (counted_mild covers) outcome)) (λ result.
            Keeps->> (append_result-Stays plan result) (skip_plans-Stays reason status plans))))

    skip_pending_plans-Stays :
        (reason : Text) (status : ToolResultStatus) → Stays (skip_pending_plans x reason status)
    unfolding skip_pending_plans
    skip_pending_plans-Stays reason status =
        Keeps->>= (Keeps-gets _) (skip_plans-Stays reason status)

    consume-Stays :
        (plans : List PlannedToolCall) (result : Option ToolResult) → Stays (consume x plans result)
    consume-Stays [] result = Keeps-pure tt
    consume-Stays (plan ∷ plans) none = Keeps-pure tt
    consume-Stays (plan ∷ plans) (some result) =
        either (text_eq result.correlation_id plan.correlation_id)
      where
        either :
            (b : Bool)
            → Stays (if b then set_pending plans >> append_result x plan result else pure tt)
        either true = Keeps->> (set_pending-Stays plans) (append_result-Stays plan result)
        either false = Keeps-pure tt

    consume_published_result-Stays : Stays (consume_published_result x)
    unfolding consume_published_result
    consume_published_result-Stays =
        Keeps->>= (Keeps-gets _) (λ plans. Keeps->>= (Keeps-gets _) (consume-Stays plans))
