-- ===== src/AgentLoop/Frame/Compaction.antt =====
-- What a compaction in agent_loop.py leaves alone.
use coding_agent_neo.Prelude.{
  ℕ, ◌≡◌, refl, Bool, true, false, Option, none, some, List, [], ◌∷◌, arith, Result, ok, err,
  ArgumentError, Text,
}
use coding_agent_neo.Json.{Value, Fields}
use coding_agent_neo.Models.{NormalizedUsage}
use coding_agent_neo.Runtime.State.{ContextState}
use coding_agent_neo.Runtime.Budget.{BudgetTracker, record_tokens}
use coding_agent_neo.Context.Group.{MessageGroup}
use coding_agent_neo.Context.Builder.{CompactionPlan}
use coding_agent_neo.Context.Builder.Messages.{
  plan_compaction-messages, apply_degraded_fallback-messages,
}
use coding_agent_neo.Context.Message.{ContextError}
use coding_agent_neo.Compactor.{
  select, ModelReply, Compactor, succeed, settle, Attempt, response, client_error, other_error,
  interrupt, CompactionOutcome, compact, attempted, passed_on,
}
use coding_agent_neo.AgentLoop.Monad.{◌>>=◌, gets, Ends, modify, Raise, raise}
use coding_agent_neo.AgentLoop.Monad.Keeps.{
  Keeps-modify, Keeps-modify, Keeps-catch, Keeps-when, Keeps->>=, Keeps->>, Keeps, Keeps-pure,
  Keeps-raise, keeps_rules,
}
use coding_agent_neo.AgentLoop.Boundary.{Boundary, AgentLoop}
use coding_agent_neo.AgentLoop.Session.{check_context_preparation_allowed}
use coding_agent_neo.AgentLoop.Prepare.{
  emit_or_restore, restore_projection_state, compact_once, compact_planned, after_compaction,
  emit_compaction, or_context, after_attempt, set_budget, on_context, on_budget, record_usage,
  with_usage, run_compactor,
}
use coding_agent_neo.AgentLoop.Frame.{
  all_mild, failure, interrupt, View, view, counters, Mild, Keeps-emit, Keeps-check_interrupt,
  Keeps-past_deadline,
}

-- The counters of a budget are those that another one has.
abbrev pub Spares : BudgetTracker → Result ArgumentError BudgetTracker → Type 0
Spares b (ok b') = counters b' ≡ counters b
Spares b (err e) = Unit

with_usage-Spares :
    (usage : Option NormalizedUsage) (b : BudgetTracker) → Spares b (with_usage usage b)
unfolding record_tokens
with_usage-Spares none b = refl
with_usage-Spares (some usage) b = refl

-- The messages of a context are those that another one has.
abbrev Retains : ContextState → Attempt → Type 0
Retains c (attempted outcome c') = c'.recent_messages ≡ c.recent_messages
Retains c passed_on = Unit

settle-Retains :
    (dumps : Value → Text) (casefold : Text → Text) (plan : CompactionPlan)
    (groups : List MessageGroup) (reply : ModelReply) (c : ContextState)
    → Retains c (settle dumps casefold plan groups reply c)
unfolding settle succeed
settle-Retains dumps casefold plan groups (response r) c = ground arith
settle-Retains dumps casefold plan groups (client_error code overflow) c = refl
settle-Retains dumps casefold plan groups (other_error error_type) c = refl
settle-Retains dumps casefold plan groups interrupt c = tt

compact-Retains :
    (dumps : Value → Text) (casefold : Text → Text) (k : Compactor)
    (complete : List Fields → ModelReply) (plan : CompactionPlan) (c : ContextState)
    → Retains c (compact dumps casefold k complete plan c)
unfolding compact
compact-Retains dumps casefold k complete plan c =
    go (select dumps k plan.old_summary [] plan.groups) refl
  where
    go :
        (found : Option (List MessageGroup))
        → select dumps k plan.old_summary [] plan.groups ≡ found
        → Retains c (compact dumps casefold k complete plan c)
    go none h = rw (h, Retains) refl
    go (some []) h = rw (h, Retains) refl
    go (some (g ∷ gs)) h = rw (h, Retains) (settle-Retains dumps casefold plan (g ∷ gs) _ c)

module _ {W : Type 0} {After : Raise → View → Type 0} {P : View → Type 0} where
  pub Keeps-on_context :
      {A : Type 0} (f : ContextState → Result ContextError A × ContextState)
      → ((c : ContextState) → (f c).1.recent_messages ≡ c.recent_messages)
      → Keeps {S = AgentLoop W} view After P (on_context f)
  unfolding on_context
  Keeps-on_context f same = record { holds = record { run = λ s p. rw (same s.context_state) p } }

  module _ (mild : Mild After P) where
    set_budget-run :
        (s : AgentLoop W) (r : Result ArgumentError BudgetTracker)
        → Spares s.budget r
        → P (view s)
        → Ends (λ e t. After e (view t)) (λ _ t. P (view t)) (set_budget r s)
    unfolding modify raise
    set_budget-run s (ok b) same p = rw same p
    set_budget-run s (err e) same p = mild.fails _ _ (view s) p

    pub Keeps-on_budget :
        (f : BudgetTracker → Result ArgumentError BudgetTracker)
        → ((b : BudgetTracker) → Spares b (f b))
        → Keeps {S = AgentLoop W} view After P (on_budget f)
    unfolding on_budget ◌>>=◌ gets
    Keeps-on_budget f spares = record {
      holds = record { run = λ s p. set_budget-run s (f s.budget) (spares s.budget) p };
    }

    pub Keeps-record_usage :
        (usage : Option NormalizedUsage) → Keeps {S = AgentLoop W} view After P (record_usage usage)
    unfolding record_usage
    Keeps-record_usage usage = Keeps-on_budget (with_usage usage) (with_usage-Spares usage)

  module _ (mild : Mild After P) (x : Boundary W) where
    after_attempt-run :
        (s : AgentLoop W) (w : W) (a : Attempt)
        → Retains s.context_state a
        → P (view s)
        → Ends (λ e t. After e (view t)) (λ _ t. P (view t)) (after_attempt x s w a)
    after_attempt-run s w (attempted outcome c) same p = rw same p
    after_attempt-run s w passed_on same p = mild.interrupts _ (view s) p

    pub Keeps-run_compactor : (plan : CompactionPlan) → Keeps view After P (run_compactor x plan)
    unfolding run_compactor
    Keeps-run_compactor plan = record {
      holds = record {
        run = λ s p.
            after_attempt-run s _ _
              (compact-Retains x.dumps x.casefold x.compactor _ plan s.context_state) p;
      };
    }

    Keeps-emit_compaction :
        (outcome : CompactionOutcome) (degraded : Option ℕ)
        → Keeps view After P (emit_compaction x outcome degraded)
    unfolding emit_compaction
    Keeps-emit_compaction outcome degraded = search (keeps_rules, Keeps-emit mild x) depth 12

-- Preparation may end by any of the exceptions.
module _ {W : Type 0} {After : Raise → View → Type 0} {P : View → Type 0}
    (covers : (e : Raise) (v : View) → P v → After e v) (x : Boundary W) where
  abbrev mild : Mild After P
  mild = record { interrupts = λ t. covers (interrupt t); fails = λ t o. covers (failure t o) }

  pub Keeps-raises :
      {A : Type 0} (e : Raise) → Keeps {S = AgentLoop W} {A = A} view After P (raise e)
  Keeps-raises e = Keeps-raise e (covers e)

  pub Keeps-check_context_preparation_allowed :
      Keeps view After P (check_context_preparation_allowed x)
  unfolding check_context_preparation_allowed
  Keeps-check_context_preparation_allowed =
      Keeps->> (Keeps-check_interrupt mild x)
        (Keeps->>= (Keeps-past_deadline x) (λ past. Keeps-when past (Keeps-raises _)))

  pub Keeps-or_context :
      {A : Type 0} (r : Result ContextError A) → Keeps {S = AgentLoop W} view After P (or_context r)
  Keeps-or_context (ok a) = Keeps-pure a
  Keeps-or_context (err e) = Keeps-raises _

  Keeps-emit_or_restore :
      (previous : ContextState) (outcome : CompactionOutcome) (degraded : Option ℕ)
      → Keeps view After P (emit_or_restore x previous outcome degraded)
  unfolding restore_projection_state
  Keeps-emit_or_restore previous outcome degraded =
      Keeps-catch (Keeps-emit_compaction (all_mild P) x outcome degraded)
        (λ e. Keeps->> (Keeps-modify _ (λ s. refl)) (Keeps-raises e))

  Keeps-after_compaction :
      (plan : CompactionPlan) (previous : ContextState) (outcome : CompactionOutcome)
      (succeeded : Bool)
      → Keeps view After P (after_compaction x plan previous outcome succeeded)
  Keeps-after_compaction plan previous outcome true =
      search (keeps_rules, Keeps-emit_or_restore, Keeps-check_context_preparation_allowed) depth 12
  Keeps-after_compaction plan previous outcome false =
      Keeps->>= (Keeps-on_context _ (apply_degraded_fallback-messages x.dumps x.context_builder _))
        (λ projected. Keeps->> (Keeps-or_context projected) (
          search (keeps_rules, Keeps-emit_or_restore, Keeps-check_context_preparation_allowed) depth
            12))

  Keeps-compact_planned :
      (plan : Option CompactionPlan) → Keeps view After P (compact_planned x plan)
  Keeps-compact_planned none = Keeps-pure false
  Keeps-compact_planned (some plan) =
      search
        (keeps_rules, Keeps-run_compactor mild x, Keeps-record_usage mild, Keeps-after_compaction)
        depth 12

  pub Keeps-compact_once : (forced : Bool) → Keeps view After P (compact_once x forced)
  unfolding compact_once
  Keeps-compact_once forced = Keeps->> Keeps-check_context_preparation_allowed (
      Keeps->>= (Keeps-on_context _ (plan_compaction-messages x.context_builder forced))
        (λ planned. Keeps->>= (Keeps-or_context planned) Keeps-compact_planned))
