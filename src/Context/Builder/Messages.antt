-- ===== src/Context/Builder/Messages.antt =====
-- The builder of context.py never changes the messages of the context.
use coding_agent_neo.Prelude.{◌≡◌, inl, inr, Bool, List, [], arith, Result-cases, Text}
use coding_agent_neo.Json.{Value, Fields}
use coding_agent_neo.Runtime.State.{ContextState}
use coding_agent_neo.Context.Message.{detach_all}
use coding_agent_neo.Context.Builder.{
  ContextBuilder, CompactionPlan, entries, all_groups, effective_groups, plan_compaction, project,
  apply_degraded_fallback,
}

entries-messages : (c : ContextState) → (entries c).1.recent_messages ≡ c.recent_messages
unfolding entries
entries-messages c = elim (Result-cases (detach_all c.recent_messages)) [
  | inl (ms, found) ↦ ground (arith, found)
  | inr (e, fails) ↦ ground (arith, fails)
]

all_groups-messages : (c : ContextState) → (all_groups c).1.recent_messages ≡ c.recent_messages
unfolding all_groups
all_groups-messages c = ground (arith, entries-messages c)

effective_groups-messages :
    (c : ContextState) → (effective_groups c).1.recent_messages ≡ c.recent_messages
unfolding effective_groups
effective_groups-messages c = ground (arith, all_groups-messages c)

pub plan_compaction-messages :
    (b : ContextBuilder) (forced : Bool) (c : ContextState)
    → (plan_compaction b forced c).1.recent_messages ≡ c.recent_messages
unfolding plan_compaction
plan_compaction-messages b forced c = ground (arith, all_groups-messages c)

module _ (dumps : Value → Text) where
  pub project-messages :
      (b : ContextBuilder) (schemas : List Fields) (c : ContextState)
      → (project dumps b schemas c).1.recent_messages ≡ c.recent_messages
  unfolding project
  project-messages b schemas c = ground (arith, effective_groups-messages c)

  pub apply_degraded_fallback-messages :
      (b : ContextBuilder) (plan : CompactionPlan) (c : ContextState)
      → (apply_degraded_fallback dumps b plan c).1.recent_messages ≡ c.recent_messages
  unfolding apply_degraded_fallback
  apply_degraded_fallback-messages b plan c = project-messages b [] _
