-- ===== src/AgentLoop/Frame/Prepare.antt =====
-- What the preparation of a request in agent_loop.py leaves alone.
use coding_agent_neo.Prelude.{ℕ, zero, suc, Bool, true, false, List}
use coding_agent_neo.Json.{Fields}
use coding_agent_neo.Context.Estimate.{needs_compaction}
use coding_agent_neo.Context.Builder.{ContextProjection}
use coding_agent_neo.Context.Builder.Messages.{project-messages}
use coding_agent_neo.Compactor.{ModelReply, response, client_error, other_error, interrupt}
use coding_agent_neo.AgentLoop.Monad.{Raise}
use coding_agent_neo.AgentLoop.Monad.Keeps.{
  Keeps-gets, Keeps-elim, Keeps->>=, Keeps->>, Keeps, Keeps-pure, keeps_rules,
}
use coding_agent_neo.AgentLoop.Boundary.{Boundary}
use coding_agent_neo.AgentLoop.Prepare.{
  after_failed_compaction, complete_model_request, unless, or_retry, retry_request, or_error,
  prepare_context, prepare_attempts, prepare_forced, project_context,
}
use coding_agent_neo.AgentLoop.Frame.{
  Keeps-outside, failure, interrupt, View, view, Mild, Keeps-emit,
}
use coding_agent_neo.AgentLoop.Frame.Compaction.{
  Keeps-raises, Keeps-or_context, Keeps-compact_once, Keeps-check_context_preparation_allowed,
  Keeps-on_context,
}

-- Preparation may end by any of the exceptions.
module _ {W : Type 0} {After : Raise → View → Type 0} {P : View → Type 0}
    (covers : (e : Raise) (v : View) → P v → After e v) (x : Boundary W) where
  abbrev mild : Mild After P
  mild = record { interrupts = λ t. covers (interrupt t); fails = λ t o. covers (failure t o) }

  Keeps-project_context : (schemas : List Fields) → Keeps view After P (project_context x schemas)
  unfolding project_context
  Keeps-project_context schemas =
      Keeps->>= (Keeps-on_context _ (project-messages x.dumps x.context_builder schemas))
        (Keeps-or_context covers x)

  Keeps-unless :
      (b : Bool) (projection : ContextProjection) → Keeps view After P (unless x b projection)
  Keeps-unless true projection = (Keeps-raises covers x) _
  Keeps-unless false projection = Keeps-pure _

  Keeps-prepare_forced : (schemas : List Fields) → Keeps view After P (prepare_forced x schemas)
  unfolding prepare_forced
  Keeps-prepare_forced schemas =
      search (keeps_rules, (Keeps-compact_once covers x), Keeps-project_context, Keeps-unless) depth
        12

  Keeps-after_failed_compaction :
      (schemas : List Fields) → Keeps view After P (after_failed_compaction x schemas)
  Keeps-after_failed_compaction schemas =
      search (keeps_rules, Keeps-project_context, Keeps-unless) depth 12

  Keeps-prepare_attempts :
      (n : ℕ) (schemas : List Fields) → Keeps view After P (prepare_attempts x n schemas)
  unfolding prepare_attempts
  Keeps-prepare_attempts zero schemas =
      search (keeps_rules, Keeps-project_context, Keeps-unless) depth 12
  Keeps-prepare_attempts (suc n) schemas =
      Keeps->> (Keeps-check_context_preparation_allowed covers x) (
        Keeps->>= (Keeps-project_context schemas) (λ projection.
          Keeps-elim (needs_compaction projection.estimate)
            (Keeps->>= ((Keeps-compact_once covers x) false) (λ compacted.
              Keeps-elim compacted (Keeps-prepare_attempts n schemas)
                (Keeps-after_failed_compaction schemas)))
            (Keeps-pure _)))

  Keeps-prepare_context : (forced : Bool) → Keeps view After P (prepare_context x forced)
  unfolding prepare_context
  Keeps-prepare_context true = Keeps->>= (Keeps-gets _) (λ schemas.
      Keeps->> (Keeps-check_context_preparation_allowed covers x) (Keeps-prepare_forced schemas))
  Keeps-prepare_context false = Keeps->>= (Keeps-gets _) (λ schemas.
      Keeps->> (Keeps-check_context_preparation_allowed covers x)
        (Keeps-prepare_attempts _ schemas))

  Keeps-or_error : (reply : ModelReply) → Keeps view After P (or_error x reply)
  Keeps-or_error (response r) = Keeps-pure r
  Keeps-or_error (client_error code overflow) = (Keeps-raises covers x) _
  Keeps-or_error (other_error error_type) = (Keeps-raises covers x) _
  Keeps-or_error ModelReply.interrupt = (Keeps-raises covers x) _

  Keeps-retry_request : (schemas : List Fields) → Keeps view After P (retry_request x schemas)
  unfolding retry_request
  Keeps-retry_request schemas = Keeps->> (Keeps-emit mild x _) (
      Keeps->>= (Keeps-prepare_context true) (λ messages.
        Keeps->> (Keeps-check_context_preparation_allowed covers x)
          (Keeps->>= (Keeps-outside _) Keeps-or_error)))

  Keeps-or_retry :
      (schemas : List Fields) (reply : ModelReply) → Keeps view After P (or_retry x schemas reply)
  Keeps-or_retry schemas (response r) = Keeps-pure r
  Keeps-or_retry schemas (client_error code true) = Keeps-retry_request schemas
  Keeps-or_retry schemas (client_error code false) = (Keeps-raises covers x) _
  Keeps-or_retry schemas (other_error error_type) = (Keeps-raises covers x) _
  Keeps-or_retry schemas ModelReply.interrupt = (Keeps-raises covers x) _

  pub Keeps-complete_model_request : Keeps view After P (complete_model_request x)
  unfolding complete_model_request
  Keeps-complete_model_request = Keeps->>= (Keeps-gets _) (λ schemas.
      Keeps->>= (Keeps-prepare_context false) (λ messages.
        Keeps->> (Keeps-check_context_preparation_allowed covers x)
          (Keeps->>= (Keeps-outside _) (Keeps-or_retry schemas))))
