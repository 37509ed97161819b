-- ===== src/AgentLoop/Prepare.antt =====
-- What agent_loop.py does to ask the model: compaction, the request's messages, the overflow retry.
use coding_agent_neo.Prelude.{
  ℕ, zero, suc, Bool, true, false, Option, none, some, List, [], ◌∷◌, Result, ok, err,
  ArgumentError, leb, if◌then◌else◌, get_or, take, Text, chars, text_eq,
}
use coding_agent_neo.Prelude.Int.{ℤ, pos}
use coding_agent_neo.Json.{Fields}
use coding_agent_neo.Models.{NormalizedUsage, NormalizedAssistantResponse}
use coding_agent_neo.Runtime.Budget.{BudgetTracker, record_tokens}
use coding_agent_neo.Runtime.State.{ContextState}
use coding_agent_neo.Context.Message.{encode_error, ContextError, integrity_error}
use coding_agent_neo.Context.Estimate.{needs_compaction, exceeds_window}
use coding_agent_neo.Context.Group.{MessageGroup, end_sequence}
use coding_agent_neo.Context.Builder.{
  CompactionPlan, ContextProjection, plan_compaction, project, apply_degraded_fallback,
}
use coding_agent_neo.Compactor.{
  Attempt, CompactionOutcome, ModelReply, response, client_error, other_error, attempted, passed_on,
  select, messages_for, compact,
}
use coding_agent_neo.AgentLoop.Monad.{
  Raise, interrupt, failure, pure, raise, gets, modify, catch, ◌>>=◌, ◌>>◌,
}
use coding_agent_neo.AgentLoop.Boundary.{Boundary, AgentLoop, compaction, retry}
use coding_agent_neo.AgentLoop.Session.{Loop, outside, emit, check_context_preparation_allowed}

abbrev pub context_class : ContextError → Raise
context_class integrity_error = failure (chars "ContextIntegrityError") false
context_class encode_error = failure (chars "UnicodeEncodeError") false
context_class ContextError.value_error = failure (chars "ValueError") false
context_class (ContextError.window_exceeded _ _) = Raise.window_exceeded

-- The part of the context that compaction changes.
unfoldable pub restore_projection_state : ContextState → ContextState → ContextState
restore_projection_state previous c = record c {
  latest_summary = previous.latest_summary;
  covered_through_sequence = previous.covered_through_sequence;
  degraded_through_sequence = previous.degraded_through_sequence;
  degraded_notice = previous.degraded_notice;
}

abbrev ended_by : ℕ → List MessageGroup → List MessageGroup
ended_by n [] = []
ended_by n (g ∷ gs) = let rest = ended_by n gs in if leb (end_sequence g) n then g ∷ rest else rest

abbrev or_first : List MessageGroup → List MessageGroup → List MessageGroup
or_first [] groups = take 1 groups
or_first (g ∷ gs) groups = g ∷ gs

-- The groups that a failed compaction leaves out.
unfoldable pub fallback_plan : CompactionPlan → CompactionOutcome → CompactionPlan
fallback_plan plan outcome = record plan {
  groups = or_first (ended_by outcome.source_end_sequence plan.groups) plan.groups;
}

abbrev tokens : Option ℕ → ℤ
tokens n = pos (get_or n 0)

abbrev pub with_usage : Option NormalizedUsage → BudgetTracker → Result ArgumentError BudgetTracker
with_usage none b = ok b
with_usage (some usage) b = record_tokens (tokens usage.input_tokens) (tokens usage.output_tokens) b

module _ {W : Type 0} where
  abbrev pub or_context : {A : Type 0} → Result ContextError A → Loop W A
  or_context (ok a) = pure a
  or_context (err e) = raise (context_class e)

  -- An operation of the context builder on the runtime's context.
  unfoldable pub on_context :
      {A : Type 0}
      → (ContextState → Result ContextError A × ContextState)
      → Loop W (Result ContextError A)
  on_context f s = let (a, c) = f s.context_state in (ok a, record s { context_state = c })

  abbrev pub set_budget : Result ArgumentError BudgetTracker → Loop W (Unit {0})
  set_budget (ok b) = modify (λ s. record s { budget = b })
  set_budget (err e) = raise (failure (chars "ValueError") false)

  unfoldable pub on_budget :
      (BudgetTracker → Result ArgumentError BudgetTracker) → Loop W (Unit {0})
  on_budget f = gets (λ s. f s.budget) >>= set_budget

  -- `_record_usage` and `_record_compaction_usage`
  unfoldable pub record_usage : Option NormalizedUsage → Loop W (Unit {0})
  record_usage usage = on_budget (with_usage usage)

  module _ (x : Boundary W) where
    -- The compactor calls the model once, if a group fits.
    abbrev pub compacting : CompactionPlan → Option (List MessageGroup) → W → W
    compacting plan none w = w
    compacting plan (some []) w = w
    compacting plan (some (g ∷ gs)) w =
        (x.complete (messages_for x.dumps x.compactor plan.old_summary (g ∷ gs)) [] w).1

    abbrev pub after_attempt :
        AgentLoop W → W → Attempt → Result Raise CompactionOutcome × AgentLoop W
    after_attempt s w (attempted outcome c) =
        (ok outcome, record s { world = w; context_state = c })
    after_attempt s w passed_on =
        (err (interrupt (chars "KeyboardInterrupt")), record s { world = w })

    unfoldable pub run_compactor : CompactionPlan → Loop W CompactionOutcome
    run_compactor plan s =
        after_attempt s
          (compacting plan (select x.dumps x.compactor plan.old_summary [] plan.groups) s.world)
          (compact x.dumps x.casefold x.compactor (λ ms. (x.complete ms [] s.world).0) plan
            s.context_state)

    unfoldable pub emit_compaction : CompactionOutcome → Option ℕ → Loop W (Unit {0})
    emit_compaction outcome degraded = do
      covered ← gets (λ s. s.context_state.covered_through_sequence)
      emit x (compaction outcome covered degraded)
      pure tt

    -- The event, or the projection state that was there before.
    abbrev pub emit_or_restore : ContextState → CompactionOutcome → Option ℕ → Loop W (Unit {0})
    emit_or_restore previous outcome degraded = catch (emit_compaction outcome degraded) (λ e.
        modify (λ s. record s { context_state = restore_projection_state previous s.context_state })
        >> raise e)

    abbrev pub after_compaction :
        CompactionPlan → ContextState → CompactionOutcome → Bool → Loop W Bool
    after_compaction plan previous outcome true = do
      emit_or_restore previous outcome none
      check_context_preparation_allowed x
      pure true
    after_compaction plan previous outcome false = do
      projected ←
          on_context
            (apply_degraded_fallback x.dumps x.context_builder (fallback_plan plan outcome))
      or_context projected
      degraded ← gets (λ s. s.context_state.degraded_through_sequence)
      emit_or_restore previous outcome (some degraded)
      check_context_preparation_allowed x
      pure false

    abbrev pub compact_planned : Option CompactionPlan → Loop W Bool
    compact_planned none = pure false
    compact_planned (some plan) = do
      previous ← gets (λ s. s.context_state)
      outcome ← run_compactor plan
      record_usage outcome.usage
      after_compaction plan previous outcome outcome.succeeded

    unfoldable pub compact_once : Bool → Loop W Bool
    compact_once forced = do
      check_context_preparation_allowed x
      planned ← on_context (plan_compaction x.context_builder forced)
      plan ← or_context planned
      compact_planned plan

    unfoldable pub project_context : List Fields → Loop W ContextProjection
    project_context schemas = on_context (project x.dumps x.context_builder schemas) >>= or_context

    -- The projection's messages, where it passes a test.
    abbrev pub unless : Bool → ContextProjection → Loop W (List Fields)
    unless true projection = raise Raise.window_exceeded
    unless false projection = pure projection.messages

    unfoldable pub prepare_forced : List Fields → Loop W (List Fields)
    prepare_forced schemas = do
      compact_once true
      projection ← project_context schemas
      unless (exceeds_window projection.estimate) projection

    abbrev pub after_failed_compaction : List Fields → Loop W (List Fields)
    after_failed_compaction schemas = do
      fallback ← project_context schemas
      unless (exceeds_window fallback.estimate) fallback

    -- The `for` loop, and what follows it.
    unfoldable pub prepare_attempts : ℕ → List Fields → Loop W (List Fields)
    prepare_attempts zero schemas = do
      projection ← project_context schemas
      unless (needs_compaction projection.estimate) projection
    prepare_attempts (suc n) schemas =
        let again = prepare_attempts n schemas in
        do
          check_context_preparation_allowed x
          projection ← project_context schemas
          elim (needs_compaction projection.estimate) [
            | false ↦ pure projection.messages
            | true ↦ compact_once false >>= λ compacted. elim compacted [
              | true ↦ again
              | false ↦ after_failed_compaction schemas
            ]
          ]

    unfoldable pub prepare_context : Bool → Loop W (List Fields)
    prepare_context forced = do
      schemas ← gets (λ s. x.schemas s.world)
      check_context_preparation_allowed x
      elim forced [
        | true ↦ prepare_forced schemas
        | false ↦ prepare_attempts x.max_compactions_per_request schemas
      ]

    -- The exception that a reply of the model stands for.
    abbrev pub model_failure : Text → Raise
    model_failure error_type =
        if text_eq error_type (chars "CancellationRequested")
        then interrupt error_type
        else failure error_type false

    abbrev pub or_error : ModelReply → Loop W NormalizedAssistantResponse
    or_error (response r) = pure r
    or_error (client_error code overflow) = raise (failure (chars "ModelClientError") overflow)
    or_error (other_error error_type) = raise (model_failure error_type)
    or_error ModelReply.interrupt = raise (interrupt (chars "KeyboardInterrupt"))

    -- The second request, with a forced compaction.
    unfoldable pub retry_request : List Fields → Loop W NormalizedAssistantResponse
    retry_request schemas = do
      emit x retry
      messages ← prepare_context true
      check_context_preparation_allowed x
      reply ← outside (x.complete messages schemas)
      or_error reply

    abbrev pub or_retry : List Fields → ModelReply → Loop W NormalizedAssistantResponse
    or_retry schemas (client_error code true) = retry_request schemas
    or_retry schemas reply = or_error reply

    unfoldable pub complete_model_request : Loop W NormalizedAssistantResponse
    complete_model_request = do
      schemas ← gets (λ s. x.schemas s.world)
      messages ← prepare_context false
      check_context_preparation_allowed x
      reply ← outside (x.complete messages schemas)
      or_retry schemas reply
