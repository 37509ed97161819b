-- ===== src/Executor/Execute/Trace.antt =====
-- The events that one call of `execute` of executor.py publishes, without strict publishing.
use coding_agent_neo.Prelude.{
  ℕ, String, ◌≡◌, refl, sym, ap, ◌∙◌, ◌⊎◌, inl, inr, Bool, true, false, Option, none, some, List,
  [], ◌∷◌, ◌++◌, arith, Result, ok, err, Result-cases, Bool-cases, Option-cases, Text, chars,
  is_empty,
}
use mathlib.Core.Path.{subst}
use coding_agent_neo.Json.{Value, Fields}
use coding_agent_neo.Models.{ToolResult}
use coding_agent_neo.Tools.Schema.{Arguments}
use coding_agent_neo.Tools.Output.{from_slice}
use coding_agent_neo.Tools.Truncate.{slice}
use coding_agent_neo.Policy.Decide.{PolicyDecision, allow, ask, deny}
use coding_agent_neo.Executor.Results.{
  Returned, raised, nothing, other, interrupted, executor_error_result, protocol_result,
  safe_error_message, returned,
}
use coding_agent_neo.Executor.Lifecycle.{
  dispatched, note, gives, errs, aborts, Reply-cases, EventType, ToolLifecycleEvent, Effect,
  emitted, publish, Lifecycle, ApprovalPort, ToolExecutor, emit, policy_event, tool_call_event,
  result_event,
}
use coding_agent_neo.Executor.Attempt.{
  Raised, uncaught, from_registry, ProviderValue, Call, Gate, Attempt, ask_port, gate, deny_event,
  outer, refuse, policy_error, run_gate, judge, run_validated, run_named, nameless, attempt,
  safe_provider, settled,
}
use coding_agent_neo.Executor.Execute.{
  Run, pending, publish_result, finish, begin, called, execute, reset,
}
use coding_agent_neo.Executor.Execute.Returns.{
  emit-quiet, project-slice, normalize_result-BelongsTo,
}
use coding_agent_neo.Executor.Execute.Total.{after_event-quiet}

-- The types of the published events, the newest first.
unfoldable pub kinds : List Effect → List EventType
kinds [] = []
kinds (emitted event ∷ es) = event.type ∷ kinds es
kinds (_ ∷ es) = kinds es

pub emit-kinds :
    (loads : Text → Option Value) (sensitive : String → Bool) (x : ToolExecutor)
    (publisher : List Effect → ToolLifecycleEvent → Option Text)
    → x.event_publisher ≡ some publisher
    → ((log : List Effect) (type : EventType) → x.event_error log type ≡ none)
    → (type : EventType) (correlation : Text) (provider : Option Text) (payload : Fields)
      (s : Lifecycle)
    → kinds (emit loads sensitive x type correlation provider payload s).1.log ≡ type ∷ kinds s.log
unfolding emit publish kinds
emit-kinds loads sensitive x publisher handed makes type correlation provider payload s =
    ground (arith, handed, makes s.log type)

ask_port-kinds :
    (port : Option ApprovalPort) (name : Text) (args : Fields) (s : Lifecycle)
    → kinds (ask_port port name args s).1.log ≡ kinds s.log
unfolding ask_port kinds
ask_port-kinds none name args s = refl
ask_port-kinds (some port) name args s = refl

gate-kinds :
    (x : ToolExecutor) (name : Text) (args : Fields) (d : PolicyDecision) (s : Lifecycle)
    → kinds (gate x name args d s).1.log ≡ kinds s.log
unfolding gate
gate-kinds x name args allow s = refl
gate-kinds x name args deny s = refl
gate-kinds x name args ask s = ground (arith, ask_port-kinds x.approval_port name args s)

module _ (render : Value → Text) (loads : Text → Option Value) (sensitive : String → Bool)
    (x : ToolExecutor) (lax : x.strict_event_publishing ≡ false)
    (publisher : List Effect → ToolLifecycleEvent → Option Text)
    (handed : x.event_publisher ≡ some publisher)
    (makes : (log : List Effect) (type : EventType) → x.event_error log type ≡ none) where
  -- The attempt publishes a decision and nothing else.
  abbrev Decides : Lifecycle → Attempt → Type 0
  Decides s a = kinds a.after.log ≡ EventType.policy_decision ∷ kinds s.log

  refuse-Decides :
      (c : Call) (reason : Text) (r : ToolResult) (s : Lifecycle)
      → Decides s (refuse render loads sensitive x c reason r s)
  unfolding refuse deny_event policy_event
  refuse-Decides c reason r s =
      let p = deny_event render loads sensitive x c reason s in
      ap (λ a. kinds a.after.log)
        (after_event-quiet p (settled (returned r)) (outer render loads sensitive x c)
          (emit-quiet loads sensitive x _ _ _ _ s lax))
      ∙ emit-kinds loads sensitive x publisher handed makes _ _ _ _ s

  from_registry-log :
      (c : Call) (r : Returned) (s : Lifecycle)
      → (from_registry render loads sensitive c r s).after.log ≡ s.log
  from_registry-log c raised s = refl
  from_registry-log c nothing s = refl
  from_registry-log c other s = refl
  from_registry-log c (returned r) s = refl
  from_registry-log c (interrupted e) s = refl

  run_gate-kinds :
      (c : Call) (name : Text) (args : Fields) (g : Gate) (s : Lifecycle)
      → kinds (run_gate render loads sensitive x c name args g s).after.log ≡ kinds s.log
  unfolding run_gate kinds
  run_gate-kinds c name args g s = go g.decision refl
    where
      go :
          (d : PolicyDecision)
          → g.decision ≡ d
          → kinds (run_gate render loads sensitive x c name args g s).after.log ≡ kinds s.log
      go allow h = rw h (
          ap kinds
            (from_registry-log c (x.dispatch s.log name args) (note (dispatched name args) s)))
      go ask h = rw h refl
      go deny h = rw h refl

  -- The attempt publishes a decision, or it ends by an exception before there is one.
  abbrev Settles : Lifecycle → Attempt → Type 0
  Settles s a =
      Decides s a
      ⊎ ((kinds a.after.log ≡ kinds s.log) × (e : Text) × (a.raising ≡ some (uncaught e)))

  judge-Settles :
      (c : Call) (name : Text) (args : Fields) (r : Result Text Gate) (s : Lifecycle)
      → Settles s (judge render loads sensitive x c name args (r, s))
  unfolding judge policy_event
  judge-Settles c name args (err e) s = inr (refl, e, refl)
  judge-Settles c name args (ok g) s =
      let p =
        policy_event loads sensitive x c.name c.operation_id c.provider_id g.requested g.decision
          g.approved g.reason s in
      inl (
        ap (λ a. kinds a.after.log)
          (after_event-quiet p (run_gate render loads sensitive x c name args g)
            (policy_error render loads sensitive x c) (emit-quiet loads sensitive x _ _ _ _ s lax))
        ∙ (run_gate-kinds c name args g p.1
            ∙ emit-kinds loads sensitive x publisher handed makes _ _ _ _ s))

  policy_error-Decides :
      (c : Call) (s : Lifecycle) → Decides s (policy_error render loads sensitive x c s)
  unfolding policy_error
  policy_error-Decides c s = refuse-Decides c _ _ s

  Settles-from :
      (a : Attempt) (s t : Lifecycle) → kinds t.log ≡ kinds s.log → Settles t a → Settles s a
  Settles-from a s t same (inl h) = inl (h ∙ ap (λ l. EventType.policy_decision ∷ l) same)
  Settles-from a s t same (inr (h, e, left)) = inr (h ∙ same, e, left)

  run_validated-Settles :
      (c : Call) (name : Text) (args : Fields) (s : Lifecycle)
      → Settles s (run_validated render loads sensitive x c name args s)
  unfolding run_validated
  run_validated-Settles c name args s = elim (Reply-cases (x.policy name args)) [
    | inl (d, said) ↦
        let p = gate x name args d s in
        let same : run_validated render loads sensitive x c name args s
            ≡ judge render loads sensitive x c name args p =
          ground (arith, said) in
        subst (Settles s) (sym same) (
          Settles-from (judge render loads sensitive x c name args p) s p.1
            (gate-kinds x name args d s) (judge-Settles c name args p.0 p.1))
    | inr (inl failed_one) ↦ inl (ground (arith, failed_one, policy_error-Decides c s))
    | inr (inr (e, aborted)) ↦ inr (ground (arith, aborted), e, ground (arith, aborted))
  ]

  run_named-Settles :
      (c : Call) (name : Text) (s : Lifecycle)
      → Settles s (run_named render loads sensitive x c name s)
  unfolding run_named
  run_named-Settles c name s = elim (Result-cases (x.validate name c.raw_arguments)) [
    | inl (args, valid) ↦
        let same : run_named render loads sensitive x c name s
            ≡ run_validated render loads sensitive x c name args s =
          ground (arith, valid) in
        subst (Settles s) (sym same) (run_validated-Settles c name args s)
    | inr (errs, fails) ↦
        let r =
          executor_error_result c.operation_id c.provider_id c.name
            (chars "registry_validation_error") none in
        inl (ground (arith, fails, refuse-Decides c (chars "registry_validation_error") r s))
    | inr (gives code, fails) ↦
        let r =
          protocol_result c.operation_id c.provider_id code (safe_error_message code)
            (some c.name) in
        inl (ground (arith, fails, refuse-Decides c (chars "validation_" ++ code) r s))
    | inr (aborts e, fails) ↦ inr (ground (arith, fails), e, ground (arith, fails))
  ]

  nameless-Decides : (c : Call) (s : Lifecycle) → Decides s (nameless render loads sensitive x c s)
  unfolding nameless
  nameless-Decides c s = refuse-Decides c _ _ s

  attempt-Settles :
      (valid : Bool) (c : Call) (s : Lifecycle)
      → Settles s (attempt render loads sensitive x valid c s)
  unfolding attempt
  attempt-Settles false c s = inl (refuse-Decides c _ _ s)
  attempt-Settles true c s = elim (Option-cases c.name_value) [
    | inl missing ↦ inl (ground (arith, missing, nameless-Decides c s))
    | inr (name, named) ↦ elim (Bool-cases (is_empty name)) [
      | inl blank ↦ inl (ground (arith, named, blank, nameless-Decides c s))
      | inr filled ↦
          let same : attempt render loads sensitive x true c s
              ≡ run_named render loads sensitive x c name s =
            ground (arith, named, filled) in
          subst (Settles s) (sym same) (run_named-Settles c name s)
    ]
  ]

  pub publish_result-kinds :
      (name : Text) (raising : Option Raised) (r : ToolResult) (s : Lifecycle)
      → (kinds (publish_result render loads sensitive x name raising r s).finished.log
          ≡ EventType.tool_result ∷ kinds s.log)
        × ((publish_result render loads sensitive x name raising r s).outcome ≡ pending raising r)
  unfolding publish_result result_event
  publish_result-kinds name raising r s =
      let recorded = record s { last_result = some r } in
      let p = from_slice r (slice r.text x.model_output_limit r.original_length) in
      let event = result_event loads sensitive x name p recorded in
      let quiet : event.0 ≡ none = emit-quiet loads sensitive x _ _ _ _ recorded lax in
      let one : kinds event.1.log ≡ EventType.tool_result ∷ kinds s.log =
        emit-kinds loads sensitive x publisher handed makes _ _ _ _ recorded in
      let fits = project-slice r x.model_output_limit in
      (ground (arith, fits, quiet, one), ground (arith, fits, quiet))

  -- Behind the call's event a run publishes a decision and a result, or, where an exception comes
  -- before the decision, the result alone.
  abbrev Traced : Lifecycle → Run → Type 0
  Traced s run =
      (kinds run.finished.log ≡ EventType.tool_result ∷ EventType.policy_decision ∷ kinds s.log)
      ⊎ ((kinds run.finished.log ≡ EventType.tool_result ∷ kinds s.log)
          × (e : Text) × (run.outcome ≡ err (uncaught e)))

  finish-Traced :
      (c : Call) (a : Attempt) (s : Lifecycle)
      → Settles s a
      → Traced s (finish render loads sensitive x c a)
  unfolding finish
  finish-Traced c a s settled_one =
      let (r, made, mine) =
        normalize_result-BelongsTo render sensitive x.model_output_limit c.operation_id
          c.provider_id c.name c.elapsed a.result in
      let same : finish render loads sensitive x c a
          ≡ publish_result render loads sensitive x c.name a.raising r a.after =
        ground (arith, made) in
      let (one, out) = publish_result-kinds c.name a.raising r a.after in
      subst (Traced s) (sym same) (elim settled_one [
        | inl h ↦ inl (one ∙ ap (λ l. EventType.tool_result ∷ l) h)
        | inr (h, e, left) ↦
            inr (one ∙ ap (λ l. EventType.tool_result ∷ l) h, e, out ∙ ap (λ o. pending o r) left)
      ])

  begin-Traced :
      (valid : Bool) (c : Call) (p : Option Text × Lifecycle)
      → p.0 ≡ none
      → Traced p.1 (begin render loads sensitive x valid c p)
  unfolding begin
  begin-Traced valid c (some e, s) h = absurd (ground arith)
  begin-Traced valid c (none, s) h =
      finish-Traced c (attempt render loads sensitive x valid c s) s (attempt-Settles valid c s)

  -- With a publisher, without strict publishing, and where every event can be made, `execute`
  -- publishes three events for every call: the call, then one policy decision, then one result. The
  -- decision is missing only where an exception that no handler stops leaves `execute`; the result
  -- is published then too.
  pub execute-kinds :
      (name_value : Option Text) (arguments : Arguments) (provider : ProviderValue)
      (operation : Text) (elapsed : ℕ) (s : Lifecycle)
      → let run =
          execute render loads sensitive x name_value arguments provider operation elapsed s in
        (kinds run.finished.log
          ≡ EventType.tool_result ∷ EventType.policy_decision ∷ EventType.tool_call ∷ kinds s.log)
        ⊎ ((kinds run.finished.log ≡ EventType.tool_result ∷ EventType.tool_call ∷ kinds s.log)
            × (e : Text) × (run.outcome ≡ err (uncaught e)))
  unfolding execute tool_call_event
  execute-kinds name_value arguments provider operation elapsed s =
      let (id, valid) = safe_provider provider in
      let c = called render loads sensitive x name_value arguments id operation elapsed in
      let p = tool_call_event loads sensitive x c.name arguments operation id (reset s) in
      let first = emit-kinds loads sensitive x publisher handed makes _ _ _ _ (reset s) in
      elim (begin-Traced valid c p (emit-quiet loads sensitive x _ _ _ _ (reset s) lax)) [
        | inl h ↦ inl (h ∙ ap (λ l. EventType.tool_result ∷ EventType.policy_decision ∷ l) first)
        | inr (h, e, left) ↦ inr (h ∙ ap (λ l. EventType.tool_result ∷ l) first, e, left)
      ]
