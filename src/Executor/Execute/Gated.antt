-- ===== src/Executor/Execute/Gated.antt =====
-- When `execute` of executor.py reaches the registry.
use coding_agent_neo.Prelude.{
  String, ◌≡◌, refl, sym, ap, ◌∙◌, ◌≢◌, ◌⊎◌, inl, inr, Bool, true, false, not, ◌||◌, Option, none,
  some, List, [], ◌∷◌, ◌++◌, arith, Result, ok, err, Result-cases, Bool-cases, Option-cases, Text,
  chars, is_empty,
}
use mathlib.Core.Path.{subst}
use coding_agent_neo.Json.{Value, Fields}
use coding_agent_neo.Models.{ToolResult}
use coding_agent_neo.Tools.Schema.{Arguments}
use coding_agent_neo.Policy.Decide.{PolicyDecision, allow, ask, deny}
use coding_agent_neo.Executor.Lifecycle.{
  note, EventType, gives, errs, aborts, Reply, Reply-cases, ToolLifecycleEvent, Effect, dispatched,
  Lifecycle, ApprovalPort, ToolExecutor, publish, emit, policy_event,
}
use coding_agent_neo.Executor.Redact.{json_safe_fields}
use coding_agent_neo.Executor.Results.{
  Returned, interrupted, raised, nothing, other, returned, executor_error_result, protocol_result,
  safe_error_message,
}
use coding_agent_neo.Executor.Attempt.{
  from_registry, or_raise, Call, Gate, Attempt, answered, ask_port, gate, deny_event, outer, refuse,
  policy_error, run_gate, judge, run_validated, run_named, nameless, attempt, after_event, settled,
  port_refuses, or_raise,
}

-- The calls that reached the registry, the newest first.
unfoldable pub dispatches : List Effect → List (Text × Fields)
dispatches [] = []
dispatches (dispatched name args ∷ es) = (name, args) ∷ dispatches es
dispatches (_ ∷ es) = dispatches es

-- The policy allows the call, or it asks, and a user who can be asked says yes to this call. The log
-- is what was done before the user is asked.
abbrev pub Cleared : ToolExecutor → Text → Fields → List Effect → Type 0
Cleared x name args log =
    (x.policy name args ≡ gives allow)
    ⊎ ((x.policy name args ≡ gives ask)
        × (x.interactive ≡ true)
        × (port : ApprovalPort) × (x.approval_port ≡ some port)
        × (port.port_interactive ≢ some false)
        × (port.answer log name args ≡ gives true))

-- The registry is reached at most once, with the validated arguments of a call that is cleared.
abbrev pub Gated :
    ToolExecutor → Option Text → Arguments → List Effect → Lifecycle → Lifecycle → Type 0
Gated x name_value arguments log s t =
    (dispatches t.log ≡ dispatches s.log)
    ⊎ ((name : Text) × (args : Fields) × (name_value ≡ some name)
        × (x.validate name arguments ≡ ok args)
        × Cleared x name args log
        × (dispatches t.log ≡ (name, args) ∷ dispatches s.log))

pub publish-silent :
    (x : ToolExecutor) (e : ToolLifecycleEvent) (s : Lifecycle)
    → dispatches (publish x e s).1.log ≡ dispatches s.log
unfolding publish dispatches
publish-silent x e s = ground arith

ask_port-silent :
    (port : Option ApprovalPort) (name : Text) (args : Fields) (s : Lifecycle)
    → dispatches (ask_port port name args s).1.log ≡ dispatches s.log
unfolding ask_port dispatches
ask_port-silent none name args s = refl
ask_port-silent (some port) name args s = refl

gate-silent :
    (x : ToolExecutor) (name : Text) (args : Fields) (d : PolicyDecision) (s : Lifecycle)
    → dispatches (gate x name args d s).1.log ≡ dispatches s.log
unfolding gate
gate-silent x name args allow s = refl
gate-silent x name args deny s = refl
gate-silent x name args ask s = ground (arith, ask_port-silent x.approval_port name args s)

pub emit-silent :
    (loads : Text → Option Value) (sensitive : String → Bool) (x : ToolExecutor) (type : EventType)
    (correlation : Text) (provider : Option Text) (payload : Fields) (s : Lifecycle)
    → dispatches (emit loads sensitive x type correlation provider payload s).1.log
      ≡ dispatches s.log
unfolding emit dispatches
emit-silent loads sensitive x type correlation provider payload s =
    let event : ToolLifecycleEvent = record {
      type = type;
      correlation_id = correlation;
      provider_tool_call_id = provider;
      payload = json_safe_fields sensitive payload;
    } in
    ground (arith, publish-silent x event s)

answered-allow :
    (a : Reply Bool) (g : Gate) → answered a ≡ ok g → g.decision ≡ allow → a ≡ gives true
unfolding answered
answered-allow errs g h k = ground (arith, h, k)
answered-allow (gives true) g h k = refl
answered-allow (gives false) g h k = ground (arith, h, k)
answered-allow (aborts e) g h k = ground (arith, h)

ask_port-allow :
    (port : Option ApprovalPort) (name : Text) (args : Fields) (s : Lifecycle) (g : Gate)
    → (ask_port port name args s).0 ≡ ok g
    → g.decision ≡ allow
    → (p : ApprovalPort) × (port ≡ some p) × (p.answer s.log name args ≡ gives true)
unfolding ask_port
ask_port-allow none name args s g h k = ground (arith, h, k)
ask_port-allow (some port) name args s g h k =
    (port, refl, answered-allow (port.answer s.log name args) g h k)

port_refuses-not :
    (port : ApprovalPort) → port_refuses (some port) ≡ false → port.port_interactive ≢ some false
port_refuses-not port h k = ground (arith, h, k)

gate-Cleared :
    (x : ToolExecutor) (name : Text) (args : Fields) (d : PolicyDecision) (s : Lifecycle) (g : Gate)
    → x.policy name args ≡ gives d
    → (gate x name args d s).0 ≡ ok g
    → g.decision ≡ allow
    → Cleared x name args s.log
unfolding gate
gate-Cleared x name args allow s g said h k = inl said
gate-Cleared x name args deny s g said h k = absurd (ground (arith, h, k))
gate-Cleared x name args ask s g said h k =
    elim (Bool-cases (not x.interactive || port_refuses x.approval_port)) [
      | inl refused ↦ absurd (ground (arith, h, k, refused))
      | inr asks ↦
          let given : (ask_port x.approval_port name args s).0 ≡ ok g = ground (arith, h, asks) in
          let (port, there, agreed) = ask_port-allow x.approval_port name args s g given k in
          let open_port : port_refuses (some port) ≡ false = ground (arith, asks, there) in
          inr (said, ground (arith, asks), port, there, port_refuses-not port open_port, agreed)
    ]

module _ (render : Value → Text) (loads : Text → Option Value) (sensitive : String → Bool) where
  deny_event-silent :
      (x : ToolExecutor) (c : Call) (reason : Text) (s : Lifecycle)
      → dispatches (deny_event render loads sensitive x c reason s).1.log ≡ dispatches s.log
  unfolding deny_event policy_event
  deny_event-silent x c reason s = emit-silent loads sensitive x _ _ _ _ s

  -- Both ways out of a published event keep a property of the state it leaves.
  after_event-cases :
      (P : Attempt → Type 0) (p : Option Text × Lifecycle) (next handler : Lifecycle → Attempt)
      → P (next p.1)
      → P (handler p.1)
      → P (after_event p next handler)
  after_event-cases P (none, s) next handler h k = h
  after_event-cases P (some e, s) next handler h k = k

  or_raise-after : (p : Option Text × Lifecycle) → (or_raise p).after ≡ p.1
  or_raise-after (none, s) = refl
  or_raise-after (some e, s) = refl

  outer-silent :
      (x : ToolExecutor) (c : Call) (s : Lifecycle)
      → dispatches (outer render loads sensitive x c s).after.log ≡ dispatches s.log
  unfolding outer
  outer-silent x c s =
      let p = deny_event render loads sensitive x c (chars "executor_error") s in
      let silent = deny_event-silent x c (chars "executor_error") s in
      after_event-cases (λ a. dispatches a.after.log ≡ dispatches s.log) p _ _ silent
        (ap (λ t. dispatches t.log) (or_raise-after p) ∙ silent)

  refuse-silent :
      (x : ToolExecutor) (c : Call) (reason : Text) (r : ToolResult) (s : Lifecycle)
      → dispatches (refuse render loads sensitive x c reason r s).after.log ≡ dispatches s.log
  unfolding refuse
  refuse-silent x c reason r s =
      let p = deny_event render loads sensitive x c reason s in
      let silent = deny_event-silent x c reason s in
      after_event-cases (λ a. dispatches a.after.log ≡ dispatches s.log) p (settled (returned r))
        (outer render loads sensitive x c) silent (outer-silent x c p.1 ∙ silent)

  policy_error-silent :
      (x : ToolExecutor) (c : Call) (s : Lifecycle)
      → dispatches (policy_error render loads sensitive x c s).after.log ≡ dispatches s.log
  unfolding policy_error
  policy_error-silent x c s = refuse-silent x c _ _ s

  -- A gate that allows lets one dispatch through, any other none.
  abbrev Through : Gate → Text → Fields → Lifecycle → Attempt → Type 0
  Through g name args s a =
      (dispatches a.after.log ≡ dispatches s.log)
      ⊎ ((g.decision ≡ allow) × (dispatches a.after.log ≡ (name, args) ∷ dispatches s.log))

  from_registry-log :
      (c : Call) (r : Returned) (s : Lifecycle)
      → (from_registry render loads sensitive c r s).after.log ≡ s.log
  from_registry-log c raised s = refl
  from_registry-log c nothing s = refl
  from_registry-log c other s = refl
  from_registry-log c (returned r) s = refl
  from_registry-log c (interrupted e) s = refl

  run_gate-Through :
      (x : ToolExecutor) (c : Call) (name : Text) (args : Fields) (g : Gate) (s : Lifecycle)
      → Through g name args s (run_gate render loads sensitive x c name args g s)
  unfolding run_gate dispatches
  run_gate-Through x c name args g s = go g.decision refl
    where
      go :
          (d : PolicyDecision)
          → g.decision ≡ d
          → Through g name args s (run_gate render loads sensitive x c name args g s)
      go allow h = inr (
        h,
        rw h (
            ap dispatches
              (from_registry-log c (x.dispatch s.log name args) (note (dispatched name args) s))),
      )
      go ask h = inl (rw h refl)
      go deny h = inl (rw h refl)

  pub policy_event-silent :
      (x : ToolExecutor) (c : Call) (g : Gate) (s : Lifecycle)
      → dispatches
          (policy_event loads sensitive x c.name c.operation_id c.provider_id g.requested g.decision
            g.approved g.reason s).1.log
        ≡ dispatches s.log
  unfolding policy_event
  policy_event-silent x c g s = emit-silent loads sensitive x _ _ _ _ s

  judge-Through :
      (x : ToolExecutor) (c : Call) (name : Text) (args : Fields) (g : Gate) (s : Lifecycle)
      → Through g name args s (judge render loads sensitive x c name args (ok g, s))
  unfolding judge
  judge-Through x c name args g s =
      let p =
        policy_event loads sensitive x c.name c.operation_id c.provider_id g.requested g.decision
          g.approved g.reason s in
      let silent = policy_event-silent x c g s in
      after_event-cases (Through g name args s) p (run_gate render loads sensitive x c name args g)
        (policy_error render loads sensitive x c)
        (ground (arith, run_gate-Through x c name args g p.1, silent))
        (inl (policy_error-silent x c p.1 ∙ silent))

  run_validated-judge :
      (x : ToolExecutor) (c : Call) (name : Text) (args : Fields) (d : PolicyDecision)
      (s : Lifecycle)
      → x.policy name args ≡ gives d
      → run_validated render loads sensitive x c name args s
        ≡ judge render loads sensitive x c name args (gate x name args d s)
  unfolding run_validated
  run_validated-judge x c name args d s said = ground (arith, said)

  judge-Gated :
      (x : ToolExecutor) (c : Call) (name : Text) (args : Fields) (d : PolicyDecision)
      (s t : Lifecycle) (r : Result Text Gate)
      → c.name_value ≡ some name
      → x.validate name c.raw_arguments ≡ ok args
      → x.policy name args ≡ gives d
      → (gate x name args d s).0 ≡ r
      → dispatches t.log ≡ dispatches s.log
      → Gated x c.name_value c.raw_arguments s.log s
          (judge render loads sensitive x c name args (r, t)).after
  unfolding judge
  judge-Gated x c name args d s t (err e) named valid said gives_r silent = inl silent
  judge-Gated x c name args d s t (ok g) named valid said gives_r silent =
      elim (judge-Through x c name args g t) [
        | inl quiet ↦ inl (quiet ∙ silent)
        | inr (allowed, one) ↦ inr (
          name,
          args,
          named,
          valid,
          gate-Cleared x name args d s g said gives_r allowed,
          one ∙ ap (λ l. (name, args) ∷ l) silent,
        )
      ]

  run_validated-Gated :
      (x : ToolExecutor) (c : Call) (name : Text) (args : Fields) (s : Lifecycle)
      → c.name_value ≡ some name
      → x.validate name c.raw_arguments ≡ ok args
      → Gated x c.name_value c.raw_arguments s.log s
          (run_validated render loads sensitive x c name args s).after
  unfolding run_validated
  run_validated-Gated x c name args s named valid = elim (Reply-cases (x.policy name args)) [
    | inl (d, said) ↦
        let p = gate x name args d s in
        subst (λ a. Gated x c.name_value c.raw_arguments s.log s a.after)
          (sym (run_validated-judge x c name args d s said))
          (judge-Gated x c name args d s p.1 p.0 named valid said refl
            (gate-silent x name args d s))
    | inr (inl failed_one) ↦ inl (ground (arith, failed_one, policy_error-silent x c s))
    | inr (inr (e, aborted)) ↦ inl (ground (arith, aborted))
  ]

  run_named-validated :
      (x : ToolExecutor) (c : Call) (name : Text) (args : Fields) (s : Lifecycle)
      → x.validate name c.raw_arguments ≡ ok args
      → run_named render loads sensitive x c name s
        ≡ run_validated render loads sensitive x c name args s
  unfolding run_named
  run_named-validated x c name args s valid = ground (arith, valid)

  run_named-silent :
      (x : ToolExecutor) (c : Call) (name : Text) (s : Lifecycle) (code : Reply Text)
      → x.validate name c.raw_arguments ≡ err code
      → dispatches (run_named render loads sensitive x c name s).after.log ≡ dispatches s.log
  unfolding run_named
  run_named-silent x c name s (aborts e) fails = ground (arith, fails)
  run_named-silent x c name s errs fails =
      let r =
        executor_error_result c.operation_id c.provider_id c.name
          (chars "registry_validation_error") none in
      ground (arith, fails, refuse-silent x c (chars "registry_validation_error") r s)
  run_named-silent x c name s (gives code) fails =
      let r =
        protocol_result c.operation_id c.provider_id code (safe_error_message code) (some c.name) in
      ground (arith, fails, refuse-silent x c (chars "validation_" ++ code) r s)

  run_named-Gated :
      (x : ToolExecutor) (c : Call) (name : Text) (s : Lifecycle)
      → c.name_value ≡ some name
      → Gated x c.name_value c.raw_arguments s.log s
          (run_named render loads sensitive x c name s).after
  run_named-Gated x c name s h = elim (Result-cases (x.validate name c.raw_arguments)) [
    | inl (args, valid) ↦
        subst (λ a. Gated x c.name_value c.raw_arguments s.log s a.after)
          (sym (run_named-validated x c name args s valid))
          (run_validated-Gated x c name args s h valid)
    | inr (code, fails) ↦ inl (run_named-silent x c name s code fails)
  ]

  nameless-silent :
      (x : ToolExecutor) (c : Call) (s : Lifecycle)
      → dispatches (nameless render loads sensitive x c s).after.log ≡ dispatches s.log
  unfolding nameless
  nameless-silent x c s = refuse-silent x c _ _ s

  attempt-named :
      (x : ToolExecutor) (c : Call) (name : Text) (s : Lifecycle)
      → c.name_value ≡ some name
      → (attempt render loads sensitive x true c s ≡ nameless render loads sensitive x c s)
        ⊎ (attempt render loads sensitive x true c s ≡ run_named render loads sensitive x c name s)
  unfolding attempt
  attempt-named x c name s named = elim (Bool-cases (is_empty name)) [
    | inl empty ↦ inl (ground (arith, named, empty))
    | inr full ↦ inr (ground (arith, named, full))
  ]

  pub attempt-Gated :
      (x : ToolExecutor) (valid : Bool) (c : Call) (s : Lifecycle)
      → Gated x c.name_value c.raw_arguments s.log s
          (attempt render loads sensitive x valid c s).after
  unfolding attempt
  attempt-Gated x false c s = inl (refuse-silent x c _ _ s)
  attempt-Gated x true c s = elim (Option-cases c.name_value) [
    | inl missing ↦ inl (ground (arith, missing, nameless-silent x c s))
    | inr (name, named) ↦ elim (attempt-named x c name s named) [
      | inl refused ↦ inl (ap (λ a. dispatches a.after.log) refused ∙ nameless-silent x c s)
      | inr run ↦
          subst (λ a. Gated x c.name_value c.raw_arguments s.log s a.after) (sym run)
            (run_named-Gated x c name s named)
    ]
  ]
