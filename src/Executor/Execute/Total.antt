-- ===== src/Executor/Execute/Total.antt =====
-- Without strict publishing, `execute` of executor.py returns a result for every call.
use coding_agent_neo.Prelude.{
  String, ◌≡◌, refl, sym, ap, ◌⊎◌, inl, inr, Bool, true, false, not, ◌||◌, Option, none, some, List,
  ◌++◌, arith, Result, ok, err, Bool-cases, Option-cases, Text, chars, is_empty,
}
use mathlib.Core.Path.{subst}
use coding_agent_neo.Policy.Decide.{PolicyDecision, allow, ask, deny}
use coding_agent_neo.Json.{Fields, Value}
use coding_agent_neo.Models.{ToolResult}
use coding_agent_neo.Tools.Schema.{Arguments}
use coding_agent_neo.Executor.Results.{
  Returned, raised, nothing, other, interrupted, executor_error_result, protocol_result,
  safe_error_message, returned,
}
use coding_agent_neo.Executor.Lifecycle.{
  Effect, dispatched, note, ApprovalPort, Reply, gives, errs, aborts, Lifecycle, ToolExecutor,
  policy_event,
}
use coding_agent_neo.Executor.Attempt.{
  Raised, uncaught, from_registry, answered, ask_port, port_refuses, Call, Gate, Attempt, gate,
  deny_event, outer, refuse, policy_error, run_gate, judge, run_validated, run_named, nameless,
  attempt, after_event, settled,
}
use coding_agent_neo.Executor.Execute.{Run}
use coding_agent_neo.Executor.Execute.Returns.{BelongsTo, emit-quiet}

pub after_event-quiet :
    (p : Option Text × Lifecycle) (next handler : Lifecycle → Attempt)
    → p.0 ≡ none
    → after_event p next handler ≡ next p.1
after_event-quiet (none, s) next handler h = refl
after_event-quiet (some e, s) next handler h = absurd (ground arith)

-- A collaborator raises an exception that no handler stops: the registry when it checks a call or
-- runs it, the policy, or the approval port.
pub data Interrupts (x : ToolExecutor) (e : Text) : Type 0 where
  by_validation :
      (name : Text) (arguments : Arguments)
      → x.validate name arguments ≡ err (aborts e)
      → Interrupts x e
  by_policy : (name : Text) (args : Fields) → x.policy name args ≡ aborts e → Interrupts x e
  by_approval :
      (port : ApprovalPort) (log : List Effect) (name : Text) (args : Fields)
      → x.approval_port ≡ some port
      → port.answer log name args ≡ aborts e
      → Interrupts x e
  by_dispatch :
      (log : List Effect) (name : Text) (args : Fields)
      → x.dispatch log name args ≡ interrupted e
      → Interrupts x e

-- Nothing leaves the `try` but such an exception.
abbrev pub Quiet : ToolExecutor → Option Raised → Type 0
Quiet x raising = (raising ≡ none) ⊎ ((e : Text) × (raising ≡ some (uncaught e)) × Interrupts x e)

answered-err : (a : Reply Bool) (e : Text) → answered a ≡ err e → a ≡ aborts e
unfolding answered
answered-err errs e h = ground (arith, h)
answered-err (gives true) e h = ground (arith, h)
answered-err (gives false) e h = ground (arith, h)
answered-err (aborts f) e h = ground (arith, h)

ask_port-Interrupts :
    (x : ToolExecutor) (port : Option ApprovalPort) (name : Text) (args : Fields) (s : Lifecycle)
    (e : Text)
    → x.approval_port ≡ port
    → (ask_port port name args s).0 ≡ err e
    → Interrupts x e
unfolding ask_port
ask_port-Interrupts x none name args s e given h = absurd (ground (arith, h))
ask_port-Interrupts x (some port) name args s e given h =
    by_approval port s.log name args given (answered-err (port.answer s.log name args) e h)

gate-Interrupts :
    (x : ToolExecutor) (name : Text) (args : Fields) (d : PolicyDecision) (s : Lifecycle) (e : Text)
    → (gate x name args d s).0 ≡ err e
    → Interrupts x e
unfolding gate
gate-Interrupts x name args allow s e h = absurd (ground (arith, h))
gate-Interrupts x name args deny s e h = absurd (ground (arith, h))
gate-Interrupts x name args ask s e h =
    elim (Bool-cases (not x.interactive || port_refuses x.approval_port)) [
      | inl refused ↦ absurd (ground (arith, h, refused))
      | inr asks ↦
          ask_port-Interrupts x x.approval_port name args s e refl (ground (arith, h, asks))
    ]

module _ (render : Value → Text) (loads : Text → Option Value) (sensitive : String → Bool)
    (x : ToolExecutor) (lax : x.strict_event_publishing ≡ false) where
  refuse-quiet :
      (c : Call) (reason : Text) (r : ToolResult) (s : Lifecycle)
      → (refuse render loads sensitive x c reason r s).raising ≡ none
  unfolding refuse deny_event policy_event
  refuse-quiet c reason r s =
      let p = deny_event render loads sensitive x c reason s in
      ap (λ a. a.raising)
        (after_event-quiet p (settled (returned r)) (outer render loads sensitive x c)
          (emit-quiet loads sensitive x _ _ _ _ s lax))

  from_registry-Quiet :
      (c : Call) (log : List Effect) (name : Text) (args : Fields) (r : Returned) (s : Lifecycle)
      → x.dispatch log name args ≡ r
      → Quiet x (from_registry render loads sensitive c r s).raising
  from_registry-Quiet c log name args raised s h = inl refl
  from_registry-Quiet c log name args nothing s h = inl refl
  from_registry-Quiet c log name args other s h = inl refl
  from_registry-Quiet c log name args (returned r) s h = inl refl
  from_registry-Quiet c log name args (interrupted e) s h =
      inr (e, refl, by_dispatch log name args h)

  run_gate-Quiet :
      (c : Call) (name : Text) (args : Fields) (g : Gate) (s : Lifecycle)
      → Quiet x (run_gate render loads sensitive x c name args g s).raising
  unfolding run_gate
  run_gate-Quiet c name args g s = go g.decision refl
    where
      go :
          (d : PolicyDecision)
          → g.decision ≡ d
          → Quiet x (run_gate render loads sensitive x c name args g s).raising
      go allow h = rw h (
          from_registry-Quiet c s.log name args (x.dispatch s.log name args)
            (note (dispatched name args) s) refl)
      go ask h = inl (rw h refl)
      go deny h = inl (rw h refl)

  judge-Quiet :
      (c : Call) (name : Text) (args : Fields) (r : Result Text Gate) (s : Lifecycle)
      → ((e : Text) → r ≡ err e → Interrupts x e)
      → Quiet x (judge render loads sensitive x c name args (r, s)).raising
  unfolding judge policy_event
  judge-Quiet c name args (err e) s h = inr (e, refl, h e refl)
  judge-Quiet c name args (ok g) s h =
      let p =
        policy_event loads sensitive x c.name c.operation_id c.provider_id g.requested g.decision
          g.approved g.reason s in
      let same =
        after_event-quiet p (run_gate render loads sensitive x c name args g)
          (policy_error render loads sensitive x c) (emit-quiet loads sensitive x _ _ _ _ s lax) in
      subst (λ a. Quiet x a.raising) (sym same) (run_gate-Quiet c name args g p.1)

  policy_error-quiet :
      (c : Call) (s : Lifecycle) → (policy_error render loads sensitive x c s).raising ≡ none
  unfolding policy_error
  policy_error-quiet c s = refuse-quiet c _ _ s

  run_validated-Quiet :
      (c : Call) (name : Text) (args : Fields) (s : Lifecycle)
      → Quiet x (run_validated render loads sensitive x c name args s).raising
  unfolding run_validated
  run_validated-Quiet c name args s = go (x.policy name args) refl
    where
      go :
          (r : Reply PolicyDecision)
          → x.policy name args ≡ r
          → Quiet x (run_validated render loads sensitive x c name args s).raising
      go errs h = inl (ground (arith, h, policy_error-quiet c s))
      go (aborts e) h = inr (e, ground (arith, h), by_policy name args h)
      go (gives d) h =
          let p = gate x name args d s in
          let same : run_validated render loads sensitive x c name args s
              ≡ judge render loads sensitive x c name args p =
            ground (arith, h) in
          subst (λ a. Quiet x a.raising) (sym same)
            (judge-Quiet c name args p.0 p.1 (λ e. gate-Interrupts x name args d s e))

  run_named-Quiet :
      (c : Call) (name : Text) (s : Lifecycle)
      → Quiet x (run_named render loads sensitive x c name s).raising
  unfolding run_named
  run_named-Quiet c name s = go (x.validate name c.raw_arguments) refl
    where
      go :
          (r : Result (Reply Text) Fields)
          → x.validate name c.raw_arguments ≡ r
          → Quiet x (run_named render loads sensitive x c name s).raising
      go (ok args) h =
          let same : run_named render loads sensitive x c name s
              ≡ run_validated render loads sensitive x c name args s =
            ground (arith, h) in
          subst (λ a. Quiet x a.raising) (sym same) (run_validated-Quiet c name args s)
      go (err errs) h =
          let r =
            executor_error_result c.operation_id c.provider_id c.name
              (chars "registry_validation_error") none in
          inl (ground (arith, h, refuse-quiet c (chars "registry_validation_error") r s))
      go (err (gives code)) h =
          let r =
            protocol_result c.operation_id c.provider_id code (safe_error_message code)
              (some c.name) in
          inl (ground (arith, h, refuse-quiet c (chars "validation_" ++ code) r s))
      go (err (aborts e)) h = inr (e, ground (arith, h), by_validation name c.raw_arguments h)

  nameless-quiet :
      (c : Call) (s : Lifecycle) → (nameless render loads sensitive x c s).raising ≡ none
  unfolding nameless
  nameless-quiet c s = refuse-quiet c _ _ s

  pub attempt-Quiet :
      (valid : Bool) (c : Call) (s : Lifecycle)
      → Quiet x (attempt render loads sensitive x valid c s).raising
  unfolding attempt
  attempt-Quiet false c s = inl (refuse-quiet c _ _ s)
  attempt-Quiet true c s = elim (Option-cases c.name_value) [
    | inl missing ↦ inl (ground (arith, missing, nameless-quiet c s))
    | inr (name, named) ↦ elim (Bool-cases (is_empty name)) [
      | inl blank ↦ inl (ground (arith, named, blank, nameless-quiet c s))
      | inr filled ↦
          let same : attempt render loads sensitive x true c s
              ≡ run_named render loads sensitive x c name s =
            ground (arith, named, filled) in
          subst (λ a. Quiet x a.raising) (sym same) (run_named-Quiet c name s)
    ]
  ]

  -- A run that publishes a result of its operation and keeps it as its last one, and that returns
  -- this result, or passes on an exception that a collaborator raised and no handler stops.
  abbrev pub Returns : Text → Option Text → Run → Type 0
  Returns operation provider run =
      (q : ToolResult) × BelongsTo operation provider q
      × (run.finished.last_result ≡ some q)
      × (run.finished.last_result_published ≡ true)
      × ((run.outcome ≡ ok q) ⊎ ((e : Text) × (run.outcome ≡ err (uncaught e)) × Interrupts x e))
