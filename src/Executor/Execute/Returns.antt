-- ===== src/Executor/Execute/Returns.antt =====
-- What `execute` of executor.py returns when the publisher cannot make it raise.
use coding_agent_neo.Prelude.{
  ℕ, String, ◌≡◌, refl, Bool, false, Option, none, some, arith, ok, Text, chars,
}
use coding_agent_neo.Json.{Fields, Value}
use coding_agent_neo.Models.{ToolResult}
use coding_agent_neo.Tools.Output.{from_slice, to_tool_result, as_int, project_tool_result}
use coding_agent_neo.Tools.Output.Projection.{from_result-slice}
use coding_agent_neo.Tools.Truncate.{slice, only_one}
use coding_agent_neo.Executor.Lifecycle.{emit, EventType, Lifecycle, ToolExecutor, publish}
use coding_agent_neo.Executor.Results.{
  interrupted, Returned, returned, other, nothing, raised, owned, limited, normalize_result,
  executor_error_result, made,
}

-- The result belongs to the operation.
abbrev pub BelongsTo : Text → Option Text → ToolResult → Type 0
BelongsTo operation provider r =
    (r.correlation_id ≡ operation) × (r.provider_tool_call_id ≡ provider)

pub emit-quiet :
    (loads : Text → Option Value) (sensitive : String → Bool) (x : ToolExecutor) (type : EventType)
    (correlation : Text) (provider : Option Text) (payload : Fields) (s : Lifecycle)
    → x.strict_event_publishing ≡ false
    → (emit loads sensitive x type correlation provider payload s).0 ≡ none
unfolding emit publish
emit-quiet loads sensitive x type correlation provider payload s h = ground arith

pub emit-last_result :
    (loads : Text → Option Value) (sensitive : String → Bool) (x : ToolExecutor) (type : EventType)
    (correlation : Text) (provider : Option Text) (payload : Fields) (s : Lifecycle)
    → (emit loads sensitive x type correlation provider payload s).1.last_result ≡ s.last_result
unfolding emit publish
emit-last_result loads sensitive x type correlation provider payload s = ground arith

pub project-slice :
    (r : ToolResult) (limit : Option ℕ)
    → project_tool_result r (as_int limit) none none none
      ≡ ok (from_slice r (slice r.text limit r.original_length))
unfolding project_tool_result only_one
project-slice r none = from_result-slice r none
project-slice r (some n) = from_result-slice r (some n)

limited-BelongsTo :
    (limit : Option ℕ) (r : ToolResult) (operation : Text) (provider : Option Text)
    → BelongsTo operation provider r
    → (q : ToolResult) × (limited limit r ≡ ok q) × BelongsTo operation provider q
unfolding limited
limited-BelongsTo none r operation provider h = (r, refl, h)
limited-BelongsTo (some n) r operation provider h =
    let p = from_slice r (slice r.text (some n) r.original_length) in
    (
      to_tool_result p,
      ground (arith, project-slice r (some n)),
      unfold from_slice to_tool_result in h,
    )

module _ (render : Value → Text) (sensitive : String → Bool) where
  -- Whatever the attempt left, the result that is returned belongs to the operation.
  pub normalize_result-BelongsTo :
      (limit : Option ℕ) (operation : Text) (provider : Option Text) (name : Text) (elapsed : ℕ)
      (r : Returned)
      → (q : ToolResult) × (normalize_result render sensitive limit operation provider name elapsed
            r
          ≡ ok q)
        × BelongsTo operation provider q
  unfolding normalize_result owned executor_error_result made
  normalize_result-BelongsTo limit operation provider name elapsed (returned r) =
      limited-BelongsTo limit (owned render sensitive operation provider name elapsed r) operation
        provider (refl, refl)
  normalize_result-BelongsTo limit operation provider name elapsed other = (_, refl, (refl, refl))
  normalize_result-BelongsTo limit operation provider name elapsed nothing =
      limited-BelongsTo limit
        (owned render sensitive operation provider name elapsed
          (executor_error_result operation provider name (chars "executor_error") (some elapsed)))
        operation provider (refl, refl)
  normalize_result-BelongsTo limit operation provider name elapsed (interrupted e) =
      limited-BelongsTo limit
        (owned render sensitive operation provider name elapsed
          (executor_error_result operation provider name (chars "executor_error") (some elapsed)))
        operation provider (refl, refl)
  normalize_result-BelongsTo limit operation provider name elapsed raised =
      limited-BelongsTo limit
        (owned render sensitive operation provider name elapsed
          (executor_error_result operation provider name (chars "executor_error") (some elapsed)))
        operation provider (refl, refl)
