-- ===== src/AgentLoop/Paired.antt =====
-- How a conversation answers the tool calls that its assistant messages declare, and what one more
-- message of agent_loop.py does to it.
pub mod Calls
pub mod Round
pub mod Turn
pub mod Handlers
use coding_agent_neo.Prelude.{
  ℕ, ◌≡◌, refl, ap, inl, inr, Bool, true, false, ◌&&◌, Option, none, some, List, [], ◌∷◌, ◌++◌, map,
  arith, Result, ok, err, if◌then◌else◌, is_none, Option-cases, Text, chars, text_eq, text_eq_refl,
}
use coding_agent_neo.Json.{end, field, Value, Fields, str, arr, obj, get, values}
use coding_agent_neo.Context.Message.{detach_message, has_role, role_of, result_id}
use coding_agent_neo.Models.{NormalizedAssistantResponse}
use coding_agent_neo.Runtime.State.{ContextState}
use coding_agent_neo.Runtime.Budget.{validate_optional, validate_nonnegative}
use coding_agent_neo.Runtime.State
use coding_agent_neo.AgentLoop.Monad.{Raise, failure}
use coding_agent_neo.AgentLoop.Boundary.{PlannedToolCall}
use coding_agent_neo.AgentLoop.Calls.{appended, assistant_message, declarations}

abbrev id_of : Value → Text
id_of (obj call) = elim (get "id" call) [ some (str i) ↦ i | _ ↦ [] ]
id_of _ = []

-- The IDs of the calls that a message declares.
unfoldable pub declared : Fields → List Text
declared m = elim (get "tool_calls" m) [ some (arr calls) ↦ map id_of (values calls) | _ ↦ [] ]

abbrev answers : Text → Fields → Bool
answers i m = elim (result_id m) [ none ↦ false | some j ↦ text_eq i j ]

-- What a message leaves to be answered, in this order, where `ids` was: none where the message is
-- out of place.
unfoldable pub meet : List Text → Fields → Option (List Text)
unfolding declared
meet [] m = if has_role (chars "tool") m then none else some (declared m)
meet (i ∷ ids) m = if has_role (chars "tool") m && answers i m then some ids else none

-- What a conversation leaves to be answered.
unfoldable pub awaited : List Text → List Fields → Option (List Text)
unfolding meet
awaited ids [] = some ids
awaited ids (m ∷ ms) = elim (meet ids m) [ none ↦ none | some more ↦ awaited more ms ]

-- Every tool call is answered, in its place, and nothing else is.
abbrev pub IsPaired : List Fields → Type 0
IsPaired ms = awaited [] ms ≡ some []

pub awaited-append :
    (ids more : List Text) (ms : List Fields) (m : Fields)
    → awaited ids ms ≡ some more
    → awaited ids (ms ++ m ∷ []) ≡ meet more m
unfolding awaited
awaited-append ids more [] m h = ground arith
awaited-append ids more (n ∷ ms) m h = elim (Option-cases (meet ids n)) [
  | inl gone ↦ ground (arith, gone)
  | inr (js, found) ↦ ground (arith, found, awaited-append js more ms m)
]

abbrev pub ids_of : List PlannedToolCall → List Text
ids_of plans = map (λ plan. plan.context_tool_call_id) plans

declared-declarations :
    (plans : List PlannedToolCall) → map id_of (values (declarations plans)) ≡ ids_of plans
unfolding get
declared-declarations [] = refl
declared-declarations (plan ∷ plans) =
    ap (λ is. plan.context_tool_call_id ∷ is) (declared-declarations plans)

pub meet-assistant_message :
    (response : NormalizedAssistantResponse) (plans : List PlannedToolCall)
    → meet [] (assistant_message response plans) ≡ some (ids_of plans)
unfolding meet assistant_message role_of get declared text_eq
meet-assistant_message response [] = refl
meet-assistant_message response (plan ∷ plans) = ap some (declared-declarations (plan ∷ plans))

-- The message that a tool's result becomes.
abbrev pub result_message : Text → Text → Fields
result_message id content =
    field "role" (str (chars "tool"))
      (field "tool_call_id" (str id) (field "content" (str content) end))

pub meet-result_message :
    (id content : Text) (ids : List Text) → meet (id ∷ ids) (result_message id content) ≡ some ids
unfolding meet role_of get result_id text_eq
meet-result_message id content ids = rw (text_eq_refl id) refl

-- What `appended` gives has one message more, and no other exception is raised but a failure.
abbrev pub Extends : Fields → ContextState → Result Raise ContextState → Type 0
Extends message c (ok c') = c'.recent_messages ≡ c.recent_messages ++ message ∷ []
Extends message c (err (failure t o)) = Unit
Extends message c (err _) = ⊥

pub appended-Extends :
    (message : Fields) (sequence : Option ℕ) (c : ContextState)
    → Extends message c (appended message sequence c)
unfolding appended State.append_message detach_message validate_optional validate_nonnegative
appended-Extends message sequence c = go (is_none (role_of message)) sequence refl
  where
    go :
        (b : Bool) (n : Option ℕ)
        → is_none (role_of message) ≡ b
        → Extends message c (appended message n c)
    go true n h = rw (h, Extends) tt
    go false none h = rw (h, Extends) refl
    go false (some n) h = rw (h, Extends) refl
