-- ===== src/Lib.antt =====
-- Verification of CodingAgentNeo, a coding agent whose core is a loop between a language model and
-- tools that act on a workspace (src/coding_agent_neo). The parts that decide what happens are
-- modelled here: the loop itself, the budget and the cancellation signal that stop it, the context
-- that the model is shown and its compaction, the policy on tool calls, the executor that runs one
-- call, and the treatment of tool output and arguments.
--
-- How the parts interact. A turn of the loop asks the model, puts the answer into the
-- conversation, and has each tool call of it executed, or skipped where the turn ends before, until
-- an answer has no calls, a limit is met, the turn is interrupted or something fails. The executor
-- reads the arguments with the registry, asks the policy, then the approval port where the policy says so, and only then passes the call on; every step is
-- published as an event, and the result is cut to the model's limit. The context builder groups
-- the conversation so that a call and its results stay together, numbers its messages, estimates
-- the size of a request and plans a compaction; the compactor asks the model for a summary of the
-- planned groups and moves the covered sequence number on.
--
-- Files, and the code that each one is about:
--   Prelude, Json     shared lists, texts, results and JSON values; a Python str is the list of its
--                     code points
--   Models            the values of src/coding_agent_neo/models.py that the others exchange
--   Runtime           src/coding_agent_neo/runtime.py: Cancellation (CancellationSignal), Budget
--                     (BudgetTracker), State (ContextState)
--   Tools             src/coding_agent_neo/tools: Schema (schema.py, parse_json_arguments), Truncate
--                     (output.py, head_tail_truncate), Output (output.py, ToolResultProjection and
--                     OutputProjector)
--   Policy            src/coding_agent_neo/policy.py: Path (_safe_relative_path), Decide
--                     (DefaultExecutionPolicy)
--   Context           src/coding_agent_neo/context.py: Message, Group (group_messages), Estimate
--                     (ApproximateTokenEstimator), Builder (ContextBuilder)
--   Compactor         src/coding_agent_neo/compactor.py
--   Executor          src/coding_agent_neo/executor.py: Redact (_json_safe), Results (the results it
--                     makes, _normalize_result), Lifecycle (its fields, collaborators and events),
--                     Attempt (the try block of execute), Execute (execute and skip)
--   AgentLoop         src/coding_agent_neo/agent_loop.py: Boundary (the loop's fields, and what it
--                     calls), Session (_emit to _finish_session, close, the limits, the results),
--                     Calls (_plan_calls, the messages, _execute_plan, _skip_pending_plans), Prepare
--                     (_compact_once, _prepare_context, _complete_model_request), Turn (run_turn and
--                     its handlers); Monad is the notation for all of these
--   Session           src/coding_agent_neo/session.py: read_session; Store (SessionStore, append)
--   Tests             the theorems at concrete inputs
-- The modules below these prove what they are named for.
--
-- State and errors. An operation that changes an object takes the object and returns the new one;
-- one that may raise returns a `Result`, beside the state where the state may have changed before
-- the exception. The code of the loop is written in a monad of these (`Action`), with `catch` for
-- try and except. The executor's effects on the rest of the program are a log, newest first.
-- Values are assumed to have the types that the code declares, except where the code itself
-- treats others (tool arguments, provider IDs, tool names, replies of collaborators).
--
-- What the loop calls is the record `Boundary`: the store, the environment, the registry, the model,
-- the executor and the clock, each a function of a state of the outside of any type, which every
-- call may change. Nothing is assumed of any of them: each may fail at every call. A stored event
-- whose observers failed is a stored event, as in _emit. KeyboardInterrupt and CancelledError come
-- out of the calls of the model and of the tools; anywhere else they are not in the model.
--
-- The session's file is the list of its bytes. A write of a line puts all of it there, or its first
-- bytes and raises. How a record is encoded and decoded, and how an event is made, given an ID and
-- bounded, are parameters (`Codec`, `Producer`) of which nothing is assumed.
--
-- A call of a collaborator of the executor may end by an exception that is no `Exception`, which
-- leaves `execute` after its result was published; a publisher, and the making of an event, raise an
-- `Exception` or nothing. Paths are judged as text: links are not followed.
--
-- Numbers. Seconds are counted in one fixed fraction of a second, so that clocks, limits and
-- durations are integers; a reading of the clock is an argument. Floating-point results are
-- parameters: `scaled` for the estimate of tokens from bytes, `floor_share` for the threshold of
-- compaction.
--
-- Code outside the repository is a parameter: `loads` and `dumps` for the functions of json (with
-- `encodable` for dumps not raising), `lower` and `casefold` for those of str, `render` for
-- Python's str of other values, `sensitive` for the search of a regular expression, and `complete`
-- for the model. No hypothesis is put on any of them.
--
-- Fuel. The loop of a turn runs on the limit of model steps, which _apply_default_limits always
-- sets, and each round takes one. The loops over pending calls, over attempts to compact, and over
-- the calls of an answer are recursive in a list or a count. The outer loop of group_messages
-- runs on the number of messages, and each round takes at least one; the digits of a number are written on the number itself, and each division shrinks
-- it.
--
-- Not modelled: events, the tool registry and the built-in tools, the model
-- client, backends and transports, and the code that touches files, processes, sockets or the
-- terminal. Of the executor, the making of correlation IDs, event IDs and timestamps and the
-- constructor are left out. Of the loop, the constructor's checks, the making of correlation IDs,
-- the wrappers of the approval port (which shows the wait in the loop's state) and of the executor's
-- publisher, and of the events the budget's snapshot and an error's stack. Of the session store, paths,
-- locks, the other file operations and the constructor's argument checks are left out.
pub mod Prelude
pub mod Json
pub mod Models
pub mod Runtime
pub mod Tools
pub mod Policy
pub mod Context
pub mod Compactor
pub mod Executor
pub mod AgentLoop
pub mod Session
pub mod Tests
