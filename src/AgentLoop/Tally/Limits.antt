-- ===== src/AgentLoop/Tally/Limits.antt =====
-- The limits that a turn of agent_loop.py keeps, and why it ends.
use coding_agent_neo.Prelude.{
  ℕ, ◌+◌, ◌≤◌, ◌≡◌, sym, ◌≢◌, false, Option, none, some, arith, Result, ok, err, get_or, Text,
}
use coding_agent_neo.Runtime.Budget.{exhausts}
use coding_agent_neo.AgentLoop.Monad.{Ends}
use coding_agent_neo.AgentLoop.Boundary.{Boundary, AgentLoop}
use coding_agent_neo.AgentLoop.Turn.{Step, run_turn}
use coding_agent_neo.AgentLoop.Frame.{Counters, counters}
use coding_agent_neo.AgentLoop.Tally.{Raise, tally}
use coding_agent_neo.AgentLoop.Tally.Measure.{Ended, Measure}
use coding_agent_neo.AgentLoop.Tally.Rounds.{run_turn-Runs}

-- A count that its limit, where there is one, allows.
abbrev pub IsWithin : Option ℕ → ℕ → Type 0
IsWithin none n = Unit
IsWithin (some limit) n = n ≤ limit

-- The limits of steps and of calls are these, and the counts are within them.
pub record IsBounded (steps calls : Option ℕ) (c : Counters) : Type 0 where
  pub max_steps : c.max_steps ≡ steps
  pub max_tool_calls : c.max_tool_calls ≡ calls
  pub model_steps : IsWithin steps c.model_steps
  pub tool_calls : IsWithin calls c.tool_calls

exhausts-IsWithin : (limit : Option ℕ) (n : ℕ) → exhausts limit n ≡ false → IsWithin limit (n + 1)
unfolding exhausts
exhausts-IsWithin none n h = tt
exhausts-IsWithin (some limit) n h = ground arith

bounded :
    (steps calls : Option ℕ)
    → Measure (λ _. IsBounded steps calls) (IsBounded steps calls) (IsBounded steps calls)
bounded steps calls = record {
  calls = λ n c left p. record {
    max_steps = p.max_steps;
    max_tool_calls = p.max_tool_calls;
    model_steps = p.model_steps;
    tool_calls = exhausts-IsWithin calls c.tool_calls (rw (sym p.max_tool_calls) left);
  };
  steps = λ n c left p. record {
    max_steps = p.max_steps;
    max_tool_calls = p.max_tool_calls;
    model_steps = exhausts-IsWithin steps c.model_steps (rw (sym p.max_steps) left);
    tool_calls = p.tool_calls;
  };
  ends = λ n c p. p;
  stops = λ c left p. p;
}

-- The steps that are left are no more than the rounds that are.
pub record Suffices (m n : ℕ) (c : Counters) : Type 0 where
  pub limited : c.max_steps ≡ some m
  pub enough : m ≤ n + c.model_steps

spent : (m : ℕ) (c : Counters) → exhausts c.max_steps c.model_steps ≡ false → Suffices m 0 c → ⊥
unfolding exhausts
spent m c left p = let known = (rw p.limited at left) in ground arith

finite : (m : ℕ) → Measure (Suffices m) (λ c. Unit) (λ c. ⊥)
finite m = record {
  calls = λ n c left p. record { limited = p.limited; enough = p.enough };
  steps = λ n c left p. record { limited = p.limited; enough = omega (arith, p.enough) };
  ends = λ n c p. tt;
  stops = λ c left p. spent m c left p;
}

either_end :
    {W : Type 0} (B : Counters → Type 0) (r : Result Raise Step × AgentLoop W)
    → Ends (λ _ t. B (tally t)) (λ step t. Ended B B step (tally t)) r
    → B (tally r.1)
either_end B (ok (some r), t) p = p
either_end B (ok none, t) p = p
either_end B (err e, t) p = p

some_end :
    {W : Type 0} (r : Result Raise Step × AgentLoop W)
    → Ends (λ _ t. Unit) (λ step t. Ended (λ _. Unit) (λ _. ⊥) step (tally t)) r
    → r.0 ≢ ok none
some_end (ok (some r), t) p h = ground arith
some_end (ok none, t) p h = p
some_end (err e, t) p h = ground arith

-- Whichever way a turn ends, with a result or an exception, the limits of model steps and of tool
-- calls are what they were, and the counts are within them, where they were before the turn.
pub run_turn-IsBounded :
    {W : Type 0} (x : Boundary W) (message : Text) (s : AgentLoop W) (steps calls : Option ℕ)
    → IsBounded steps calls (counters s.budget)
    → IsBounded steps calls (counters ((run_turn x message s).1).budget)
run_turn-IsBounded x message s steps calls within =
    either_end (IsBounded steps calls) (run_turn x message s)
      ((run_turn-Runs (bounded steps calls) x message).run s within)

-- A turn ends where the model steps are limited: the limit of them is enough fuel for its loop.
pub run_turn-returns :
    {W : Type 0} (x : Boundary W) (message : Text) (s : AgentLoop W) (m : ℕ)
    → s.budget.max_steps ≡ some m
    → (run_turn x message s).0 ≢ ok none
run_turn-returns x message s m limited =
    some_end (run_turn x message s) ((run_turn-Runs (finite m) x message).run s whole)
  where
    whole : Suffices m (get_or s.budget.max_steps 0) (counters s.budget)
    whole = record { limited = limited; enough = rw limited (ground arith) }
