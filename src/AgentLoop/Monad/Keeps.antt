-- ===== src/AgentLoop/Monad/Keeps.antt =====
-- Code that keeps a property of a part of its state, whichever way it ends: `view` reads the part,
-- and `After` is what holds beside an exception.
use coding_agent_neo.Prelude.{◌≡◌, Bool, true, false}
use coding_agent_neo.AgentLoop.Monad.{
  Action, Raise, pure, raise, gets, modify, ◌>>=◌, ◌>>◌, catch, when, Holds, Holds-pure,
  Holds-raise, Holds-gets, Holds-modify, Holds->>=, Holds->>, Holds-when, Holds-catch,
}

module _ {S V : Type 0} where
  pub record Keeps {A : Type 0} (view : S → V) (After : Raise → V → Type 0) (P : V → Type 0)
      (m : Action S A) : Type 0 where
    pub holds : Holds (λ e s. After e (view s)) (λ s. P (view s)) m (λ _ s. P (view s))

  module _ {view : S → V} {After : Raise → V → Type 0} {P : V → Type 0} where
    pub Keeps-pure : {A : Type 0} (a : A) → Keeps view After P (pure a)
    Keeps-pure a = record { holds = Holds-pure a (λ s p. p) }

    pub Keeps-gets : {A : Type 0} (f : S → A) → Keeps view After P (gets f)
    Keeps-gets f = record { holds = Holds-gets f (λ s p. p) }

    pub Keeps-raise :
        {A : Type 0} (e : Raise)
        → ((v : V) → P v → After e v)
        → Keeps view After P (raise {A = A} e)
    Keeps-raise e h = record { holds = Holds-raise e (λ s p. h (view s) p) }

    pub Keeps-modify : (f : S → S) → ((s : S) → view (f s) ≡ view s) → Keeps view After P (modify f)
    Keeps-modify f h = record { holds = Holds-modify f (λ s p. rw (h s) p) }

    pub Keeps->>= :
        {A B : Type 0} {m : Action S A} {f : A → Action S B}
        → Keeps view After P m
        → ((a : A) → Keeps view After P (f a))
        → Keeps view After P (m >>= f)
    Keeps->>= h k = record { holds = Holds->>= (λ _ s. P (view s)) h.holds (λ a. (k a).holds) }

    pub Keeps->> :
        {A B : Type 0} {m : Action S A} {k : Action S B}
        → Keeps view After P m
        → Keeps view After P k
        → Keeps view After P (m >> k)
    Keeps->> h k = record { holds = Holds->> (λ s. P (view s)) h.holds k.holds }

    pub Keeps-when :
        (b : Bool) {m : Action S (Unit {0})} → Keeps view After P m → Keeps view After P (when b m)
    Keeps-when b h = record { holds = Holds-when b h.holds (λ s p. p) }

    pub Keeps-elim :
        {A : Type 0} (b : Bool) {m k : Action S A}
        → Keeps view After P m
        → Keeps view After P k
        → Keeps view After P (elim b [ true ↦ m | false ↦ k ])
    Keeps-elim true h g = h
    Keeps-elim false h g = g

    -- Whatever is raised is handled.
    pub Keeps-catch :
        {A : Type 0} {m : Action S A} {h : Raise → Action S A}
        → Keeps view (λ _. P) P m
        → ((e : Raise) → Keeps view After P (h e))
        → Keeps view After P (catch m h)
    Keeps-catch p k = record { holds = Holds-catch (λ _ s. P (view s)) p.holds (λ e. (k e).holds) }

pub ruleset keeps_rules = (Keeps-pure, Keeps-gets, Keeps-modify, Keeps->>=, Keeps->>, Keeps-when)
