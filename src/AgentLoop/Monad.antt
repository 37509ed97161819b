-- ===== src/AgentLoop/Monad.antt =====
-- Code of agent_loop.py that changes an object and may raise: a step on the object's state, which
-- comes back after an exception too. The rules say what such code keeps, whichever way it ends.
pub mod Keeps
use coding_agent_neo.Prelude.{◌≡◌, Bool, true, false, Result, ok, err, if◌then◌else◌, all, Text}
use coding_agent_neo.Runtime.Budget.{LimitReason}

-- The exceptions that cross the loop: `_LoopLimitReached`, `ContextWindowExceeded`, those that the
-- handler of interruptions takes (KeyboardInterrupt, CancelledError, CancellationRequested) and all
-- others, with the class's name and whether it is a model error that reports an overflow.
pub data Raise : Type 0 where
  limit_exceeded : LimitReason → Raise
  window_exceeded : Raise
  interrupt : Text → Raise
  failure : (error_type : Text) (context_overflow : Bool) → Raise

abbrev pub Action : Type 0 → Type 0 → Type 0
Action S A = S → Result Raise A × S

module _ {S : Type 0} where
  unfoldable pub pure : {A : Type 0} → A → Action S A
  pure a s = (ok a, s)

  unfoldable pub raise : {A : Type 0} → Raise → Action S A
  raise e s = (err e, s)

  unfoldable pub gets : {A : Type 0} → (S → A) → Action S A
  gets f s = (ok (f s), s)

  unfoldable pub modify : (S → S) → Action S (Unit {0})
  modify f s = (ok tt, f s)

  abbrev pub next : {A B : Type 0} → Result Raise A × S → (A → Action S B) → Result Raise B × S
  next (ok a, s) f = f a s
  next (err e, s) f = (err e, s)

  abbrev pub handle : {A : Type 0} → Result Raise A × S → (Raise → Action S A) → Result Raise A × S
  handle (ok a, s) h = (ok a, s)
  handle (err e, s) h = h e s

  infixl 5 ◌>>=◌ ◌>>◌
  unfoldable pub ◌>>=◌ : {A B : Type 0} → Action S A → (A → Action S B) → Action S B
  ◌>>=◌ m f s = next (m s) f

  unfoldable pub ◌>>◌ : {A B : Type 0} → Action S A → Action S B → Action S B
  ◌>>◌ m k s = next (m s) (λ _. k)

  -- try: m except as e: h e
  unfoldable pub catch : {A : Type 0} → Action S A → (Raise → Action S A) → Action S A
  catch m h s = handle (m s) h

  unfoldable pub when : Bool → Action S (Unit {0}) → Action S (Unit {0})
  unfolding pure
  when b m = if b then m else pure tt

  -- The last state satisfies `Q` beside a result, `After` beside an exception.
  abbrev pub Ends :
      {A : Type 0} → (Raise → S → Type 0) → (A → S → Type 0) → Result Raise A × S → Type 0
  Ends After Q (ok a, s) = Q a s
  Ends After Q (err e, s) = After e s

  -- From a state that satisfies `P` the code ends well.
  pub record Holds {A : Type 0} (After : Raise → S → Type 0) (P : S → Type 0) (m : Action S A)
      (Q : A → S → Type 0) : Type 0 where
    pub run : (s : S) → P s → Ends After Q (m s)

  module _ {After : Raise → S → Type 0} {P : S → Type 0} where
    pub Holds-pure :
        {A : Type 0} {Q : A → S → Type 0} (a : A)
        → ((s : S) → P s → Q a s)
        → Holds After P (pure a) Q
    unfolding pure
    Holds-pure a h = record { run = λ s p. h s p }

    pub Holds-raise :
        {A : Type 0} {Q : A → S → Type 0} (e : Raise)
        → ((s : S) → P s → After e s)
        → Holds After P (raise {A = A} e) Q
    unfolding raise
    Holds-raise e h = record { run = λ s p. h s p }

    pub Holds-gets :
        {A : Type 0} {Q : A → S → Type 0} (f : S → A)
        → ((s : S) → P s → Q (f s) s)
        → Holds After P (gets f) Q
    unfolding gets
    Holds-gets f h = record { run = λ s p. h s p }

    pub Holds-modify :
        {Q : Unit {0} → S → Type 0} (f : S → S)
        → ((s : S) → P s → Q tt (f s))
        → Holds After P (modify f) Q
    unfolding modify
    Holds-modify f h = record { run = λ s p. h s p }

    pub Holds->>= :
        {A B : Type 0} (Q : A → S → Type 0) {R : B → S → Type 0} {m : Action S A}
        {f : A → Action S B}
        → Holds After P m Q
        → ((a : A) → Holds After (Q a) (f a) R)
        → Holds After P (m >>= f) R
    unfolding ◌>>=◌
    Holds->>= {A} {B} Q {R} {m} {f} h k = record { run = λ s p. go (m s) (h.run s p) }
      where
        go : (r : Result Raise A × S) → Ends After Q r → Ends After R (next r f)
        go (ok a, s) q = (k a).run s q
        go (err e, s) q = q

    pub Holds->> :
        {A B : Type 0} (Q : S → Type 0) {R : B → S → Type 0} {m : Action S A} {k : Action S B}
        → Holds After P m (λ _. Q)
        → Holds After Q k R
        → Holds After P (m >> k) R
    unfolding ◌>>◌
    Holds->> {A} {B} Q {R} {m} {k} h g = record { run = λ s p. go (m s) (h.run s p) }
      where
        go : (r : Result Raise A × S) → Ends After (λ _. Q) r → Ends After R (next r (λ _. k))
        go (ok a, s) q = g.run s q
        go (err e, s) q = q

    pub Holds-when :
        {Q : S → Type 0} (b : Bool) {m : Action S (Unit {0})}
        → Holds After P m (λ _. Q)
        → ((s : S) → P s → Q s)
        → Holds After P (when b m) (λ _. Q)
    unfolding when
    Holds-when true h k = h
    Holds-when false h k = Holds-pure tt k

    pub Holds-elim :
        {A : Type 0} {Q : A → S → Type 0} (b : Bool) {m k : Action S A}
        → Holds After P m Q
        → Holds After P k Q
        → Holds After P (elim b [ true ↦ m | false ↦ k ]) Q
    Holds-elim true h g = h
    Holds-elim false h g = g

  pub Holds-catch :
      (Before : Raise → S → Type 0) {After : Raise → S → Type 0} {P : S → Type 0} {A : Type 0}
      {Q : A → S → Type 0} {m : Action S A} {h : Raise → Action S A}
      → Holds Before P m Q
      → ((e : Raise) → Holds After (Before e) (h e) Q)
      → Holds After P (catch m h) Q
  unfolding catch
  Holds-catch Before {After} {P} {A} {Q} {m} {h} p k = record { run = λ s q. go (m s) (p.run s q) }
    where
      go : (r : Result Raise A × S) → Ends Before Q r → Ends After Q (handle r h)
      go (ok a, s) q = q
      go (err e, s) q = (k e).run s q

  pub Holds-both :
      {After : Raise → S → Type 0} {P : S → Type 0} {A : Type 0} {Q R : A → S → Type 0}
      {m : Action S A}
      → Holds After P m Q
      → Holds (λ _ _. Unit) P m R
      → Holds After P m (λ a s. Q a s × R a s)
  Holds-both {After} {P} {A} {Q} {R} {m} h k = record {
    run = λ s p. go (m s) (h.run s p) (k.run s p);
  }
    where
      go :
          (r : Result Raise A × S)
          → Ends After Q r
          → Ends (λ _ _. Unit) R r
          → Ends After (λ a s. Q a s × R a s) r
      go (ok a, t) q r = (q, r)
      go (err e, t) q r = q

  -- What holds of a run that gives a value.
  pub Holds-ok :
      {After : Raise → S → Type 0} {P : S → Type 0} {A : Type 0} {Q : A → S → Type 0}
      {m : Action S A} {s t : S} {a : A}
      → Holds After P m Q
      → P s
      → m s ≡ (ok a, t)
      → Q a t
  Holds-ok {After} {P} {A} {Q} {m} {s} h p ends = rw ends at (h.run s p)

  -- Any code promises nothing.
  pub Holds-any :
      {P : S → Type 0} {A : Type 0} (m : Action S A) → Holds (λ _ _. Unit) P m (λ _ _. Unit)
  Holds-any {P} {A} m = record { run = λ s p. go (m s) }
    where
      go : (r : Result Raise A × S) → Ends (λ _ _. Unit) (λ _ _. Unit) r
      go (ok a, t) = tt
      go (err e, t) = tt

  -- A weaker conclusion from a stronger premise.
  pub Holds-weaken :
      {After : Raise → S → Type 0} {P P' : S → Type 0} {A : Type 0} (Q : A → S → Type 0)
      {Q' : A → S → Type 0} {m : Action S A}
      → Holds After P m Q
      → ((s : S) → P' s → P s)
      → ((a : A) (s : S) → Q a s → Q' a s)
      → Holds After P' m Q'
  Holds-weaken {After} {P} {P'} {A} Q {Q'} {m} h p q = record {
    run = λ s x. go (m s) (h.run s (p s x));
  }
    where
      go : (r : Result Raise A × S) → Ends After Q r → Ends After Q' r
      go (ok a, t) y = q a t y
      go (err e, t) y = y

  -- What is known of the state before may say something else besides.
  pub Holds-fact :
      {After : Raise → S → Type 0} {P : S → Type 0} {F : Type 0} {A : Type 0} {Q : A → S → Type 0}
      {m : Action S A}
      → (F → Holds After P m Q)
      → Holds After (λ s. P s × F) m Q
  Holds-fact h = record { run = λ s p. (h p.1).run s p.0 }
