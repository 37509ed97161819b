-- ===== src/Runtime/Cancellation.antt =====
-- `CancellationSignal` of runtime.py. The thread-safe event is the flag `event`.
use coding_agent_neo.Prelude.{
  ◌≡◌, refl, inl, inr, Bool, true, false, not, Option, none, some, [], ◌∷◌, arith, Result, ok, err,
  ArgumentError, value_error, if◌then◌else◌, is_none, Bool-cases, Option-cases, Text, chars, strip,
  is_empty,
}

pub record CancellationSignal : Type 0 where
  pub event : Bool
  pub reason : Option Text

unfoldable pub clear : CancellationSignal
clear = record { event = false; reason = none }

-- The new signal, and whether the call changed it.
unfoldable pub cancel : Text → CancellationSignal → Result ArgumentError (CancellationSignal × Bool)
cancel reason s =
    if is_empty (strip reason)
    then err value_error
    else (if s.event
        then ok (s, false)
        else ok (record { event = true; reason = some reason }, true))

abbrev pub is_cancelled : CancellationSignal → Bool
is_cancelled s = s.event

-- self._reason or fallback
unfoldable pub reason_or : Text → CancellationSignal → Text
reason_or fallback s = elim s.reason [
  | none ↦ fallback
  | some r ↦ if is_empty r then fallback else r
]

-- `CancellationRequested` with its message
pub data CancellationRequested : Type 0 where
  cancellation_requested : Text → CancellationRequested

unfoldable pub throw_if_cancelled : CancellationSignal → Result CancellationRequested (Unit {0})
unfolding reason_or
throw_if_cancelled s =
    if s.event then err (cancellation_requested (reason_or (chars "cancelled") s)) else ok tt

-- A signal carries a reason, which is not blank, exactly while it is set.
abbrev pub IsCoherent : CancellationSignal → Type 0
IsCoherent s =
    (s.event ≡ not (is_none s.reason))
    × ((t : Text) → s.reason ≡ some t → is_empty (strip t) ≡ false)

filled-strip : (t : Text) → is_empty (strip t) ≡ false → is_empty t ≡ false
unfolding strip
filled-strip [] h = h
filled-strip (c ∷ cs) h = refl

thrown :
    (s : CancellationSignal) (t : Text)
    → s.event ≡ true
    → s.reason ≡ some t
    → is_empty t ≡ false
    → throw_if_cancelled s ≡ err (cancellation_requested t)
unfolding throw_if_cancelled reason_or
thrown s t raised given filled = ground (arith, raised, given, filled)

-- The first cancellation decides: once `cancel` has changed the signal with a reason, every later
-- accepted `cancel` leaves the signal as it was and reports no change, whatever its own reason.
pub cancel_first_wins :
    (s s' t : CancellationSignal) (r r' : Text) (b : Bool)
    → cancel r s ≡ ok (s', true)
    → cancel r' s' ≡ ok (t, b)
    → (t ≡ s') × (b ≡ false) × (s'.reason ≡ some r) × (s.event ≡ false)
unfolding cancel
cancel_first_wins s s' t r r' b h k = ground arith

-- An accepted `cancel` keeps the signal coherent and leaves it set, with a reason, and
-- `throw_if_cancelled` then raises with this reason.
pub cancel-IsCoherent :
    (s s' : CancellationSignal) (r : Text) (b : Bool)
    → IsCoherent s
    → cancel r s ≡ ok (s', b)
    → IsCoherent s'
      × ((t : Text) × (s'.reason ≡ some t)
          × (throw_if_cancelled s' ≡ err (cancellation_requested t)))
unfolding cancel
cancel-IsCoherent s s' r b (agrees, filled) h = elim (Bool-cases (is_empty (strip r))) [
  | inl blank ↦ absurd (ground (arith, h, blank))
  | inr said ↦ elim (Bool-cases s.event) [
    | inl before ↦ elim (Option-cases s.reason) [
      | inl missing ↦ absurd (ground (arith, agrees, before, missing))
      | inr (t, given) ↦
          let same : s' ≡ s = ground (arith, h, said, before) in
          let rest = thrown s t before given (filled-strip t (filled t given)) in
          rw same ((agrees, filled), (t, given, rest))
    ]
    | inr fresh ↦
        let now : CancellationSignal = record { event = true; reason = some r } in
        let same : s' ≡ now = ground (arith, h, said, fresh) in
        rw same (
          (refl, λ t given. ground (arith, given, said)),
          (r, refl, thrown now r refl refl (filled-strip r said)),
        )
  ]
]
