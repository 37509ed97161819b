-- ===== src/Session/Sound.antt =====
-- What the events that `read_session` of session.py gives have in common.
use coding_agent_neo.Prelude.{
  ℕ, ◌+◌, ◌<◌, ◌≡◌, refl, sym, ap, inl, inr, Bool, true, false, ◌||◌, Option, none, some, List, [],
  ◌∷◌, ◌++◌, map, arith, Result, ok, err, get_or, Bool-cases, length, All, length-append,
  All-append, Text, text_eq, text_eq→≡, member,
}
use mathlib.Core.Path.{subst}
use coding_agent_neo.Prelude.Distinct.{distinct, text_eq_comm}
use coding_agent_neo.Session.{
  at_line, with_head, EventEnvelope, SessionError, SessionDiagnostic, SessionReadResult, Codec,
  Reading, newline, splitlines, ends_with, violates, accept, record_of, bad_line, read_lines, start,
  read_session, other_session, not_after,
}

-- Each event has a greater number than those before it.
abbrev pub Ascending : List EventEnvelope → Type 0
Ascending [] = Unit
Ascending (e ∷ es) = All (λ d. e.sequence < d.sequence) es × Ascending es

-- All are of one session, the expected one where there is one.
abbrev pub OneSession : Option Text → List EventEnvelope → Type 0
OneSession expected es =
    (owner : Option Text) × All (λ e. owner ≡ some e.session_id) es
    × ((t : Text) → expected ≡ some t → owner ≡ some t)

abbrev pub ids : List EventEnvelope → List Text
ids es = map (λ e. e.event_id) es

-- What a file of this many bytes is read as: the events are of one session, with different IDs and
-- ascending numbers, and a tail that is left out is the end of the file.
abbrev pub Sound : Option Text → ℕ → SessionReadResult → Type 0
Sound expected total r =
    OneSession expected r.events
    × (distinct (ids r.events) ≡ true)
    × Ascending r.events
    × ((d : SessionDiagnostic) → r.diagnostic ≡ some d → d.byte_offset + d.byte_length ≡ total)

All-weaken :
    {A : Type 0} (P Q : A → Type 0) (xs : List A) → ((a : A) → P a → Q a) → All P xs → All Q xs
All-weaken P Q [] f h = tt
All-weaken P Q (x ∷ xs) f h = (f x h.0, All-weaken P Q xs f h.1)

Ascending-append :
    (es : List EventEnvelope) (e : EventEnvelope)
    → Ascending es
    → All (λ d. d.sequence < e.sequence) es
    → Ascending (es ++ e ∷ [])
Ascending-append [] e a h = (tt, tt)
Ascending-append (d ∷ es) e a h =
    (All-append _ es (e ∷ []) a.0 (h.0, tt), Ascending-append es e a.1 h.1)

member-append : (x y : Text) (xs : List Text) → member x (xs ++ y ∷ []) ≡ member x xs || text_eq x y
member-append x y [] = ground arith
member-append x y (z ∷ xs) = ground (arith, member-append x y xs)

distinct-append :
    (xs : List Text) (x : Text)
    → distinct xs ≡ true
    → member x xs ≡ false
    → distinct (xs ++ x ∷ []) ≡ true
distinct-append [] x h new = refl
distinct-append (y ∷ xs) x h new =
    ground (arith, member-append y x xs, text_eq_comm x y, distinct-append xs x)

map-append-one :
    (es : List EventEnvelope) (e : EventEnvelope) → ids (es ++ e ∷ []) ≡ ids es ++ e.event_id ∷ []
map-append-one [] e = refl
map-append-one (d ∷ es) e = ap (λ l. d.event_id ∷ l) (map-append-one es e)

abbrev join : List (List ℕ) → List ℕ
join [] = []
join (l ∷ ls) = l ++ join ls

-- The lines hold all bytes.
join-with_head : (b : ℕ) (ls : List (List ℕ)) → join (with_head b ls) ≡ b ∷ join ls
join-with_head b [] = refl
join-with_head b (l ∷ ls) = refl

join-splitlines : (bytes : List ℕ) → join (splitlines bytes) ≡ bytes
unfolding splitlines
join-splitlines [] = refl
join-splitlines (b ∷ []) = refl
join-splitlines (b ∷ c ∷ bytes) =
    ground (arith, join-splitlines (c ∷ bytes), join-with_head b (splitlines (c ∷ bytes)))

module _ (codec : Codec) (expected : Option Text) (total : ℕ) where
  -- What holds of the reading of the first lines of a file.
  record Reads (r : Reading) (lines : List (List ℕ)) : Type 0 where
    pub known : r.event_ids ≡ ids r.events
    pub different : distinct r.event_ids ≡ true
    pub owned : All (λ e. r.inferred_session ≡ some e.session_id) r.events
    pub expects : (t : Text) → expected ≡ some t → r.inferred_session ≡ some t
    pub ascends : Ascending r.events
    pub above :
        (n : ℕ) → not_after r.previous_sequence n ≡ false → All (λ e. e.sequence < n) r.events
    pub spans : r.offset + length (join lines) ≡ total

  accept-owned :
      (inferred : Option Text) (es : List EventEnvelope) (session : Text)
      → other_session inferred session ≡ false
      → All (λ e. inferred ≡ some e.session_id) es
      → (some (get_or inferred session) ≡ some session)
        × (All (λ e. some (get_or inferred session) ≡ some e.session_id) es
            × ((t : Text) → inferred ≡ some t → some (get_or inferred session) ≡ some t))
  accept-owned none es session h owned = (
    refl,
    (
      All-weaken _ _ es (λ e absent. absurd (ground (arith, absent))) owned,
      λ t same. absurd (ground (arith, same)),
    ),
  )
  accept-owned (some s) es session h owned =
      (ap some (sym (text_eq→≡ session s (ground (arith, h)))), (owned, λ t same. same))

  accept-Reads :
      (r : Reading) (e : EventEnvelope) (line : List ℕ) (lines : List (List ℕ))
      → violates r e ≡ false
      → Reads r (line ∷ lines)
      → Reads (accept e line r) lines
  unfolding violates accept
  accept-Reads r e line lines keeps h =
      let same_session : other_session r.inferred_session e.session_id ≡ false = ground arith in
      let new : member e.event_id r.event_ids ≡ false = ground arith in
      let later : not_after r.previous_sequence e.sequence ≡ false = ground arith in
      let (mine, (owned, same)) =
        accept-owned r.inferred_session r.events e.session_id same_session h.owned in
      let below = h.above e.sequence later in
      record {
        known = rw h.known (sym (map-append-one r.events e));
        different = distinct-append r.event_ids e.event_id h.different new;
        owned = All-append _ r.events (e ∷ []) owned (mine, tt);
        expects = λ t known. same t (h.expects t known);
        ascends = Ascending-append r.events e h.ascends below;
        above = λ n after.
            let less : e.sequence < n = ground (arith, after) in
            All-append _ r.events (e ∷ []) (All-weaken _ _ r.events (λ d lower. omega arith) below)
              (less, tt);
        spans = omega (arith, h.spans, length-append line (join lines));
      }

  abbrev OnOk : Result SessionError SessionReadResult → Type 0
  OnOk (ok r) = Sound expected total r
  OnOk (err e) = Unit

  module _ (ended : Bool) where
    bad_line-OnOk :
        (r : Reading) (line : List ℕ) (lines : List (List ℕ))
        → Reads r (line ∷ lines)
        → OnOk (bad_line codec ended r line lines)
    unfolding bad_line
    bad_line-OnOk r line (l ∷ lines) h = tt
    bad_line-OnOk r line [] h = elim (Bool-cases (ends_with newline line)) [
      | inl complete ↦ rw complete tt
      | inr cut ↦ rw cut (
        (r.inferred_session, h.owned, h.expects),
        rw h.known at h.different,
        h.ascends,
        λ d here. ground (arith, here, h.spans, length-append line []),
      )
    ]

    read_lines-OnOk :
        (r : Reading) (lines : List (List ℕ))
        → Reads r lines
        → OnOk (read_lines codec ended r lines)
    unfolding read_lines
    read_lines-OnOk r [] h = (
      (r.inferred_session, h.owned, h.expects),
      rw h.known at h.different,
      h.ascends,
      λ d here. absurd (ground (arith, here)),
    )
    read_lines-OnOk r (line ∷ lines) h =
        go (λ next. read_lines-OnOk next lines) (record_of codec line) refl
      where
        go :
            ((next : Reading) → Reads next lines → OnOk (read_lines codec ended next lines))
            → (found : Option EventEnvelope) → record_of codec line ≡ found
            → OnOk (read_lines codec ended r (line ∷ lines))
        go others none absent =
            let same : read_lines codec ended r (line ∷ lines) ≡ bad_line codec ended r line lines =
              ground (arith, absent) in
            subst OnOk (sym same) (bad_line-OnOk r line lines h)
        go others (some e) found = elim (Bool-cases (violates r e)) [
          | inl bad ↦
              let same : read_lines codec ended r (line ∷ lines) ≡ err (at_line r) =
                ground (arith, found, bad) in
              subst OnOk (sym same) tt
          | inr keeps ↦
              let same : read_lines codec ended r (line ∷ lines)
                  ≡ read_lines codec ended (accept e line r) lines =
                ground (arith, found, keeps) in
              subst OnOk (sym same) (others (accept e line r) (accept-Reads r e line lines keeps h))
        ]

  start-Reads : (lines : List (List ℕ)) → length (join lines) ≡ total → Reads (start expected) lines
  start-Reads lines whole = record {
    known = refl;
    different = refl;
    owned = tt;
    expects = λ t same. same;
    ascends = tt;
    above = λ n after. tt;
    spans = omega (arith, whole);
  }

read_session-OnOk :
    (codec : Codec) (expected : Option Text) (bytes : List ℕ)
    → OnOk codec expected (length bytes) (read_session codec expected bytes)
unfolding read_session
read_session-OnOk codec expected [] =
    ((expected, tt, λ t same. same), refl, tt, λ d here. absurd (ground (arith, here)))
read_session-OnOk codec expected (b ∷ bytes) =
    read_lines-OnOk codec expected (length (b ∷ bytes)) (ends_with newline (b ∷ bytes))
      (start expected) (splitlines (b ∷ bytes))
      (start-Reads codec expected (length (b ∷ bytes)) (splitlines (b ∷ bytes))
        (ap length (join-splitlines (b ∷ bytes))))

-- Whatever the bytes of a file are, and however a record is decoded: where `read_session` gives a
-- result, its events are of one session, the expected one where there is one, have different IDs and
-- ascending sequence numbers, and a tail that is left out ends where the file ends.
pub read_session-Sound :
    (codec : Codec) (expected : Option Text) (bytes : List ℕ) (r : SessionReadResult)
    → read_session codec expected bytes ≡ ok r
    → Sound expected (length bytes) r
read_session-Sound codec expected bytes r given =
    rw given at (read_session-OnOk codec expected bytes)
