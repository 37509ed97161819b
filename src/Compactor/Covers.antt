-- ===== src/Compactor/Covers.antt =====
-- What a compaction of compactor.py covers.
use coding_agent_neo.Prelude.{
  ℕ, ◌+◌, ◌≤◌, ◌<◌, ◌≡◌, refl, sym, ap, ◌∙◌, ◌≢◌, ◌⊎◌, inl, inr, true, false, Option, none, some,
  List, [], ◌∷◌, ◌++◌, arith, leb, Bool-cases, Option-cases, Text,
}
use mathlib.Core.List.{append-nil, append_assoc}
use coding_agent_neo.Json.{Value, Fields}
use coding_agent_neo.Runtime.State.{ContextState}
use coding_agent_neo.Context.Estimate.{request}
use coding_agent_neo.Context.Group.{MessageGroup, end_sequence}
use coding_agent_neo.Context.Builder.{CompactionPlan, ending_after, last_end, cutoff}
use coding_agent_neo.Compactor.{
  CompactionOutcome, ModelReply, attempted, Compactor, messages_for, fits, select, compact, settle,
  succeed, failure,
}

-- Each group ends after the one before it.
abbrev pub Ascends : ℕ → List MessageGroup → Type 0
Ascends low [] = Unit
Ascends low (g ∷ gs) = (low < end_sequence g) × Ascends (end_sequence g) gs

ending_after-above :
    (low limit : ℕ) (gs : List MessageGroup)
    → limit ≤ low
    → Ascends low gs
    → ending_after limit gs ≡ gs
unfolding ending_after
ending_after-above low limit [] h a = refl
ending_after-above low limit (g ∷ gs) h a =
    let rest = ending_after-above (end_sequence g) limit gs (omega arith) a.1 in
    ground (arith, rest)

-- The groups after the last of some leading groups are those that follow them.
ending_after-last :
    (low : ℕ) (g : MessageGroup) (gs rest : List MessageGroup)
    → Ascends low (g ∷ (gs ++ rest))
    → (ending_after (last_end (g ∷ gs)) (g ∷ (gs ++ rest)) ≡ rest)
      × (end_sequence g ≤ last_end (g ∷ gs))
unfolding ending_after
ending_after-last low g [] rest a =
    let above = ending_after-above (end_sequence g) (end_sequence g) rest (omega arith) a.1 in
    (ground (arith, above), omega arith)
ending_after-last low g (h ∷ gs) rest a =
    let (ih, le) = ending_after-last (end_sequence g) h gs rest a.1 in
    (ground (arith, ih, le), ground (arith, le))

Ascends-lower :
    (low low' : ℕ) (gs : List MessageGroup) → low' ≤ low → Ascends low gs → Ascends low' gs
Ascends-lower low low' [] h a = tt
Ascends-lower low low' (g ∷ gs) h a = (omega arith, a.1)

ending_after-Ascends :
    (low limit : ℕ) (gs : List MessageGroup) → Ascends low gs → Ascends low (ending_after limit gs)
unfolding ending_after
ending_after-Ascends low limit [] a = tt
ending_after-Ascends low limit (g ∷ gs) a =
    let ih = ending_after-Ascends (end_sequence g) limit gs a.1 in
    let lower = Ascends-lower (end_sequence g) low (ending_after limit gs) (omega arith) ih in
    elim (Bool-cases (leb (end_sequence g) limit)) [
      | inl gone ↦ rw gone lower
      | inr stays ↦ rw stays (a.0, ih)
    ]

ending_after-twice :
    (limit later : ℕ) (gs : List MessageGroup)
    → limit ≤ later
    → ending_after later (ending_after limit gs) ≡ ending_after later gs
unfolding ending_after
ending_after-twice limit later [] h = refl
ending_after-twice limit later (g ∷ gs) h = ground (arith, ending_after-twice limit later gs)

ending_after-first :
    (limit : ℕ) (g : MessageGroup) (gs rest : List MessageGroup)
    → ending_after limit gs ≡ g ∷ rest
    → limit < end_sequence g
unfolding ending_after
ending_after-first limit g [] rest h = absurd (ground arith)
ending_after-first limit g (h ∷ gs) rest e = ground (arith, ending_after-first limit g gs rest)

module _ (dumps : Value → Text) where
  select-front :
      (c : Compactor) (old : Option Text) (selected gs chosen : List MessageGroup)
      → select dumps c old selected gs ≡ some chosen
      → (front : List MessageGroup) × (back : List MessageGroup) × (gs ≡ front ++ back)
        × (chosen ≡ selected ++ front)
        × ((chosen ≡ selected) ⊎ (fits dumps c old chosen ≡ some true))
  unfolding select
  select-front c old selected [] chosen h =
      let same : chosen ≡ selected = ground (arith, h) in
      ([], [], refl, same ∙ sym (append-nil selected), inl same)
  select-front c old selected (g ∷ gs) chosen h =
      elim (Option-cases (fits dumps c old (selected ++ g ∷ []))) [
        | inl fails ↦ absurd (ground (arith, h, fails))
        | inr (false, full) ↦
            let same : chosen ≡ selected = ground (arith, h, full) in
            ([], g ∷ gs, refl, same ∙ sym (append-nil selected), inl same)
        | inr (true, room) ↦
            let more : select dumps c old (selected ++ g ∷ []) gs ≡ some chosen =
              ground (arith, h, room) in
            let (front, back, whole, parts, last) =
              select-front c old (selected ++ g ∷ []) gs chosen more in
            (
              g ∷ front,
              back,
              ap (λ (xs : List MessageGroup). g ∷ xs) whole,
              parts ∙ append_assoc selected (g ∷ []) front,
              elim last [ inl stops ↦ inr (rw stops room) | inr kept ↦ inr kept ],
            )
      ]

module _ (dumps : Value → Text) (casefold : Text → Text) where
  settle-succeeds :
      (plan : CompactionPlan) (groups : List MessageGroup) (r : ModelReply) (s s' : ContextState)
      (o : CompactionOutcome)
      → settle dumps casefold plan groups r s ≡ attempted o s'
      → o.succeeded ≡ true
      → (s'.covered_through_sequence ≡ last_end groups)
        × (o.source_end_sequence ≡ last_end groups)
        × (s'.degraded_through_sequence ≡ 0)
        × (s'.degraded_notice ≡ none)
        × (s'.latest_summary ≡ o.summary)
        × (s'.recent_messages ≡ s.recent_messages)
  unfolding settle succeed
  settle-succeeds plan groups (ModelReply.response r) s s' o h k = ground arith
  settle-succeeds plan groups (ModelReply.client_error code overflow) s s' o h k =
      absurd (ground arith)
  settle-succeeds plan groups (ModelReply.other_error e) s s' o h k = absurd (ground arith)
  settle-succeeds plan groups ModelReply.interrupt s s' o h k = absurd (ground arith)

  settle-fails :
      (plan : CompactionPlan) (groups : List MessageGroup) (r : ModelReply) (s s' : ContextState)
      (o : CompactionOutcome)
      → settle dumps casefold plan groups r s ≡ attempted o s'
      → o.succeeded ≡ false
      → (s' ≡ s)
        × (o.summary ≡ none)
        × (o.covered_through_sequence ≡ plan.previous_covered_sequence)
  unfolding settle succeed
  settle-fails plan groups (ModelReply.response r) s s' o h k = ground arith
  settle-fails plan groups (ModelReply.client_error code overflow) s s' o h k = ground arith
  settle-fails plan groups (ModelReply.other_error e) s s' o h k = ground arith
  settle-fails plan groups ModelReply.interrupt s s' o h k = absurd (ground arith)

  fits-within :
      (c : Compactor) (old : Option Text) (groups : List MessageGroup)
      → fits dumps c old groups ≡ some true
      → (n : ℕ) × (request dumps c.estimator (messages_for dumps c old groups) [] ≡ some n)
        × (n + c.reserved_output_tokens ≤ c.context_window)
  unfolding fits
  fits-within c old groups h =
      elim (Option-cases (request dumps c.estimator (messages_for dumps c old groups) [])) [
        | inl fails ↦ absurd (ground (arith, h, fails))
        | inr (n, given) ↦ (n, given, ground (arith, h, given))
      ]

  -- Whatever the model would reply to a request that does not fit into the context window is of no
  -- account: such a request, whose estimate with the tokens that are reserved for the reply is above
  -- the window, or cannot be made, is never sent. Two models that agree on the requests that fit
  -- lead to the same outcome and the same state.
  pub compact-asks_within :
      (c : Compactor) (f g : List Fields → ModelReply) (plan : CompactionPlan) (s : ContextState)
      → ((groups : List MessageGroup) (n : ℕ)
          → request dumps c.estimator (messages_for dumps c plan.old_summary groups) [] ≡ some n
          → n + c.reserved_output_tokens ≤ c.context_window
          → f (messages_for dumps c plan.old_summary groups)
            ≡ g (messages_for dumps c plan.old_summary groups))
      → compact dumps casefold c f plan s ≡ compact dumps casefold c g plan s
  unfolding compact
  compact-asks_within c f g plan s agree = go (select dumps c plan.old_summary [] plan.groups) refl
    where
      go :
          (found : Option (List MessageGroup))
          → select dumps c plan.old_summary [] plan.groups ≡ found
          → compact dumps casefold c f plan s ≡ compact dumps casefold c g plan s
      go none e = ground (arith, e)
      go (some []) e = ground (arith, e)
      go (some (x ∷ xs)) e =
          let (front, back, whole, parts, last) =
            select-front dumps c plan.old_summary [] plan.groups (x ∷ xs) e in
          let room : fits dumps c plan.old_summary (x ∷ xs) ≡ some true = ground (arith, last) in
          let (n, given, within) = fits-within c plan.old_summary (x ∷ xs) room in
          ground (arith, e, agree (x ∷ xs) n given within)

  -- A compaction that succeeds covers some leading groups of its plan, at least one, and nothing
  -- is lost: with the groups in order, what the model still sees of them afterwards is exactly the
  -- rest of the plan and the groups that the plan kept. The state takes over the summary and has no
  -- degraded part; the messages themselves stay.
  pub compact-covers :
      (c : Compactor) (complete : List Fields → ModelReply) (plan : CompactionPlan)
      (s s' : ContextState) (o : CompactionOutcome) (low : ℕ) (gs kept : List MessageGroup)
      → Ascends low gs
      → plan.groups ++ kept ≡ ending_after s.covered_through_sequence gs
      → compact dumps casefold c complete plan s ≡ attempted o s'
      → o.succeeded ≡ true
      → (summarized : List MessageGroup) × (rest : List MessageGroup) × (plan.groups
          ≡ summarized ++ rest)
        × (summarized ≢ [])
        × (ending_after (cutoff s') gs ≡ rest ++ kept)
        × (s'.latest_summary ≡ o.summary)
        × (s'.degraded_notice ≡ none)
        × (s'.recent_messages ≡ s.recent_messages)
        × (s'.covered_through_sequence ≡ o.source_end_sequence)
  unfolding compact failure cutoff
  compact-covers c complete plan s s' o low gs kept a p h k =
      elim (Option-cases (select dumps c plan.old_summary [] plan.groups)) [
        | inl fails ↦ absurd (ground (arith, h, k, fails))
        | inr (found, chosen) ↦
            let (front, back, whole, parts, _) =
              select-front dumps c plan.old_summary [] plan.groups found chosen in
            go front back whole (chosen ∙ ap some parts)
      ]
    where
      go :
          (front back : List MessageGroup)
          → plan.groups ≡ front ++ back
          → select dumps c plan.old_summary [] plan.groups ≡ some front
          → (summarized : List MessageGroup) × (rest : List MessageGroup) × (plan.groups
              ≡ summarized ++ rest)
            × (summarized ≢ [])
            × (ending_after (cutoff s') gs ≡ rest ++ kept)
            × (s'.latest_summary ≡ o.summary)
            × (s'.degraded_notice ≡ none)
            × (s'.recent_messages ≡ s.recent_messages)
            × (s'.covered_through_sequence ≡ o.source_end_sequence)
      go [] back whole chosen = absurd (ground arith)
      go (g ∷ front) back whole chosen =
          let asked : List Fields = messages_for dumps c plan.old_summary (g ∷ front) in
          let settled : settle dumps casefold plan (g ∷ front) (complete asked) s ≡ attempted o s' =
            ground arith in
          let facts = settle-succeeds plan (g ∷ front) (complete asked) s s' o settled k in
          let pending : ending_after s.covered_through_sequence gs ≡ g ∷ (front ++ (back ++ kept)) =
            ground (arith, append_assoc front back kept) in
          let ascending = ending_after-Ascends low s.covered_through_sequence gs a in
          let (left, above) =
            ending_after-last low g front (back ++ kept) (rw pending at ascending) in
          let later = ending_after-first s.covered_through_sequence g gs _ pending in
          let cut : cutoff s' ≡ last_end (g ∷ front) = omega (arith, facts.0, facts.2) in
          let twice =
            ending_after-twice s.covered_through_sequence (last_end (g ∷ front)) gs (omega arith) in
          (
            g ∷ front,
            back,
            whole,
            λ e. ground arith,
            rw cut (sym twice ∙ ap (ending_after (last_end (g ∷ front))) pending ∙ left),
            facts.4,
            facts.3,
            facts.5,
            facts.0 ∙ sym facts.1,
          )

  -- A compaction that does not succeed leaves the state as it was.
  pub compact-failed :
      (c : Compactor) (complete : List Fields → ModelReply) (plan : CompactionPlan)
      (s s' : ContextState) (o : CompactionOutcome)
      → compact dumps casefold c complete plan s ≡ attempted o s'
      → o.succeeded ≡ false
      → (s' ≡ s)
        × (o.summary ≡ none)
        × (o.covered_through_sequence ≡ plan.previous_covered_sequence)
  unfolding compact failure
  compact-failed c complete plan s s' o h k =
      go (select dumps c plan.old_summary [] plan.groups) refl
    where
      go :
          (found : Option (List MessageGroup))
          → select dumps c plan.old_summary [] plan.groups ≡ found
          → (s' ≡ s)
            × (o.summary ≡ none)
            × (o.covered_through_sequence ≡ plan.previous_covered_sequence)
      go none e = ground arith
      go (some []) e = ground arith
      go (some (g ∷ gs)) e =
          settle-fails plan (g ∷ gs) (complete (messages_for dumps c plan.old_summary (g ∷ gs))) s
            s' o (ground arith) k
