-- ===== src/Context/Builder/Plan.antt =====
-- What `plan_compaction` of context.py chooses to summarize.
use coding_agent_neo.Prelude.{
  ℕ, ◌-◌, ◌<◌, ◌≡◌, sym, ap, ◌∙◌, ◌≢◌, inl, inr, Bool, some, List, [], ◌++◌, arith, ok, leb,
  if◌then◌else◌, Bool-cases, length, take, drop, take-append-drop, length-take, length-drop,
}
use coding_agent_neo.Runtime.State.{ContextState}
use coding_agent_neo.Context.Group.{MessageGroup}
use coding_agent_neo.Context.Builder.{
  ContextBuilder, CompactionPlan, all_groups, ending_after, plan_compaction,
}

abbrev pub retained : ContextBuilder → Bool → ℕ
retained b forced = if forced then 1 else b.keep_recent_groups

-- A plan takes whole groups from the front of those that are not covered yet, and leaves exactly
-- the number of recent groups that is to be kept (one, if compaction is forced); there is a group
-- to summarize, all of them end after what is covered, and the summary so far is the state's.
pub plan_compaction-leaves :
    (b : ContextBuilder) (forced : Bool) (s s' : ContextState) (all_of_them : List MessageGroup)
    (plan : CompactionPlan)
    → all_groups s ≡ (ok all_of_them, s')
    → plan_compaction b forced s ≡ (ok (some plan), s')
    → (kept : List MessageGroup) × (plan.groups ++ kept
        ≡ ending_after s.covered_through_sequence all_of_them)
      × (length kept ≡ retained b forced)
      × (plan.groups ≢ [])
      × (plan.forced ≡ forced)
      × (plan.old_summary ≡ s.latest_summary)
      × (plan.previous_covered_sequence ≡ s.covered_through_sequence)
unfolding plan_compaction
plan_compaction-leaves b forced s s' gs plan h k =
    let pending : List MessageGroup = ending_after s.covered_through_sequence gs in
    let count : ℕ = length pending - retained b forced in
    elim (Bool-cases (leb (length pending) (retained b forced))) [
      | inl few ↦ absurd (ground arith)
      | inr many ↦
          let room : retained b forced < length pending = ground arith in
          let chosen : plan.groups ≡ take count pending = ground arith in
          (
            drop count pending,
            rw chosen (take-append-drop count pending),
            omega (arith, length-drop count pending),
            λ none_left. absurd (
                omega (
                  arith,
                  length-take count pending,
                  ap (length {A = MessageGroup}) (sym chosen ∙ none_left),
                )),
            ground arith,
            ground arith,
            ground arith,
          )
    ]
