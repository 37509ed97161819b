-- ===== src/Policy/Decide/Laws.antt =====
-- What `DefaultExecutionPolicy.decide` of policy.py lets through.
use coding_agent_neo.Prelude.{
  ◌≡◌, refl, ◌≢◌, ◌⊎◌, inl, inr, Bool, true, false, not, ◌&&◌, ◌||◌, Option, some, List, [], ◌∷◌,
  ◌++◌, arith, if◌then◌else◌, get_or, Option-cases, Text, chars, text_eq, member,
}
use coding_agent_neo.Json.{Value, Fields, obj, str, get}
use coding_agent_neo.Tools.Schema.{Arguments, raw}
use coding_agent_neo.Policy.Path.{safe_relative_path, split_parts}
use coding_agent_neo.Policy.Path.Confined.{target, walk, safe-target_below}
use coding_agent_neo.Policy.Decide.{
  is_str, is_nonempty_str, PolicyDecision, allow, ask, deny, ApprovalMode, ask_mode, auto_mode,
  yolo_mode, DefaultExecutionPolicy, read_tools, write_tools, file_tools, bash_tool,
  decide_side_effect, decide_file, decide_bash, decide_parsed, coerce_arguments, decide, or_empty,
  is_false,
}

decide_side_effect-allow :
    (p : DefaultExecutionPolicy)
    → decide_side_effect p ≡ allow
    → (p.approval_mode ≡ auto_mode) ⊎ (p.approval_mode ≡ yolo_mode)
unfolding decide_side_effect
decide_side_effect-allow p h = ground arith

pub decide_side_effect-ask :
    (p : DefaultExecutionPolicy)
    → decide_side_effect p ≡ ask
    → (p.approval_mode ≡ ask_mode) × (is_false p.interactive ≡ false)
unfolding decide_side_effect
decide_side_effect-ask p h = ground arith

-- The three ways in which the tests end.
abbrev Outcome : DefaultExecutionPolicy → Text → PolicyDecision → Type 0
Outcome p name d =
    (d ≡ deny) ⊎ (((member name read_tools ≡ true) × (d ≡ allow)) ⊎ (d ≡ decide_side_effect p))

-- A further test that denies keeps the outcome.
deny-Outcome :
    (p : DefaultExecutionPolicy) (name : Text) (test : Bool) (d : PolicyDecision)
    → Outcome p name d
    → Outcome p name (if test then deny else d)
deny-Outcome p name true d h = inl refl
deny-Outcome p name false d h = h

tool-Outcome :
    (p : DefaultExecutionPolicy) (name : Text)
    → member name file_tools ≡ true
    → Outcome p name (if member name write_tools then decide_side_effect p else allow)
tool-Outcome p name h = ground arith

decide_file-Outcome :
    (p : DefaultExecutionPolicy) (name : Text) (parsed : Fields)
    → member name file_tools ≡ true
    → Outcome p name (decide_file p name parsed)
unfolding decide_file
decide_file-Outcome p name parsed h =
    let search_blank : Bool =
      text_eq name (chars "search") && not (is_nonempty_str (get "query" parsed)) in
    let no_content : Bool =
      text_eq name (chars "write_file") && not (is_str (get "content" parsed)) in
    let no_texts : Bool =
      text_eq name (chars "edit_file")
      && (not (is_nonempty_str (get "old_text" parsed)) || not (is_str (get "new_text" parsed))) in
    deny-Outcome p name
      (not (
        safe_relative_path (or_empty (get "path" parsed))
          (member name (chars "list_files" ∷ chars "search" ∷ []))))
      _
      (deny-Outcome p name search_blank _
        (deny-Outcome p name no_content _ (deny-Outcome p name no_texts _ (tool-Outcome p name h))))

decide_parsed-Outcome :
    (p : DefaultExecutionPolicy) (name : Text) (parsed : Fields)
    → Outcome p name (decide_parsed p name parsed)
unfolding decide_parsed decide_bash
decide_parsed-Outcome p name parsed = ground (arith, decide_file-Outcome p name parsed)

decide_file-safe :
    (p : DefaultExecutionPolicy) (name : Text) (parsed : Fields)
    → decide_file p name parsed ≢ deny
    → safe_relative_path
        (or_empty (get "path" parsed))
        (member name (chars "list_files" ∷ chars "search" ∷ []))
      ≡ true
unfolding decide_file
decide_file-safe p name parsed h = ground arith

-- Only a string is a safe path.
safe_string :
    (v : Value) (e : Bool)
    → safe_relative_path v e ≡ true
    → (path : Text) × (v ≡ str path) × (safe_relative_path (str path) e ≡ true)
unfolding safe_relative_path
safe_string (str path) e h = (path, refl, h)
safe_string (obj _) e h = cc
safe_string _ e h = cc

module _ (loads : Text → Option Value) (encodable : Value → Bool) where
  decide-Outcome :
      (p : DefaultExecutionPolicy) (name : Text) (a : Option Arguments)
      → Outcome p name (decide loads encodable p name a)
  unfolding decide
  decide-Outcome p name a =
      elim (Option-cases (coerce_arguments loads encodable (get_or a (raw [])))) [
        | inl bad ↦ ground arith
        | inr (parsed, good) ↦ ground (arith, decide_parsed-Outcome p name parsed)
      ]

  -- A call that the policy allows without approval is one of a reading tool, or the mode is `auto`
  -- or `yolo`, whatever the arguments.
  pub decide-allow :
      (p : DefaultExecutionPolicy) (name : Text) (a : Option Arguments)
      → decide loads encodable p name a ≡ allow
      → (member name read_tools ≡ true)
        ⊎ ((p.approval_mode ≡ auto_mode) ⊎ (p.approval_mode ≡ yolo_mode))
  decide-allow p name a h = ground (arith, decide-Outcome p name a, decide_side_effect-allow p)

  -- A call is left to approval only in the mode `ask`, and not where the policy was told that
  -- nobody can be asked.
  pub decide-ask :
      (p : DefaultExecutionPolicy) (name : Text) (a : Option Arguments)
      → decide loads encodable p name a ≡ ask
      → (p.approval_mode ≡ ask_mode) × (is_false p.interactive ≡ false)
  decide-ask p name a h = ground (arith, decide-Outcome p name a, decide_side_effect-ask p)

  -- A call of a file tool that the policy does not deny has a path that is a string and that leads
  -- from every working directory to a place at or below it.
  pub decide-path_below :
      (p : DefaultExecutionPolicy) (name : Text) (a : Arguments) (parsed : Fields)
      → member name file_tools ≡ true
      → coerce_arguments loads encodable a ≡ some parsed
      → decide loads encodable p name (some a) ≢ deny
      → (path : Text) × (or_empty (get "path" parsed) ≡ str path)
        × ((dir : List Text) → target dir path ≡ some (dir ++ walk [] (split_parts path)))
  unfolding decide decide_parsed
  decide-path_below p name a parsed h k d =
      let file : decide_file p name parsed ≢ deny = ground arith in
      let (path, is_path, safe) = safe_string _ _ (decide_file-safe p name parsed file) in
      (path, is_path, λ dir. safe-target_below dir path _ safe)

  -- The approval mode has no say in the decision on any tool that is not for writing and is not the
  -- shell.
  pub decide-mode_independent :
      (p : DefaultExecutionPolicy) (m : ApprovalMode) (name : Text) (a : Option Arguments)
      → member name write_tools ≡ false
      → text_eq name bash_tool ≡ false
      → decide loads encodable (record p { approval_mode = m }) name a
        ≡ decide loads encodable p name a
  unfolding decide decide_parsed decide_file
  decide-mode_independent p m name a h k = ground arith
