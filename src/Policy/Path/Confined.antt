-- ===== src/Policy/Path/Confined.antt =====
-- What a syntactically safe path means: joined to any workspace directory, it names something below.
use coding_agent_neo.Prelude.{
  ◌≡◌, refl, inl, inr, Bool, true, false, ◌||◌, Option, none, some, List, [], ◌∷◌, ◌++◌, arith,
  if◌then◌else◌, Bool-cases, any, Text, text_eq, is_empty,
}
use mathlib.Core.List.{append_assoc, append-nil}
use coding_agent_neo.Json.{str}
use coding_agent_neo.Policy.Path.{
  has_drive, starts_with_separator, split_parts, dot_dot, safe_relative_path,
}

-- The directory one level up; the root is its own parent.
abbrev pub parent : List Text → List Text
parent [] = []
parent (d ∷ []) = []
parent (d ∷ e ∷ ds) = d ∷ parent (e ∷ ds)

-- One component of a path, at a directory given by its components from the root.
abbrev pub enter : List Text → Text → List Text
enter dir part =
    if is_empty part || text_eq part (b'.' ∷ [])
    then dir
    else if text_eq part dot_dot
    then parent dir
    else dir ++ part ∷ []

pub walk : List Text → List Text → List Text
walk dir [] = dir
walk dir (part ∷ parts) = walk (enter dir part) parts

-- Where a path leads from a working directory, by the rules of both systems: a drive or a share
-- leaves the file system (`none`), a leading separator starts over at the root, and either
-- separator parts the components.
pub target : List Text → Text → Option (List Text)
target dir path =
    if has_drive path
    then none
    else some (walk (if starts_with_separator path then [] else dir) (split_parts path))

enter-below :
    (dir deep : List Text) (part : Text)
    → text_eq part dot_dot ≡ false
    → enter (dir ++ deep) part ≡ dir ++ enter deep part
enter-below dir deep part h = elim (Bool-cases (is_empty part || text_eq part (b'.' ∷ []))) [
  | inl same ↦ rw same
  | inr new ↦ rw (new, h) (append_assoc dir deep (part ∷ []))
]

walk-below :
    (dir deep parts : List Text)
    → any (λ part. text_eq part dot_dot) parts ≡ false
    → walk (dir ++ deep) parts ≡ dir ++ walk deep parts
unfolding walk
walk-below dir deep [] h = refl
walk-below dir deep (part ∷ parts) h =
    rw (enter-below dir deep part (ground arith))
      (walk-below dir (enter deep part) parts (ground arith))

-- A path that the policy accepts as safe leads from every working directory to a place at or below
-- that directory: nothing in it leaves the directory, lexically, on either system.
pub safe-target_below :
    (dir : List Text) (path : Text) (allow_empty : Bool)
    → safe_relative_path (str path) allow_empty ≡ true
    → target dir path ≡ some (dir ++ walk [] (split_parts path))
unfolding safe_relative_path target
safe-target_below dir path allow_empty h =
    let below = rw (append-nil dir) at (walk-below dir [] (split_parts path)) in
    ground (arith, below)
