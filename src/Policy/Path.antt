-- ===== src/Policy/Path.antt =====
-- `_safe_relative_path` of policy.py. The tests of `ntpath` and `posixpath` that it calls are
-- Python's, as of version 3.12, as far as their answers are used.
pub mod Confined
use coding_agent_neo.Prelude.{
  ℕ, Bool, true, false, not, ◌&&◌, ◌||◌, List, [], ◌∷◌, leb, ◌==◌, if◌then◌else◌, any, Text,
  text_eq, is_empty,
}
use coding_agent_neo.Json.{Value, str}

abbrev pub is_separator : ℕ → Bool
is_separator c = c == b'/' || c == 92

abbrev is_letter : ℕ → Bool
is_letter c = (leb b'A' c && leb c b'Z') || (leb b'a' c && leb c b'z')

-- _DRIVE_PREFIX.match(value)
unfoldable pub drive_prefix : Text → Bool
drive_prefix (c ∷ d ∷ _) = is_letter c && d == b':'
drive_prefix _ = false

-- ntpath.splitdrive(value)[0] is not empty: a UNC prefix, or a colon in the second place.
unfoldable pub has_drive : Text → Bool
has_drive (c ∷ d ∷ _) = if is_separator c then is_separator d else d == b':'
has_drive _ = false

-- posixpath.isabs(value)
unfoldable pub posix_isabs : Text → Bool
posix_isabs (c ∷ _) = c == b'/'
posix_isabs [] = false

-- ntpath.isabs(value)
unfoldable pub nt_isabs : Text → Bool
nt_isabs (c ∷ d ∷ e ∷ _) = is_separator c || (d == b':' && is_separator e)
nt_isabs (c ∷ _) = is_separator c
nt_isabs [] = false

-- value.startswith(("/", "\\"))
unfoldable pub starts_with_separator : Text → Bool
starts_with_separator (c ∷ _) = is_separator c
starts_with_separator [] = false

abbrev pub prepend : ℕ → List Text → List Text
prepend c [] = (c ∷ []) ∷ []
prepend c (part ∷ parts) = (c ∷ part) ∷ parts

-- re.split(r"[/\\]", value)
unfoldable pub split_parts : Text → List Text
split_parts [] = [] ∷ []
split_parts (c ∷ cs) =
    let parts = split_parts cs in if is_separator c then [] ∷ parts else prepend c parts

abbrev pub dot_dot : Text
dot_dot = b'.' ∷ b'.' ∷ []

unfoldable pub safe_text : Text → Bool → Bool
unfolding drive_prefix has_drive posix_isabs nt_isabs starts_with_separator
safe_text value allow_empty =
    if is_empty value && not allow_empty
    then false
    else if any (λ c. c == 0) value
    then false
    else if drive_prefix value || has_drive value
    then false
    else if posix_isabs value || nt_isabs value
    then false
    else if starts_with_separator value
    then false
    else if any (λ part. text_eq part dot_dot) (split_parts value)
    then false
    else true

-- What is no string is not safe.
unfoldable pub safe_relative_path : Value → Bool → Bool
unfolding safe_text
safe_relative_path (str value) allow_empty = safe_text value allow_empty
safe_relative_path _ allow_empty = false
