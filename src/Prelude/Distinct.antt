-- ===== src/Prelude/Distinct.antt =====
-- Lists of strings without repetition.
use Prim.Native.Nat.{suc, ◌≤◌}
use mathlib.Core.Path.{◌≡◌, refl}
use mathlib.Core.Bool.{Bool, true, false, not, ◌&&◌, ◌||◌}
use mathlib.Core.List.{List, [], ◌∷◌, ◌++◌}
use native.Mathlib.Omega.{arith}
use coding_agent_neo.Prelude.Tests.{if◌then◌else◌}
use coding_agent_neo.Prelude.Lists.{length, all}
use coding_agent_neo.Prelude.Chars.{Text, text_eq, text_eq→≡, member}

abbrev pub distinct : List Text → Bool
distinct [] = true
distinct (x ∷ xs) = not (member x xs) && distinct xs

abbrev pub subset : List Text → List Text → Bool
subset xs ys = all (λ x. member x ys) xs

pub text_eq_comm : (s t : Text) → text_eq s t ≡ text_eq t s
unfolding text_eq
text_eq_comm [] [] = refl
text_eq_comm [] (y ∷ ys) = refl
text_eq_comm (x ∷ xs) [] = refl
text_eq_comm (x ∷ xs) (y ∷ ys) = ground (arith, text_eq_comm xs ys)

remove : Text → List Text → List Text
remove x [] = []
remove x (y ∷ ys) = let rest = remove x ys in if text_eq x y then ys else y ∷ rest

length-remove :
    (x : Text) (ys : List Text) → member x ys ≡ true → length ys ≡ suc (length (remove x ys))
unfolding remove
length-remove x [] h = ground arith
length-remove x (y ∷ ys) h = ground (arith, length-remove x ys)

member-remove :
    (x y : Text) (ys : List Text)
    → text_eq x y ≡ false
    → member y ys ≡ true
    → member y (remove x ys) ≡ true
unfolding remove
member-remove x y [] ne h = ground arith
member-remove x y (z ∷ ys) ne h =
    ground (
      arith,
      member-remove x y ys,
      text_eq→≡ x z,
      text_eq_comm x y,
      text_eq_comm y z,
      text_eq→≡ y z,
    )

subset-remove :
    (x : Text) (xs ys : List Text)
    → member x xs ≡ false
    → subset xs ys ≡ true
    → subset xs (remove x ys) ≡ true
subset-remove x [] ys ne h = refl
subset-remove x (y ∷ xs) ys ne h = ground (arith, subset-remove x xs ys, member-remove x y ys)

-- A list without repetition is not longer than one that holds all its members.
pub length-distinct-le :
    (xs ys : List Text) → distinct xs ≡ true → subset xs ys ≡ true → length xs ≤ length ys
length-distinct-le [] ys d h = omega arith
length-distinct-le (x ∷ xs) ys d h =
    ground (arith, length-remove x ys, subset-remove x xs ys, length-distinct-le xs (remove x ys))

pub member-append :
    (x : Text) (ys zs : List Text) → member x (ys ++ zs) ≡ member x ys || member x zs
member-append x [] zs = refl
member-append x (y ∷ ys) zs = ground (arith, member-append x ys zs)

pub subset-append : (xs ys zs : List Text) → subset (xs ++ ys) zs ≡ subset xs zs && subset ys zs
subset-append [] ys zs = refl
subset-append (x ∷ xs) ys zs = ground (arith, subset-append xs ys zs)

pub distinct-snoc :
    (xs : List Text) (x : Text)
    → distinct xs ≡ true
    → member x xs ≡ false
    → distinct (xs ++ x ∷ []) ≡ true
distinct-snoc [] x d h = refl
distinct-snoc (y ∷ xs) x d h =
    ground (arith, distinct-snoc xs x, member-append y xs (x ∷ []), text_eq_comm y x)
