-- ===== src/Base/Strings.antt =====
-- Go strings as lists of bytes, with the functions of package strings that the program calls.
use Prim.Native.Char.{code}
use Prim.Native.String.{String}
use Prim.Native.Nat.{ℕ, zero, suc, ◌-◌}
use mathlib.Core.Path.{◌≡◌, refl, ap}
use mathlib.Core.Logic.{◌↔◌}
use mathlib.Core.Bool.{Bool, true, false, ◌&&◌}
use mathlib.Core.Option.{Option, none, some}
use mathlib.Core.List.{List, [], ◌∷◌, ◌++◌, reverse}
use native.Mathlib.Omega.{arith}
use ocis_workflows.Base.Tests.{◌==◌, if◌then◌else◌}
use ocis_workflows.Base.Lists.{length}

abbrev pub Text : Type 0
Text = List ℕ

-- The bytes of an ASCII literal.
abbrev pub text : String → Text
text String.[] = []
text (String.◌∷◌ c s) = code c ∷ text s

abbrev pub slash : ℕ
slash = b'/'

unfoldable pub teq : Text → Text → Bool
teq [] [] = true
teq [] (y ∷ ys) = false
teq (x ∷ xs) [] = false
teq (x ∷ xs) (y ∷ ys) = x == y && teq xs ys

pub teq_iff : (s t : Text) → (teq s t ≡ true) ↔ (s ≡ t)
unfolding teq
teq_iff [] [] = (λ _. refl, λ _. refl)
teq_iff [] (y ∷ ys) = ground arith
teq_iff (x ∷ xs) [] = ground arith
teq_iff (x ∷ xs) (y ∷ ys) = ground (arith, teq_iff xs ys)

pub teq_refl : (s : Text) → teq s s ≡ true
teq_refl s = (teq_iff s s).1 refl

pub teq_sym : (s t : Text) → teq s t ≡ teq t s
unfolding teq
teq_sym [] [] = refl
teq_sym [] (y ∷ ys) = refl
teq_sym (x ∷ xs) [] = refl
teq_sym (x ∷ xs) (y ∷ ys) = ground (arith, teq_sym xs ys)

-- `s == ""`
abbrev pub is_empty : Text → Bool
is_empty [] = true
is_empty (x ∷ xs) = false

-- strings.HasPrefix(s, prefix)
unfoldable pub has_prefix : Text → Text → Bool
has_prefix s [] = true
has_prefix [] (p ∷ ps) = false
has_prefix (x ∷ xs) (p ∷ ps) = x == p && has_prefix xs ps

-- strings.HasSuffix(s, suffix)
unfoldable pub has_suffix : Text → Text → Bool
unfolding has_prefix
has_suffix s suffix = has_prefix (reverse s) (reverse suffix)

-- s[n:]
abbrev pub drop : ℕ → Text → Text
drop zero xs = xs
drop (suc n) [] = []
drop (suc n) (x ∷ xs) = drop n xs

-- strings.TrimPrefix(s, prefix)
unfoldable pub trim_prefix : Text → Text → Text
unfolding has_prefix
trim_prefix s prefix = if has_prefix s prefix then drop (length prefix) s else s

-- strings.TrimLeft, TrimRight and Trim with a cutset of the one byte `c`
unfoldable pub trim_left : ℕ → Text → Text
trim_left c [] = []
trim_left c (x ∷ xs) = let rest = trim_left c xs in if x == c then rest else x ∷ xs

abbrev keep_right : ℕ → ℕ → Text → Text
keep_right c x [] = if x == c then [] else x ∷ []
keep_right c x (y ∷ ys) = x ∷ y ∷ ys

unfoldable pub trim_right : ℕ → Text → Text
trim_right c [] = []
trim_right c (x ∷ xs) = keep_right c x (trim_right c xs)

unfoldable pub trim : ℕ → Text → Text
unfolding trim_left trim_right
trim c s = trim_right c (trim_left c s)

abbrev onto_first : ℕ → List Text → List Text
onto_first x [] = (x ∷ []) ∷ []
onto_first x (p ∷ ps) = (x ∷ p) ∷ ps

-- strings.Split(s, sep) for the one-byte separator `c`
unfoldable pub split : ℕ → Text → List Text
split c [] = [] ∷ []
split c (x ∷ xs) = let rest = split c xs in if x == c then [] ∷ rest else onto_first x rest

-- `parts[len(parts)-1]` of a result of `split`, which is not empty
unfoldable pub last_part : List Text → Text
last_part [] = []
last_part (p ∷ []) = p
last_part (p ∷ q ∷ ps) = last_part (q ∷ ps)

-- strings.TrimSuffix(s, suffix)
unfoldable pub trim_suffix : Text → Text → Text
unfolding has_suffix
trim_suffix s suffix = if has_suffix s suffix then reverse (drop (length suffix) (reverse s)) else s

-- strings.LastIndex(s, sep) for the one-byte separator `c`; `none` is -1
unfoldable pub last_index : ℕ → Text → Option ℕ
last_index c [] = none
last_index c (x ∷ xs) = elim (last_index c xs) [
  | some i ↦ some (suc i)
  | none ↦ if x == c then some 0 else none
]

-- s[:n]
unfoldable pub take : ℕ → Text → Text
take zero xs = []
take (suc n) [] = []
take (suc n) (x ∷ xs) = x ∷ take n xs

-- The matches are the leftmost ones that do not overlap: `skip` counts the bytes of a match that
-- are still to be passed over.
replace_from : Text → Text → ℕ → Text → Text
replace_from old new skip [] = []
replace_from old new (suc skip) (x ∷ xs) = replace_from old new skip xs
replace_from old new zero (x ∷ xs) =
    let hit = replace_from old new (length old - 1) xs in
    let miss = replace_from old new zero xs in
    if has_prefix (x ∷ xs) old then new ++ hit else x ∷ miss

-- strings.ReplaceAll(s, old, new) for a non-empty `old`
unfoldable pub replace_all : Text → Text → Text → Text
unfolding replace_from has_prefix
replace_all s old new = replace_from old new 0 s

-- path.Base
unfoldable pub path_base : Text → Text
unfolding trim_right split last_part
path_base path =
    let trimmed = trim_right slash path in
    if is_empty path
    then text "."
    else if is_empty trimmed
    then text "/"
    else last_part (split slash trimmed)

replace_twice : replace_all (text "a{x}b{x}") (text "{x}") (text "yy") ≡ text "ayybyy"
unfolding replace_all
replace_twice = refl

pub take-append : (xs ys : Text) → take (length xs) (xs ++ ys) ≡ xs
unfolding take
take-append [] ys = refl
take-append (x ∷ xs) ys = ap (λ r. x ∷ r) (take-append xs ys)

pub drop-append : (xs ys : Text) → drop (length xs) (xs ++ ys) ≡ ys
drop-append [] ys = refl
drop-append (x ∷ xs) ys = drop-append xs ys

pub has_prefix-append : (s rest : Text) → has_prefix (s ++ rest) s ≡ true
unfolding has_prefix
has_prefix-append [] rest = refl
has_prefix-append (x ∷ s) rest = ground (arith, has_prefix-append s rest)

pub has_prefix-split :
    (s prefix : Text) → has_prefix s prefix ≡ true → (rest : Text) × (s ≡ prefix ++ rest)
unfolding has_prefix
has_prefix-split s [] h = (s, refl)
has_prefix-split [] (p ∷ ps) h = ground arith
has_prefix-split (x ∷ xs) (p ∷ ps) h =
    let (rest, e) = has_prefix-split xs ps (ground arith) in (rest, ground arith)
