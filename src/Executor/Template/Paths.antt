-- ===== src/Executor/Template/Paths.antt =====
-- `dirName` and `baseName` together.
use ocis_workflows.Base.{
  ℕ, suc, Text, slash, ◌==◌, ==_iff, none, some, List, [], ◌∷◌, ◌++◌, ◌≡◌, ◌⊎◌, inl, inr, refl, ap,
  Bool-cases, trim, split, last_part, last_index, take,
}
use ocis_workflows.Executor.Template.{base_name, dir_name}

-- A text has no separator, and then one part; or it has more parts, and the last one follows the
-- last separator.
Whole : ℕ → Text → Type 0
Whole c s = (last_index c s ≡ none) × (split c s ≡ s ∷ [])

Parted : ℕ → Text → Type 0
Parted c s =
    (i : ℕ) × (p : Text) × (q : Text) × (ps : List Text) × (last_index c s ≡ some i)
    × (split c s ≡ p ∷ q ∷ ps)
    × (s ≡ take i s ++ c ∷ last_part (q ∷ ps))
    × (last_index c (last_part (q ∷ ps)) ≡ none)

parts : (c : ℕ) (s : Text) → Whole c s ⊎ Parted c s
unfolding Whole Parted split last_index take last_part
parts c [] = inl (refl, refl)
parts c (x ∷ xs) = elim (parts c xs) [
  | inl (absent, one) ↦ elim (Bool-cases (x == c)) [
    | inl here ↦ inr (
      0,
      [],
      xs,
      [],
      rw (absent, here) refl,
      rw (one, here) refl,
      ap (λ d. d ∷ xs) ((==_iff x c).0 here),
      absent,
    )
    | inr other ↦ inl (rw (absent, other) refl, rw (one, other) refl)
  ]
  | inr (i, p, q, ps, at, many, eq, last) ↦ elim (Bool-cases (x == c)) [
    | inl here ↦
        inr (suc i, [], p, q ∷ ps, rw at refl, rw (many, here) refl, ap (λ r. x ∷ r) eq, last)
    | inr other ↦
        inr (suc i, x ∷ p, q, ps, rw at refl, rw (many, other) refl, ap (λ r. x ∷ r) eq, last)
  ]
]

-- A path without the slashes at its ends is its directory, a slash and its base name, or its base
-- name alone, when its directory is the empty text; and the base name has no slash.
pub dir_name-base_name :
    (path : Text)
    → ((trim slash path ≡ dir_name path ++ slash ∷ base_name path)
        ⊎ ((dir_name path ≡ []) × (trim slash path ≡ base_name path)))
      × (last_index slash (base_name path) ≡ none)
unfolding dir_name base_name last_part Whole Parted
dir_name-base_name path = elim (parts slash (trim slash path)) [
  | inl (absent, one) ↦ rw (absent, one) (inr (refl, refl), absent)
  | inr (i, p, q, ps, at, many, eq, last) ↦ rw (at, many) (inl eq, last)
]
