-- ===== src/Base/Lists.antt =====
-- Lists measured by native numbers, and predicates on their members.
use Prim.Native.Nat.{ℕ, suc, ◌+◌}
use mathlib.Core.Path.{◌≡◌, refl}
use mathlib.Core.List.{List, [], ◌∷◌, ◌++◌}
use mathlib.Core.Bool.{Bool, true, false, ◌&&◌}
use native.Mathlib.Omega.{arith}
use mathlib.Core.Logic.{inl, inr}
use ocis_workflows.Base.Tests.{if◌then◌else◌, Bool-cases}

module _ {ℓ} {A : Type ℓ} where
  abbrev pub length : List A → ℕ
  length [] = 0
  length (x ∷ xs) = suc (length xs)

  pub length-append : (xs ys : List A) → length (xs ++ ys) ≡ length xs + length ys
  length-append [] ys = omega arith
  length-append (x ∷ xs) ys = omega (arith, length-append xs ys)

-- Every member of the list has the property.
abbrev pub All {ℓ κ} : {A : Type ℓ} → (A → Type κ) → List A → Type κ
All P [] = Unit
All P (x ∷ xs) = P x × All P xs

pub All-append {ℓ κ} :
    {A : Type ℓ} (P : A → Type κ) (xs ys : List A) → All P xs → All P ys → All P (xs ++ ys)
All-append P [] ys hx hy = hy
All-append P (x ∷ xs) ys hx hy = (hx.0, All-append P xs ys hx.1 hy)

-- The test of every member.
abbrev pub every {ℓ} : {A : Type ℓ} → (A → Bool) → List A → Bool
every p [] = true
every p (x ∷ xs) = p x && every p xs

pub every-append {ℓ} :
    {A : Type ℓ} (p : A → Bool) (xs ys : List A) → every p (xs ++ ys) ≡ (every p xs && every p ys)
every-append p [] ys = refl
every-append p (x ∷ xs) ys = ground (arith, every-append p xs ys)

-- The members that pass a test.
unfoldable pub select {ℓ} : {A : Type ℓ} → (A → Bool) → List A → List A
select p [] = []
select p (x ∷ xs) = let rest = select p xs in if p x then x ∷ rest else rest

pub select-append {ℓ} :
    {A : Type ℓ} (p : A → Bool) (xs ys : List A) → select p (xs ++ ys) ≡ select p xs ++ select p ys
unfolding select
select-append p [] ys = refl
select-append p (x ∷ xs) ys = ground (arith, select-append p xs ys)

pub All-select {ℓ κ} :
    {A : Type ℓ} (P : A → Type κ) (p : A → Bool) (xs : List A) → All P xs → All P (select p xs)
unfolding select
All-select P p [] h = tt
All-select P p (x ∷ xs) h = keep (p x) (All-select P p xs h.1)
  where
    keep : (b : Bool) → All P (select p xs) → All P (if b then x ∷ select p xs else select p xs)
    keep true rest = (h.0, rest)
    keep false rest = rest

pub All-map {ℓ κ μ} :
    {A : Type ℓ} (P : A → Type κ) (Q : A → Type μ) (xs : List A)
    → ((a : A) → P a → Q a)
    → All P xs
    → All Q xs
All-map P Q [] f h = tt
All-map P Q (x ∷ xs) f h = (f x h.0, All-map P Q xs f h.1)

-- What the test gives, every selected member has.
pub All-select_of {ℓ κ} :
    {A : Type ℓ} (P : A → Type κ) (p : A → Bool) (xs : List A)
    → ((a : A) → p a ≡ true → P a)
    → All P (select p xs)
unfolding select
All-select_of P p [] f = tt
All-select_of P p (x ∷ xs) f = keep (p x) refl (All-select_of P p xs f)
  where
    keep :
        (b : Bool)
        → p x ≡ b
        → All P (select p xs)
        → All P (if b then x ∷ select p xs else select p xs)
    keep true e rest = (f x e, rest)
    keep false e rest = rest

-- Some entries of a list, in their order.
pub data Sublist {A : Type 0} : List A → List A → Type 0 where
  nothing : Sublist [] []
  kept : {x : A} {xs ys : List A} → Sublist xs ys → Sublist (x ∷ xs) (x ∷ ys)
  left_out : {y : A} {xs ys : List A} → Sublist xs ys → Sublist xs (y ∷ ys)

module _ {A : Type 0} where
  pub Sublist-refl : (xs : List A) → Sublist xs xs
  Sublist-refl [] = Sublist.nothing
  Sublist-refl (x ∷ xs) = Sublist.kept (Sublist-refl xs)

  pub All-Sublist : (P : A → Type 0) {xs ys : List A} → Sublist xs ys → All P ys → All P xs
  All-Sublist P Sublist.nothing h = tt
  All-Sublist P (Sublist.kept s) h = (h.0, All-Sublist P s h.1)
  All-Sublist P (Sublist.left_out s) h = All-Sublist P s h.1

  -- Deleting from both, or from the part alone.
  pub Sublist-select :
      (p : A → Bool) {xs ys : List A} → Sublist xs ys → Sublist (select p xs) (select p ys)
  unfolding select
  Sublist-select p Sublist.nothing = Sublist.nothing
  Sublist-select p (Sublist.kept {x} s) = elim (Bool-cases (p x)) [
    | inl e ↦ rw e (Sublist.kept (Sublist-select p s))
    | inr e ↦ rw e (Sublist-select p s)
  ]
  Sublist-select p (Sublist.left_out {y} s) = elim (Bool-cases (p y)) [
    | inl e ↦ rw e (Sublist.left_out (Sublist-select p s))
    | inr e ↦ rw e (Sublist-select p s)
  ]

  pub Sublist-select_part :
      (p : A → Bool) {xs ys : List A} → Sublist xs ys → Sublist (select p xs) ys
  unfolding select
  Sublist-select_part p Sublist.nothing = Sublist.nothing
  Sublist-select_part p (Sublist.kept {x} s) = elim (Bool-cases (p x)) [
    | inl e ↦ rw e (Sublist.kept (Sublist-select_part p s))
    | inr e ↦ rw e (Sublist.left_out (Sublist-select_part p s))
  ]
  Sublist-select_part p (Sublist.left_out s) = Sublist.left_out (Sublist-select_part p s)
