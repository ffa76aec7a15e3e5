-- ===== src/Base/Table.antt =====
-- SQL tables with a primary key as lists of rows in the order of insertion.
use mathlib.Core.Path.{◌≡◌, refl}
use mathlib.Core.Logic.{◌↔◌}
use mathlib.Core.Bool.{Bool, true, not}
use mathlib.Core.Option.{Option, none, some}
use mathlib.Core.List.{List, [], ◌∷◌}
use native.Mathlib.Omega.{arith}
use ocis_workflows.Base.Tests.{if◌then◌else◌}
use ocis_workflows.Base.Lists.{select}

module _ {A K : Type 0} (eq : K → K → Bool) (key : A → K) where
  -- SELECT … WHERE key = k
  unfoldable pub find_row : K → List A → Option A
  find_row k [] = none
  find_row k (r ∷ rows) = if eq (key r) k then some r else find_row k rows

  -- INSERT … ON CONFLICT(key) DO UPDATE SET every other column
  unfoldable pub upsert_row : A → List A → List A
  upsert_row a [] = a ∷ []
  upsert_row a (r ∷ rows) = if eq (key r) (key a) then a ∷ rows else r ∷ upsert_row a rows

  -- DELETE … WHERE key = k
  unfoldable pub delete_row : K → List A → List A
  unfolding select
  delete_row k rows = select (λ r. not (eq (key r) k)) rows

  -- No two rows of the same key.
  abbrev pub IsKeyed : List A → Type 0
  IsKeyed [] = Unit
  IsKeyed (r ∷ rows) = (find_row (key r) rows ≡ none) × IsKeyed rows

module _ {A K : Type 0} (eq : K → K → Bool) (eq_iff : (j k : K) → (eq j k ≡ true) ↔ (j ≡ k))
    (key : A → K) where
  pub find_row-upsert_row :
      (k : K) (a : A) (rows : List A)
      → find_row eq key k (upsert_row eq key a rows)
        ≡ (if eq (key a) k then some a else find_row eq key k rows)
  unfolding find_row upsert_row
  find_row-upsert_row k a [] = refl
  find_row-upsert_row k a (r ∷ rows) = ground (
    arith,
    find_row-upsert_row k a rows,
    eq_iff (key r) (key a),
    eq_iff (key r) k,
    eq_iff (key a) k,
  )

  pub find_row-delete_row :
      (k j : K) (rows : List A)
      → find_row eq key k (delete_row eq key j rows)
        ≡ (if eq j k then none else find_row eq key k rows)
  unfolding find_row delete_row
  find_row-delete_row k j [] = ground arith
  find_row-delete_row k j (r ∷ rows) =
      ground (arith, find_row-delete_row k j rows, eq_iff (key r) j, eq_iff (key r) k, eq_iff j k)

  pub find_row-select :
      (p : A → Bool) (k : K) (rows : List A)
      → find_row eq key k rows ≡ none
      → find_row eq key k (select p rows) ≡ none
  unfolding find_row select
  find_row-select p k [] h = refl
  find_row-select p k (r ∷ rows) h = ground (arith, find_row-select p k rows)

  pub select-IsKeyed :
      (p : A → Bool) (rows : List A) → IsKeyed eq key rows → IsKeyed eq key (select p rows)
  unfolding select
  select-IsKeyed p [] h = tt
  select-IsKeyed p (r ∷ rows) h =
      ground (arith, select-IsKeyed p rows h.1, find_row-select p (key r) rows h.0)

  pub upsert_row-IsKeyed :
      (a : A) (rows : List A) → IsKeyed eq key rows → IsKeyed eq key (upsert_row eq key a rows)
  unfolding upsert_row find_row
  upsert_row-IsKeyed a [] h = (refl, tt)
  upsert_row-IsKeyed a (r ∷ rows) h = ground (
    arith,
    upsert_row-IsKeyed a rows h.1,
    find_row-upsert_row (key r) a rows,
    eq_iff (key r) (key a),
    eq_iff (key a) (key r),
  )
