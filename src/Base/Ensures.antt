-- ===== src/Base/Ensures.antt =====
-- What holds after an action that has not failed, step by step along its continuations.
use mathlib.Core.Bool.{Bool, true, false}
use mathlib.Core.Path.{◌≡◌, refl}
use ocis_workflows.Base.Strings.{Text}
use ocis_workflows.Base.Results.{Result, ok, err}
use ocis_workflows.Base.Actions.{Act, require, prefixed, continue}

-- The result, if there is one, and the state that goes with it.
abbrev pub After : {S A : Type 0} → (A → S → Type 0) → Result A × S → Type 0
After Q (ok a, s) = Q a s
After Q (err e, s) = Unit

module _ {S A B : Type 0} (Q : B → S → Type 0) where
  pub After-continue :
      (r : Result A) (k : A → Act S B) (s : S)
      → ((a : A) → r ≡ ok a → After Q (k a s))
      → After Q (continue r k s)
  After-continue (ok a) k s h = h a refl
  After-continue (err e) k s h = tt

  pub After-wrap :
      (what : Text) (r : Result A) (k : A → Act S B) (s : S)
      → ((a : A) → r ≡ ok a → After Q (k a s))
      → After Q (continue (prefixed what r) k s)
  After-wrap what (ok a) k s h = h a refl
  After-wrap what (err e) k s h = tt

module _ {S B : Type 0} (Q : B → S → Type 0) where
  pub After-require :
      (b : Bool) (e : Text) (k : Unit {0} → Act S B) (s : S)
      → (b ≡ true → After Q (k tt s))
      → After Q (let (r, s') = require b e s in continue r k s')
  After-require true e k s h = h refl
  After-require false e k s h = tt

-- A test that is the last step.
pub After-last :
    {S : Type 0} (Q : Unit {0} → S → Type 0) (b : Bool) (e : Text) (s : S)
    → (b ≡ true → Q tt s)
    → After Q (require b e s)
After-last Q true e s h = h refl
After-last Q false e s h = tt

pub After-map :
    {S A : Type 0} (P Q : A → S → Type 0) (p : Result A × S)
    → ((a : A) (s : S) → P a s → Q a s)
    → After P p
    → After Q p
After-map P Q (ok a, s) f h = f a s h
After-map P Q (err e, s) f h = tt

-- From a result that is known to be there.
pub After-ok :
    {S A : Type 0} (Q : A → S → Type 0) (p : Result A × S)
    → After Q p
    → (a : A) → p.0 ≡ ok a
    → Q a p.1
After-ok Q (r, s) h a e = rw e at h

-- A property of the state that an action keeps, whether it fails or not.
module _ {S A B : Type 0} (P : S → Type 0) where
  pub Leaves-continue :
      (r : Result A) (k : A → Act S B) (s : S)
      → P s
      → ((a : A) → r ≡ ok a → P (k a s).1)
      → P (continue r k s).1
  Leaves-continue (ok a) k s h next = next a refl
  Leaves-continue (err e) k s h next = h

  pub Leaves-wrap :
      (what : Text) (r : Result A) (k : A → Act S B) (s : S)
      → P s
      → ((a : A) → r ≡ ok a → P (k a s).1)
      → P (continue (prefixed what r) k s).1
  Leaves-wrap what (ok a) k s h next = next a refl
  Leaves-wrap what (err e) k s h next = h

module _ {S B : Type 0} (P : S → Type 0) where
  pub Leaves-require :
      (b : Bool) (e : Text) (k : Unit {0} → Act S B) (s : S)
      → P s
      → (b ≡ true → P (k tt s).1)
      → P (let (r, s') = require b e s in continue r k s').1
  Leaves-require true e k s h next = next refl
  Leaves-require false e k s h next = h
