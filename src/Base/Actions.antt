-- ===== src/Base/Actions.antt =====
-- Fallible code over a state that it passes along. What was done before an error stays done, so the
-- state comes back beside the error too.
use mathlib.Core.Option.{Option, none, some}
use mathlib.Core.Bool.{Bool, true, false}
use mathlib.Core.List.{◌++◌}
use ocis_workflows.Base.Strings.{Text, text}
use ocis_workflows.Base.Results.{Result, ok, err}

abbrev pub Act : Type 0 → Type 0 → Type 0
Act S A = S → Result A × S

-- fmt.Errorf("what: %w", err)
abbrev pub prefixed : {A : Type 0} → Text → Result A → Result A
prefixed what (ok a) = ok a
prefixed what (err e) = err (what ++ (text ": " ++ e))

-- A returned `error` alone.
abbrev pub checked : Option Text → Result (Unit {0})
checked none = ok tt
checked (some e) = err e

module _ {S A : Type 0} where
  abbrev pub pure : A → Act S A
  pure a s = (ok a, s)

  abbrev pub fail : Text → Act S A
  fail e s = (err e, s)

  -- A value that is there already, or an error.
  abbrev pub given : Result A → Act S A
  given r s = (r, s)

  abbrev pub wrap : Text → Act S A → Act S A
  wrap what m s = let (r, s') = m s in (prefixed what r, s')

  -- An action whose error is not returned, but looked at.
  abbrev pub attempt : Act S A → Act S (Result A)
  attempt m s = let (r, s') = m s in (ok r, s')

-- `if !b { return errors.New(e) }`
module _ {S : Type 0} where
  abbrev pub require : Bool → Text → Act S (Unit {0})
  require true e s = (ok tt, s)
  require false e s = (err e, s)

module _ {S A B : Type 0} where
  abbrev pub continue : Result A → (A → Act S B) → Act S B
  continue (ok a) k s = k a s
  continue (err e) k s = (err e, s)

  infixl 10 ◌>>=◌ ◌>>◌
  abbrev pub ◌>>=◌ : Act S A → (A → Act S B) → Act S B
  ◌>>=◌ m k s = let (r, s') = m s in continue r k s'

  abbrev pub ◌>>◌ : Act S A → Act S B → Act S B
  m >> k = m >>= λ _. k
