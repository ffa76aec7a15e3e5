-- ===== src/Times.antt =====
-- A Go `map[string]time.Time`, each key once. A time is a number of nanoseconds since the zero time.
use ocis_workflows.Base.{
  ℕ, Text, teq, teq_iff, Option, none, some, List, [], ◌∷◌, arith, ◌≡◌, refl, if◌then◌else◌,
}

abbrev pub Times : Type 0
Times = List (Text × ℕ)

unfoldable pub get_time : Text → Times → Option ℕ
get_time key [] = none
get_time key ((k, t) ∷ rest) = if teq k key then some t else get_time key rest

unfoldable pub set_time : Text → ℕ → Times → Times
set_time key t [] = (key, t) ∷ []
set_time key t ((k, u) ∷ rest) = if teq k key then (k, t) ∷ rest else (k, u) ∷ set_time key t rest

pub get_time-set_time :
    (key other : Text) (t : ℕ) (m : Times)
    → get_time other (set_time key t m) ≡ (if teq key other then some t else get_time other m)
unfolding get_time set_time
get_time-set_time key other t [] = refl
get_time-set_time key other t ((k, u) ∷ rest) =
    ground
      (arith, get_time-set_time key other t rest, teq_iff k key, teq_iff k other, teq_iff key other)
