-- ===== src/Reconcile/Window.antt =====
-- The window that is queried, and when a pass may start.
use ocis_workflows.Base.{
  ℕ, ◌+◌, ◌-◌, ◌≤◌, ◌<◌, Text, teq_refl, true, false, Bool-cases, Option, none, some, List, [], ◌∷◌,
  arith, ◌≡◌, ◌⊎◌, inl, inr, refl, if◌then◌else◌,
}
use ocis_workflows.Times.{Times, get_time, get_time-set_time}
use ocis_workflows.Reconcile.{Config, query_since, should_start_pass}

-- The query never looks back further than the lookback; within that it looks back to the cursor
-- less the overlap, and never starts later than there.
pub query_since_bounds :
    (cfg : Config) (now last_checked : ℕ)
    → (now ≤ query_since cfg now last_checked + cfg.first_connect_lookback)
      × (last_checked ≤ query_since cfg now last_checked + cfg.overlap)
      × ((query_since cfg now last_checked ≡ last_checked - cfg.overlap)
          ⊎ ((query_since cfg now last_checked ≡ now - cfg.first_connect_lookback)
              × (last_checked - cfg.overlap < now - cfg.first_connect_lookback)))
unfolding query_since
query_since_bounds cfg now last_checked = ground arith

-- The user's passes among attempts at the given times.
pub passes : Config → Text → List ℕ → Times → List ℕ
passes cfg user_id [] m = []
passes cfg user_id (now ∷ later) m =
    let (start, m') = should_start_pass cfg user_id now m in
    let rest = passes cfg user_id later m' in if start then now ∷ rest else rest

-- Each time lies the grace period or more after the one before it.
abbrev pub Apart : Config → Option ℕ → List ℕ → Type 0
Apart cfg last [] = Unit
Apart cfg none (t ∷ ts) = Apart cfg (some t) ts
Apart cfg (some last) (t ∷ ts) = (last + cfg.grace_period ≤ t) × Apart cfg (some t) ts

module _ (cfg : Config) (user_id : Text) where
  start-noted :
      (now : ℕ) (m : Times)
      → (should_start_pass cfg user_id now m).0 ≡ true
      → get_time user_id (should_start_pass cfg user_id now m).1 ≡ some now
  unfolding should_start_pass
  start-noted now m h = ground (arith, get_time-set_time user_id user_id now m, teq_refl user_id)

  start-apart :
      (now last : ℕ) (m : Times)
      → get_time user_id m ≡ some last
      → (should_start_pass cfg user_id now m).0 ≡ true
      → last + cfg.grace_period ≤ now
  unfolding should_start_pass
  start-apart now last m e h = ground arith

  no_start-same :
      (now : ℕ) (m : Times)
      → (should_start_pass cfg user_id now m).0 ≡ false
      → (should_start_pass cfg user_id now m).1 ≡ m
  unfolding should_start_pass
  no_start-same now m h = ground arith

  Apart-cons :
      (now : ℕ) (m : Times) (later : List ℕ)
      → (should_start_pass cfg user_id now m).0 ≡ true
      → Apart cfg (some now) later
      → (last : Option ℕ) → get_time user_id m ≡ last
      → Apart cfg last (now ∷ later)
  Apart-cons now m later start apart none e = apart
  Apart-cons now m later start apart (some last) e = (start-apart now last m e start, apart)

  -- However often a user's connection comes back, the passes that start for the user are a grace
  -- period or more apart, and from the last start that was noted.
  pub passes-Apart :
      (attempts : List ℕ) (m : Times)
      → Apart cfg (get_time user_id m) (passes cfg user_id attempts m)
  unfolding passes
  passes-Apart [] m = tt
  passes-Apart (now ∷ later) m = elim (Bool-cases (should_start_pass cfg user_id now m).0) [
    | inl start ↦ rw start (
        Apart-cons now m _ start
          (rw (start-noted now m start) at
            (passes-Apart later (should_start_pass cfg user_id now m).1))
          (get_time user_id m) refl)
    | inr wait ↦ rw (wait, no_start-same now m wait) (passes-Apart later m)
  ]
