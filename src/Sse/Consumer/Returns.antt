-- ===== src/Sse/Consumer/Returns.antt =====
-- When a consumer returns.
use ocis_workflows.Base.{
  ◌⊎◌, ℕ, zero, suc, ◌≤◌, ◌<◌, Text, Bool-cases, true, false, ◌≡◌, refl, arith, inl, inr,
}
use ocis_workflows.LocalDb.{Automation, Lookup, second}
use ocis_workflows.Services.{basic_auth}
use ocis_workflows.Sse.Manager.{Manager, deactivate}
use ocis_workflows.Sse.Backoff.{next_backoff}
use ocis_workflows.Sse.Consumer.{Feed, stream_once, rounds, after_automation, consume_for_user}

-- The automation is not there, or its read failed.
abbrev pub IsUnread : Lookup Automation → Type 0
IsUnread a = (a ≡ Lookup.not_found) ⊎ ((e : Text) × (a ≡ Lookup.failed e))

module _ {W : Type 0} (f : Feed W) (left : W → ℕ)
    (streamed : (user_id auth : Text) (w : W) → left (stream_once f user_id auth w).1 ≤ left w)
    (waited : (delay : ℕ) (w : W) → f.cancelled w ≡ false → left (f.wait delay w) < left w) where
  rounds-returns :
      (user_id auth : Text) (n backoff : ℕ) (w : W)
      → left w < n
      → ((rounds f user_id auth n backoff w).0 ≡ true)
        × (f.cancelled (rounds f user_id auth n backoff w).1 ≡ true)
  unfolding rounds
  rounds-returns user_id auth zero backoff w enough = absurd (omega (arith, enough))
  rounds-returns user_id auth (suc n) backoff w enough = elim (Bool-cases (f.cancelled w)) [
    | inl now ↦ rw now (refl, now)
    | inr going ↦
        let w₁ = (stream_once f user_id auth w).1 in
        elim (Bool-cases (f.cancelled w₁)) [
          | inl now ↦ rw (going, now) (refl, now)
          | inr on ↦
              rw (going, on)
                (rounds-returns user_id auth n (next_backoff backoff) (f.wait backoff w₁)
                  (omega (arith, enough, streamed user_id auth w, waited backoff w₁ on)))
        ]
  ]

  after_automation-returns :
      (n : ℕ) (user_id : Text) (id : ℕ) (a : Lookup Automation) (m : Manager) (w : W)
      → left w < n
      → let (returned, (m', w')) = after_automation f n user_id id a m w in
        (returned ≡ true)
        × (((b : Automation) × (a ≡ Lookup.found b) × (m' ≡ m) × (f.cancelled w' ≡ true))
            ⊎ (IsUnread a × (m' ≡ deactivate user_id id m) × (w' ≡ w)))
  after_automation-returns n user_id id (Lookup.found a) m w enough =
      let (returned, done) = rounds-returns user_id (basic_auth f.services a) n second w enough in
      (returned, inl (a, refl, refl, done))
  after_automation-returns n user_id id Lookup.not_found m w enough =
      (refl, inr (inl refl, refl, refl))
  after_automation-returns n user_id id (Lookup.failed e) m w enough =
      (refl, inr (inr (e, refl), refl, refl))

  -- Where each wait of a consumer whose context is not done brings its end nearer, and streams do not
  -- put it off, `consumeForUser` returns, after at most as many connections as there are waits left:
  -- either the user's automation was read, and then its context is done and it leaves the table of
  -- consumers alone, or the automation is not there or could not be read, and then it opens no
  -- connection and takes the entry with its id out of the table.
  pub consume_for_user-returns :
      (n : ℕ) (user_id : Text) (id : ℕ) (m : Manager) (w : W)
      → left (f.services.get_automation user_id w).1 < n
      → let (returned, (m', w')) = consume_for_user f n user_id id m w in
        (returned ≡ true)
        × (((b : Automation) × ((f.services.get_automation user_id w).0 ≡ Lookup.found b)
              × (m' ≡ m)
              × (f.cancelled w' ≡ true))
            ⊎ (IsUnread (f.services.get_automation user_id w).0
                × (m' ≡ deactivate user_id id m)
                × (w' ≡ (f.services.get_automation user_id w).1)))
  unfolding consume_for_user
  consume_for_user-returns n user_id id m w enough =
      after_automation-returns n user_id id (f.services.get_automation user_id w).0 m
        (f.services.get_automation user_id w).1 enough
