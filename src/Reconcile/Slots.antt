-- ===== src/Reconcile/Slots.antt =====
-- reconciler.go, the start of `Reconcile` for many goroutines at once: the debounce under `passMu`,
-- the semaphore `sem`, and its release when a pass returns. A goroutine is known by its user.
use ocis_workflows.Base.{
  ℕ, suc, ◌+◌, ◌-◌, ◌≤◌, ◌<◌, Text, true, false, List, [], ◌∷◌, ◌++◌, length, arith, ◌≡◌, ◌⊎◌, inl,
  inr, refl, ap, Bool-cases, ltb,
}
use ocis_workflows.Times.{Times}
use ocis_workflows.Reconcile.{Config, should_start_pass}

-- `used` is the number of values in the channel; `waiting` are the passes at the `select`, and
-- `holding` those behind it, which have not returned.
pub record Slots : Type 0 where
  pub passes : Times
  pub used : ℕ
  pub waiting : List Text
  pub holding : List Text

-- `max` is the capacity of the channel. A send blocks while the channel is full; a receive takes a
-- value away. A pass that was started waits, takes a slot or gives up with its context, and gives
-- the slot back however it ends.
pub data Step (cfg : Config) (max : ℕ) : Slots → Slots → Type 0 where
  started :
      (s : Slots) (user_id : Text) (now : ℕ) (passes : Times)
      → should_start_pass cfg user_id now s.passes ≡ (true, passes)
      → Step cfg max s (record s { passes = passes; waiting = user_id ∷ s.waiting })
  debounced :
      (s : Slots) (user_id : Text) (now : ℕ) (passes : Times)
      → should_start_pass cfg user_id now s.passes ≡ (false, passes)
      → Step cfg max s (record s { passes = passes })
  acquired :
      (s : Slots) (before : List Text) (user_id : Text) (after : List Text)
      → s.waiting ≡ before ++ user_id ∷ after
      → s.used < max
      → Step cfg max s
          (record s { used = s.used + 1; waiting = before ++ after; holding = user_id ∷ s.holding })
  cancelled :
      (s : Slots) (before : List Text) (user_id : Text) (after : List Text)
      → s.waiting ≡ before ++ user_id ∷ after
      → Step cfg max s (record s { waiting = before ++ after })
  released :
      (s : Slots) (before : List Text) (user_id : Text) (after : List Text)
      → s.holding ≡ before ++ user_id ∷ after
      → Step cfg max s (record s { used = s.used - 1; holding = before ++ after })

pub data Reach (cfg : Config) (max : ℕ) : Slots → Type 0 where
  fresh : Reach cfg max (record { passes = []; used = 0; waiting = []; holding = [] })
  next : {s t : Slots} → Reach cfg max s → Step cfg max s t → Reach cfg max t

-- Every value in the channel belongs to a pass that has not returned.
pub record IsBounded (max : ℕ) (s : Slots) : Type 0 where
  pub owned : s.used ≡ length s.holding
  pub within : s.used ≤ max

length-split :
    (before : List Text) (user_id : Text) (after : List Text)
    → length (before ++ user_id ∷ after) ≡ suc (length (before ++ after))
length-split [] user_id after = refl
length-split (b ∷ before) user_id after = omega (arith, length-split before user_id after)

Step-IsBounded :
    {cfg : Config} {max : ℕ} {s t : Slots} → Step cfg max s t → IsBounded max s → IsBounded max t
Step-IsBounded (started s u now m e) b = record { owned = b.owned; within = b.within }
Step-IsBounded (debounced s u now m e) b = record { owned = b.owned; within = b.within }
Step-IsBounded (acquired s before u after e free) b = omega (arith, b.owned)
Step-IsBounded (cancelled s before u after e) b = record { owned = b.owned; within = b.within }
Step-IsBounded (released s before u after e) b =
    omega (arith, b.owned, b.within, ap length e, length-split before u after)

-- Whatever the order in which goroutines come, take slots, give up and return, the channel holds as
-- many values as there are passes at work, and these are never more than its capacity.
pub Reach-IsBounded : {cfg : Config} {max : ℕ} {s : Slots} → Reach cfg max s → IsBounded max s
Reach-IsBounded fresh = omega arith
Reach-IsBounded (next r st) = Step-IsBounded st (Reach-IsBounded r)

-- A pass of the user that waits can take a slot in the next step.
abbrev pub CanTake : Config → ℕ → Text → Slots → Type 0
CanTake cfg max user_id s = (t : Slots) × Step cfg max s t × (t.holding ≡ user_id ∷ s.holding)

module _ {cfg : Config} {max : ℕ} (some_slots : 0 < max) (s : Slots) (bounded : IsBounded max s)
    (before : List Text) (user_id : Text) (after : List Text)
    (waits : s.waiting ≡ before ++ user_id ∷ after) where
  full_channel :
      (holding : List Text)
      → s.holding ≡ holding
      → max ≤ s.used
      → (t : Slots) × Step cfg max s t × (t.waiting ≡ s.waiting) × CanTake cfg max user_id t
  full_channel [] e full = absurd (omega (arith, bounded.owned, ap length e))
  full_channel (h ∷ hs) e full =
      let t : Slots = record s { used = s.used - 1; holding = hs } in
      (
        t,
        released s [] h hs e,
        refl,
        (
          record t { used = t.used + 1; waiting = before ++ after; holding = user_id ∷ t.holding },
          acquired t before user_id after waits (omega (arith, bounded.within)),
          refl,
        ),
      )

  waiting_takes :
      CanTake cfg max user_id s
      ⊎ ((t : Slots) × Step cfg max s t × (t.waiting ≡ s.waiting) × CanTake cfg max user_id t)
  waiting_takes = elim (Bool-cases (ltb s.used max)) [
    | inl free ↦ inl (
      record s { used = s.used + 1; waiting = before ++ after; holding = user_id ∷ s.holding },
      acquired s before user_id after waits (ground (arith, free)),
      refl,
    )
    | inr full ↦ inr (full_channel s.holding refl (ground (arith, full)))
  ]

-- No slot is lost: with a capacity above 0, in every state that is reached, a pass that waits can
-- take a slot in the next step, or in the step after one that leaves the waiting passes as they are.
pub Reach-takes :
    {cfg : Config} {max : ℕ} {s : Slots}
    → Reach cfg max s
    → 0 < max
    → (before : List Text) (user_id : Text) (after : List Text)
    → s.waiting ≡ before ++ user_id ∷ after
    → CanTake cfg max user_id s
      ⊎ ((t : Slots) × Step cfg max s t × (t.waiting ≡ s.waiting) × CanTake cfg max user_id t)
Reach-takes {s} r some_slots before user_id after waits =
    waiting_takes some_slots s (Reach-IsBounded r) before user_id after waits
