-- ===== src/Scheduler/Loop.antt =====
-- scheduler.go, `Start`: when the goroutines of one workflow are started over the life of the loop.
use ocis_workflows.Base.{
  ℕ, Text, Option, none, some, List, [], ◌∷◌, ◌++◌, map, ◌≡◌, ◌<◌, ◌⊎◌, inl, inr, refl, ap, ok, err,
  Result-cases,
}
use ocis_workflows.LocalDb.{TriggerIndexEntry}
use ocis_workflows.Services.{Services}
use ocis_workflows.Times.{get_time}
use ocis_workflows.Scheduler.{Schedule, LastRun, Signal, at_time, tick_entries, tick, start}
use ocis_workflows.Scheduler.Ticks.{Spaced}
use ocis_workflows.Scheduler.Starts.{
  Carries, starts_of, starts_of-append, now_starts, tick-Spaced, tick-new,
}

module _ {W : Type 0} (schedule : Schedule) where
  -- No start at all, or starts that are spaced after the time of one of the ticks.
  abbrev pub SpacedAfterTick : List (Signal W) → List ℕ → Type 0
  SpacedAfterTick signals ts =
      (ts ≡ [])
      ⊎ ((before : List (Signal W)) × (first : ℕ) × (after : List (Signal W)) × (signals
            ≡ before ++ Signal.ticked first ∷ after)
          × Spaced schedule first ts)

  SpacedAfterTick-cons :
      (x : Signal W) (signals : List (Signal W)) (ts : List ℕ)
      → SpacedAfterTick signals ts
      → SpacedAfterTick (x ∷ signals) ts
  SpacedAfterTick-cons x signals ts (inl never) = inl never
  SpacedAfterTick-cons x signals ts (inr (before, first, after, e, spaced)) =
      inr (x ∷ before, first, after, ap (λ l. x ∷ l) e, spaced)

module _ {W : Type 0} (s : Services W) (parse : Text → Option Schedule) (id : Text) where
  abbrev starts : List (Signal W) → LastRun → W → List ℕ
  starts signals m w = starts_of id (start s parse signals m w)

  starts-listed :
      (now : ℕ) (rest : List (Signal W)) (m : LastRun) (w : W) (es : List TriggerIndexEntry)
      → (s.list_schedule_triggers w).0 ≡ ok es
      → starts (Signal.ticked now ∷ rest) m w
        ≡ now_starts parse id now es m
          ++ starts rest (tick_entries parse now es m).1 (s.list_schedule_triggers w).1
  unfolding start tick
  starts-listed now rest m w es listed =
      rw (listed, tick)
        (starts_of-append id (map (at_time now) (tick_entries parse now es m).0)
          (start s parse rest (tick_entries parse now es m).1 (s.list_schedule_triggers w).1))

  starts-failed :
      (now : ℕ) (rest : List (Signal W)) (m : LastRun) (w : W) (e : Text)
      → (s.list_schedule_triggers w).0 ≡ err e
      → starts (Signal.ticked now ∷ rest) m w ≡ starts rest m (s.list_schedule_triggers w).1
  unfolding start tick
  starts-failed now rest m w e failed = rw (failed, tick) refl

module _ {W : Type 0} (s : Services W) (parse : Text → Option Schedule) (id : Text)
    (schedule : Schedule) (advances : (t : ℕ) → t < schedule.next t)
    (carries : (w : W) (es : List TriggerIndexEntry)
      → (s.list_schedule_triggers w).0 ≡ ok es
      → Carries parse id schedule es) where
  start-Spaced_from :
      (signals : List (Signal W)) (last : ℕ) (m : LastRun) (w : W)
      → get_time id m ≡ some last
      → Spaced schedule last (starts s parse id signals m w)
  unfolding start tick starts_of
  start-Spaced_from [] last m w stored = tt
  start-Spaced_from (Signal.done ∷ rest) last m w stored = tt
  start-Spaced_from (Signal.elapsed f ∷ rest) last m w stored =
      start-Spaced_from rest last m (f w) stored
  start-Spaced_from (Signal.ticked now ∷ rest) last m w stored =
      let (r, w') = s.list_schedule_triggers w in
      elim (Result-cases r) [
        | inl (es, listed) ↦ rw (starts-listed s parse id now rest m w es listed) (
            tick-Spaced parse id schedule now advances es last m
              (starts s parse id rest (tick_entries parse now es m).1 w') (carries w es listed)
              stored (λ t kept. start-Spaced_from rest t (tick_entries parse now es m).1 w' kept))
        | inr (e, failed) ↦
            rw (starts-failed s parse id now rest m w e failed)
              (start-Spaced_from rest last m w' stored)
      ]

  start-Spaced_new :
      (signals : List (Signal W)) (m : LastRun) (w : W)
      → get_time id m ≡ none
      → SpacedAfterTick schedule signals (starts s parse id signals m w)
  unfolding start tick starts_of
  start-Spaced_new [] m w new = inl refl
  start-Spaced_new (Signal.done ∷ rest) m w new = inl refl
  start-Spaced_new (Signal.elapsed f ∷ rest) m w new =
      SpacedAfterTick-cons schedule (Signal.elapsed f) rest (starts s parse id rest m (f w))
        (start-Spaced_new rest m (f w) new)
  start-Spaced_new (Signal.ticked now ∷ rest) m w new =
      let (r, w') = s.list_schedule_triggers w in
      elim (Result-cases r) [
        | inl (es, listed) ↦
            let m' = (tick_entries parse now es m).1 in
            rw (starts-listed s parse id now rest m w es listed)
              (elim (tick-new parse id schedule now advances es m (carries w es listed) new) [
                | inl (unseen, still) ↦ rw unseen (
                    SpacedAfterTick-cons schedule (Signal.ticked now) rest
                      (starts s parse id rest m' w') (start-Spaced_new rest m' w' still))
                | inr spaced ↦ inr (
                  [],
                  now,
                  rest,
                  refl,
                  spaced (starts s parse id rest m' w')
                      (λ t kept. start-Spaced_from rest t m' w' kept),
                )
              ])
        | inr (e, failed) ↦ rw (starts-failed s parse id now rest m w e failed) (
            SpacedAfterTick-cons schedule (Signal.ticked now) rest (starts s parse id rest m w')
              (start-Spaced_new rest m w' new))
      ]

  -- For a schedule that has a next activation after every time, strictly later, and a workflow whose
  -- entries in the index carry that schedule whenever the index can be read: over the life of the
  -- loop, whatever the other entries, the failures of the index and what happens between ticks, the
  -- workflow is either never started, or its first start lies at or after the schedule's next
  -- activation after the time of one of the ticks, and each later start at or after the next
  -- activation after the start before it.
  pub start-Spaced :
      (signals : List (Signal W)) (w : W)
      → SpacedAfterTick schedule signals (starts_of id (start s parse signals [] w))
  unfolding get_time
  start-Spaced signals w = start-Spaced_new signals [] w refl
