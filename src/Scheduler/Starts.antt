-- ===== src/Scheduler/Starts.antt =====
-- scheduler.go, `tick`: what a tick adds to the starts of one workflow.
use ocis_workflows.Base.{
  ℕ, Text, teq, teq_iff, true, Option, none, some, List, [], ◌∷◌, ◌++◌, map, ltb, arith, ◌≡◌, ◌<◌,
  ◌⊎◌, ◌∙◌, inl, inr, refl, sym, ap, subst, if◌then◌else◌, Bool-cases, All, ◌&&◌,
}
use ocis_workflows.LocalDb.{TriggerIndexEntry}
use ocis_workflows.Times.{get_time}
use ocis_workflows.Scheduler.{Schedule, LastRun, at_time, check, tick_entries}
use ocis_workflows.Scheduler.Ticks.{Spaced, get_time-check, check-stored, check-new}

-- The times at which the workflow is started.
unfoldable pub starts_of : Text → List (ℕ × TriggerIndexEntry) → List ℕ
starts_of id [] = []
starts_of id (r ∷ rs) =
    let rest = starts_of id rs in if teq r.1.workflow_id id then r.0 ∷ rest else rest

pub starts_of-append :
    (id : Text) (xs ys : List (ℕ × TriggerIndexEntry))
    → starts_of id (xs ++ ys) ≡ starts_of id xs ++ starts_of id ys
unfolding starts_of
starts_of-append id [] ys = refl
starts_of-append id (x ∷ xs) ys = ground (arith, starts_of-append id xs ys)

-- Each entry of the workflow carries the schedule.
abbrev pub Carries : (Text → Option Schedule) → Text → Schedule → List TriggerIndexEntry → Type 0
Carries parse id schedule es =
    All (λ e. teq e.workflow_id id ≡ true → parse e.schedule ≡ some schedule) es

module _ (parse : Text → Option Schedule) (id : Text) (now : ℕ) where
  -- The starts of the workflow in a tick.
  abbrev pub now_starts : List TriggerIndexEntry → LastRun → List ℕ
  now_starts es m = starts_of id (map (at_time now) (tick_entries parse now es m).0)

  now_starts-cons :
      (e : TriggerIndexEntry) (es : List TriggerIndexEntry) (m : LastRun)
      → now_starts (e ∷ es) m ≡ (
          if (check parse now e m).0 && teq e.workflow_id id
          then now ∷ now_starts es (check parse now e m).1
          else now_starts es (check parse now e m).1)
  unfolding tick_entries starts_of
  now_starts-cons e es m = ground arith

module _ (parse : Text → Option Schedule) (id : Text) (schedule : Schedule) (now : ℕ)
    (advances : (t : ℕ) → t < schedule.next t) where
  -- What a tick adds before starts that are spaced after the time that it leaves.
  pub tick-Spaced :
      (es : List TriggerIndexEntry) (last : ℕ) (m : LastRun) (later : List ℕ)
      → Carries parse id schedule es
      → get_time id m ≡ some last
      → ((t : ℕ) → get_time id (tick_entries parse now es m).1 ≡ some t → Spaced schedule t later)
      → Spaced schedule last (now_starts parse id now es m ++ later)
  unfolding tick_entries starts_of
  tick-Spaced [] last m later c stored after = after last stored
  tick-Spaced (e ∷ es) last m later (valid, c) stored after =
      elim (Bool-cases (teq e.workflow_id id)) [
        | inl same ↦
            let at : e.workflow_id ≡ id = (teq_iff e.workflow_id id).0 same in
            let (due, kept) =
              check-stored parse schedule e (valid same) now last m
                (ap (λ t. get_time t m) at ∙ stored) in
            let kept' = sym (ap (λ t. get_time t (check parse now e m).1) at) ∙ kept in
            elim (Bool-cases (ltb now (schedule.next last))) [
              | inl early ↦
                  rw (now_starts-cons parse id now e es m, due, early)
                    (tick-Spaced es last (check parse now e m).1 later c (ground arith) after)
              | inr hit ↦
                  rw (now_starts-cons parse id now e es m, due, hit, same)
                    (
                      ground arith,
                      tick-Spaced es now (check parse now e m).1 later c (ground arith) after,
                    )
            ]
        | inr other ↦
            subst (λ l. Spaced schedule last (l ++ later))
              (sym (now_starts-cons parse id now e es m ∙ ground arith))
              (tick-Spaced es last (check parse now e m).1 later c
                (get_time-check parse now e m id other ∙ stored) after)
      ]

  -- A tick either does not see the workflow or notes its own time before any start.
  pub tick-new :
      (es : List TriggerIndexEntry) (m : LastRun)
      → Carries parse id schedule es
      → get_time id m ≡ none
      → ((now_starts parse id now es m ≡ []) × (get_time id (tick_entries parse now es m).1 ≡ none))
        ⊎ ((later : List ℕ)
            → ((t : ℕ)
                → get_time id (tick_entries parse now es m).1 ≡ some t
                → Spaced schedule t later)
            → Spaced schedule now (now_starts parse id now es m ++ later))
  unfolding tick_entries starts_of
  tick-new [] m c new = inl (refl, new)
  tick-new (e ∷ es) m (valid, c) new = elim (Bool-cases (teq e.workflow_id id)) [
    | inl same ↦
        let at : e.workflow_id ≡ id = (teq_iff e.workflow_id id).0 same in
        let (quiet, kept) =
          check-new parse schedule e (valid same) now m (advances now)
            (ap (λ t. get_time t m) at ∙ new) in
        let kept' = sym (ap (λ t. get_time t (check parse now e m).1) at) ∙ kept in
        inr (λ later after.
          rw (now_starts-cons parse id now e es m, quiet)
            (tick-Spaced es now (check parse now e m).1 later c kept' after))
    | inr other ↦
        subst
          (λ l.
            ((l ≡ []) × (get_time id (tick_entries parse now (e ∷ es) m).1 ≡ none))
            ⊎ ((later : List ℕ)
                → ((t : ℕ)
                    → get_time id (tick_entries parse now (e ∷ es) m).1 ≡ some t
                    → Spaced schedule t later)
                → Spaced schedule now (l ++ later)))
          (sym (now_starts-cons parse id now e es m ∙ ground arith))
          (tick-new es (check parse now e m).1 c (get_time-check parse now e m id other ∙ new))
  ]
