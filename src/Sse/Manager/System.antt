-- ===== src/Sse/Manager/System.antt =====
-- The table together with the goroutines that run `consumeForUser`, as a step relation. A goroutine
-- is named by its consumer; it is live until it returns or the manager cancels it, and stale from then
-- until it returns. The goroutines' contexts come from that of `Start`: once that is done, a live
-- goroutine may return and leave its entry in the table, until `Start` calls `stopAll`. Otherwise
-- `consumeForUser` returns by itself only where `GetAutomation` fails, and then it calls
-- `deactivate`; the read may fail in a stale goroutine too.
pub mod Facts
pub mod Consistent
use ocis_workflows.Base.{
  ℕ, suc, ◌+◌, ◌%◌, ◌^◌, ◌≤◌, ◌<◌, Text, teq, teq_iff, teq_refl, Bool, true, false, ◌&&◌, ◌||◌, not,
  List, [], ◌∷◌, ◌++◌, ◌==◌, ==_iff, select, All, length, arith, ◌≡◌, ◌∙◌, sym, ap, refl,
  if◌then◌else◌, Bool-cases, inl, inr, Sublist,
}
use ocis_workflows.LocalDb.{TriggerIndexEntry}
use ocis_workflows.Sse.Manager.{
  Consumer, Manager, u64, has_user, has_id, is_wanted, add, next_consumer, start_wanted, unwanted,
  keep_wanted, users, reconcile, deactivate, stop_all,
}

-- Whether the context of `Start` is done, and whether `Start` has called `stopAll`.
pub data Phase : Type 0 where
  serving : Phase
  ending : Phase
  ended : Phase

-- The loop of `Start` goes on; where both are ready, its select may still take a tick.
abbrev pub is_looping : Phase → Bool
is_looping serving = true
is_looping ending = true
is_looping ended = false

pub record System : Type 0 where
  pub manager : Manager
  pub live : List Consumer
  pub stale : List Consumer
  pub phase : Phase

abbrev pub same_consumer : Consumer → Consumer → Bool
same_consumer a b = teq a.user_id b.user_id && a.id == b.id

unfoldable pub member : Consumer → List Consumer → Bool
member c [] = false
member c (d ∷ ds) = same_consumer d c || member c ds

unfoldable pub leave : Consumer → List Consumer → List Consumer
unfolding select
leave c ds = select (λ d. not (same_consumer d c)) ds

-- The consumers that the second loop of `reconcile` starts: what it puts before the kept ones.
unfoldable pub started : List Text → Manager → List Consumer → List Consumer
unfolding has_user
started [] m live = live
started (u ∷ us) m live =
    started us (if has_user m.active u then m else add u m)
      (if has_user m.active u then live else next_consumer u m ∷ live)

-- A cancelled goroutine is one whose id an unwanted consumer has.
unfoldable pub ticked : List TriggerIndexEntry → System → System
unfolding unwanted started keep_wanted has_id reconcile
ticked entries s =
    let gone = unwanted entries s.manager in
    record {
      manager = reconcile entries s.manager;
      live =
          started (users entries) (keep_wanted entries s.manager)
            (select (λ c. not (has_id gone c.id)) s.live);
      stale = select (λ c. has_id gone c.id) s.live ++ s.stale;
      phase = s.phase;
    }

pub data Step (s : System) : System → Type 0 where
  -- a pass of `reconcile`; the counter of ids does not wrap
  tick :
      (entries : List TriggerIndexEntry)
      → is_looping s.phase ≡ true
      → s.manager.next_id + length entries < u64
      → Step s (ticked entries s)
  -- `GetAutomation` fails in a live goroutine, or in a stale one
  give_up :
      (c : Consumer)
      → member c s.live ≡ true
      → Step s (record s { manager = deactivate c.user_id c.id s.manager; live = leave c s.live })
  give_up_late :
      (c : Consumer)
      → member c s.stale ≡ true
      → Step s (record s { manager = deactivate c.user_id c.id s.manager; stale = leave c s.stale })
  -- a stale goroutine sees that its context is done
  notice : (c : Consumer) → member c s.stale ≡ true → Step s (record s { stale = leave c s.stale })
  -- the context of `Start`, and with it that of every goroutine, is done
  shut : s.phase ≡ serving → Step s (record s { phase = ending })
  -- a live goroutine sees it, and leaves its entry in the table
  return :
      (c : Consumer)
      → s.phase ≡ ending
      → member c s.live ≡ true
      → Step s (record s { live = leave c s.live })
  -- `Start` sees it
  stop :
      s.phase ≡ ending
      → Step s (record {
        manager = stop_all s.manager;
        live = [];
        stale = s.live ++ s.stale;
        phase = ended;
      })

pub data Reach (s : System) : System → Type 0 where
  here : Reach s s
  next : {t u : System} → Reach s t → Step t u → Reach s u

-- No two consumers of one user, and no two of one id.
abbrev pub UserDistinct : List Consumer → Type 0
UserDistinct [] = Unit
UserDistinct (c ∷ cs) = (has_user cs c.user_id ≡ false) × UserDistinct cs

abbrev pub IdDistinct : List Consumer → Type 0
IdDistinct [] = Unit
IdDistinct (c ∷ cs) = (has_id cs c.id ≡ false) × IdDistinct cs

abbrev pub IdsBelow : ℕ → List Consumer → Type 0
IdsBelow n cs = All (λ c. c.id ≤ n) cs

-- No stale goroutine has the id of a consumer in the table.
abbrev pub Apart : List Consumer → List Consumer → Type 0
Apart stale active = All (λ c. has_id active c.id ≡ false) stale

pub record IsConsistent (s : System) : Type 0 where
  pub running : s.phase ≡ serving → s.live ≡ s.manager.active
  pub part : Sublist s.live s.manager.active
  pub one_each : UserDistinct s.manager.active
  pub ids_distinct : IdDistinct s.manager.active
  pub ids_below : IdsBelow s.manager.next_id s.manager.active
  pub stale_below : IdsBelow s.manager.next_id s.stale
  pub stale_apart : Apart s.stale s.manager.active
