-- ===== src/Tests/Background.antt =====
-- The scheduler, the reconciler and the manager on concrete inputs.
use ocis_workflows.Base.{
  ◌+◌, Text, text, is_empty, true, false, none, some, List, [], ◌∷◌, ◌++◌, map, select, ◌≡◌, refl,
  arith, ok, All, if◌then◌else◌, Sublist,
}
use ocis_workflows.LocalDb.{Lookup, TriggerIndexEntry}
use ocis_workflows.Scheduler.{Schedule, check, start, Signal}
use ocis_workflows.Scheduler.Ticks.{check_no_activation}
use ocis_workflows.Scheduler.Starts.{Carries, starts_of}
use ocis_workflows.Scheduler.Loop.{SpacedAfterTick, start-Spaced}
use ocis_workflows.WebdavStore.Internal.{is_internal_path}
use ocis_workflows.Times.{get_time}
use ocis_workflows.Ocis.{Activity}
use ocis_workflows.Reconcile.{after_path, Config, Sources, has_text, dispatch_all}
use ocis_workflows.Reconcile.Window.{passes, passes-Apart, Apart}
use ocis_workflows.Reconcile.Scope.{NoRepeat}
use ocis_workflows.Reconcile.Dispatch.Calls.{MayRun}
use ocis_workflows.Reconcile.Dispatch.{activity_ids, dispatch_each, dispatch_all_once}
use ocis_workflows.Reconcile.Pass.{reconcile}
use ocis_workflows.Reconcile.Pass.Safety.{AllowsPass, reconcile-Keeps}
use ocis_workflows.Sse.Manager.{Manager}
use ocis_workflows.Sse.Manager.System.{ticked, IsConsistent, here, next, tick, shut, ending}
use ocis_workflows.Sse.Manager.System.Consistent.{start_system, reachable-IsConsistent}
use ocis_workflows.Sse.Events.{
  EventPayload, handle_entries, resolve, any_concerned, hits, start_on, handle_entries-select,
}
use ocis_workflows.Sse.Agreement.{run_started, dispatch-agrees}
use ocis_workflows.Sse.Stream.{scan, emit, last_data, block_of, no_block, scan-block}
use ocis_workflows.Tests.Data.{alice, entry, services}

-- A schedule with an activation every ten nanoseconds, and one with none.
abbrev pub every_ten : Schedule
every_ten = record { next = λ t. t + 10 }

abbrev never : Schedule
never = record { next = λ t. 0 }

-- Whatever the entries, they carry it.
all-Carries :
    (id : Text) (es : List TriggerIndexEntry) → Carries (λ t. some every_ten) id every_ten es
all-Carries id [] = tt
all-Carries id (e ∷ es) = (λ h. refl, all-Carries id es)

start-Spaced_example :
    let signals =
      Signal.ticked 3
      ∷ Signal.ticked 14
      ∷ Signal.elapsed (λ w. w)
      ∷ Signal.ticked 20
      ∷ Signal.ticked 31
      ∷ Signal.done
      ∷ [] in
    SpacedAfterTick every_ten signals
      (starts_of entry.workflow_id (start services (λ t. some every_ten) signals [] []))
start-Spaced_example =
    start-Spaced services (λ t. some every_ten) entry.workflow_id every_ten (λ t. omega arith)
      (λ w es e. all-Carries entry.workflow_id es)
      (Signal.ticked 3
        ∷ Signal.ticked 14
        ∷ Signal.elapsed (λ w. w)
        ∷ Signal.ticked 20
        ∷ Signal.ticked 31
        ∷ Signal.done
        ∷ [])
      []

check_no_activation_example : (check (λ t. some never) 30 entry ((text "w", 29) ∷ [])).0 ≡ true
check_no_activation_example =
    check_no_activation (λ t. some never) never entry refl 30 ((text "w", 29) ∷ []) (λ t. refl)

abbrev pub config : Config
config = record { grace_period = 2; overlap = 3; first_connect_lookback = 100 }

abbrev pub activity : Activity
activity = record {
  id = text "1";
  message = text "{user} added {resource} to {folder}";
  resource_id = text "d!a";
}

abbrev sources : Sources (List Text)
sources = record {
  list_drives = λ auth w. (ok [], w);
  list_activities = λ auth drive_id since w. (ok (activity ∷ activity ∷ []), w);
  get_event_cursor = λ user_id drive_id w. (Lookup.not_found, w);
  upsert_event_cursor = λ c w. (none, w);
  clock = λ w. (500, w);
  cancelled = λ w. false;
  iterate = λ set w. (set, w);
}

abbrev Outward : List Text → Type 0
Outward = All (λ path. is_internal_path path ≡ false)

all-MayRun :
    (es : List TriggerIndexEntry) (drive_id : Text)
    → All (MayRun services Outward alice (text "auth") drive_id) es
all-MayRun [] drive_id = tt
all-MayRun (e ∷ es) drive_id = (
  record { load = λ path cause w h. h; run = λ path cause v wf loaded on w h. (cause.outside, h) },
  all-MayRun es drive_id,
)

abbrev allows : AllowsPass services sources config Outward alice (text "auth")
allows = record {
  drive = λ w es read drive_id. record {
    dispatching = record {
      resolve = λ item w h. h;
      entries = all-MayRun es drive_id;
      store = λ rec w h. h;
    };
    clock = λ w h. h;
    read_cursor = λ w h. h;
    activities = λ now last_checked since at later w h. h;
    write_full = λ now last_checked at w h. h;
    write_failed = λ now last_checked at w h. h;
  };
  clock = λ w h. h;
  entries = λ w h. h;
  ordering = λ set w h. h;
  drives = λ w h. h;
}

reconcile-Keeps_example :
    Outward (reconcile services sources config true alice (text "auth") [] []).1
reconcile-Keeps_example =
    reconcile-Keeps services sources config Outward alice (text "auth") allows true [] [] tt

passes-Apart_example :
    Apart config (get_time alice []) (passes config alice (3 ∷ 4 ∷ 5 ∷ 9 ∷ []) [])
passes-Apart_example = passes-Apart config alice (3 ∷ 4 ∷ 5 ∷ 9 ∷ []) []

dispatch_all_once_example :
    (chosen : List Activity) × (dispatch_all services
        (entry ∷ [])
        alice
        (text "auth")
        (text "d")
        []
        (activity ∷ activity ∷ [])
        []
      ≡ dispatch_each services (entry ∷ []) alice (text "auth") (text "d") chosen [])
    × Sublist chosen (activity ∷ activity ∷ [])
    × NoRepeat (activity_ids chosen)
    × ((id : Text)
        → has_text (activity_ids chosen) id ≡ has_text (activity_ids (activity ∷ activity ∷ [])) id)
dispatch_all_once_example =
    dispatch_all_once services (entry ∷ []) alice (text "auth") (text "d")
      (activity ∷ activity ∷ []) []

abbrev manager : Manager
manager = record { active = record { user_id = text "bob"; id = 1 } ∷ []; next_id = 1 }

reachable-IsConsistent_example :
    IsConsistent (record (ticked (entry ∷ []) start_system) { phase = ending })
unfolding ticked
reachable-IsConsistent_example =
    reachable-IsConsistent (next (next here (tick (entry ∷ []) refl (omega arith))) (shut refl))

abbrev payload : EventPayload
payload = record { item_id = text "a"; space_id = text "d" }

handle_entries-select_example :
    handle_entries services (text "auth") alice (text "upload") payload (entry ∷ []) none [] ≡ (
      let (path, w') = resolve services (text "auth") payload none [] in
      if any_concerned alice (text "upload") (entry ∷ [])
      then (map (start_on path) (select (hits alice (text "upload") payload path) (entry ∷ [])), w')
      else ([], []))
handle_entries-select_example =
    handle_entries-select services (text "auth") alice (text "upload") payload (entry ∷ []) []

abbrev lines : List Text
lines = text "data: {}" ∷ text "event: item-renamed" ∷ []

scan-block_example :
    scan (λ t. t) (lines ++ [] ∷ []) no_block
    ≡ emit
        (if is_empty (last_data (λ t. t) lines [])
          then none
          else some (block_of (λ t. t) lines no_block))
        (scan (λ t. t) [] no_block)
scan-block_example = scan-block (λ t. t) lines [] (refl, (refl, tt))

dispatch-agrees_example :
    after_path services
      (entry ∷ [])
      alice
      (text "auth")
      payload.space_id
      (text "upload")
      (ok (text "/Docs/a.txt"))
      []
    ≡ run_started services
        (text "auth")
        (handle_entries services
          (text "auth")
          alice
          (text "upload")
          payload
          (entry ∷ [])
          (some (text "/Docs/a.txt"))
          []).0
        []
dispatch-agrees_example =
    dispatch-agrees services (text "auth") alice (text "upload") payload (text "/Docs/a.txt")
      (entry ∷ []) [] []
