-- ===== src/Tests/Passes.antt =====
-- A history of reconciliation passes on a concrete world.
use ocis_workflows.Base.{
  ℕ, ◌+◌, Text, text, teq, Option, none, some, List, [], ◌∷◌, false, true, ok, refl, inl, arith,
  if◌then◌else◌,
}
use ocis_workflows.LocalDb.{EventCursor, Lookup}
use ocis_workflows.Services.{Services}
use ocis_workflows.Reconcile.{Sources}
use ocis_workflows.Reconcile.Pass.{reconcile}
use ocis_workflows.LocalDb.Stored.{read_of, cut}
use ocis_workflows.Reconcile.Pass.Gaps.{Window, Trace, Gapless, IsTrace}
use ocis_workflows.Reconcile.Pass.Gaps.Passes.{IsPassTrace, start, pass, reconcile-Gapless}
use ocis_workflows.Tests.Background.{config, activity}
use ocis_workflows.Tests.Data.{alice, entry, workflow, credential, empty_record}

-- The cursor and the windows of the drive "d", and the clock, which moves by two seconds.
record Log : Type 0 where
  cursor : Option EventCursor
  windows : List Window
  time : ℕ

abbrev logging : Services Log
logging = record {
  get = λ auth id w. (ok workflow, w);
  put_execution = λ auth rec w. (none, w);
  execute = λ auth wf triggered_by path w. (empty_record, w);
  item_path = λ auth space item w. (ok (text "/Docs/a.txt"), w);
  list_event_triggers = λ w. (ok (entry ∷ []), w);
  list_schedule_triggers = λ w. (ok [], w);
  get_automation = λ user_id w. (Lookup.found credential, w);
  base64 = λ t. t;
}

is_d : Text → Log → Log → Log
is_d d yes_log no_log = if teq d (text "d") then yes_log else no_log

abbrev logged_sources : Sources Log
logged_sources = record {
  list_drives = λ auth w. (ok [], w);
  list_activities = λ auth d since w. (
    ok (activity ∷ []),
    is_d d (record w { windows = record { since = since; until = w.time } ∷ w.windows }) w,
  );
  get_event_cursor = λ user_id d w. (read_of w.cursor, w);
  upsert_event_cursor = λ c w. (none, is_d c.drive_id (record w { cursor = some (cut c) }) w);
  clock = λ w. (w.time + 2000000000, record w { time = w.time + 2000000000 });
  cancelled = λ w. false;
  iterate = λ set w. (set, w);
}

abbrev trace : Trace Log
trace = record { stored = λ w. w.cursor; answered = λ w. w.windows; time = λ w. w.time }

logging-IsTrace : IsTrace logging logged_sources trace alice (text "auth") (text "d")
unfolding is_d teq
logging-IsTrace = record {
  dispatching = λ w0. record {
    resolve = λ space item w h. h;
    load = λ e own w h. h;
    run = λ wf path on outside w h. h;
    store = λ rec w h. h;
  };
  clock = λ w. ((refl, refl, omega arith), refl);
  read = λ w. (inl refl, (refl, refl, omega arith), refl);
  write = λ last_checked status w. (inl refl, refl, omega arith);
  query = λ since w. (refl, refl, omega arith);
}

logging-IsPassTrace : IsPassTrace logging logged_sources config trace alice (text "auth") (text "d")
unfolding is_d
logging-IsPassTrace = record {
  own = logging-IsTrace;
  other = λ w0 d other. record {
    dispatching = logging-IsTrace.dispatching w0;
    clock = λ w h. (h.0, h.1, omega arith);
    read_cursor = λ w h. h;
    activities = λ now last_checked w h. rw other h;
    write_cursor = λ last_checked status w h. rw other h;
  };
  entries = λ w. (refl, refl, omega arith);
  ordering = λ set w. (refl, refl, omega arith);
  drives = λ w. (refl, refl, omega arith);
}

abbrev empty_log : Log
empty_log = record { cursor = none; windows = []; time = 7000000000 }

abbrev one_pass : Log
one_pass = (reconcile logging logged_sources config true alice (text "auth") [] empty_log).1

reconcile-Gapless_example : Gapless 100 (
    trace.answered (reconcile logging logged_sources config true alice (text "auth") [] one_pass).1)
reconcile-Gapless_example =
    reconcile-Gapless logging logged_sources config trace alice (text "auth") (text "d")
      logging-IsPassTrace (pass true [] (pass true [] (start empty_log refl)))
