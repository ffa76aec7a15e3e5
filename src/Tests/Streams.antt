-- ===== src/Tests/Streams.antt =====
-- A consumer of the event stream on a concrete input.
use ocis_workflows.Base.{
  ℕ, ◌-◌, ◌≤◌, ◌==◌, Text, text, true, none, [], ◌∷◌, err, ok, ◌≡◌, ◌⊎◌, arith,
}
use ocis_workflows.LocalDb.{Lookup, Automation}
use ocis_workflows.Sse.Manager.{Manager, deactivate}
use ocis_workflows.Sse.Consumer.{Feed, stream_once, consume_for_user}
use ocis_workflows.Sse.Consumer.Returns.{IsUnread, consume_for_user-returns}
use ocis_workflows.Tests.Data.{alice, credential, empty_record}

-- The world is the number of waits that are left; the endpoint cannot be reached.
abbrev feed : Feed ℕ
feed = record {
  ocis_url = text "https://cloud";
  services = record {
    get = λ auth id w. (err [], w);
    put_execution = λ auth rec w. (none, w);
    execute = λ auth wf triggered_by path w. (empty_record, w);
    item_path = λ auth space item w. (err [], w);
    list_event_triggers = λ w. (ok [], w);
    list_schedule_triggers = λ w. (ok [], w);
    get_automation = λ user_id w. (Lookup.found credential, w);
    base64 = λ t. t;
  };
  connect = λ req w. (err (text "no route"), w);
  reconcile = none;
  start = λ auth g w. w;
  cancelled = λ w. w == 0;
  wait = λ delay w. w - 1;
  trim_space = λ t. t;
  decode = λ t. err [];
  decimal = λ n. [];
}

abbrev manager : Manager
manager = record { active = record { user_id = alice; id = 1 } ∷ []; next_id = 1 }

streamed : (user_id auth : Text) (w : ℕ) → (stream_once feed user_id auth w).1 ≤ w
unfolding stream_once
streamed user_id auth w = omega arith

consume_for_user-returns_example :
    let (returned, (m', w')) = consume_for_user feed 4 alice 1 manager 3 in
    (returned ≡ true)
    × (((b : Automation) × (Lookup.found credential ≡ Lookup.found b)
          × (m' ≡ manager)
          × (feed.cancelled w' ≡ true))
        ⊎ (IsUnread (Lookup.found credential) × (m' ≡ deactivate alice 1 manager) × (w' ≡ 3)))
consume_for_user-returns_example =
    consume_for_user-returns feed (λ w. w) streamed (λ delay w going. ground (arith, going)) 4 alice
      1 manager 3 (omega arith)
