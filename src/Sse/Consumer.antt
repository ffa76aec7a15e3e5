-- ===== src/Sse/Consumer.antt =====
-- manager.go, `consumeForUser` and `streamOnce`: one user's consumer. A connection is given by its
-- status, its lines and the error that ends them. What the parallel goroutines do in between is part
-- of what each call does to the world.
pub mod Returns
use ocis_workflows.Base.{
  ℕ, zero, suc, Text, text, ◌==◌, Bool, true, false, Option, none, some, List, [], ◌∷◌, ◌++◌,
  Result, ok, err, if◌then◌else◌,
}
use ocis_workflows.Http.{HttpRequest}
use ocis_workflows.LocalDb.{Automation, Lookup, found, not_found, failed, second}
use ocis_workflows.Services.{Services, basic_auth}
use ocis_workflows.Sse.Manager.{Manager, deactivate}
use ocis_workflows.Sse.Stream.{Block, scan, no_block}
use ocis_workflows.Sse.Events.{EventPayload, Started, handle_event}
use ocis_workflows.Sse.Backoff.{next_backoff}

pub record Connection : Type 0 where
  pub status : ℕ
  pub lines : List Text
  pub ended : Option Text

-- `connect` is httpClient.Do; `reconcile` and `start` start a goroutine; `wait` is the select on the
-- context and time.After; `cancelled` is whether the context is done.
pub record Feed (W : Type 0) : Type 0 where
  pub ocis_url : Text
  pub services : Services W
  pub connect : HttpRequest → W → Result Connection × W
  pub reconcile : Option (Text → Text → W → W)
  pub start : Text → Started → W → W
  pub cancelled : W → Bool
  pub wait : ℕ → W → W
  pub trim_space : Text → Text
  pub decode : Text → Result EventPayload
  pub decimal : ℕ → Text

module _ {W : Type 0} (f : Feed W) (user_id auth : Text) where
  abbrev start_all : List Started → W → W
  start_all [] w = w
  start_all (g ∷ gs) w = start_all gs (f.start auth g w)

  -- The calls of `handleEvent` for the blocks of a stream.
  pub handle_blocks : List Block → W → W
  unfolding handle_event
  handle_blocks [] w = w
  handle_blocks (b ∷ bs) w =
      let (started, w') = handle_event f.services auth f.decode user_id b.event_type b.payload w in
      handle_blocks bs (start_all started w')

  -- `onConnected`
  abbrev on_connected : Option (Text → Text → W → W) → W → W
  on_connected none w = w
  on_connected (some reconcile) w = reconcile user_id auth w

  abbrev read_stream : Connection → W → Option Text × W
  read_stream c w =
      (c.ended, handle_blocks (scan f.trim_space c.lines no_block) (on_connected f.reconcile w))

  abbrev after_open : Result Connection → W → Option Text × W
  after_open (err e) w = (some e, w)
  after_open (ok c) w =
      if c.status == 200
      then read_stream c w
      else (some (text "sse endpoint returned status " ++ f.decimal c.status), w)

  unfoldable pub stream_once : W → Option Text × W
  unfolding handle_blocks
  stream_once w =
      let (r, w') =
        f.connect
          (record {
            method = text "GET";
            url = f.ocis_url ++ text "/ocs/v2.php/apps/notifications/api/v1/notifications/sse";
            headers = (text "Authorization", auth) ∷ (text "Accept", text "text/event-stream") ∷ [];
            body = [];
          })
          w in
      after_open r w'

  -- The loop for so many connections: whether it has returned, and the world then.
  unfoldable pub rounds : ℕ → ℕ → W → Bool × W
  unfolding next_backoff
  rounds zero backoff w = (false, w)
  rounds (suc n) backoff w =
      let (e, w₁) = stream_once w in
      let rest = rounds n (next_backoff backoff) (f.wait backoff w₁) in
      if f.cancelled w then (true, w) else if f.cancelled w₁ then (true, w₁) else rest

module _ {W : Type 0} (f : Feed W) where
  -- From the answer of `GetAutomation` on, in the goroutine with this id.
  abbrev after_automation : ℕ → Text → ℕ → Lookup Automation → Manager → W → Bool × (Manager × W)
  after_automation connections user_id id (found a) m w =
      let (returned, w') = rounds f user_id (basic_auth f.services a) connections second w in
      (returned, (m, w'))
  after_automation connections user_id id not_found m w = (true, (deactivate user_id id m, w))
  after_automation connections user_id id (failed e) m w = (true, (deactivate user_id id m, w))

  unfoldable pub consume_for_user : ℕ → Text → ℕ → Manager → W → Bool × (Manager × W)
  unfolding rounds deactivate
  consume_for_user connections user_id id m w =
      let (a, w') = f.services.get_automation user_id w in
      after_automation connections user_id id a m w'
