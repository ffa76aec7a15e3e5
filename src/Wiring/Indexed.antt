-- ===== src/Wiring/Indexed.antt =====
-- From the handlers' upkeep of the trigger index to the workflows that an event starts.
use ocis_workflows.Base.{
  Result, Text, text, teq, teq_refl, ◌&&◌, ◌||◌, Bool, Bool-cases, true, false, none, some, List,
  [], ◌∷◌, map, select, find_row, ok, ◌≡◌, refl, ◌∙◌, ap, inl, inr, arith, teq_iff, has_prefix,
  has_suffix, Option,
}
use ocis_workflows.Model.{WorkflowDefinition, EventFilters, EventTrigger}
use ocis_workflows.LocalDb.Filters.{Admits, matches_filters_iff}
use ocis_workflows.WebdavStore.Internal.{is_internal_path}
use ocis_workflows.LocalDb.{TriggerIndexEntry, matches_filters}
use ocis_workflows.LocalDb.Triggers.{entry_for, list_event_triggers-quiet}
use ocis_workflows.Ocis
use ocis_workflows.Wiring.{Parts, backend_of}
use ocis_workflows.Wiring.Background.{services_of}
use ocis_workflows.Api.Wire.{State}
use ocis_workflows.Api.Entries.{
  sync_trigger_index, entry_of, indexed, bare_entry, with_event, with_filters,
}
use ocis_workflows.Api.Index.{
  sync_trigger_index-exact, trigger_type-entry_of, faults-sync_trigger_index,
}
use ocis_workflows.Sse.Events.{
  EventPayload, Started, trigger_type, handle_event, handle_event-entries, concerns, any_concerned,
  hits, start_on, resolve, handle_entries-select,
}

-- A run of the workflow on the path is among them.
abbrev pub has_started : Text → Text → List Started → Bool
has_started id path [] = false
has_started id path (g ∷ gs) = (teq g.workflow_id id && teq g.path path) || has_started id path gs

abbrev event_rows : List TriggerIndexEntry → List TriggerIndexEntry
event_rows rows = select (λ r. teq r.trigger_type (text "event")) rows

module _ (user_id kind : Text) (p : EventPayload) (path : Text) where
  hits-concerns :
      (e : TriggerIndexEntry) → hits user_id kind p path e ≡ true → concerns user_id kind e ≡ true
  hits-concerns e hit = ground (arith, hit)

  found-starts :
      (id : Text) (e : TriggerIndexEntry) (rows : List TriggerIndexEntry)
      → find_row teq (λ r. r.workflow_id) id rows ≡ some e
      → teq e.trigger_type (text "event") ≡ true
      → hits user_id kind p path e ≡ true
      → (any_concerned user_id kind (event_rows rows) ≡ true)
        × (has_started id path
              (map (start_on path) (select (hits user_id kind p path) (event_rows rows)))
            ≡ true)
  unfolding find_row select any_concerned
  found-starts id e [] found event hit = grind (arith, found)
  found-starts id e (r ∷ rows) found event hit = elim (Bool-cases (teq r.workflow_id id)) [
    | inl mine ↦
        let same : r ≡ e = grind (arith, found, mine) in
        let event_r : teq r.trigger_type (text "event") ≡ true = rw same event in
        let hit_r : hits user_id kind p path r ≡ true = rw same hit in
        rw event_r (rw (hits-concerns r hit_r) refl, rw (hit_r, mine, teq_refl path) refl)
    | inr other ↦
        let (concerned, started) =
          found-starts id e rows (ground (arith, found, other)) event hit in
        (ground (arith, concerned), ground (arith, started))
  ]

-- A trigger's filters admit the path in the space: each is unset or holds.
abbrev pub AdmitsEvent : Option EventFilters → Text → Text → Type 0
AdmitsEvent none path space_id = Unit
AdmitsEvent (some f) path space_id =
    Admits f.path_prefix (has_prefix path f.path_prefix)
    × Admits f.extension (has_suffix path f.extension)
    × Admits f.space_id (teq f.space_id space_id)

event-entry_of :
    (user_id : Text) (wf : WorkflowDefinition)
    → teq wf.trigger.trigger_type (text "event") ≡ true
    → entry_of user_id wf ≡ with_event (bare_entry user_id wf) wf.trigger.event
unfolding entry_of teq
event-entry_of user_id wf event = rw ((teq_iff wf.trigger.trigger_type (text "event")).0 event) refl

with_filters-matches :
    (e : TriggerIndexEntry) (filters : Option EventFilters) (path space_id : Text)
    → e.path_prefix ≡ []
    → e.extension ≡ []
    → e.space_id ≡ []
    → AdmitsEvent filters path space_id
    → matches_filters (with_filters e filters) path space_id ≡ true
with_filters-matches e none path space_id p x s admits =
    (matches_filters_iff e path space_id).1 (inl p, inl x, inl s)
with_filters-matches e (some f) path space_id p x s admits =
    (matches_filters_iff (with_filters e (some f)) path space_id).1 admits

concerned-hits :
    (user_id kind : Text) (e : TriggerIndexEntry) (filters : Option EventFilters)
    (pl : EventPayload) (path : Text)
    → teq e.user_id user_id ≡ true
    → teq e.event_type kind ≡ true
    → is_internal_path path ≡ false
    → matches_filters (with_filters e filters) path pl.space_id ≡ true
    → hits user_id kind pl path (with_filters e filters) ≡ true
concerned-hits user_id kind e none pl path own typed outside matches =
    rw (own, typed, outside, matches) refl
concerned-hits user_id kind e (some f) pl path own typed outside matches =
    rw (own, typed, outside, matches) refl

-- The entry that the upkeep makes of a trigger is hit by the events that the trigger asks for.
entry_of-hits :
    (user_id kind : Text) (wf : WorkflowDefinition) (asked : EventTrigger) (pl : EventPayload)
    (path : Text)
    → teq wf.trigger.trigger_type (text "event") ≡ true
    → wf.trigger.event ≡ some asked
    → asked.event_type ≡ kind
    → is_internal_path path ≡ false
    → AdmitsEvent asked.filters path pl.space_id
    → hits user_id kind pl path (entry_of user_id wf) ≡ true
entry_of-hits user_id kind wf asked pl path event asks of_kind outside admits =
    let e = record (bare_entry user_id wf) { event_type = asked.event_type } in
    let matches : matches_filters (with_filters e asked.filters) path pl.space_id ≡ true =
      with_filters-matches e asked.filters path pl.space_id refl refl refl admits in
    rw (event-entry_of user_id wf event, asks)
      (concerned-hits user_id kind e asked.filters pl path (teq_refl user_id)
        ((teq_iff asked.event_type kind).1 of_kind) outside matches)

module _ {W : Type 0} (p : Parts W) where
  -- With a driver that does not fail and a user that is known: once the upkeep of the index has seen
  -- an enabled workflow with an event trigger, an event of the user that can be decoded, of the type
  -- that the trigger asks for, whose path resolves to one outside the sidecar's own folder that the
  -- trigger's filters admit together with the event's space, makes the stream's manager start a run of
  -- the workflow on that path.
  pub handle_event-sync_trigger_index :
      (auth user_id sse_auth sse_event payload kind : Text) (wf : WorkflowDefinition) (s : State W)
      (w : W) (decode : Text → Result EventPayload) (pl : EventPayload) (asked : EventTrigger)
      → Ocis.me p.store.ocis auth s.world ≡ (ok user_id, w)
      → s.db.faults ≡ []
      → wf.enabled ≡ true
      → teq wf.trigger.trigger_type (text "event") ≡ true
      → wf.trigger.event ≡ some asked
      → asked.event_type ≡ kind
      → trigger_type sse_event ≡ some kind
      → decode payload ≡ ok pl
      → let s' = sync_trigger_index (backend_of p) auth wf s in
        let path = (resolve (services_of p) sse_auth pl none s').0 in
        is_internal_path path ≡ false
        → AdmitsEvent asked.filters path pl.space_id
        → has_started wf.id path
            (handle_event (services_of p) sse_auth decode user_id sse_event payload s').0
          ≡ true
  unfolding backend_of services_of
  handle_event-sync_trigger_index auth user_id sse_auth sse_event payload kind wf s w decode pl
        asked me quiet on event asks of_kind typed decoded outside admits =
      let s' : State W = sync_trigger_index (backend_of p) auth wf s in
      let path : Text = (resolve (services_of p) sse_auth pl none s').0 in
      let hit : hits user_id kind pl path (entry_of user_id wf) ≡ true =
        entry_of-hits user_id kind wf asked pl path event asks of_kind outside admits in
      let kept : indexed wf ≡ true = ground (arith, on, event) in
      let found : entry_for wf.id s'.db ≡ some (entry_of user_id wf) =
        sync_trigger_index-exact (backend_of p) auth user_id wf.id wf s w me quiet
        ∙ (simp (teq_refl wf.id, kept) refl) in
      let event' : teq (entry_of user_id wf).trigger_type (text "event") ≡ true =
        rw (trigger_type-entry_of user_id wf) event in
      let (concerned, started) =
        found-starts user_id kind pl path wf.id (entry_of user_id wf) s'.db.trigger_index found
          event' hit in
      let still : s'.db.faults ≡ [] =
        faults-sync_trigger_index (backend_of p) auth user_id wf s w me quiet kept in
      let listed : (services_of p).list_event_triggers s'
          ≡ (ok (event_rows s'.db.trigger_index), s') =
        ap (λ r. (r.0, record s' { db = r.1 })) (list_event_triggers-quiet s'.db still) in
      rw
        (
          handle_event-entries (services_of p) sse_auth decode user_id sse_event payload kind pl
              (event_rows s'.db.trigger_index) s' s' typed decoded listed,
          handle_entries-select (services_of p) sse_auth user_id kind pl
              (event_rows s'.db.trigger_index) s',
          concerned,
        )
        started
