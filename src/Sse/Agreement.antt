-- ===== src/Sse/Agreement.antt =====
-- manager.go, `handleEvent`, against reconciler.go, `dispatch`: the two ways from an event to runs.
use ocis_workflows.Base.{
  Text, arith, true, false, List, [], ◌∷◌, map, select, some, ok, ◌≡◌, refl, Bool-cases, inl, inr,
  teq,
}
use ocis_workflows.LocalDb.{TriggerIndexEntry, matches_filters}
use ocis_workflows.Services.{Services}
use ocis_workflows.WebdavStore.Internal.{is_internal_path}
use ocis_workflows.Reconcile.{after_path, run_matching}
use ocis_workflows.Sse.Events.{
  EventPayload, Started, handle_entries, run_workflow, hits, start_on, resolved_entries,
}

module _ {W : Type 0} (s : Services W) (auth : Text) where
  -- The goroutines, one after another.
  pub run_started : List Started → W → Unit {0} × W
  run_started [] w = (tt, w)
  run_started (r ∷ rs) w = run_started rs (run_workflow s auth r w).1

  run_matching-started :
      (user_id kind : Text) (p : EventPayload) (path : Text) (es : List TriggerIndexEntry) (w : W)
      → is_internal_path path ≡ false
      → run_matching s es user_id auth p.space_id kind path w
        ≡ run_started (map (start_on path) (select (hits user_id kind p path) es)) w
  unfolding run_matching run_started run_workflow select
  run_matching-started user_id kind p path [] w outside = refl
  run_matching-started user_id kind p path (e ∷ es) w outside =
      elim (Bool-cases (teq e.user_id user_id)) [
        | inr a ↦ rw a (run_matching-started user_id kind p path es w outside)
        | inl a ↦ elim (Bool-cases (teq e.event_type kind)) [
          | inr b ↦ rw (a, b) (run_matching-started user_id kind p path es w outside)
          | inl b ↦ elim (Bool-cases (matches_filters e path p.space_id)) [
            | inr c ↦ rw (a, b, c, outside) (run_matching-started user_id kind p path es w outside)
            | inl c ↦ rw (a, b, c, outside) (run_matching-started user_id kind p path es _ outside)
          ]
        ]
      ]

  none_inside :
      (user_id kind : Text) (p : EventPayload) (path : Text) (es : List TriggerIndexEntry)
      → is_internal_path path ≡ true
      → select (hits user_id kind p path) es ≡ []
  unfolding select
  none_inside user_id kind p path [] inside = refl
  none_inside user_id kind p path (e ∷ es) inside =
      ground (arith, none_inside user_id kind p path es inside)

  -- For the same resolved path, space, user and kind of event, the reconciler's dispatch does exactly
  -- what the goroutines that `handleEvent` starts do, one after another in the order of the index.
  pub dispatch-agrees :
      (user_id kind : Text) (p : EventPayload) (path : Text) (es : List TriggerIndexEntry) (w v : W)
      → after_path s es user_id auth p.space_id kind (ok path) w
        ≡ run_started (handle_entries s auth user_id kind p es (some path) v).0 w
  unfolding after_path run_started
  dispatch-agrees user_id kind p path es w v = elim (Bool-cases (is_internal_path path)) [
    | inl inside ↦
        rw
          (
            inside,
            resolved_entries s auth user_id kind p es path v,
            none_inside user_id kind p path es inside,
          )
          refl
    | inr outside ↦
        rw (outside, resolved_entries s auth user_id kind p es path v)
          (run_matching-started user_id kind p path es w outside)
  ]
