-- ===== src/Reconcile/Pass/Gaps/Drive.antt =====
-- reconciler.go, `reconcileDrive`: a pass over a drive leaves no gap.
use ocis_workflows.Base.{
  ℕ, ◌+◌, ◌≤◌, Text, Bool, true, false, Bool-cases, Option, none, some, List, [], ◌∷◌, ltb, ◌&&◌,
  not, arith, ◌≡◌, inl, inr, refl, ok, err, Result, ◌∙◌,
}
use ocis_workflows.LocalDb.{TriggerIndexEntry, EventCursor, full, sse_only}
use ocis_workflows.Ocis.{Activity}
use ocis_workflows.Services.{Services}
use ocis_workflows.Reconcile.{Config, Sources, query_since, dispatch_all}
use ocis_workflows.Reconcile.Dispatch.Calls.{dispatch_all-Keeps}
use ocis_workflows.Reconcile.Pass.{after_query, query, from_cursor, reconcile_drive}
use ocis_workflows.LocalDb.Stored.{read_of}
use ocis_workflows.Reconcile.Pass.Gaps.{
  Window, Trace, Gapless, Behind, IsGapless, Same, logged, IsTrace, cut-le, start_of, Gapless-cons,
  Behind-degraded, Behind-later, Past, is_none, due-Past, Behind-cons, Same-IsGapless, Behind-write,
}

module _ {W : Type 0} (s : Services W) (src : Sources W) (cfg : Config) (tr : Trace W)
    (user_id auth drive_id : Text) (laws : IsTrace s src tr user_id auth drive_id)
    (entries : List TriggerIndexEntry) where
  -- From a query that was answered on.
  answered-IsGapless :
      (now last_checked since : ℕ) (activities : List Activity) (ws : List Window) (w : W)
      → now ≤ tr.time w
      → tr.answered w ≡ record { since = since; until = now } ∷ ws
      → IsGapless tr cfg w
      → IsGapless tr cfg
          (after_query s src cfg entries user_id auth drive_id now last_checked (ok activities) w).1
  unfolding after_query
  answered-IsGapless now last_checked since activities ws w l e (g, b) =
      let w1 : W = (dispatch_all s entries user_id auth drive_id [] activities w).1 in
      let (st, an, ti) =
        dispatch_all-Keeps s (Same tr w) user_id auth (laws.dispatching w) entries drive_id []
          activities w (refl, refl, omega arith) in
      let (set, an2, ti2) = laws.write now full w1 in
      (
        rw (an2, an) g,
        rw (an2, an)
            (Behind-write tr cfg.first_connect_lookback _ _ (tr.answered w) _ set
              (rw e (inl (cut-le now)))
              (rw st (
                Behind-later cfg.first_connect_lookback (tr.stored w) (tr.answered w) _ _
                  (omega (arith, ti, ti2)) b))),
      )

  -- From a query that was not answered on.
  failed-IsGapless :
      (now : ℕ) (old : Option EventCursor) (e : Text) (w : W)
      → now ≤ tr.time w
      → tr.stored w ≡ old
      → Gapless cfg.first_connect_lookback (tr.answered w)
      → Behind cfg.first_connect_lookback old (tr.answered w) now
      → IsGapless tr cfg
          (after_query s src cfg entries user_id auth drive_id now
            (start_of cfg now old)
            (err e)
            w).1
  unfolding after_query
  failed-IsGapless now old e w l is g b = elim (Bool-cases (src.cancelled w)) [
    | inl gone ↦
        rw (gone, is) (g, Behind-later cfg.first_connect_lookback old (tr.answered w) _ _ l b)
    | inr here ↦
        let (set, an, ti) = laws.write (start_of cfg now old) sse_only w in
        rw here (
          rw an g,
          rw an (
              Behind-write tr cfg.first_connect_lookback _ _ (tr.answered w) _ set
                (Behind-degraded cfg now now (omega arith) user_id drive_id old (tr.answered w) _
                  (omega (arith, l, ti)) b)
                (rw is (
                  Behind-later cfg.first_connect_lookback old (tr.answered w) _ _
                    (omega (arith, l, ti)) b))),
        )
  ]

  -- From the answer on, whatever it is.
  after_query-IsGapless :
      (now : ℕ) (old : Option EventCursor) (ws : List Window) (r : Result (List Activity)) (w : W)
      → now ≤ tr.time w
      → tr.stored w ≡ old
      → tr.answered w ≡ logged r (query_since cfg now (start_of cfg now old)) now ws
      → Gapless cfg.first_connect_lookback ws
      → Behind cfg.first_connect_lookback old ws now
      → Past now old
      → IsGapless tr cfg
          (after_query s src cfg entries user_id auth drive_id now (start_of cfg now old) r w).1
  after_query-IsGapless now old ws (err e) w l is an g b past =
      failed-IsGapless now old e w l is (rw an g) (rw an b)
  after_query-IsGapless now old ws (ok activities) w l is an g b past =
      answered-IsGapless now (start_of cfg now old) (query_since cfg now (start_of cfg now old))
        activities ws w l an
        (
          rw an (Gapless-cons cfg now now (omega arith) old ws g b),
          rw (an, is) (Behind-cons cfg.first_connect_lookback now _ old ws _ past),
        )

  -- From the debounce on, with the cursor that was read.
  query-IsGapless :
      (old : Option EventCursor) (first_ever : Bool) (w : W)
      → tr.stored w ≡ old
      → first_ever ≡ is_none old
      → IsGapless tr cfg w
      → IsGapless tr cfg
          (query s src cfg entries user_id auth drive_id
            (tr.time w)
            first_ever
            (start_of cfg (tr.time w) old)
            w).1
  unfolding query
  query-IsGapless old first_ever w is known (g, b) =
      let now : ℕ = tr.time w in
      let since : ℕ = query_since cfg now (start_of cfg now old) in
      let (st, an, ti) = laws.query since w in
      elim (Bool-cases (not first_ever && ltb now (start_of cfg now old + cfg.grace_period))) [
        | inl young ↦ rw young (g, b)
        | inr due ↦ rw due (
            after_query-IsGapless now old (tr.answered w)
              (src.list_activities auth drive_id since w).0 _ ti (st ∙ is) an g (rw (← is) b)
              (due-Past cfg now old first_ever known due))
      ]

  known_cursor-IsGapless :
      (old : Option EventCursor) (w : W)
      → tr.stored w ≡ old
      → IsGapless tr cfg w
      → IsGapless tr cfg
          (from_cursor s src cfg entries user_id auth drive_id (tr.time w) (read_of old) w).1
  unfolding from_cursor
  known_cursor-IsGapless none w is inv = query-IsGapless none true w is refl inv
  known_cursor-IsGapless (some c) w is inv = query-IsGapless (some c) false w is refl inv

  -- A pass over the drive.
  pub drive-IsGapless :
      (w : W)
      → IsGapless tr cfg w
      → IsGapless tr cfg (reconcile_drive s src cfg entries user_id auth drive_id w).1
  unfolding reconcile_drive
  drive-IsGapless w inv =
      let (same, reads) = laws.clock w in
      let w1 : W = (src.clock w).1 in
      let (r, same', at) = laws.read w1 in
      let w2 : W = (src.get_event_cursor user_id drive_id w1).1 in
      let inv2 : IsGapless tr cfg w2 =
        Same-IsGapless tr cfg w1 w2 same' (Same-IsGapless tr cfg w w1 same inv) in
      elim r [
        | inl c ↦
            rw (reads, c, ← at, ← same'.0) (known_cursor-IsGapless (tr.stored w2) w2 refl inv2)
        | inr (e, c) ↦ rw (c, from_cursor) inv2
      ]
