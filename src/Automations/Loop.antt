-- ===== src/Automations/Loop.antt =====
-- renew.go, `StartRenewalLoop`: the credentials that are stored over the life of the loop.
use ocis_workflows.Base.{
  ℕ, Text, teq, teq_iff, Bool-cases, List, [], ◌∷◌, ◌++◌, All, IsKeyed, upsert_row,
  upsert_row-IsKeyed, find_row, ok, ◌≡◌, ◌∙◌, refl, sym, ap, subst, inl, inr, arith,
}
use ocis_workflows.Secretbox.{Cipher, open_sealed, open_sealed-seal}
use ocis_workflows.LocalDb.{
  Automation, AutomationRow, Db, found, scan_automation, scan_automations, automation_row, opened,
  get_automation,
}
use ocis_workflows.LocalDb.Automations.{get_automation-quiet, upsert_automation-quiet}
use ocis_workflows.LocalDb.Listed.{list_automations-quiet}
use ocis_workflows.Automations.{
  Outside, State, Beat, tick, elapsed, renew_one, renew_each, renew_due, is_far, own_auth,
  store_automation, start_renewal_loop,
}
use ocis_workflows.Automations.Sweep.{
  IsFresh, Provides, IsReady, renew_one-IsReady, renew_due-IsFresh,
}

-- The row's password can be decrypted.
abbrev IsReadable : Cipher → AutomationRow → Type 0
IsReadable box row =
    (plaintext : Text) × (open_sealed box row.encrypted_app_password ≡ ok plaintext)

-- The driver does not fail, the cipher keeps its round trips, and the rows are keyed and readable.
pub record IsHealthy (size : ℕ) (db : Db) : Type 0 where
  pub ready : IsReady size db
  pub keyed : IsKeyed teq (λ r. r.user_id) db.automations
  pub readable : All (IsReadable db.box) db.automations

-- Readable rows can be listed, and what holds of all the listed users holds of each user with a row.
scan_automations-covers :
    (box : Cipher) (rows : List AutomationRow)
    → All (IsReadable box) rows
    → (listed : List Automation) × (scan_automations box rows ≡ ok listed)
      × ((P : Text → Type 0) (user_id : Text) (a : Automation)
          → scan_automation box (find_row teq (λ r. r.user_id) user_id rows) ≡ found a
          → All (λ b. P b.user_id) listed
          → P user_id)
unfolding scan_automations find_row scan_automation
scan_automations-covers box [] h = ([], refl, λ P user_id a held all. absurd (ground (arith, held)))
scan_automations-covers box (row ∷ rows) ((plaintext, opens), hs) =
    let (others, rest, covers) = scan_automations-covers box rows hs in
    (
      opened row plaintext ∷ others,
      rw (opens, rest, scan_automations) refl,
      λ P user_id a held all. elim (Bool-cases (teq row.user_id user_id)) [
        | inl same ↦ subst P ((teq_iff row.user_id user_id).0 same) all.0
        | inr other ↦ covers P user_id a (rw other at held) all.1
      ],
    )

All-upsert_row :
    (P : AutomationRow → Type 0) (a : AutomationRow) (rows : List AutomationRow)
    → P a
    → All P rows
    → All P (upsert_row teq (λ r. r.user_id) a rows)
unfolding upsert_row
All-upsert_row P a [] p h = (p, tt)
All-upsert_row P a (r ∷ rows) p (h, hs) = elim (Bool-cases (teq r.user_id a.user_id)) [
  | inl same ↦ rw same (p, hs)
  | inr other ↦ rw other (h, All-upsert_row P a rows p hs)
]

module _ {W : Type 0} (o : Outside W) (size : ℕ) (Since : ℕ → W → Type 0) where
  -- The outer world does its part in every sweep: the worlds since the time that a sweep reads are
  -- those in which it works.
  abbrev pub AlwaysProvides : Type 0
  AlwaysProvides =
      (w : W) → let (now, w') = o.now w in Since now w' × Provides o now size (Since now)

  renew_one-IsHealthy :
      (now : ℕ) (a : Automation) (s : State W)
      → Provides o now size (Since now)
      → Since now s.world
      → IsHealthy size s.db
      → IsHealthy size (renew_one o a s).1.db
  unfolding renew_one store_automation
  renew_one-IsHealthy now a s world since h =
      let (token, expires, w1, minted, since1, late) = world.mint (own_auth o a) s.world since in
      let (nonce, w2, drawn, since2, sized) = world.random w1 since1 in
      let renewed : Automation = record a { app_password = token; expires_at = expires } in
      let (sealed, e, opens) =
        open_sealed-seal s.db.box h.ready.laws nonce token (sized ∙ sym h.ready.fits) in
      rw (minted, drawn, upsert_automation-quiet (ok nonce) renewed s.db sealed h.ready.quiet e)
        (record {
          ready = record { quiet = h.ready.quiet; laws = h.ready.laws; fits = h.ready.fits };
          keyed =
              upsert_row-IsKeyed teq teq_iff (λ r. r.user_id) (automation_row renewed sealed)
                s.db.automations h.keyed;
          readable =
              All-upsert_row (IsReadable s.db.box) (automation_row renewed sealed) s.db.automations
                (token, opens) h.readable;
        })

  renew_one-Since :
      (now : ℕ) (a : Automation) (s : State W)
      → Provides o now size (Since now)
      → Since now s.world
      → IsHealthy size s.db
      → Since now (renew_one o a s).1.world
  renew_one-Since now a s world since h =
      (renew_one-IsReady o now size (Since now) world a s since h.ready).0

  renew_each-IsHealthy :
      (now : ℕ) (listed : List Automation) (s : State W)
      → Provides o now size (Since now)
      → Since now s.world
      → IsHealthy size s.db
      → IsHealthy size (renew_each o now listed s).1.db
  unfolding renew_each
  renew_each-IsHealthy now [] s world since h = h
  renew_each-IsHealthy now (a ∷ rest) s world since h = elim (Bool-cases (is_far o now a)) [
    | inl far ↦ rw (far, renew_each) (renew_each-IsHealthy now rest s world since h)
    | inr due ↦
        rw (due, renew_each)
          (renew_each-IsHealthy now rest (renew_one o a s).1 world
            (renew_one-Since now a s world since h) (renew_one-IsHealthy now a s world since h))
  ]

  renew_due-IsHealthy :
      (s : State W) → AlwaysProvides → IsHealthy size s.db → IsHealthy size (renew_due o s).1.db
  unfolding renew_due
  renew_due-IsHealthy s world h =
      let (listed, scans, covers) = scan_automations-covers s.db.box s.db.automations h.readable in
      let (now, w) = o.now s.world in
      rw (list_automations-quiet s.db h.ready.quiet, scans)
        (renew_each-IsHealthy now listed (record { world = w; db = s.db }) (world s.world).1
          (world s.world).0 h)

  -- What happens between the ticks leaves the database healthy.
  abbrev pub IsHarmless : Beat W → Type 0
  IsHarmless tick = Unit
  IsHarmless (elapsed f) = (s : State W) → IsHealthy size s.db → IsHealthy size (f s).db

  start_renewal_loop-IsHealthy :
      (beats : List (Beat W)) (s : State W)
      → AlwaysProvides
      → All IsHarmless beats
      → IsHealthy size s.db
      → IsHealthy size (start_renewal_loop o beats s).db
  unfolding start_renewal_loop
  start_renewal_loop-IsHealthy [] s world quiet h = h
  start_renewal_loop-IsHealthy (tick ∷ rest) s world (q, quiet) h =
      start_renewal_loop-IsHealthy rest (renew_due o s).1 world quiet
        (renew_due-IsHealthy s world h)
  start_renewal_loop-IsHealthy (elapsed f ∷ rest) s world (q, quiet) h =
      start_renewal_loop-IsHealthy rest (f s) world quiet (q s h)

  start_renewal_loop-tick :
      (beats : List (Beat W)) (s : State W)
      → start_renewal_loop o (beats ++ tick ∷ []) s ≡ (renew_due o (start_renewal_loop o beats s)).1
  unfolding start_renewal_loop
  start_renewal_loop-tick [] s = refl
  start_renewal_loop-tick (tick ∷ rest) s = start_renewal_loop-tick rest (renew_due o s).1
  start_renewal_loop-tick (elapsed f ∷ rest) s = start_renewal_loop-tick rest (f s)

  -- In a healthy database, a sweep leaves each user that has a credential with a fresh one.
  renew_due-covers :
      (s : State W) (user_id : Text) (a : Automation)
      → AlwaysProvides
      → IsHealthy size s.db
      → (get_automation user_id s.db).0 ≡ found a
      → IsFresh (o.now s.world).0 (renew_due o s).1.db user_id
  renew_due-covers s user_id a world h held =
      let (listed, scans, covers) = scan_automations-covers s.db.box s.db.automations h.readable in
      let (now, w) = o.now s.world in
      let read = ap (λ r. r.0) (list_automations-quiet s.db h.ready.quiet) ∙ scans in
      covers (IsFresh now (renew_due o s).1.db) user_id a
        (sym (get_automation-quiet user_id s.db h.ready.quiet) ∙ held)
        (renew_due-IsFresh o now size s w listed (Since now) (world s.world).1 h.ready h.keyed read
          refl (world s.world).0)

  -- With a driver that does not fail, a cipher that keeps its round trips, rows that are keyed by
  -- their users and can be decrypted, a nonce of the cipher's size at hand, and a server that mints
  -- passwords for longer than the renewal window: whatever happens between the ticks that leaves the
  -- database like this, after every tick of the loop each user who had a credential before the tick
  -- has one that expires after the window, which counts from the time that the sweep reads.
  pub start_renewal_loop-IsFresh :
      (beats : List (Beat W)) (s : State W) (user_id : Text) (a : Automation)
      → AlwaysProvides
      → All IsHarmless beats
      → IsHealthy size s.db
      → (get_automation user_id (start_renewal_loop o beats s).db).0 ≡ found a
      → IsFresh
          (o.now (start_renewal_loop o beats s).world).0
          (start_renewal_loop o (beats ++ tick ∷ []) s).db
          user_id
  start_renewal_loop-IsFresh beats s user_id a world quiet h held =
      let s1 = start_renewal_loop o beats s in
      subst (λ (s' : State W). IsFresh (o.now s1.world).0 s'.db user_id)
        (sym (start_renewal_loop-tick beats s))
        (renew_due-covers s1 user_id a world (start_renewal_loop-IsHealthy beats s world quiet h)
          held)
