-- ===== src/Automations/Sweep.antt =====
-- renew.go, `renewDue`: what a sweep over the stored credentials leaves.
use ocis_workflows.Base.{
  ℕ, ◌+◌, ◌<◌, Text, teq, teq_iff, teq_refl, length, true, false, Bool-cases, List, [], ◌∷◌, All,
  IsKeyed, arith, Result, ok, ◌≡◌, ◌⊎◌, ◌∙◌, refl, sym, ap, subst, inl, inr,
}
use ocis_workflows.Secretbox.{IsCipher, open_sealed-seal}
use ocis_workflows.LocalDb.{
  Automation, Db, found, to_column, from_column, get_automation, list_automations, scan_automations,
}
use ocis_workflows.LocalDb.Automations.{kept, upsert_automation-quiet}
use ocis_workflows.LocalDb.Listed.{list_automations-reads, list_automations-quiet}
use ocis_workflows.Automations.{
  Outside, State, store_automation, renew_one, renew_each, renew_due, is_far, own_auth,
  default_expiry, token_label, renewal_window,
}
use ocis_workflows.Automations.Renewal.{renew_one-renews}

-- A credential of the user is stored, and expires after the renewal window.
abbrev pub IsFresh : ℕ → Db → Text → Type 0
IsFresh now db user_id =
    (a : Automation) × ((get_automation user_id db).0 ≡ found a)
    × (now + renewal_window < a.expires_at)

-- The outer world does its part in a sweep at `now`, while it is in the worlds `During` the sweep:
-- oCIS mints passwords that expire after the renewal window, and a nonce of the size can be drawn.
pub record Provides {W : Type 0} (o : Outside W) (now size : ℕ) (During : W → Type 0) : Type 0 where
  pub mint :
      (auth : Text) (w : W)
      → During w
      → (token : Text) × (expires : ℕ) × (w' : W) × (o.mint_app_password auth default_expiry
            token_label w
          ≡ (ok (token, expires), w'))
        × During w'
        × (now + renewal_window < from_column (to_column expires))
  pub random :
      (w : W)
      → During w
      → (nonce : Text) × (w' : W) × (o.random w ≡ (ok nonce, w'))
        × During w'
        × (length nonce ≡ size)
  pub revoke :
      (auth token : Text) (w : W) → During w → During (o.revoke_app_password auth token w).1

-- A database whose driver does not fail and whose cipher keeps its round trips.
pub record IsReady (size : ℕ) (db : Db) : Type 0 where
  pub quiet : db.faults ≡ []
  pub laws : IsCipher db.box
  pub fits : db.box.nonce_size ≡ size

-- A listed credential is the stored one of its user, or that one is fresh already.
abbrev Agrees : ℕ → Db → Automation → Type 0
Agrees now db a = ((get_automation a.user_id db).0 ≡ found a) ⊎ IsFresh now db a.user_id

module _ {W : Type 0} (o : Outside W) (now size : ℕ) (During : W → Type 0)
    (world : Provides o now size During) where
  -- A renewal in such a world.
  pub renew_one-IsReady :
      (a : Automation) (s : State W)
      → During s.world
      → IsReady size s.db
      → let s' = (renew_one o a s).1 in
        During s'.world
        × IsReady size s'.db
        × IsFresh now s'.db a.user_id
        × ((other : Text)
            → teq a.user_id other ≡ false
            → (get_automation other s'.db).0 ≡ (get_automation other s.db).0)
  unfolding renew_one store_automation
  renew_one-IsReady a s during ready =
      let (token, expires, w1, minted, during1, late) = world.mint (own_auth o a) s.world during in
      let (nonce, w2, drawn, during2, sized) = world.random w1 during1 in
      let renewed : Automation = record a { app_password = token; expires_at = expires } in
      let fits = sized ∙ sym ready.fits in
      let (sealed, e, opens) = open_sealed-seal s.db.box ready.laws nonce token fits in
      let reads = λ (user_id : Text).
        renew_one-renews o a user_id token nonce expires s w1 w2 minted drawn fits ready.laws
          ready.quiet in
      let stored = upsert_automation-quiet (ok nonce) renewed s.db sealed ready.quiet e in
      (
        rw (minted, drawn, stored) (world.revoke (own_auth o a) a.app_password w2 during2),
        rw (minted, drawn, stored)
            (record { quiet = ready.quiet; laws = ready.laws; fits = ready.fits }),
        (kept renewed, (reads a.user_id).1 ∙ rw (teq_refl a.user_id) refl, late),
        λ other differ. (reads other).1 ∙ rw differ refl,
      )

  -- After the credential `a` was renewed, the others that were fresh or listed are so still.
  renewed-IsFresh :
      (a : Automation) (s : State W) (user_id : Text)
      → During s.world
      → IsReady size s.db
      → IsFresh now s.db user_id
      → IsFresh now (renew_one o a s).1.db user_id
  renewed-IsFresh a s user_id during ready fresh =
      let (during', ready', own, others) = renew_one-IsReady a s during ready in
      elim (Bool-cases (teq a.user_id user_id)) [
        | inl same ↦
            subst (IsFresh now (renew_one o a s).1.db) ((teq_iff a.user_id user_id).0 same) own
        | inr differ ↦ let (b, held, later) = fresh in (b, others user_id differ ∙ held, later)
      ]

  renewed-Agrees :
      (a : Automation) (s : State W) (listed : List Automation)
      → During s.world
      → IsReady size s.db
      → All (Agrees now s.db) listed
      → All (Agrees now (renew_one o a s).1.db) listed
  renewed-Agrees a s [] during ready h = tt
  renewed-Agrees a s (c ∷ cs) during ready (h, hs) =
      let (during', ready', own, others) = renew_one-IsReady a s during ready in
      (
        elim (Bool-cases (teq a.user_id c.user_id)) [
          | inl same ↦ inr (
              subst (IsFresh now (renew_one o a s).1.db) ((teq_iff a.user_id c.user_id).0 same) own)
          | inr differ ↦ elim h [
            | inl stored ↦ inl (others c.user_id differ ∙ stored)
            | inr fresh ↦ inr (renewed-IsFresh a s c.user_id during ready fresh)
          ]
        ],
        renewed-Agrees a s cs during ready hs,
      )

  swept-IsFresh :
      (listed : List Automation) (s : State W) (user_id : Text)
      → During s.world
      → IsReady size s.db
      → IsFresh now s.db user_id
      → IsFresh now (renew_each o now listed s).1.db user_id
  unfolding renew_each
  swept-IsFresh [] s user_id during ready fresh = fresh
  swept-IsFresh (a ∷ rest) s user_id during ready fresh = elim (Bool-cases (is_far o now a)) [
    | inl far ↦ rw (far, renew_each) (swept-IsFresh rest s user_id during ready fresh)
    | inr due ↦
        rw (due, renew_each)
          (swept-IsFresh rest (renew_one o a s).1 user_id (renew_one-IsReady a s during ready).0
            (renew_one-IsReady a s during ready).1 (renewed-IsFresh a s user_id during ready fresh))
  ]

  far-IsFresh :
      (a : Automation) (db : Db)
      → is_far o now a ≡ true
      → Agrees now db a
      → IsFresh now db a.user_id
  far-IsFresh a db far (inl stored) = (a, stored, ground (arith, far))
  far-IsFresh a db far (inr fresh) = fresh

  renew_each-far :
      (a : Automation) (rest : List Automation) (s : State W)
      → is_far o now a ≡ true
      → renew_each o now (a ∷ rest) s ≡ renew_each o now rest s
  unfolding renew_each
  renew_each-far a rest s far = rw (far, renew_each) refl

  renew_each-due :
      (a : Automation) (rest : List Automation) (s : State W)
      → is_far o now a ≡ false
      → renew_each o now (a ∷ rest) s ≡ renew_each o now rest (renew_one o a s).1
  unfolding renew_each
  renew_each-due a rest s due = rw (due, renew_each) refl

  abbrev AllFresh : List Automation → Result (Unit {0}) × State W → Type 0
  AllFresh listed r = All (λ a. IsFresh now r.1.db a.user_id) listed

  renew_each-IsFresh :
      (listed : List Automation) (s : State W)
      → During s.world
      → IsReady size s.db
      → All (Agrees now s.db) listed
      → All (λ a. IsFresh now (renew_each o now listed s).1.db a.user_id) listed
  renew_each-IsFresh [] s during ready h = tt
  renew_each-IsFresh (a ∷ rest) s during ready (h, hs) = elim (Bool-cases (is_far o now a)) [
    | inl far ↦ subst (AllFresh (a ∷ rest)) (sym (renew_each-far a rest s far)) (
      swept-IsFresh rest s a.user_id during ready (far-IsFresh a s.db far h),
      renew_each-IsFresh rest s during ready hs,
    )
    | inr due ↦
        let (during', ready', own, others) = renew_one-IsReady a s during ready in
        subst (AllFresh (a ∷ rest)) (sym (renew_each-due a rest s due)) (
          swept-IsFresh rest (renew_one o a s).1 a.user_id during' ready' own,
          renew_each-IsFresh rest (renew_one o a s).1 during' ready'
              (renewed-Agrees a s rest during ready hs),
        )
  ]

stored-Agrees :
    (now : ℕ) (db : Db) (listed : List Automation)
    → All (λ a. (get_automation a.user_id db).0 ≡ found a) listed
    → All (Agrees now db) listed
stored-Agrees now db [] h = tt
stored-Agrees now db (a ∷ rest) (h, hs) = (inl h, stored-Agrees now db rest hs)

scanned :
    (db : Db) (listed : List Automation)
    → db.faults ≡ []
    → (list_automations db).0 ≡ ok listed
    → scan_automations db.box db.automations ≡ ok listed
scanned db listed quiet read = sym (ap (λ r. r.0) (list_automations-quiet db quiet)) ∙ read

module _ {W : Type 0} (o : Outside W) where
  -- With a driver that does not fail, a cipher that keeps its round trips, a nonce of its size at
  -- hand and a server that mints passwords for longer than the renewal window, a sweep over
  -- credentials that can be decrypted leaves none that expires within the window: each user that was
  -- listed then has a stored credential that expires after it.
  pub renew_due-IsFresh :
      (now size : ℕ) (s : State W) (w : W) (listed : List Automation) (During : W → Type 0)
      → Provides o now size During
      → IsReady size s.db
      → IsKeyed teq (λ r. r.user_id) s.db.automations
      → (list_automations s.db).0 ≡ ok listed
      → o.now s.world ≡ (now, w)
      → During w
      → All (λ a. IsFresh now (renew_due o s).1.db a.user_id) listed
  unfolding renew_due
  renew_due-IsFresh now size s w listed During world ready keyed read clock during =
      rw (list_automations-quiet s.db ready.quiet, scanned s.db listed ready.quiet read, clock)
        (renew_each-IsFresh o now size During world listed (record { world = w; db = s.db }) during
          ready
          (stored-Agrees now s.db listed
            (list_automations-reads s.db listed ready.quiet keyed read)))
