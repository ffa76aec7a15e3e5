-- ===== src/Automations/Connect.antt =====
-- `Connect` and `Status`.
use ocis_workflows.Base.{
  ℕ, Text, teq, length, ltb, [], some, if◌then◌else◌, ok, ◌≡◌, refl, true, Bool-cases, Option-cases,
  inl, inr, none, Option,
}
use ocis_workflows.Secretbox.{IsCipher}
use ocis_workflows.LocalDb.{Automation, found, get_automation, get_reliability}
use ocis_workflows.LocalDb.Automations.{kept, get_automation-same, get_automation-upsert_automation}
use ocis_workflows.Automations.{
  Outside, State, connect, status, to_status, disconnected, default_expiry, token_label,
}

-- The world after a kick, if there is anyone to kick.
abbrev pub world_after : {W : Type 0} → Option (W → W) → W → W
world_after none w = w
world_after (some kick) w = kick w

module _ {W : Type 0} (o : Outside W) where
  -- Where the server knows the caller and mints a password, a nonce of the cipher's size is drawn,
  -- the cipher keeps its round trips and the driver does not fail, `Connect` returns "connected" with
  -- the expiry that the server gave, unless the clock after the kick is past it, and then "not
  -- connected"; and the database then gives for the caller the new credential with its times cut to
  -- seconds, in the place of any older one, and for other users what it gave before.
  pub connect-stores :
      (auth user_id name token nonce other : Text) (expires at : ℕ) (s : State W)
      (w1 w2 w3 w4 w5 : W)
      → o.me auth s.world ≡ (ok user_id, w1)
      → o.username auth w1 ≡ (ok name, w2)
      → o.mint_app_password auth default_expiry token_label w2 ≡ (ok (token, expires), w3)
      → o.now w3 ≡ (at, w4)
      → o.random w4 ≡ (ok nonce, w5)
      → length nonce ≡ s.db.box.nonce_size
      → IsCipher s.db.box
      → s.db.faults ≡ []
      → let (r, s') = connect o auth s in
        let a : Automation = record {
          user_id = user_id;
          username = name;
          app_password = token;
          expires_at = expires;
          connected_at = at;
        } in
        (r
          ≡ ok (
              if ltb expires (o.now (world_after o.kick w5)).0 then disconnected else record {
                connected = true;
                expiration_date_time = o.format expires;
                reliability = [];
              }))
        × ((get_automation other s'.db).0
            ≡ (if teq user_id other then found (kept a) else (get_automation other s.db).0))
  unfolding connect to_status
  connect-stores auth user_id name token nonce other expires at s w1 w2 w3 w4 w5 me username mint
        now random fits laws quiet =
      let a : Automation = record {
        user_id = user_id;
        username = name;
        app_password = token;
        expires_at = expires;
        connected_at = at;
      } in
      let (sent, reads) = get_automation-upsert_automation s.db nonce a other laws fits quiet in
      elim (Option-cases o.kick) [
        | inl e ↦ rw (me, username, mint, now, random, sent, e) (refl, reads)
        | inr (kick, e) ↦ rw (me, username, mint, now, random, sent, e) (refl, reads)
      ]

  -- With a driver that does not fail, the status of a user with a credential is "connected", with
  -- the credential's expiry and the user's reliability, until the time of expiry has passed, and
  -- "not connected", with neither, from then on.
  pub status-exact :
      (user_id reliability : Text) (a : Automation) (s : State W) (now : ℕ) (w : W)
      → s.db.faults ≡ []
      → (get_automation user_id s.db).0 ≡ found a
      → (get_reliability user_id s.db).0 ≡ ok reliability
      → o.now s.world ≡ (now, w)
      → (status o user_id s).0
        ≡ ok (
            if ltb a.expires_at now then disconnected else record {
              connected = true;
              expiration_date_time = o.format a.expires_at;
              reliability = reliability;
            })
  unfolding status
  status-exact user_id reliability a s now w quiet has rel clock =
      elim (Bool-cases (ltb a.expires_at now)) [
        | inl over ↦ rw (has, get_automation-same user_id s.db quiet, clock, over) refl
        | inr live ↦ rw (has, get_automation-same user_id s.db quiet, clock, live, rel) refl
      ]
