-- ===== src/Automations.antt =====
-- backend/pkg/automation, automation.go and renew.go: the credential that lets the sidecar work for
-- a user. A time is a number of nanoseconds since the zero time of package time.
pub mod Connect
pub mod Disconnect
pub mod Renewal
pub mod Sweep
pub mod Loop
use ocis_workflows.Base.{
  ℕ, ◌+◌, ◌*◌, Text, text, ltb, Bool, true, false, not, Option, none, some, List, [], ◌∷◌, ◌++◌,
  Result, ok, err, if◌then◌else◌,
}
use ocis_workflows.Base.Actions.{Act, checked, pure, wrap, attempt, ◌>>=◌, ◌>>◌}
use ocis_workflows.Model.{AutomationStatus}
use ocis_workflows.LocalDb.{
  Automation, Db, Lookup, found, not_found, failed, second, upsert_automation, get_automation,
  delete_automation, list_automations, delete_event_cursors, get_reliability,
}

-- The interfaces `GraphClient` and `ReconcileKicker` (`none` is nil), the clock, rand.Reader,
-- base64.StdEncoding.EncodeToString and the format of an RFC 3339 time in UTC.
pub record Outside (W : Type 0) : Type 0 where
  pub me : Text → W → Result Text × W
  pub username : Text → W → Result Text × W
  pub mint_app_password : Text → ℕ → Text → W → Result (Text × ℕ) × W
  pub revoke_app_password : Text → Text → W → Option Text × W
  pub kick : Option (W → W)
  pub now : W → ℕ × W
  pub random : W → Result Text × W
  pub base64 : Text → Text
  pub format : ℕ → Text

abbrev pub day : ℕ
day = 24 * (3600 * second)

abbrev pub default_expiry : ℕ
default_expiry = 90 * day

abbrev pub token_label : Text
token_label = text "workflows"

abbrev pub renewal_window : ℕ
renewal_window = 14 * day

pub record State (W : Type 0) : Type 0 where
  pub world : W
  pub db : Db

-- A tick of the renewal loop, or what happens to the state meanwhile.
pub data Beat (W : Type 0) : Type 0 where
  tick : Beat W
  elapsed : (State W → State W) → Beat W

abbrev pub Action : Type 0 → Type 0 → Type 0
Action W A = Act (State W) A

module _ {W A : Type 0} where
  abbrev pub outside : (W → Result A × W) → Action W A
  outside m s = let (r, w) = m s.world in (r, record s { world = w })

  abbrev pub stored : (Db → Result A × Db) → Action W A
  stored m s = let (r, db) = m s.db in (r, record s { db = db })

  -- The clock and the random source, which give a value in any case.
  abbrev pub asked : (W → A × W) → Action W A
  asked m s = let (a, w) = m s.world in (ok a, record s { world = w })

-- A call that returns an error only.
abbrev pub plain : {S : Type 0} → (S → Option Text × S) → S → Result (Unit {0}) × S
plain m s = let (r, s') = m s in (checked r, s')

abbrev pub disconnected : AutomationStatus
disconnected = record { connected = false; expiration_date_time = text ""; reliability = text "" }

-- `toStatus` at the time `now`
unfoldable pub to_status : (ℕ → Text) → Option Automation → ℕ → AutomationStatus
to_status format none now = disconnected
to_status format (some a) now = if ltb a.expires_at now then disconnected else record {
  connected = true;
  expiration_date_time = format a.expires_at;
  reliability = text "";
}

-- `GetAutomation` where `ErrNotFound` is handled apart.
abbrev pub as_option : Lookup Automation → Result (Option Automation)
as_option (found a) = ok (some a)
as_option not_found = ok none
as_option (failed e) = err e

abbrev pub look_up : Text → Db → Result (Option Automation) × Db
look_up user_id db = let (r, db') = get_automation user_id db in (as_option r, db')

abbrev pub with_reliability : AutomationStatus → Result Text → AutomationStatus
with_reliability st (ok reliability) = record st { reliability = reliability }
with_reliability st (err e) = st

module _ {W : Type 0} (o : Outside W) where
  pub add_reliability : Text → AutomationStatus → Action W AutomationStatus
  add_reliability user_id st = if not st.connected then pure st else do
    reliability ← attempt (stored (get_reliability user_id))
    pure (with_reliability st reliability)

  unfoldable pub status : Text → Action W AutomationStatus
  unfolding to_status add_reliability
  status user_id = do
    existing ← stored (look_up user_id)
    now ← asked o.now
    add_reliability user_id (to_status o.format existing now)

  abbrev pub kicked : Option (W → W) → Action W (Unit {0})
  kicked none s = (ok tt, s)
  kicked (some kick) s = (ok tt, record s { world = kick s.world })

  -- `UpsertAutomation`, which draws a nonce
  pub store_automation : Automation → Action W (Unit {0})
  store_automation a = do nonce ← asked o.random; stored (plain (upsert_automation nonce a))

  unfoldable pub connect : Text → Action W AutomationStatus
  unfolding to_status store_automation
  connect auth = do
    user_id ← wrap (text "resolve current user") (outside (o.me auth))
    username ← wrap (text "resolve current username") (outside (o.username auth))
    minted ←
        wrap (text "mint app password")
          (outside (o.mint_app_password auth default_expiry token_label))
    connected_at ← asked o.now
    let a : Automation = record {
      user_id = user_id;
      username = username;
      app_password = minted.0;
      expires_at = minted.1;
      connected_at = connected_at;
    } in
        do
          wrap (text "store automation credential") (store_automation a)
          kicked o.kick
          now ← asked o.now
          pure (to_status o.format (some a) now)

  -- `Disconnect` from the answer of `GetAutomation` on.
  pub forget : Text → Text → Option Automation → Action W (Unit {0})
  forget auth user_id none = pure tt
  forget auth user_id (some existing) = do
    attempt (outside (plain (o.revoke_app_password auth existing.app_password)))
    wrap (text "delete stored automation credential") (stored (plain (delete_automation user_id)))
    wrap (text "delete stored event cursors") (stored (plain (delete_event_cursors user_id)))

  unfoldable pub disconnect : Text → Action W (Unit {0})
  unfolding forget
  disconnect auth = do
    user_id ← wrap (text "resolve current user") (outside (o.me auth))
    existing ← stored (look_up user_id)
    forget auth user_id existing

  -- The header of a call that is made with the stored password itself.
  abbrev pub own_auth : Automation → Text
  own_auth a = text "Basic " ++ o.base64 (a.username ++ (text ":" ++ a.app_password))

  -- `renewOne`, with the error that it logs.
  unfoldable pub renew_one : Automation → Action W (Unit {0})
  unfolding store_automation
  renew_one a =
      let auth = own_auth a in
      do
        minted ← outside (o.mint_app_password auth default_expiry token_label)
        store_automation (record a { app_password = minted.0; expires_at = minted.1 })
        attempt (outside (plain (o.revoke_app_password auth a.app_password)))
        pure tt

  -- `a.ExpiresAt.Sub(now) > renewalWindow`
  abbrev pub is_far : ℕ → Automation → Bool
  is_far now a = ltb (now + renewal_window) a.expires_at

  unfoldable pub renew_each : ℕ → List Automation → Action W (Unit {0})
  renew_each now [] s = (ok tt, s)
  renew_each now (a ∷ rest) s = renew_each now rest (if is_far now a then s else (renew_one a s).1)

  unfoldable pub renew_due : Action W (Unit {0})
  unfolding renew_each
  renew_due = do
    automations ← stored list_automations
    now ← asked o.now
    renew_each now automations

  -- The loop of `StartRenewalLoop` over what it receives before the context is done.
  unfoldable pub start_renewal_loop : List (Beat W) → State W → State W
  unfolding renew_due
  start_renewal_loop [] s = s
  start_renewal_loop (tick ∷ rest) s = start_renewal_loop rest (renew_due s).1
  start_renewal_loop (elapsed f ∷ rest) s = start_renewal_loop rest (f s)
