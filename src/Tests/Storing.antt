-- ===== src/Tests/Storing.antt =====
-- The stores on concrete inputs.
use ocis_workflows.Base.{
  ℕ, suc, Text, text, teq, none, some, [], ◌≡◌, refl, if◌then◌else◌, find_row, ok, err, ◌∷◌, ◌≤◌,
  ◌+◌, ◌++◌, arith, true,
}
use ocis_workflows.Secretbox.{seal, open_sealed, open_sealed-seal}
use ocis_workflows.LocalDb.{
  Automation, found, not_found, full, get_automation, get_reliability, list_automations,
  upsert_automation,
}
use ocis_workflows.LocalDb.Automations.{kept}
use ocis_workflows.Automations.{
  connect, Outside, State, disconnect, renew_one, start_renewal_loop, tick, elapsed,
}
use ocis_workflows.Automations.Connect.{connect-stores}
use ocis_workflows.Automations.Disconnect.{disconnect-forgets}
use ocis_workflows.Automations.Sweep.{IsFresh, Provides}
use ocis_workflows.Automations.Loop.{IsHealthy, start_renewal_loop-IsFresh}
use ocis_workflows.Automations.Renewal.{IsUntouched, renew_one-err}
use ocis_workflows.Tests.Data.{box, box-IsCipher, alice, credential, db}

open_sealed-seal_example :
    (sealed : Text) × (seal box (ok (text "n")) (text "pw") ≡ ok sealed)
    × (open_sealed box sealed ≡ ok (text "pw"))
open_sealed-seal_example = open_sealed-seal box box-IsCipher (text "n") (text "pw") refl

-- A server on which no password can be minted; its world counts the revocations.
abbrev pub closed : Outside ℕ
closed = record {
  me = λ auth w. (ok alice, w);
  username = λ auth w. (ok (text "Alice"), w);
  mint_app_password = λ auth expiry label w. (err (text "denied"), w);
  revoke_app_password = λ auth token w. (some (text "gone"), suc w);
  kick = none;
  now = λ w. (0, w);
  random = λ w. (ok (text "n"), w);
  base64 = λ t. t;
  format = λ t. [];
}

abbrev state : State ℕ
state = record { world = 0; db = db }

disconnect-forgets_example :
    let (r, s') = disconnect closed (text "auth") state in
    (r ≡ ok tt)
    × ((get_automation alice s'.db).0
        ≡ (if teq alice alice then not_found else (get_automation alice state.db).0))
    × ((get_reliability alice s'.db).0
        ≡ (if teq alice alice then ok full else (get_reliability alice state.db).0))
unfolding get_automation teq open_sealed
disconnect-forgets_example =
    disconnect-forgets closed (text "auth") alice alice state 0 credential refl refl refl

renew_one-err_example : IsUntouched (λ w. w ≡ 0) state (renew_one closed credential state).1
unfolding renew_one
renew_one-err_example =
    renew_one-err closed (λ w. w ≡ 0) (λ auth w h. h) (λ w h. h) credential state (text "denied")
      refl refl

-- A server that mints passwords.
abbrev opened : Outside ℕ
opened = record closed {
  mint_app_password = λ auth expiry label w. (ok (text "new", 7000000000), w);
}

connect-stores_example :
    let (r, s') = connect opened (text "auth") state in
    let a : Automation = record credential {
      app_password = text "new";
      expires_at = 7000000000;
      connected_at = 0;
    } in
    (r ≡ ok (record { connected = true; expiration_date_time = []; reliability = [] }))
    × ((get_automation alice s'.db).0
        ≡ (if teq alice alice then found (kept a) else (get_automation alice state.db).0))
connect-stores_example =
    connect-stores opened (text "auth") alice (text "Alice") (text "new") (text "n") alice
      7000000000 0 state 0 0 0 0 0 refl refl refl refl refl refl box-IsCipher refl

-- A server that mints passwords for 25 days; its world is the time.
abbrev minting : Outside ℕ
minting = record closed {
  mint_app_password = λ auth expiry label w. (ok (text "new", w + 2160000000000000), w);
  now = λ w. (w, w);
}

minting-Provides : (now : ℕ) → Provides minting now 1 (λ w. now ≤ w)
minting-Provides now = record {
  mint = λ auth w since. (text "new", w + 2160000000000000, w, refl, since, omega (arith, since));
  random = λ w since. (text "n", w, refl, since, refl);
  revoke = λ auth token w since. omega (arith, since);
}

state-IsHealthy : IsHealthy 1 state.db
unfolding find_row open_sealed
state-IsHealthy = record {
  ready = record { quiet = refl; laws = box-IsCipher; fits = refl };
  keyed = (refl, tt);
  readable = ((credential.app_password, refl), tt);
}

start_renewal_loop-IsFresh_example :
    IsFresh
      (minting.now (start_renewal_loop minting (tick ∷ elapsed (λ s. s) ∷ []) state).world).0
      (start_renewal_loop minting ((tick ∷ elapsed (λ s. s) ∷ []) ++ tick ∷ []) state).db
      credential.user_id
unfolding start_renewal_loop get_automation list_automations open_sealed renew_one upsert_automation
    seal teq
start_renewal_loop-IsFresh_example =
    start_renewal_loop-IsFresh minting 1 (λ now w. now ≤ w) (tick ∷ elapsed (λ s. s) ∷ []) state
      credential.user_id
      (record credential { app_password = text "new"; expires_at = 2160000000000000 })
      (λ w. (omega arith, minting-Provides w)) (tt, ((λ s h. h), tt)) state-IsHealthy refl
