-- ===== src/Automations/Renewal.antt =====
-- `renewOne`: what a failure and what a success leaves.
use ocis_workflows.Base.{
  ℕ, Text, teq, length, [], if◌then◌else◌, ok, arith, err, ◌≡◌, refl, Result-cases, Option-cases,
  inl, inr,
}
use ocis_workflows.Services.{Keeps}
use ocis_workflows.LocalDb.{Automation, upsert_automation, get_automation, found}
use ocis_workflows.LocalDb.Automations.{
  upsert_automation-err, kept, get_automation-upsert_automation,
}
use ocis_workflows.Secretbox.{IsCipher}
use ocis_workflows.Automations.{
  Outside, State, store_automation, renew_one, own_auth, default_expiry, token_label,
}

-- The stored credentials are as they were, and the world has the property.
abbrev pub IsUntouched : {W : Type 0} → (W → Type 0) → State W → State W → Type 0
IsUntouched P s s' = (s'.db.automations ≡ s.db.automations) × P s'.world

module _ {W : Type 0} (o : Outside W) (P : W → Type 0)
    (mint : (auth : Text) → Keeps P (o.mint_app_password auth default_expiry token_label))
    (random : Keeps P o.random) where
  store_automation-err :
      (a : Automation) (s : State W) (e : Text)
      → P s.world
      → (store_automation o a s).0 ≡ err e
      → IsUntouched P s (store_automation o a s).1
  unfolding store_automation
  store_automation-err a s e k h =
      elim (Option-cases (upsert_automation (o.random s.world).0 a s.db).0) [
        | inl n ↦ ground arith
        | inr (x, q) ↦ (upsert_automation-err _ a s.db x q, random s.world k)
      ]

  -- A renewal that fails leaves the stored credentials as they were, and a world with every property
  -- that minting a password and drawing a nonce keep: so it has not revoked the old password.
  pub renew_one-err :
      (a : Automation) (s : State W) (e : Text)
      → P s.world
      → (renew_one o a s).0 ≡ err e
      → IsUntouched P s (renew_one o a s).1
  unfolding renew_one
  renew_one-err a s e k =
      elim (Result-cases
        (o.mint_app_password (own_auth o a) default_expiry token_label s.world).0) [
          | inr (x, q) ↦ rw (q, renew_one) (λ h. (refl, mint (own_auth o a) s.world k))
          | inl (minted, q) ↦
              let a' : Automation = record a { app_password = minted.0; expires_at = minted.1 } in
              let s1 : State W = record s {
                world = (o.mint_app_password (own_auth o a) default_expiry token_label s.world).1;
              } in
              elim (Result-cases (store_automation o a' s1).0) [
                | inr (x, r) ↦
                    rw (q, r, renew_one)
                      (λ h. store_automation-err a' s1 x (mint (own_auth o a) s.world k) r)
                | inl (u, r) ↦ rw (q, r, renew_one) (λ h. ground arith)
              ]
        ]

module _ {W : Type 0} (o : Outside W) where
  -- Where a password is minted, a nonce of the cipher's size is drawn, the cipher keeps its round
  -- trips and the driver does not fail, a renewal succeeds, whatever the revocation of the old
  -- password answers; the user's credential then has the new password and expiry, its times cut to
  -- seconds, and keeps the rest, and the credentials of other users are what they were.
  pub renew_one-renews :
      (a : Automation) (other token nonce : Text) (expires : ℕ) (s : State W) (w1 w2 : W)
      → o.mint_app_password (own_auth o a) default_expiry token_label s.world
        ≡ (ok (token, expires), w1)
      → o.random w1 ≡ (ok nonce, w2)
      → length nonce ≡ s.db.box.nonce_size
      → IsCipher s.db.box
      → s.db.faults ≡ []
      → let (r, s') = renew_one o a s in
        (r ≡ ok tt)
        × ((get_automation other s'.db).0 ≡ (
            if teq a.user_id other
            then found (kept (record a { app_password = token; expires_at = expires }))
            else (get_automation other s.db).0))
  unfolding renew_one
  renew_one-renews a other token nonce expires s w1 w2 mint random fits laws quiet =
      let renewed : Automation = record a { app_password = token; expires_at = expires } in
      let (sent, reads) =
        get_automation-upsert_automation s.db nonce renewed other laws fits quiet in
      rw (mint, random, sent) (refl, reads)
