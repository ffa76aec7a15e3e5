-- ===== src/Config/Loaded.antt =====
-- What a configuration that is loaded has.
use ocis_workflows.Base.{ℕ, Text, text, is_empty, length, Bool, false, Result, ◌≡◌}
use ocis_workflows.Base.Ensures.{After}
use ocis_workflows.Secretbox.{Cipher}
use ocis_workflows.Secretbox
use ocis_workflows.Config.{Config, Platform, getenv}

module _ {W : Type 0} (p : Platform W) where
  abbrev key_variable : Text
  key_variable = getenv (p.lookup_env (text "WORKFLOWS_ENCRYPTION_KEY"))

  -- A key of 32 bytes, and whether it is drawn.
  abbrev IsKey : Text × Bool → W → Type 0
  IsKey (key, generated) w = (length key ≡ 32) × (generated ≡ is_empty key_variable)

  module _ (draws : (w : W) → After (λ key w'. length key ≡ 32) (p.random w)) where
    -- What the parts of the program count on.
    abbrev pub IsSound : Config → W → Type 0
    IsSound cfg w =
        (is_empty cfg.ocis_url ≡ false)
        × (is_empty cfg.allowed_origin ≡ false)
        × ((cipher : Text → Result Cipher) (decimal : ℕ → Text)
            → Secretbox.new cipher decimal cfg.encryption_key ≡ cipher cfg.encryption_key)
        × (cfg.encryption_key_generated ≡ is_empty key_variable)
