-- ===== src/Sse/Backoff.antt =====
-- manager.go, `consumeForUser`: the delay before the next connection.
use ocis_workflows.Base.{ℕ, zero, suc, ◌*◌, ◌^◌, ltb, arith, ◌≡◌, refl, if◌then◌else◌}
use ocis_workflows.LocalDb.{second}

unfoldable pub next_backoff : ℕ → ℕ
next_backoff backoff = if ltb backoff (30 * second) then backoff * 2 else backoff

-- The delay after the connection has ended `n` times more.
unfoldable pub backoff_after : ℕ → ℕ
unfolding next_backoff
backoff_after zero = second
backoff_after (suc n) = next_backoff (backoff_after n)

from_32 : (n : ℕ) → backoff_after (suc (suc (suc (suc (suc n))))) ≡ 32 * second
unfolding backoff_after
from_32 zero = refl
from_32 (suc n) = ground (arith, from_32 n)

-- The delay doubles from one second until it has reached 32 seconds, and stays there.
pub backoff_after-eq : (n : ℕ) → backoff_after n ≡ (if ltb n 5 then 2 ^ n * second else 32 * second)
unfolding backoff_after
backoff_after-eq zero = refl
backoff_after-eq (suc zero) = refl
backoff_after-eq (suc (suc zero)) = refl
backoff_after-eq (suc (suc (suc zero))) = refl
backoff_after-eq (suc (suc (suc (suc zero)))) = refl
backoff_after-eq (suc (suc (suc (suc (suc n))))) = ground (arith, from_32 n)
