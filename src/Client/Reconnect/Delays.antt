-- ===== src/Client/Reconnect/Delays.antt =====
-- The delays of a connection that fails again and again.
use soupbintcp.Common.{ℕ, zero, suc, ◌*◌, ◌^◌, ◌≤◌, ◌≡◌, refl, min, arith}
use soupbintcp.Constants.{reconnect_max_delay}
use soupbintcp.Client.Reconnect.{next_delay}

-- The delay after `k` failures.
unfoldable pub delay_after : ℕ → ℕ
delay_after zero = 0
delay_after (suc k) = next_delay (delay_after k)

power_positive : (k : ℕ) → 1 ≤ 2 ^ k
power_positive zero = omega arith
power_positive (suc k) = let ih = power_positive k in omega (arith, ih)

pub delay_after-doubles : (k : ℕ) → delay_after (suc k) ≡ min (2 ^ k) reconnect_max_delay
unfolding delay_after next_delay
delay_after-doubles zero = refl
delay_after-doubles (suc k) =
    let ih = delay_after-doubles k in
    let positive = power_positive k in
    let twice : 2 ^ suc k ≡ 2 * 2 ^ k = omega arith in rw (ih, twice) (ground (arith, positive))
