-- ===== src/MessageBox/Delay.antt =====
-- How long a channel waits after temporary rejections (mod.rs, `channel_retry_delay`).
use grammers.Common.{ℕ, zero, suc, ◌-◌, ◌*◌, ◌^◌, ◌≤◌, ◌≡◌, ap, min, arith}
use grammers.MessageBox.Channels.{channel_retry_delay}

channel_retry_delay_capped : (n : ℕ) → 7 ≤ n → channel_retry_delay n ≡ 60_000
unfolding channel_retry_delay
channel_retry_delay_capped n h =
    let top : min (n - 1) 6 ≡ 6 = omega arith in ap (λ t. min (2 ^ t * 1000) 60_000) top

-- The delay after failures is between a second and a minute and does not shrink with another
-- failure.
pub channel_retry_delay_bounds :
    (n : ℕ)
    → (1000 ≤ channel_retry_delay n)
      × (channel_retry_delay n ≤ 60_000)
      × (channel_retry_delay n ≤ channel_retry_delay (suc n))
unfolding channel_retry_delay
channel_retry_delay_bounds zero = (omega arith, omega arith, omega arith)
channel_retry_delay_bounds (suc zero) = (omega arith, omega arith, omega arith)
channel_retry_delay_bounds (suc (suc zero)) = (omega arith, omega arith, omega arith)
channel_retry_delay_bounds (suc (suc (suc zero))) = (omega arith, omega arith, omega arith)
channel_retry_delay_bounds (suc (suc (suc (suc zero)))) = (omega arith, omega arith, omega arith)
channel_retry_delay_bounds (suc (suc (suc (suc (suc zero))))) =
    (omega arith, omega arith, omega arith)
channel_retry_delay_bounds (suc (suc (suc (suc (suc (suc zero)))))) =
    (omega arith, omega arith, omega arith)
channel_retry_delay_bounds (suc (suc (suc (suc (suc (suc (suc n))))))) =
    let n7 : ℕ = suc (suc (suc (suc (suc (suc (suc n)))))) in
    omega (
      arith,
      channel_retry_delay_capped n7 (omega arith),
      channel_retry_delay_capped (suc n7) (omega arith),
    )
