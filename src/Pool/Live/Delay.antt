-- ===== src/Pool/Live/Delay.antt =====
-- The delay between two turns of `playLiveHLS`.
use streamly.Prelude.{ℕ, zero, suc, ◌≤◌, ◌≡◌, ◌⊎◌, arith, refl, inl, inr}
use streamly.Prelude.Signed.{pos, ◌≤ℤ◌, ◌+ℤ◌, wrap64}
use streamly.Pool.Live.{live_reconnect_delay}

-- The values, which the shift stops changing at 4 failures.
delay_cases :
    (n : ℕ)
    → ((n ≤ 1) × (live_reconnect_delay n ≡ pos 2_000_000_000))
      ⊎ (((n ≡ 2) × (live_reconnect_delay n ≡ pos 4_000_000_000))
          ⊎ (((n ≡ 3) × (live_reconnect_delay n ≡ pos 8_000_000_000))
              ⊎ ((4 ≤ n) × (live_reconnect_delay n ≡ pos 15_000_000_000))))
unfolding live_reconnect_delay wrap64
delay_cases zero = inl (ground arith, refl)
delay_cases (suc zero) = inl (ground arith, refl)
delay_cases (suc (suc zero)) = inr (inl (refl, refl))
delay_cases (suc (suc (suc zero))) = inr (inr (inl (refl, refl)))
delay_cases (suc (suc (suc (suc n)))) = inr (inr (inr (ground arith, ground arith)))

pub delay_range :
    (n : ℕ)
    → (pos 2_000_000_000 ≤ℤ live_reconnect_delay n) × (live_reconnect_delay n ≤ℤ pos 15_000_000_000)
delay_range n = ground (arith, delay_cases n)

-- The delay after n consecutive failures is between 2 and 15 seconds, is at least the one after m
-- failures for every m ≤ n, and at most twice the one after one failure less.
pub live_reconnect_delay_bounds :
    (m n : ℕ)
    → m ≤ n
    → (pos 2_000_000_000 ≤ℤ live_reconnect_delay n)
      × ((live_reconnect_delay n ≤ℤ pos 15_000_000_000)
          × ((live_reconnect_delay m ≤ℤ live_reconnect_delay n)
              × (live_reconnect_delay (suc n) ≤ℤ live_reconnect_delay n +ℤ live_reconnect_delay n)))
unfolding ◌+ℤ◌
live_reconnect_delay_bounds m n h =
    ground (arith, delay_cases m, delay_cases n, delay_cases (suc n))
