-- ===== src/Telemetry/Retry.antt =====
-- components/croniot/src/telemetry/RetryPolicy.h.
pub mod Float
pub mod Backoff
use croniot_iot.Prelude.{ℕ, zero, suc, ◌+◌, ◌-◌, ◌*◌, ◌/◌, Bool, ltb, leb, if◌then◌else◌}
use croniot_iot.Prelude.Words.{u64}
use Float.{Double}

-- The loop of `nextDelayMs`, by the rounds left: `i` runs from 1 up to `attempt`.
unfoldable pub double_delay : ℕ → ℕ → ℕ → ℕ
double_delay cap zero delay = delay
double_delay cap (suc rounds) delay =
    let rest = double_delay cap rounds (if ltb (cap / 2) delay then cap else u64 (delay * 2)) in
    if ltb delay cap then rest else delay

-- The delay before the jitter.
unfoldable pub base_delay : ℕ → ℕ → ℕ → ℕ
unfolding double_delay
base_delay attempt base cap =
    let delay = double_delay cap (attempt - 1) base in if ltb cap delay then cap else delay

-- `shouldGiveUp`.
unfoldable pub should_give_up : ℕ → ℕ → Bool
should_give_up attempt max_attempts = leb max_attempts attempt

module _ (d : Double) where
  open d use {Value, f_zero, f_one, of_nat, to_nat, mul, f_lt}

  -- The jitter fraction, cut to 0.0-1.0.
  abbrev clamp_fraction : Value → Value
  clamp_fraction j =
      let low = if f_lt j f_zero then f_zero else j in if f_lt f_one low then f_one else low

  -- `nextDelayMs`.
  unfoldable pub next_delay_ms : ℕ → ℕ → ℕ → Value → ℕ
  next_delay_ms attempt base cap jitter =
      let delay = base_delay attempt base cap in
      u64 (delay + to_nat (mul (of_nat delay) (clamp_fraction jitter)))
