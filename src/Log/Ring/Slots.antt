-- ===== src/Log/Ring/Slots.antt =====
-- The slots of positions in log/RingBuffer.h.
use native.Mathlib.Nat.{div-add-mod}
use croniot_iot.Prelude.{ℕ, ◌+◌, ◌%◌, ◌<◌, ◌≢◌, arith}

pub slot-ne : (cap a d : ℕ) → 0 < d → d < cap → (a + d) % cap ≢ a % cap
slot-ne cap a d pos small e = grind (arith, div-add-mod (a + d) cap, div-add-mod a cap)
