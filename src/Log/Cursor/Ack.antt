-- ===== src/Log/Cursor/Ack.antt =====
-- Acknowledgements, late, repeated and out of order.
use croniot_iot.Prelude.{ℕ, ◌+◌, ◌^◌, ◌≤◌, ◌<◌, max, ◌≡◌, arith}
use croniot_iot.Log.Cursor.{JournalCursor, IsValid, assign_seq, ack, first_unacked}

-- An acknowledgement keeps the invariant, whatever number it brings.
pub ack-IsValid : (n : ℕ) (c : JournalCursor) → IsValid c → IsValid (ack n c)
unfolding ack
ack-IsValid n c v = ground arith

-- A new record keeps it, as long as a number is left for the next one.
pub assign_seq-IsValid :
    (c : JournalCursor) → IsValid c → c.next_seq + 1 < 2 ^ 32 → IsValid (assign_seq c).1
unfolding assign_seq
assign_seq-IsValid c v h = ground arith

-- Two acknowledgements, in either order, are one of the larger number: duplicates and late ones
-- change nothing.
pub ack-ack : (n m : ℕ) (c : JournalCursor) → ack m (ack n c) ≡ ack (max n m) c
unfolding ack
ack-ack n m c = ground arith

-- An acknowledgement never takes back what was confirmed, and confirms only what was written.
pub first_unacked-ack :
    (n : ℕ) (c : JournalCursor)
    → IsValid c
    → (first_unacked c ≤ first_unacked (ack n c)) × (first_unacked (ack n c) ≤ c.next_seq)
unfolding ack
first_unacked-ack n c v = ground arith
