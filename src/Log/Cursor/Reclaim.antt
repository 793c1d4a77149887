-- ===== src/Log/Cursor/Reclaim.antt =====
-- What a reclaim reports.
use croniot_iot.Prelude.{ℕ, ◌+◌, ◌≤◌, ◌<◌, max, ◌≡◌, ◌↔◌, arith, Option, none, some, Bytes}
use croniot_iot.Log.Cursor.{JournalCursor, GapMarker, IsValid, first_unacked, reclaim_to}

-- The number stands in the reported hole.
abbrev pub InGap : Option GapMarker → ℕ → Type 0
InGap none n = ⊥
InGap (some g) n = (g.from_seq ≤ n) × (n < g.to_seq)

-- The record was still there, goes now, and no one has confirmed it.
abbrev pub IsLost : JournalCursor → ℕ → ℕ → Type 0
IsLost c new_oldest n = (c.oldest_seq ≤ n) × (n < new_oldest) × (first_unacked c ≤ n)

-- A reclaim reports exactly the records that it loses: those that were not reclaimed before, are
-- now, and were never acknowledged.
pub reclaim_to-InGap :
    (new_oldest : ℕ) (reason : Bytes) (c : JournalCursor) (n : ℕ)
    → InGap (reclaim_to new_oldest reason c).0 n ↔ IsLost c new_oldest n
unfolding reclaim_to
reclaim_to-InGap new_oldest reason c n = (ground arith, ground arith)

-- A reported hole has its stream and reason, is not empty, and states its own size.
pub reclaim_to_gap :
    (new_oldest : ℕ) (reason : Bytes) (c : JournalCursor) {g : GapMarker}
    → IsValid c
    → new_oldest ≤ c.next_seq
    → (reclaim_to new_oldest reason c).0 ≡ some g
    → (g.stream ≡ c.stream)
      × (g.reason ≡ reason)
      × (0 < g.count)
      × (g.from_seq + g.count ≡ g.to_seq)
unfolding reclaim_to
reclaim_to_gap new_oldest reason c v written e = ground arith

-- A reclaim never gives records back, and keeps the invariant.
pub reclaim_to-IsValid :
    (new_oldest : ℕ) (reason : Bytes) (c : JournalCursor)
    → IsValid c
    → new_oldest ≤ c.next_seq
    → IsValid (reclaim_to new_oldest reason c).1
      × ((reclaim_to new_oldest reason c).1.oldest_seq ≡ max c.oldest_seq new_oldest)
unfolding reclaim_to
reclaim_to-IsValid new_oldest reason c v written = ground arith
