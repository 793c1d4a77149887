-- ===== src/Log/Cursor.antt =====
-- components/croniot/src/log/JournalCursor.h, with `GapMarker` and `Stream` of JournalTypes.h:
-- the sequence numbers of one journal stream.
pub mod Ack
pub mod Reclaim
use croniot_iot.Prelude.{
  ℕ, ◌+◌, ◌-◌, ◌^◌, ◌≤◌, ◌<◌, ◌≡◌, Bool, true, false, not, ◌||◌, Option, none, some, ltb, leb, ◌==◌,
  if◌then◌else◌, Bytes,
}
use croniot_iot.Prelude.Words.{u32, sub_u32}

-- `enum class Stream`.
pub data Stream : Type 0 where
  logs events data_stream : Stream

-- `GapMarker`.
pub record GapMarker : Type 0 where
  pub stream : Stream
  pub from_seq : ℕ
  pub to_seq : ℕ
  pub count : ℕ
  pub reason : Bytes

-- `JournalCursor`.
pub record JournalCursor : Type 0 where
  pub stream : Stream
  pub next_seq : ℕ
  pub oldest_seq : ℕ
  pub has_ack : Bool
  pub acked_seq : ℕ

-- The constructor.
abbrev pub fresh_cursor : Stream → JournalCursor
fresh_cursor s = record { stream = s; next_seq = 0; oldest_seq = 0; has_ack = false; acked_seq = 0 }

-- `assignSeq`: the number that it hands out, and the cursor.
unfoldable pub assign_seq : JournalCursor → ℕ × JournalCursor
assign_seq c = (c.next_seq, record c { next_seq = u32 (c.next_seq + 1) })

abbrev acked_value : Option ℕ → Bool × ℕ
acked_value none = (false, 0)
acked_value (some a) = (true, a)

-- `restore`.
unfoldable pub restore : ℕ → ℕ → Option ℕ → JournalCursor → JournalCursor
restore next oldest acked c =
    let (has, value) = acked_value acked in
    record c { next_seq = next; oldest_seq = oldest; has_ack = has; acked_seq = value }

-- The acknowledged number, cut to what was written.
abbrev pub clamp_ack : ℕ → JournalCursor → ℕ
clamp_ack up_to c = if leb c.next_seq up_to then c.next_seq - 1 else up_to

-- `ack`. The subtraction runs only at `nextSeq_ != 0`.
unfoldable pub ack : ℕ → JournalCursor → JournalCursor
ack up_to c =
    if c.next_seq == 0
    then c
    else if not c.has_ack || ltb c.acked_seq (clamp_ack up_to c)
    then record c { has_ack = true; acked_seq = clamp_ack up_to c }
    else c

-- `Journal::firstUnackedSeq`, and `unackedBoundary` in `reclaimTo`.
abbrev pub first_unacked : JournalCursor → ℕ
first_unacked c = if c.has_ack then u32 (c.acked_seq + 1) else 0

abbrev gap_from : JournalCursor → ℕ
gap_from c = if ltb (first_unacked c) c.oldest_seq then c.oldest_seq else first_unacked c

-- `reclaimTo`.
unfoldable pub reclaim_to : ℕ → Bytes → JournalCursor → Option GapMarker × JournalCursor
reclaim_to new_oldest reason c =
    let moved = record c { oldest_seq = new_oldest } in
    if leb new_oldest c.oldest_seq
    then (none, c)
    else if leb new_oldest (gap_from c)
    then (none, moved)
    else (
      some (record {
        stream = c.stream;
        from_seq = gap_from c;
        to_seq = new_oldest;
        count = sub_u32 new_oldest (gap_from c);
        reason = reason;
      }),
      moved,
    )

-- What holds of a cursor between two calls: the stream has not used up its numbers, only written
-- records are acknowledged, and only written records are reclaimed.
pub record IsValid (c : JournalCursor) : Type 0 where
  pub room : c.next_seq < 2 ^ 32
  pub reclaimed_written : c.oldest_seq ≤ c.next_seq
  pub acked_written : c.has_ack ≡ true → c.acked_seq < c.next_seq
