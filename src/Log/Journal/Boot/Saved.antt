-- ===== src/Log/Journal/Boot/Saved.antt =====
-- `saveIndex` and the reading of the index in `loadIndex` (log/Journal.cpp).
use croniot_iot.Prelude.{
  ◌≤◌, ◌==◌, ◌≡◌, refl, ap, none, some, List, [], ◌∷◌, ◌++◌, arith, if◌then◌else◌, Bool-cases, inl,
  inr, length, length-append, take, take-append_self,
}
use croniot_iot.Log.Cursor.{JournalCursor, restore}
use croniot_iot.Log.Journal.{
  SegmentRecord, StreamState, segment_count, no_segments, max_tracked_segments, index_of,
}
use croniot_iot.Log.Journal.Boot.{
  ack_of, all_but_last, last_of, track, tracked_count, take_index, read_index,
}

pub all_but_last-append :
    (g : SegmentRecord) (gs : List SegmentRecord) (o : SegmentRecord)
    → all_but_last g (gs ++ o ∷ []) ≡ g ∷ gs
all_but_last-append g [] o = refl
all_but_last-append g (h ∷ gs) o = ap (◌∷◌ g) (all_but_last-append h gs o)

pub last_of-append :
    (g : SegmentRecord) (gs : List SegmentRecord) (o : SegmentRecord) → last_of g (gs ++ o ∷ []) ≡ o
last_of-append g [] o = refl
last_of-append g (h ∷ gs) o = last_of-append h gs o

pub track-append :
    (gs : List SegmentRecord) (o : SegmentRecord) (s : StreamState)
    → track (gs ++ o ∷ []) s ≡ record s { closed = gs; open_segment = o }
track-append [] o s = refl
track-append (g ∷ gs) o s = rw (all_but_last-append g gs o, last_of-append g gs o)

pub ack_of-index :
    (c : JournalCursor)
    → (if (if c.has_ack then 1 else 0) == 0 then none else some c.acked_seq) ≡ ack_of c
ack_of-index c = elim (Bool-cases c.has_ack) [ inl acked ↦ rw acked | inr never ↦ rw never ]

pub taken_segments :
    (saved : StreamState)
    → segment_count saved ≤ max_tracked_segments
    → take (tracked_count (index_of saved)) (index_of saved).segments
      ≡ saved.closed ++ saved.open_segment ∷ []
unfolding index_of
taken_segments saved tracked =
    let used = saved.closed ++ saved.open_segment ∷ [] in
    let all : tracked_count (index_of saved) ≡ length used =
      ground (arith, length-append saved.closed (saved.open_segment ∷ [])) in
    rw all (take-append_self used (no_segments (segment_count saved)))

-- The state that a boot takes from the index that `saved` was written to.
abbrev pub as_saved : StreamState → StreamState → StreamState
as_saved saved s = record s {
  cursor = restore saved.cursor.next_seq saved.cursor.oldest_seq (ack_of saved.cursor) s.cursor;
  closed = saved.closed;
  open_segment = saved.open_segment;
  open_segment_bytes = saved.open_segment_bytes;
  last_budget_warn_day = saved.last_budget_warn_day;
}

-- What `saveIndex` wrote of a stream that tracks 64 segments at most, `loadIndex` reads back:
-- numbers, acknowledgement, segments and the day of the last warning.
pub read_index-index_of :
    (saved s : StreamState)
    → segment_count saved ≤ max_tracked_segments
    → read_index (some (index_of saved)) s ≡ as_saved saved s
unfolding read_index take_index
read_index-index_of saved s tracked =
    let numbers = ack_of-index saved.cursor in
    let segments = taken_segments saved tracked in
    rw (segments, track-append saved.closed saved.open_segment) (unfold index_of in rw numbers)
