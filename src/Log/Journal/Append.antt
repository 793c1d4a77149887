-- ===== src/Log/Journal/Append.antt =====
-- `appendRaw`, `appendEvent` and `appendToStream` (log/Journal.cpp): numbers and places.
use mathlib.Core.List.{flatten}
use croniot_iot.Prelude.{
  ℕ, ◌+◌, ◌^◌, ◌<◌, ◌≡◌, ◌≢◌, refl, sym, ap, ◌∙◌, Bool, true, false, ◌&&◌, ◌||◌, Option, none, some,
  List, [], ◌∷◌, ◌++◌, append_assoc, arith, Bool-cases, inl, inr, Bytes, length,
}
use croniot_iot.Log.Cursor.{Stream, assign_seq, JournalCursor}
use croniot_iot.Log.PerStream.{at, put, at-put_self, at-put_ne}
use croniot_iot.Log.Frames.Format.{Fits}
use croniot_iot.Log.Journal.{
  StreamState, Conditions, WriteResult, whole, part, segment_count, max_tracked_segments,
  write_frame, write_opened, count_frame, rotate_if_needed, next_segment, save_index,
}
use croniot_iot.Log.Journal.Streams.{Journal, append_frame, rotate_stream, append_raw}
use croniot_iot.Log.Journal.Stored.{IsStored, HasRoom}
use croniot_iot.Log.Journal.Rotate.{
  index-IsStored, is_full, rotated_closed, rotated_open, rotate_if_needed-IsStored, flatten-rotated,
}
use croniot_iot.Log.Journal.Write.{
  RollsBack, write_frame-IsUnchanged, write_frame-failed, write_frame-written,
}

-- The stream is mounted and holds these records, oldest first.
pub record Holds (s : StreamState) (rs : List Bytes) : Type 0 where
  pub closed : List (List Bytes)
  pub opened : List Bytes
  pub mounted : s.mounted ≡ true
  pub stored : IsStored s closed opened
  pub room : HasRoom s
  pub records : flatten closed ++ opened ≡ rs

-- The whole frame gets to the disk.
abbrev pub is_whole : WriteResult → Bool
is_whole whole = true
is_whole (part n cut) = false

abbrev pub is_written : Conditions → StreamState → Bool
is_written c s = (s.open_file || c.opens) && is_whole c.write

pub write_frame-is_written :
    (c : Conditions) (p : Bytes) (s : StreamState) → (write_frame c p s).1 ≡ is_written c s
unfolding write_frame
write_frame-is_written c p s = elim (Bool-cases (s.open_file || c.opens)) [
  | inr closed ↦ rw closed
  | inl ready ↦ rw ready (of_result c.write)
]
  where
    of_result : (w : WriteResult) → (write_opened w p s).1 ≡ is_whole w
    of_result whole = unfold write_opened in refl
    of_result (part n cut) = unfold write_opened in refl

rotate_if_needed-kept :
    (stream : Stream) (c : Conditions) (s : StreamState)
    → ((rotate_if_needed stream c s).0.cursor ≡ s.cursor)
      × ((rotate_if_needed stream c s).0.mounted ≡ s.mounted)
unfolding rotate_if_needed next_segment save_index
rotate_if_needed-kept stream c s = ground arith

-- What an append of the frame `p` makes of the stream `s`, if it is written or not.
abbrev pub IsAppended : Bool → Bytes → List Bytes → StreamState → StreamState → Type 0
IsAppended true p rs s t = Holds t (rs ++ p ∷ []) × (t.cursor ≡ (assign_seq s.cursor).1)
IsAppended false p rs s t = Holds t rs × (t.cursor ≡ s.cursor)

-- A state with another day of its last warning.
abbrev pub on_day : ℕ → StreamState → StreamState
on_day day s = record s { last_budget_warn_day = day }

-- The frame stands on the disk, is counted, and the segment is rotated where it is full.
pub rotate-count_frame :
    (stream : Stream) (c : Conditions) (p : Bytes) (day : ℕ) {s : StreamState} {rs : List Bytes}
    → Holds s rs
    → Fits p
    → s.cursor.next_seq + 1 < 2 ^ 32
    → segment_count s < max_tracked_segments
    → (write_frame c p s).1 ≡ true
    → IsAppended true p rs s
        (rotate_if_needed stream c (on_day day (count_frame p (write_frame c p s).0))).0
rotate-count_frame stream c p day {s} {rs} h fits last tracked written =
    let t = on_day day (count_frame p (write_frame c p s).0) in
    let same = write_frame-IsUnchanged c p s in
    let kept = rotate_if_needed-kept stream c t in
    let stored =
      index-IsStored (write_frame-written p h.stored c fits h.room last written) t.index day in
    let counted : t.cursor ≡ (assign_seq s.cursor).1 =
      unfold count_frame in ap (λ (k : JournalCursor). (assign_seq k).1) same.cursor in
    let mounted : t.mounted ≡ s.mounted = unfold count_frame in same.mounted in
    let count : segment_count t < max_tracked_segments =
      unfold count_frame in omega (arith, ap length same.closed, tracked) in
    let size : t.open_segment_bytes < 2 ^ 31 =
      unfold count_frame in omega (arith, same.open_segment_bytes, h.room, fits) in
    let turned = rotate_if_needed-IsStored stream c stored size count in
    (
      record {
        closed = rotated_closed (is_full t) h.closed (h.opened ++ p ∷ []);
        opened = rotated_open (is_full t) (h.opened ++ p ∷ []);
        mounted = kept.1 ∙ mounted ∙ h.mounted;
        stored = turned.0;
        room = turned.1;
        records =
            flatten-rotated (is_full t) h.closed (h.opened ++ p ∷ [])
            ∙ sym (append_assoc (flatten h.closed) h.opened (p ∷ []))
            ∙ ap (λ xs. xs ++ p ∷ []) h.records;
      },
      kept.0 ∙ counted,
    )

-- The frame does not get to the disk, whole.
pub write_frame-kept :
    (c : Conditions) (p : Bytes) {s : StreamState} {rs : List Bytes}
    → Holds s rs
    → RollsBack c.write
    → (write_frame c p s).1 ≡ false
    → IsAppended false p rs s (write_frame c p s).0
write_frame-kept c p {s} {rs} h rolls failed =
    let same = write_frame-IsUnchanged c p s in
    (
      record {
        closed = h.closed;
        opened = h.opened;
        mounted = same.mounted ∙ h.mounted;
        stored = write_frame-failed p h.stored c rolls failed;
        room = omega (arith, same.open_segment_bytes, h.room);
        records = h.records;
      },
      same.cursor,
    )

-- What `appendRaw` returns.
abbrev pub number_if : Bool → ℕ → Option ℕ
number_if true seq = some seq
number_if false seq = none

-- On a mounted stream whose next number is not the last of 32 bits and that does not track 64
-- segments yet, `appendRaw` of a payload whose length fits the prefix returns the record's place if
-- the whole frame gets to the disk, and nothing otherwise. The record then stands last, and the
-- next number is one more; where it does not, the write being rolled back, the stream holds what it
-- held and no number is used up. Other streams are left alone.
pub append_raw-IsAppended :
    (stream : Stream) (c : Conditions) (p : Bytes) (j : Journal) {rs : List Bytes}
    → Holds (at j.states stream) rs
    → Fits p
    → (at j.states stream).cursor.next_seq + 1 < 2 ^ 32
    → segment_count (at j.states stream) < max_tracked_segments
    → RollsBack c.write
    → let r = append_raw stream c p j in
      let s = at j.states stream in
      (r.0 ≡ number_if (is_written c s) s.cursor.next_seq)
      × IsAppended (is_written c s) p rs s (at r.1.states stream)
      × ((t : Stream) → t ≢ stream → at r.1.states t ≡ at j.states t)
unfolding append_raw append_frame rotate_stream
append_raw-IsAppended stream c p j {rs} h fits last tracked rolls =
    let s = at j.states stream in
    let result = write_frame-is_written c p s in
    elim (Bool-cases (write_frame c p s).1) [
      | inl written ↦
          let is : is_written c s ≡ true = sym result ∙ written in
          let t = count_frame p (write_frame c p s).0 in
          let u = (rotate_if_needed stream c t).0 in
          rw (h.mounted, written, is)
            (
              refl,
              rw (at-put_self stream t j.states) (
                  rw (at-put_self stream u (put stream t j.states)) (
                    rotate-count_frame stream c p t.last_budget_warn_day h fits last tracked
                      written)),
              rw (at-put_self stream t j.states) λ t' other.
                  at-put_ne stream t' u (put stream t j.states) other
                  ∙ at-put_ne stream t' t j.states other,
            )
      | inr failed ↦
          let is : is_written c s ≡ false = sym result ∙ failed in
          rw (h.mounted, failed, is)
            (
              refl,
              rw (at-put_self stream (write_frame c p s).0 j.states)
                  (write_frame-kept c p h rolls failed),
              λ t other. at-put_ne stream t (write_frame c p s).0 j.states other,
            )
    ]
