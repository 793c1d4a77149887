-- ===== src/Log/Journal/Full.antt =====
-- `rotateIfNeeded` (log/Journal.cpp) where 64 segments are tracked already, and the write behind it.
use croniot_iot.Prelude.{
  ℕ, ◌≤◌, ◌≡◌, ap, ◌∙◌, true, ◌||◌, some, [], ◌++◌, arith, length, take, Bytes, sym, ◌-◌,
}
use croniot_iot.Log.Cursor.{Stream}
use croniot_iot.Log.Frames.Format.{write_length_prefixed}
use croniot_iot.Log.Journal.{
  StreamState, Conditions, part, bytes_of, truncate_to, segment_count, segment_rotate_bytes,
  max_tracked_segments, write_opened, write_frame, next_segment, save_index, rotate_if_needed,
}
use croniot_iot.Log.Journal.Write.{put_file_self, write_frame-IsUnchanged}

truncate_to_zero : (file : Bytes) → truncate_to 0 file ≡ []
truncate_to_zero file = let none_missing : 0 - length file ≡ 0 = omega arith in rw none_missing

emptied_opened :
    (p : Bytes) (n : ℕ) (s : StreamState)
    → s.open_segment_bytes ≡ 0
    → (write_opened (part n true) p s).0.files s.open_segment.segment_id ≡ some []
unfolding write_opened
emptied_opened p n s none_known =
    let id = s.open_segment.segment_id in
    let file = bytes_of (s.files id) ++ take n (write_length_prefixed p) in
    put_file_self s.files id (some (truncate_to s.open_segment_bytes file))
    ∙ ap some (ap (λ k. truncate_to k file) none_known ∙ truncate_to_zero file)

-- A write that fails where no byte of the file is known of.
emptied :
    (c : Conditions) (p : Bytes) (n : ℕ) (s : StreamState)
    → c.opens ≡ true
    → c.write ≡ part n true
    → s.open_segment_bytes ≡ 0
    → (write_frame c p s).0.files s.open_segment.segment_id ≡ some []
unfolding write_frame
emptied c p n s opens fails none_known =
    let ready : (s.open_file || c.opens) ≡ true = ground arith in
    rw (ready, fails) (emptied_opened p n s none_known)

rotate_if_needed-full :
    (stream : Stream) (c : Conditions) (s : StreamState)
    → max_tracked_segments ≤ segment_count s
    → segment_rotate_bytes ≤ s.open_segment_bytes
    → let s' = (rotate_if_needed stream c s).0 in
      (s'.open_segment_bytes ≡ 0)
      × (s'.open_segment.segment_id ≡ s.open_segment.segment_id)
      × (s'.cursor ≡ s.cursor)
      × (s'.files ≡ s.files)
unfolding rotate_if_needed next_segment save_index
rotate_if_needed-full stream c s tracked full = ground arith

-- Where 64 segments are tracked, a full segment stays the open one behind `rotateIfNeeded`, with no
-- byte of its file known of. A write that fails then, and is rolled back, empties the file: the
-- records that it held are gone, while their numbers stay used up and no gap is reported.
pub rotate_if_needed-emptied :
    (stream : Stream) (c c' : Conditions) (p : Bytes) (n : ℕ) (s : StreamState)
    → max_tracked_segments ≤ segment_count s
    → segment_rotate_bytes ≤ s.open_segment_bytes
    → c'.opens ≡ true
    → c'.write ≡ part n true
    → let t = (write_frame c' p (rotate_if_needed stream c s).0).0 in
      (t.files s.open_segment.segment_id ≡ some []) × (t.cursor ≡ s.cursor)
rotate_if_needed-emptied stream c c' p n s tracked full opens fails =
    let s' = (rotate_if_needed stream c s).0 in
    let (none_known, same, cursor, files) = rotate_if_needed-full stream c s tracked full in
    (
      ap (write_frame c' p s').0.files (sym same) ∙ emptied c' p n s' opens fails none_known,
      (write_frame-IsUnchanged c' p s').cursor ∙ cursor,
    )
