-- ===== src/Log/Journal/Reclaim.antt =====
-- `Journal::maybeReclaim` and `reclaimMount` (log/Journal.cpp): segments go when space is short.
pub mod Kept
pub mod Deleted
pub mod Mount
use croniot_iot.Prelude.{
  ℕ, suc, ◌+◌, ◌-◌, Bool, true, false, not, ◌&&◌, ◌||◌, Option, none, some, List, [], ◌∷◌, ◌++◌,
  ltb, leb, ◌==◌, if◌then◌else◌, is_empty, codes, Bytes,
}
use croniot_iot.Prelude.Words.{u32}
use croniot_iot.Log.Cursor.{Stream, logs, events, data_stream, GapMarker, JournalCursor, reclaim_to}
use croniot_iot.Log.PerStream.{at, put}
use croniot_iot.Log.Record.{LogRecord, zero_record, warn, error, set_tag, set_message}
use croniot_iot.Log.Reclaimer.{Percents, SegmentInfo, Result, reclaim}
use croniot_iot.Log.Journal.{SegmentRecord, StreamState, Conditions, put_file, save_index}
use croniot_iot.Log.Journal.Files.{decimal_digits}
use croniot_iot.Log.Journal.Streams.{Journal, stream_name, append_event}

-- What one `reclaimMount` gets from outside: `esp_littlefs_info`, the time, whether `remove` works on
-- a segment's file, and the conditions of the writes.
pub record ReclaimInput : Type 0 where
  pub info_ok : Bool
  pub total : ℕ
  pub used : ℕ
  pub now : ℕ
  pub removes : ℕ → Bool
  pub gap_write : ℕ → Conditions
  pub critical_write : Conditions
  pub saves : Bool

-- The candidate that `reclaimMount` makes of a closed segment.
unfoldable pub candidate_of : Stream → JournalCursor → ℕ → SegmentRecord → SegmentInfo
candidate_of stream c now g = record {
  stream = stream;
  segment_id = g.segment_id;
  oldest_seq = g.oldest_seq;
  newest_seq = g.newest_seq;
  size_bytes = g.size_bytes;
  fully_acked = c.has_ack && leb g.newest_seq c.acked_seq;
  age_seconds = if ltb g.closed_at_uptime_sec now then now - g.closed_at_uptime_sec else 0;
}

-- `candidates`: the closed segments, without the open one.
unfoldable pub candidates_of : Stream → JournalCursor → ℕ → List SegmentRecord → List SegmentInfo
candidates_of stream c now [] = []
candidates_of stream c now (g ∷ gs) = candidate_of stream c now g ∷ candidates_of stream c now gs

-- `%" PRIu32 "`.
abbrev pub number_text : ℕ → Bytes
number_text n = decimal_digits (suc n) n

-- `gapEvent`.
abbrev pub gap_event : GapMarker → LogRecord
gap_event g =
    record (set_message
      (codes "stream="
        ++ stream_name g.stream
        ++ codes " from="
        ++ number_text g.from_seq
        ++ codes " to="
        ++ number_text g.to_seq
        ++ codes " count="
        ++ number_text g.count)
      (set_tag (codes "log_gap") zero_record)) { level = warn }

-- `critical`.
abbrev pub critical_event : Bytes → LogRecord
critical_event label =
    record (set_message (codes "partition=" ++ label ++ codes " reclaim_insufficient=true")
      (set_tag (codes "storage_critical") zero_record)) { level = error }

-- The segment of a number, by the search of the inner loop.
unfoldable pub find_segment : ℕ → List SegmentRecord → Option SegmentRecord
find_segment id [] = none
find_segment id (g ∷ gs) =
    let rest = find_segment id gs in if g.segment_id == id then some g else rest

-- The shift of the entries behind it.
unfoldable pub drop_segment : ℕ → List SegmentRecord → List SegmentRecord
drop_segment id [] = []
drop_segment id (g ∷ gs) =
    let rest = g ∷ drop_segment id gs in if g.segment_id == id then gs else rest

-- A state without the segment `g`, its file and its numbers.
unfoldable pub forget_segment : Bool → SegmentRecord → JournalCursor → StreamState → StreamState
forget_segment removed g cursor s = record s {
  closed = drop_segment g.segment_id s.closed;
  files = if removed then put_file g.segment_id none s.files else s.files;
  cursor = cursor;
}

abbrev pub report_gap : (ℕ → Conditions) → ℕ → Option GapMarker → Journal → Journal
report_gap gap_write id none j = j
report_gap gap_write id (some g) j = append_event (gap_write id) (gap_event g) j

-- The inner loop at the segment that it finds. The event goes to another stream, so that it does
-- not matter that the segment's entry is dropped behind it in the source.
unfoldable pub delete_found : Stream → ReclaimInput → SegmentRecord → Journal → Journal
delete_found stream i g j =
    let s = at j.states stream in
    let (gap, cursor) = reclaim_to (u32 (g.newest_seq + 1)) (codes "space_pressure") s.cursor in
    report_gap i.gap_write g.segment_id gap (record j {
      states = put stream (forget_segment (i.removes g.segment_id) g cursor s) j.states;
    })

abbrev pub delete_if : Stream → ReclaimInput → Option SegmentRecord → Journal → Journal
delete_if stream i none j = j
delete_if stream i (some g) j = delete_found stream i g j

-- The loop over `segmentIdsToDelete`. The numbers are those of closed segments, so that the search
-- ends before the open one.
unfoldable pub delete_segments : Stream → ReclaimInput → List ℕ → Journal → Journal
delete_segments stream i [] j = j
delete_segments stream i (id ∷ ids) j =
    delete_segments stream i ids
      (delete_if stream i (find_segment id (at j.states stream).closed) j)

abbrev pub free_bytes : ReclaimInput → ℕ
free_bytes i = if ltb i.used i.total then i.total - i.used else 0

-- What `reclaimMount` does with the reclaimer's result.
unfoldable pub apply_result : Stream → Bytes → ReclaimInput → Result → Journal → Journal
apply_result stream label i r j =
    let deleted = delete_segments stream i r.segment_ids_to_delete j in
    let reported =
      if r.degraded_to_ram_only
      then append_event i.critical_write (critical_event label) deleted
      else deleted in
    if is_empty r.segment_ids_to_delete then reported else record reported {
      states = put stream (save_index i.saves (at reported.states stream)) reported.states;
    }

-- `kLowWaterMarkPercent` and `kCriticalMarkPercent`, unless they are configured.
abbrev pub low_water_mark_percent : ℕ
low_water_mark_percent = 20

abbrev pub critical_mark_percent : ℕ
critical_mark_percent = 5

module _ (d : Percents) where
  -- The reclaimer's answer to `reclaimMount`.
  unfoldable pub decide_reclaim : Stream → ℕ → ReclaimInput → StreamState → Result
  decide_reclaim stream retention i s =
      reclaim d (candidates_of stream s.cursor i.now s.closed) i.total (free_bytes i) retention
        (d.of_u64 low_water_mark_percent) (d.of_u64 critical_mark_percent)

  -- `reclaimMount`.
  unfoldable pub reclaim_mount : Stream → Bytes → ℕ → ReclaimInput → Journal → Journal
  reclaim_mount stream label retention i j =
      if not i.info_ok || i.total == 0
      then j
      else apply_result stream label i (decide_reclaim stream retention i (at j.states stream)) j

  abbrev reclaim_if_mounted : Stream → Bytes → ℕ → ReclaimInput → Journal → Journal
  reclaim_if_mounted stream label retention i j =
      if (at j.states stream).mounted then reclaim_mount stream label retention i j else j

  -- `maybeReclaim`.
  unfoldable pub maybe_reclaim : ReclaimInput → ReclaimInput → Journal → Journal
  maybe_reclaim of_logs of_data j =
      reclaim_if_mounted data_stream (codes "archive") 172800 of_data (
        reclaim_if_mounted logs (codes "journal") 18446744073709551615 of_logs
          (record j { reclaim_requested = false }))
