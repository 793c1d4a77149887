-- ===== src/Log/Journal.antt =====
-- components/croniot/src/log/Journal.{h,cpp}: a stream's state, the files that stand behind it, and
-- how a frame is appended.
-- The files of a stream are named by their segment's number (Journal/Files has the paths), and what
-- the file system answers is an input of each operation.
pub mod Files
pub mod Streams
pub mod Stored
pub mod Rotate
pub mod Write
pub mod Append
pub mod Budget
pub mod Boot
pub mod Reclaim
pub mod Full
mod Tests
pub mod Read
use croniot_iot.Prelude.{
  ℕ, ◌+◌, ◌-◌, ◌/◌, Bool, true, false, not, ◌&&◌, ◌||◌, Option, none, some, List, [], ◌∷◌, ◌++◌,
  ltb, ◌==◌, if◌then◌else◌, length, take, replicate, Bytes,
}
use croniot_iot.Prelude.Words.{u32}
use croniot_iot.Log.Cursor.{Stream, events, JournalCursor, assign_seq}
use croniot_iot.Log.PerStream.{stream_eq}
use croniot_iot.Log.Frames.Format.{write_length_prefixed}

-- `SegmentRecord`.
pub record SegmentRecord : Type 0 where
  pub segment_id : ℕ
  pub oldest_seq : ℕ
  pub newest_seq : ℕ
  pub size_bytes : ℕ
  pub closed_at_uptime_sec : ℕ

abbrev pub zero_segment : SegmentRecord
zero_segment = record {
  segment_id = 0;
  oldest_seq = 0;
  newest_seq = 0;
  size_bytes = 0;
  closed_at_uptime_sec = 0;
}

-- A segment that nothing was written to: `SegmentRecord next` and `first`.
abbrev pub new_segment : ℕ → ℕ → SegmentRecord
new_segment id seq = record {
  segment_id = id;
  oldest_seq = seq;
  newest_seq = seq;
  size_bytes = 0;
  closed_at_uptime_sec = 0;
}

-- `kSegmentRotateBytes`, `kMaxTrackedSegments`, `kIndexMagic` and `kIndexVersion`.
abbrev pub segment_rotate_bytes : ℕ
segment_rotate_bytes = 65536

abbrev pub max_tracked_segments : ℕ
max_tracked_segments = 64

abbrev pub index_magic : ℕ
index_magic = 1246907980

abbrev pub index_version : ℕ
index_version = 1

-- `IndexFileFormat`.
pub record IndexFile : Type 0 where
  pub magic : ℕ
  pub version : ℕ
  pub next_seq : ℕ
  pub oldest_seq : ℕ
  pub has_ack : ℕ
  pub acked_seq : ℕ
  pub segment_count : ℕ
  pub open_segment_bytes : ℕ
  pub last_budget_warn_day : ℕ
  pub segments : List SegmentRecord

-- The segment files on the partition, by number.
abbrev pub Files : Type 0
Files = ℕ → Option Bytes

abbrev pub put_file : ℕ → Option Bytes → Files → Files
put_file id file files i = if i == id then file else files i

-- `StreamState`. The first `segmentCount` entries of `segments` are `closed` and the open segment
-- behind them; `open_file` says whether `openFile` is set. The last two fields are the partition.
pub record StreamState : Type 0 where
  pub mounted : Bool
  pub cursor : JournalCursor
  pub closed : List SegmentRecord
  pub open_segment : SegmentRecord
  pub open_segment_bytes : ℕ
  pub open_file : Bool
  pub last_budget_warn_day : ℕ
  pub files : Files
  pub index : Option IndexFile

abbrev pub segment_count : StreamState → ℕ
segment_count s = length s.closed + 1

-- How a write ends. Where it does not end well, some of its bytes have reached the file, and the
-- `truncate` that follows works or not.
pub data WriteResult : Type 0 where
  whole : WriteResult
  part : ℕ → Bool → WriteResult

-- What the file system and the clock do in one call: whether `fopen` works, how the write ends,
-- whether the index is saved, and the time.
pub record Conditions : Type 0 where
  pub opens : Bool
  pub write : WriteResult
  pub saves : Bool
  pub uptime_sec : ℕ

-- `uptimeDayIndex`.
abbrev pub uptime_day_index : Conditions → ℕ
uptime_day_index c = u32 (c.uptime_sec / 86400)

abbrev pub bytes_of : Option Bytes → Bytes
bytes_of none = []
bytes_of (some file) = file

-- `truncate` of POSIX: a file that is shorter is filled with zeros.
abbrev pub truncate_to : ℕ → Bytes → Bytes
truncate_to n file = take n file ++ replicate (n - length file) 0

-- `truncate`, whose failure changes nothing.
abbrev pub roll_back : Bool → ℕ → Bytes → Bytes
roll_back true n file = truncate_to n file
roll_back false n file = file

-- `writeFrame`, once the file is open for appending.
unfoldable pub write_opened : WriteResult → Bytes → StreamState → StreamState × Bool
write_opened whole bytes s =
    let id = s.open_segment.segment_id in
    (
      record s {
        open_file = true;
        files = put_file id (some (bytes_of (s.files id) ++ write_length_prefixed bytes)) s.files;
      },
      true,
    )
write_opened (part n cut) bytes s =
    let id = s.open_segment.segment_id in
    let file = bytes_of (s.files id) ++ take n (write_length_prefixed bytes) in
    (
      record s {
        open_file = false;
        files = put_file id (some (roll_back cut s.open_segment_bytes file)) s.files;
      },
      false,
    )

-- `writeFrame`.
unfoldable pub write_frame : Conditions → Bytes → StreamState → StreamState × Bool
write_frame c bytes s = if s.open_file || c.opens then write_opened c.write bytes s else (s, false)

-- What `appendToStream` and `appendRaw` do once the frame is on disk.
unfoldable pub count_frame : Bytes → StreamState → StreamState
count_frame bytes s =
    let size = u32 (s.open_segment_bytes + u32 (length bytes + 2)) in
    record s {
      cursor = (assign_seq s.cursor).1;
      open_segment_bytes = size;
      open_segment = record s.open_segment { newest_seq = s.cursor.next_seq; size_bytes = size };
    }

-- The entries of the index that hold no segment.
abbrev pub no_segments : ℕ → List SegmentRecord
no_segments n = replicate (max_tracked_segments - n) zero_segment

-- What `saveIndex` writes.
unfoldable pub index_of : StreamState → IndexFile
index_of s = record {
  magic = index_magic;
  version = index_version;
  next_seq = s.cursor.next_seq;
  oldest_seq = s.cursor.oldest_seq;
  has_ack = if s.cursor.has_ack then 1 else 0;
  acked_seq = s.cursor.acked_seq;
  segment_count = segment_count s;
  open_segment_bytes = s.open_segment_bytes;
  last_budget_warn_day = s.last_budget_warn_day;
  segments = (s.closed ++ s.open_segment ∷ []) ++ no_segments (segment_count s);
}

-- `saveIndex`. The new index takes the old one's place whole, or not at all.
unfoldable pub save_index : Bool → StreamState → StreamState
save_index saves s = if s.mounted && saves then record s { index = some (index_of s) } else s

-- `rotateIfNeeded` where the open segment is full, up to `saveIndex`.
unfoldable pub next_segment : ℕ → StreamState → StreamState
next_segment uptime s =
    let full = record s.open_segment { closed_at_uptime_sec = u32 uptime } in
    if ltb (segment_count s) max_tracked_segments
    then record s {
      open_file = false;
      closed = s.closed ++ full ∷ [];
      open_segment = new_segment (u32 (s.open_segment.segment_id + 1)) s.cursor.next_seq;
      open_segment_bytes = 0;
    }
    else record s { open_file = false; open_segment = full; open_segment_bytes = 0 }

-- `rotateIfNeeded`, with whether it requests a reclaim.
unfoldable pub rotate_if_needed : Stream → Conditions → StreamState → StreamState × Bool
rotate_if_needed stream c s =
    if ltb s.open_segment_bytes segment_rotate_bytes
    then (s, false)
    else (save_index c.saves (next_segment c.uptime_sec s), not (stream_eq stream events))
