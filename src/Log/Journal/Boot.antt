-- ===== src/Log/Journal/Boot.antt =====
-- `Journal::init`, `initMount`, `loadIndex`, `removeOrphanSegments` and `recoverOpenSegment`
-- (log/Journal.cpp): what a boot makes of the partition.
pub mod Chunks
pub mod Recover
pub mod Orphans
pub mod Saved
pub mod Index
use croniot_iot.Prelude.{
  ℕ, zero, suc, ◌+◌, ◌-◌, Bool, true, false, not, ◌&&◌, ◌||◌, Option, none, some, List, [], ◌∷◌,
  ltb, ◌==◌, if◌then◌else◌, length, take, replicate, codes, Bytes,
}
use croniot_iot.Prelude.Words.{u32, sub_u32}
use croniot_iot.Log.Cursor.{Stream, logs, events, data_stream, JournalCursor, fresh_cursor, restore}
use croniot_iot.Log.PerStream.{PerStream}
use croniot_iot.Log.WriteAccounting.{fresh_accounting}
use croniot_iot.Log.Frames.{FrameScanner, fresh_scanner}
use croniot_iot.Log.Frames.Scanner.{feed_all}
use croniot_iot.Log.Journal.{
  SegmentRecord, IndexFile, StreamState, Files, put_file, bytes_of, roll_back, new_segment,
  zero_segment, index_magic, index_version, max_tracked_segments,
}
use croniot_iot.Log.Journal.Files.{parse_segment_id}
use croniot_iot.Log.Journal.Streams.{Journal}
use croniot_iot.Log.Journal.Boot.Chunks.{read_chunks}

-- The size of `chunk` in `recoverOpenSegment`.
abbrev pub recover_chunk : ℕ
recover_chunk = 256

-- The argument that `restore` gets for the acknowledgement.
abbrev pub ack_of : JournalCursor → Option ℕ
ack_of c = if c.has_ack then some c.acked_seq else none

-- What `recoverOpenSegment` does with the scanner's counts; `truncates` says whether `truncate` works.
unfoldable pub rebuild_open : Bool → FrameScanner → StreamState → StreamState
rebuild_open truncates scanner s =
    let id = s.open_segment.segment_id in
    let next = u32 (s.open_segment.oldest_seq + scanner.complete_frames) in
    record s {
      files =
          if ltb scanner.valid_bytes scanner.total_bytes
          then put_file id (some (roll_back truncates scanner.valid_bytes (bytes_of (s.files id))))
              s.files
          else s.files;
      open_segment = record s.open_segment {
        newest_seq =
            if ltb 0 scanner.complete_frames then sub_u32 next 1 else s.open_segment.oldest_seq;
        size_bytes = scanner.valid_bytes;
      };
      open_segment_bytes = scanner.valid_bytes;
      cursor = restore next s.cursor.oldest_seq (ack_of s.cursor) s.cursor;
    }

abbrev rebuild_by : Bool → StreamState → Option FrameScanner → Option StreamState
rebuild_by truncates s none = none
rebuild_by truncates s (some scanner) = some (rebuild_open truncates scanner s)

-- `recoverOpenSegment`; `none` when the scanner's fuel runs out.
unfoldable pub recover_open_segment : Bool → StreamState → Option StreamState
recover_open_segment truncates s =
    let file = bytes_of (s.files s.open_segment.segment_id) in
    rebuild_by truncates s (feed_all fresh_scanner (read_chunks (length file) recover_chunk file))

-- The `any_of` over the tracked segments.
unfoldable pub is_among : ℕ → List SegmentRecord → Bool
is_among id [] = false
is_among id (g ∷ gs) = g.segment_id == id || is_among id gs

abbrev pub is_tracked : StreamState → ℕ → Bool
is_tracked s id = is_among id s.closed || s.open_segment.segment_id == id

-- One name that `readdir` returns, and whether `remove` would work on the segment of that number.
pub record DirEntry : Type 0 where
  pub name : Bytes
  pub removable : Bool

abbrev pub remove_untracked : StreamState → Bool → Option ℕ → Files → Files
remove_untracked s removable none files = files
remove_untracked s removable (some id) files =
    if not (is_tracked s id) && removable then put_file id none files else files

-- The loop of `removeOrphanSegments`, on the files.
unfoldable pub remove_orphans : Bytes → StreamState → List DirEntry → Files → Files
remove_orphans prefix s [] files = files
remove_orphans prefix s (e ∷ es) files =
    remove_orphans prefix s es
      (remove_untracked s e.removable (parse_segment_id e.name prefix) files)

-- `removeOrphanSegments`.
unfoldable pub remove_orphan_segments : Bytes → List DirEntry → StreamState → StreamState
remove_orphan_segments prefix entries s = record s {
  files = remove_orphans prefix s entries s.files;
}

-- The entries in use: all but the last, and the last; `g` is the first of them.
abbrev pub all_but_last : SegmentRecord → List SegmentRecord → List SegmentRecord
all_but_last g [] = []
all_but_last g (h ∷ gs) = g ∷ all_but_last h gs

abbrev pub last_of : SegmentRecord → List SegmentRecord → SegmentRecord
last_of g [] = g
last_of g (h ∷ gs) = last_of h gs

-- The segments that `loadIndex` tracks: those it read, or a first one.
abbrev pub track : List SegmentRecord → StreamState → StreamState
track [] s = record s { closed = []; open_segment = new_segment 0 s.cursor.next_seq }
track (g ∷ gs) s = record s { closed = all_but_last g gs; open_segment = last_of g gs }

-- `segmentCount`, cut to the array's size.
abbrev pub tracked_count : IndexFile → ℕ
tracked_count i =
    if ltb max_tracked_segments i.segment_count then max_tracked_segments else i.segment_count

abbrev is_index : IndexFile → Bool
is_index i = i.magic == index_magic && i.version == index_version

-- What `loadIndex` takes from a valid index.
unfoldable pub take_index : IndexFile → StreamState → StreamState
take_index i s = track (take (tracked_count i) i.segments) (record s {
  cursor =
      restore i.next_seq i.oldest_seq (if i.has_ack == 0 then none else some i.acked_seq) s.cursor;
  open_segment_bytes = i.open_segment_bytes;
  last_budget_warn_day = i.last_budget_warn_day;
})

-- The part of `loadIndex` in front of `removeOrphanSegments`, on a stream that tracks nothing yet.
unfoldable pub read_index : Option IndexFile → StreamState → StreamState
read_index none s = track [] s
read_index (some i) s = if is_index i then take_index i s else track [] s

-- `loadIndex`.
unfoldable pub load_index : Bytes → List DirEntry → Bool → StreamState → Option StreamState
load_index prefix entries truncates s =
    recover_open_segment truncates (remove_orphan_segments prefix entries (read_index s.index s))

-- A stream's state in front of `init`, with its partition.
abbrev pub fresh_state : Stream → Files → Option IndexFile → StreamState
fresh_state stream files index = record {
  mounted = false;
  cursor = fresh_cursor stream;
  closed = [];
  open_segment = zero_segment;
  open_segment_bytes = 0;
  open_file = false;
  last_budget_warn_day = 4294967295;
  files = files;
  index = index;
}

-- `filePrefix`, as `init` gives it.
abbrev pub file_prefix : Stream → Bytes
file_prefix logs = codes "logs"
file_prefix events = codes "events"
file_prefix data_stream = codes "data"

-- `initMount`; `mounts` says that the partition is mounted, now or for the logs before.
unfoldable pub init_mount : Stream → Bool → List DirEntry → Bool → StreamState → Option StreamState
init_mount stream mounts entries truncates s =
    if mounts
    then load_index (file_prefix stream) entries truncates (record s { mounted = true })
    else some (record s { mounted = false })

-- What stands on a partition for a stream, and what the file system does in the stream's `initMount`.
pub record BootInput : Type 0 where
  pub files : Files
  pub index : Option IndexFile
  pub registers : Bool
  pub entries : List DirEntry
  pub truncates : Bool

abbrev mount_stream : Stream → Bool → BootInput → Option StreamState
mount_stream stream mounts i =
    init_mount stream mounts i.entries i.truncates (fresh_state stream i.files i.index)

abbrev journal_of : StreamState → StreamState → StreamState → Journal
journal_of l e d = record {
  states = record { of_logs = l; of_events = e; of_data = d };
  accounting = fresh_accounting;
  reclaim_requested = false;
}

-- The first call of `init`. The logs' partition is the events' too: it is mounted once.
unfoldable pub init_journal : PerStream BootInput → Option Journal
init_journal p = elim (mount_stream logs p.of_logs.registers p.of_logs) [
  | none ↦ none
  | some l ↦ elim (mount_stream events (l.mounted || p.of_events.registers) p.of_events) [
    | none ↦ none
    | some e ↦ elim (mount_stream data_stream p.of_data.registers p.of_data) [
      | none ↦ none
      | some d ↦ some (journal_of l e d)
    ]
  ]
]
