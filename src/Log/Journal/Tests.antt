-- ===== src/Log/Journal/Tests.antt =====
-- Runs of the journal on small partitions, and instances of its theorems.
use mathlib.Core.List.{flatten}
use croniot_iot.Prelude.{
  ◌++◌, Bytes, ℕ, ◌+◌, ◌==◌, ◌≡◌, ◌≢◌, refl, inl, Bool, true, false, none, some, List, [], ◌∷◌,
  arith, ltb, leb, if◌then◌else◌, replicate, codes, bytes_eq,
}
use croniot_iot.Log.Cursor.{Stream, logs, events, data_stream}
use croniot_iot.Log.PerStream.{at, put}
use croniot_iot.Log.Record.{zero_record}
use croniot_iot.Log.WriteAccounting.{fresh_accounting}
use croniot_iot.Log.Frames.Format.{write_length_prefixed}
use croniot_iot.Log.Journal.{
  StreamState, Conditions, whole, part, new_segment, zero_segment, index_of, write_frame,
  rotate_if_needed,
}
use croniot_iot.Prelude.{◌*◌, ◌/◌}
use croniot_iot.Log.Cbor.{encode_log_record, write_type_and_length}
use croniot_iot.Log.Frames.Format.{Fits}
use croniot_iot.Log.Reclaimer.{
  Percents, SegmentInfo, reclaim, sacrifice, consume, sort_by_age, insert_by_age, in_tier, tier_of,
}
use croniot_iot.Log.Reclaimer.Sacrifice.{IsSacrifice, reclaim-IsSacrifice}
use croniot_iot.Log.Journal.Files.{
  segment_name, decimal_digits, parse_segment_id, skip_prefix, parse_id,
}
use croniot_iot.Log.Journal.Files.Names.{IsSegmentName, parse_segment_id_iff}
use croniot_iot.Log.Journal.Budget.{append_to_stream-IsAppended}
use croniot_iot.Log.Journal.Full.{rotate_if_needed-emptied}
use croniot_iot.Log.Journal.Boot.Orphans.{IsListed, remove_orphans_lem}
use croniot_iot.Log.Journal.Read.{read_from}
use croniot_iot.Log.Journal.Read.Records.{IsRead, read_from-batch_from}
use croniot_iot.Log.Journal.Read.Appended.{append_raw-read_from}
use croniot_iot.Log.Journal.Reclaim.{
  ReclaimInput, candidate_of, candidates_of, decide_reclaim, reclaim_mount,
}
use croniot_iot.Log.Journal.Reclaim.Kept.{IsReclaimed}
use croniot_iot.Log.Journal.Reclaim.Mount.{chosen_ids, reclaim_mount-IsReclaimed}
use croniot_iot.Log.Journal.Streams.{Journal, append_raw, append_to_stream, stamped}
use croniot_iot.Log.Journal.Stored.{IsStored}
use croniot_iot.Log.Journal.Append.{Holds, IsAppended, append_raw-IsAppended}
use croniot_iot.Log.Journal.Boot.{
  DirEntry, is_tracked, remove_orphans, fresh_state, ack_of, load_index,
}
use croniot_iot.Log.Journal.Boot.Index.{IsIndexed, IsCrash, load_index-Holds}

-- The stream of the Data as a first boot leaves it, and one that holds a record.
abbrev empty_stream : Stream → StreamState
empty_stream stream = record (fresh_state stream (λ id. none) none) {
  mounted = true;
  open_segment = new_segment 0 0;
}

abbrev one_record : StreamState
one_record = record (empty_stream data_stream) {
  cursor = record (empty_stream data_stream).cursor { next_seq = 1 };
  open_segment = record (new_segment 0 0) { size_bytes = 4 };
  open_segment_bytes = 4;
  files = λ id. if id == 0 then some (2 ∷ 0 ∷ 7 ∷ 8 ∷ []) else none;
  index = some (index_of (empty_stream data_stream));
}

empty_stream-Holds : (stream : Stream) → Holds (empty_stream stream) []
unfolding flatten
empty_stream-Holds stream = record {
  closed = [];
  opened = [];
  mounted = refl;
  stored = record {
    file = refl;
    fits = tt;
    numbered = refl;
    size = refl;
    known_size = refl;
    newest = refl;
    named = omega arith;
    room = omega arith;
    closed = tt;
    ahead = λ id above. refl;
  };
  room = omega arith;
  records = refl;
}

one_record-Holds : Holds one_record ((7 ∷ 8 ∷ []) ∷ [])
unfolding write_length_prefixed flatten
one_record-Holds = record {
  closed = [];
  opened = (7 ∷ 8 ∷ []) ∷ [];
  mounted = refl;
  stored = record {
    file = refl;
    fits = (omega arith, tt);
    numbered = refl;
    size = refl;
    known_size = refl;
    newest = refl;
    named = omega arith;
    room = omega arith;
    closed = tt;
    ahead = λ id above. ground arith;
  };
  room = omega arith;
  records = refl;
}

abbrev journal : Journal
journal = record {
  states = record {
    of_logs = empty_stream logs;
    of_events = empty_stream events;
    of_data = one_record;
  };
  accounting = fresh_accounting;
  reclaim_requested = false;
}

-- A day without failures, and a write that fails behind its fifth byte.
abbrev fine : Conditions
fine = record { opens = true; write = whole; saves = true; uptime_sec = 100 }

abbrev failing : Conditions
failing = record { opens = true; write = part 5 true; saves = true; uptime_sec = 100 }

append_raw-IsAppended_example :
    let r = append_raw data_stream failing (9 ∷ 9 ∷ 9 ∷ 9 ∷ []) journal in
    (r.0 ≡ none)
    × IsAppended false
        (9 ∷ 9 ∷ 9 ∷ 9 ∷ [])
        ((7 ∷ 8 ∷ []) ∷ [])
        one_record
        (at r.1.states data_stream)
    × ((t : Stream) → t ≢ data_stream → at r.1.states t ≡ at journal.states t)
append_raw-IsAppended_example =
    append_raw-IsAppended data_stream failing (9 ∷ 9 ∷ 9 ∷ 9 ∷ []) journal one_record-Holds
      (omega arith) (omega arith) (omega arith) refl

zero_record-Fits : Fits (stamped logs zero_record journal)
unfolding encode_log_record write_type_and_length
zero_record-Fits = omega arith

append_to_stream-IsAppended_example :
    IsAppended true
      (stamped logs zero_record journal)
      []
      (empty_stream logs)
      (at (append_to_stream 100 logs fine failing zero_record journal).states logs)
append_to_stream-IsAppended_example =
    append_to_stream-IsAppended 100 logs fine failing zero_record journal (empty_stream-Holds logs)
      zero_record-Fits (omega arith) (omega arith) tt

-- A stream that holds two records.
abbrev two_records : StreamState
two_records = record one_record {
  cursor = record one_record.cursor { next_seq = 2 };
  open_segment = record (new_segment 0 0) { newest_seq = 1; size_bytes = 7 };
  open_segment_bytes = 7;
  files = λ id. if id == 0 then some (2 ∷ 0 ∷ 7 ∷ 8 ∷ 1 ∷ 0 ∷ 9 ∷ []) else none;
}

two_records-Holds : Holds two_records ((7 ∷ 8 ∷ []) ∷ (9 ∷ []) ∷ [])
unfolding write_length_prefixed flatten
two_records-Holds = record {
  closed = [];
  opened = (7 ∷ 8 ∷ []) ∷ (9 ∷ []) ∷ [];
  mounted = refl;
  stored = record {
    file = refl;
    fits = (omega arith, (omega arith, tt));
    numbered = refl;
    size = refl;
    known_size = refl;
    newest = refl;
    named = omega arith;
    room = omega arith;
    closed = tt;
    ahead = λ id above. ground arith;
  };
  room = omega arith;
  records = refl;
}

-- The partition at a crash that lost the second record but for two bytes, and the index that the boot
-- reads.
abbrev crashed : StreamState
crashed =
    record (fresh_state data_stream
      (λ id. if id == 0 then some (2 ∷ 0 ∷ 7 ∷ 8 ∷ 1 ∷ 0 ∷ []) else none)
      (some (index_of (empty_stream data_stream)))) { mounted = true }

two_records-IsIndexed : IsIndexed two_records
two_records-IsIndexed = record {
  saved = empty_stream data_stream;
  index = refl;
  closed = refl;
  open_id = refl;
  open_oldest = refl;
  tracked = omega arith;
}

two_records-IsCrash : IsCrash two_records two_records-Holds.opened crashed.files
unfolding two_records-Holds write_length_prefixed
two_records-IsCrash = record {
  kept = (7 ∷ 8 ∷ []) ∷ [];
  lost = (9 ∷ []) ∷ [];
  tail = 1 ∷ 0 ∷ [];
  split = refl;
  torn = refl;
  cut = (omega arith, omega arith, omega arith);
  others = λ id other. ground arith;
}

load_index-Holds_example :
    (s' : StreamState) × (found : List Bytes) × (load_index (codes "data") [] true crashed
      ≡ some s')
    × (found ++ (9 ∷ []) ∷ [] ≡ (7 ∷ 8 ∷ []) ∷ (9 ∷ []) ∷ [])
    × Holds s' found
    × (s'.cursor.next_seq + 1 ≡ 2)
    × (ack_of s'.cursor ≡ none)
unfolding two_records-IsCrash two_records-IsIndexed
load_index-Holds_example =
    load_index-Holds (codes "data") [] crashed two_records-Holds two_records-IsIndexed refl refl
      two_records-IsCrash

parse_segment_id_iff_example :
    (parse_segment_id (codes "logs_index.bin") (codes "logs") ≡ some 0
      → IsSegmentName (codes "logs") (codes "logs_index.bin") 0)
    × (IsSegmentName (codes "logs") (codes "logs_index.bin") 0
        → parse_segment_id (codes "logs_index.bin") (codes "logs") ≡ some 0)
parse_segment_id_iff_example = parse_segment_id_iff (codes "logs_index.bin") (codes "logs") 0

segment_name-events : segment_name (codes "events") 41 ≡ codes "events_00041.cbor"
unfolding segment_name decimal_digits
segment_name-events = refl

parse_segment_id_others :
    (parse_segment_id (codes "logs_index.bin") (codes "logs") ≡ none)
    × (parse_segment_id (codes "events_00001.cbor") (codes "logs") ≡ none)
    × (parse_segment_id (codes "logs_4294967296.cbor") (codes "logs") ≡ none)
    × (parse_segment_id (codes "logs_.cbor") (codes "logs") ≡ none)
unfolding parse_segment_id skip_prefix parse_id bytes_eq
parse_segment_id_others = (refl, refl, refl, refl)

-- 64 segments are tracked, and the last is full.
abbrev all_tracked : StreamState
all_tracked = record one_record {
  closed = replicate 63 zero_segment;
  open_segment = new_segment 63 0;
  open_segment_bytes = 65536;
}

rotate_if_needed-emptied_example :
    let t = (write_frame failing (9 ∷ []) (rotate_if_needed data_stream fine all_tracked).0).0 in
    (t.files 63 ≡ some []) × (t.cursor ≡ all_tracked.cursor)
rotate_if_needed-emptied_example =
    rotate_if_needed-emptied data_stream fine failing (9 ∷ []) 5 all_tracked (omega arith)
      (omega arith) refl refl

read_from-batch_from_example :
    (t : StreamState) × (read_from (λ id. true) 0 100 10 one_record
      ≡ some (some (record { first_seq = 0; count = 1; frames = 7 ∷ 8 ∷ [] }), t))
    × IsRead one_record t
unfolding flatten
read_from-batch_from_example =
    read_from-batch_from (λ id. true) 0 100 10 (λ id. refl) one_record-Holds tt

append_raw-read_from_example :
    (seq : ℕ) × ((append_raw data_stream fine (9 ∷ []) journal).0 ≡ some seq)
    × ((t : StreamState) × (read_from
            (λ id. true)
            seq
            1
            1
            (at (append_raw data_stream fine (9 ∷ []) journal).1.states data_stream)
          ≡ some (some (record { first_seq = seq; count = 1; frames = 9 ∷ [] }), t)))
append_raw-read_from_example =
    append_raw-read_from data_stream fine (9 ∷ []) journal one_record-Holds tt (omega arith)
      (omega arith) (omega arith) refl tt (λ id. true) (λ id. refl) 1 1 (omega arith) (omega arith)

-- Natural numbers in the place of `double`.
abbrev whole_percents : Percents
whole_percents = record {
  Value = ℕ;
  of_u64 = λ n. n;
  to_u64 = λ n. n;
  mul = ◌*◌;
  div = λ a b. a / 100;
  f_ge = λ a b. leb b a;
  f_lt = ltb;
}

abbrev scarce : ReclaimInput
scarce = record {
  info_ok = true;
  total = 100;
  used = 99;
  now = 1000;
  removes = λ id. true;
  gap_write = λ id. fine;
  critical_write = fine;
  saves = true;
}

-- The record stands in a closed segment, with an empty one behind it.
abbrev two_segments : StreamState
two_segments = record one_record {
  closed =
      record {
        segment_id = 0;
        oldest_seq = 0;
        newest_seq = 0;
        size_bytes = 4;
        closed_at_uptime_sec = 5;
      }
      ∷ [];
  open_segment = new_segment 1 1;
  open_segment_bytes = 0;
}

two_segments-IsStored : IsStored two_segments (((7 ∷ 8 ∷ []) ∷ []) ∷ []) []
unfolding write_length_prefixed
two_segments-IsStored = record {
  file = refl;
  fits = tt;
  numbered = refl;
  size = refl;
  known_size = refl;
  newest = refl;
  named = omega arith;
  room = omega arith;
  closed = (
    record {
      file = refl;
      fits = (omega arith, tt);
      size = refl;
      small = omega arith;
      not_empty = omega arith;
      numbered = refl;
    },
    omega arith,
    omega arith,
    tt,
  );
  ahead = λ id above. ground arith;
}

abbrev short_of_space : Journal
short_of_space = record journal { states = put data_stream two_segments journal.states }

reclaim_mount-IsReclaimed_example :
    IsReclaimed
      (chosen_ids whole_percents data_stream 172800 scarce two_segments)
      two_segments
      (at
        (reclaim_mount whole_percents data_stream
          (codes "archive")
          172800
          scarce
          short_of_space).states
        data_stream)
      (((7 ∷ 8 ∷ []) ∷ []) ∷ [])
      []
reclaim_mount-IsReclaimed_example =
    reclaim_mount-IsReclaimed whole_percents data_stream (codes "archive") 172800 scarce
      short_of_space (λ e. cc e) two_segments-IsStored

chosen_ids-two_segments : chosen_ids whole_percents data_stream 172800 scarce two_segments ≡ 0 ∷ []
unfolding decide_reclaim candidates_of candidate_of reclaim sacrifice consume sort_by_age
    insert_by_age in_tier tier_of
chosen_ids-two_segments = refl

-- Two segments of Logs, the second of which the server has.
abbrev candidate : ℕ → Bool → SegmentInfo
candidate id acked = record {
  stream = logs;
  segment_id = id;
  oldest_seq = 10 * id;
  newest_seq = 10 * id + 9;
  size_bytes = 10;
  fully_acked = acked;
  age_seconds = 5;
}

reclaim-IsSacrifice_example :
    IsSacrifice 20 true 60 1
      (candidate 3 false ∷ candidate 4 true ∷ [])
      (reclaim whole_percents (candidate 3 false ∷ candidate 4 true ∷ []) 100 1 60 20 5)
reclaim-IsSacrifice_example =
    reclaim-IsSacrifice whole_percents (candidate 3 false ∷ candidate 4 true ∷ []) 100 1 60 20 5
      refl refl

reclaim-order :
    (reclaim whole_percents
      (candidate 3 false ∷ candidate 4 true ∷ [])
      100
      1
      60
      20
      5).segment_ids_to_delete
    ≡ 4 ∷ 3 ∷ []
unfolding reclaim sacrifice consume sort_by_age insert_by_age in_tier tier_of
reclaim-order = refl

-- The directory of the Logs, with a segment that no index tracks.
abbrev stray : List DirEntry
stray = record { name = codes "logs_00007.cbor"; removable = true } ∷ []

stray-IsListed : IsListed (codes "logs") 7 stray
unfolding parse_segment_id skip_prefix parse_id bytes_eq
stray-IsListed = inl (refl, refl)

remove_orphans_lem_example :
    (is_tracked one_record 7 ≡ true
      → remove_orphans (codes "logs") one_record stray one_record.files 7 ≡ none)
    × (is_tracked one_record 7 ≡ false
        → IsListed (codes "logs") 7 stray
        → remove_orphans (codes "logs") one_record stray one_record.files 7 ≡ none)
remove_orphans_lem_example = remove_orphans_lem (codes "logs") one_record stray one_record.files 7
