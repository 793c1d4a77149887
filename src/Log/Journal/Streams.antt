-- ===== src/Log/Journal/Streams.antt =====
-- components/croniot/src/log/Journal.{h,cpp}: the journal of all streams, and the calls of other tasks
-- but the reads. The lock makes each call one step.
use croniot_iot.Prelude.{
  ℕ, ◌+◌, Bool, true, false, not, ◌&&◌, ◌||◌, Option, none, some, ◌++◌, ltb, ◌==◌, if◌then◌else◌,
  length, codes, bytes_eq, Bytes,
}
use croniot_iot.Prelude.Words.{u32, u64}
use croniot_iot.Log.Cursor.{Stream, logs, events, data_stream, ack, first_unacked}
use croniot_iot.Log.PerStream.{PerStream, at, put, stream_eq}
use croniot_iot.Log.Record.{LogRecord, zero_record, warn, set_tag, set_message}
use croniot_iot.Log.Cbor.{encode_log_record}
use croniot_iot.Log.WriteAccounting.{WriteAccounting, add_bytes_written, daily_budget_exceeded}
use croniot_iot.Log.Journal.{
  StreamState, Conditions, uptime_day_index, write_frame, count_frame, rotate_if_needed, save_index,
}

-- `Journal`.
pub record Journal : Type 0 where
  pub states : PerStream StreamState
  pub accounting : WriteAccounting
  pub reclaim_requested : Bool

-- `toString(Stream)`.
abbrev pub stream_name : Stream → Bytes
stream_name logs = codes "logs"
stream_name events = codes "events"
stream_name data_stream = codes "data"

-- `appendToStream` and `appendRaw`, from `writeFrame` to `addBytesWritten`; whether the frame was
-- written.
unfoldable pub append_frame : Stream → Conditions → Bytes → Journal → Journal × Bool
append_frame stream c bytes j =
    let (s, written) = write_frame c bytes (at j.states stream) in
    if written
    then (
      record j {
        states = put stream (count_frame bytes s) j.states;
        accounting =
            add_bytes_written stream (u32 (length bytes + 2)) (uptime_day_index c) j.accounting;
      },
      true,
    )
    else (record j { states = put stream s j.states }, false)

-- `rotateIfNeeded`, in its place.
unfoldable pub rotate_stream : Stream → Conditions → Journal → Journal
rotate_stream stream c j =
    let (s, request) = rotate_if_needed stream c (at j.states stream) in
    record j { states = put stream s j.states; reclaim_requested = j.reclaim_requested || request }

-- `appendRaw`, with the number of the frame.
unfoldable pub append_raw : Stream → Conditions → Bytes → Journal → Option ℕ × Journal
append_raw stream c bytes j =
    if (at j.states stream).mounted
    then (let (j', written) = append_frame stream c bytes j in
        if written
        then (some (at j.states stream).cursor.next_seq, rotate_stream stream c j')
        else (none, j'))
    else (none, j)

-- The bytes of a record that is numbered for its stream.
abbrev pub stamped : Stream → LogRecord → Journal → Bytes
stamped stream r j = encode_log_record (record r { seq = (at j.states stream).cursor.next_seq })

-- `appendToStream` on a mounted stream; `budget` is the block about the daily budget.
unfoldable pub append_mounted :
    (Journal → Journal) → Stream → Conditions → LogRecord → Journal → Journal
append_mounted budget stream c r j =
    let (j', written) = append_frame stream c (stamped stream r j) j in
    if written then rotate_stream stream c (budget j') else j'

-- `appendToStream`, with its first test.
unfoldable pub append_with :
    (Journal → Journal) → Stream → Conditions → LogRecord → Journal → Journal
append_with budget stream c r j =
    if (at j.states stream).mounted then append_mounted budget stream c r j else j

-- `appendEvent`: the block about the budget is not for the stream of the events.
unfoldable pub append_event : Conditions → LogRecord → Journal → Journal
append_event c r j = append_with (λ j'. j') events c r j

-- The condition of the block about the budget; `max_bytes` is `kMaxBytesPerDay`.
unfoldable pub should_warn_budget : ℕ → Stream → Conditions → Journal → Bool
should_warn_budget max_bytes stream c j =
    ltb 0 max_bytes
    && not (stream_eq stream events)
    && not ((at j.states stream).last_budget_warn_day == uptime_day_index c)
    && daily_budget_exceeded stream (uptime_day_index c) max_bytes j.accounting

-- `budgetEvent`.
abbrev pub budget_event : Stream → LogRecord
budget_event stream =
    record (set_message (codes "stream=" ++ stream_name stream ++ codes " exceeded=true hard=false")
      (set_tag (codes "write_budget") zero_record)) { level = warn }

-- The block about the budget. The event is a write of its own, under conditions of its own.
unfoldable pub check_budget : ℕ → Stream → Conditions → Conditions → Journal → Journal
check_budget max_bytes stream c c_event j =
    if should_warn_budget max_bytes stream c j
    then append_event c_event (budget_event stream) (record j {
      states =
          put stream (record (at j.states stream) { last_budget_warn_day = uptime_day_index c })
            j.states;
    })
    else j

-- `appendToStream`; `appendLog` is this at the stream of the logs.
unfoldable pub append_to_stream :
    ℕ → Stream → Conditions → Conditions → LogRecord → Journal → Journal
append_to_stream max_bytes stream c c_event r j =
    append_with (check_budget max_bytes stream c c_event) stream c r j

-- `Journal::ack`.
unfoldable pub ack_stream : Bool → Stream → ℕ → Journal → Journal
ack_stream saves stream up_to j =
    let s = at j.states stream in
    record j {
      states = put stream (save_index saves (record s { cursor = ack up_to s.cursor })) j.states;
    }

-- `streamAvailable`, `nextSeq`, `lifetimeBytesWritten` and `firstUnackedSeq`.
abbrev pub stream_available : Stream → Journal → Bool
stream_available stream j = (at j.states stream).mounted

abbrev pub next_seq_of : Stream → Journal → ℕ
next_seq_of stream j = (at j.states stream).cursor.next_seq

abbrev pub lifetime_bytes_written : Stream → Journal → ℕ
lifetime_bytes_written stream j = (at j.accounting stream).lifetime_bytes

abbrev pub first_unacked_of : Stream → Journal → ℕ
first_unacked_of stream j = first_unacked (at j.states stream).cursor

-- `partitionLabel`, as `init` gives it.
abbrev pub partition_label : Stream → Bytes
partition_label logs = codes "journal"
partition_label events = codes "journal"
partition_label data_stream = codes "archive"

abbrev bytes_on : Bytes → Stream → Journal → ℕ
bytes_on label stream j =
    if bytes_eq (partition_label stream) label then lifetime_bytes_written stream j else 0

-- `partitionLifetimeBytes`, a sum on `uint64_t`.
unfoldable pub partition_lifetime_bytes : Bytes → Journal → ℕ
partition_lifetime_bytes label j =
    u64 (u64 (bytes_on label logs j + bytes_on label events j) + bytes_on label data_stream j)
