-- ===== src/Log/Journal/Read.antt =====
-- `Journal::readFrom` (log/Journal.cpp): a batch of records for the uplink, read in small chunks.
pub mod Fronts
pub mod Chunked
pub mod Walks
pub mod Walked
pub mod Segments
pub mod Exact
pub mod Records
pub mod Appended
use croniot_iot.Prelude.{
  ℕ, zero, suc, ◌+◌, Bool, true, false, not, ◌||◌, Option, none, some, List, [], ◌∷◌, ◌++◌, ltb,
  leb, ◌==◌, if◌then◌else◌, length, take, drop, is_empty, Bytes,
}
use croniot_iot.Log.Cursor.{Stream}
use croniot_iot.Log.PerStream.{at, put}
use croniot_iot.Log.Frames.{Batch, limit_hit, accumulate_frames}
use croniot_iot.Log.Journal.{SegmentRecord, StreamState, Files}
use croniot_iot.Log.Journal.Streams.{Journal}

-- `Journal::RawBatch`.
pub record RawBatch : Type 0 where
  pub first_seq : ℕ
  pub count : ℕ
  pub frames : Bytes

-- `kReadChunkBytes`.
abbrev pub read_chunk_bytes : ℕ
read_chunk_bytes = 512

-- The local variables of `readFrom` that `accumulateFrames` writes, at the start.
abbrev pub empty_batch : Batch
empty_batch = record { seq = 0; started = false; first_seq = 0; frames = []; count = 0 }

-- The two `continue`s.
abbrev pub is_passed_over : SegmentRecord → ℕ → Bool
is_passed_over g next_wanted = g.size_bytes == 0 || ltb g.newest_seq next_wanted

module _ (max_bytes max_records : ℕ) where
  -- The loop over one segment's file, of which `rest` is not read yet: what it collects, and
  -- `limitReached`. `none` when the fuel runs out.
  unfoldable pub read_file : ℕ → ℕ → Bytes → Bytes → Batch → Option (Batch × Bool)
  read_file next_wanted zero rest pending b = none
  read_file next_wanted (suc fuel) rest pending b =
      let chunk = take read_chunk_bytes rest in
      let buf = pending ++ chunk in
      elim (accumulate_frames next_wanted max_bytes max_records buf (length buf) b) [
        | none ↦ none
        | some (r, b') ↦ elim r.limit_reached [
          | true ↦ some (b', true)
          | false ↦ elim (length chunk == read_chunk_bytes) [
            | true ↦
                read_file next_wanted fuel (drop read_chunk_bytes rest) (drop r.consumed_bytes buf)
                  b'
            | false ↦ some (b', false)
          ]
        ]
      ]

  -- The loop of `readFrom`, on what `fopen` gives for each segment; `closes` says whether it closed the
  -- file that is open for appending.
  unfoldable pub read_segments :
      Files → List SegmentRecord → ℕ → Bool → Batch → Option (Batch × Bool)
  read_segments files [] next_wanted closes b = some (b, closes)
  read_segments files (g ∷ gs) next_wanted closes b = elim (is_passed_over g next_wanted) [
    | true ↦ read_segments files gs next_wanted closes b
    | false ↦ elim (files g.segment_id) [
      | none ↦ some (b, is_empty gs)
      | some file ↦
          elim (read_file next_wanted (suc (length file)) file []
            (record b { seq = g.oldest_seq })) [
              | none ↦ none
              | some (b', limit_reached) ↦
                  elim (limit_reached || limit_hit 0 max_bytes max_records b') [
                    | true ↦ some (b', is_empty gs)
                    | false ↦ read_segments files gs b'.seq (is_empty gs) b'
                  ]
            ]
    ]
  ]

-- What `readFrom` returns of what it collected.
abbrev pub batch_of : Batch → Option RawBatch
batch_of b =
    if b.started
    then some (record { first_seq = b.first_seq; count = b.count; frames = b.frames })
    else none

abbrev read_result : StreamState → Option (Batch × Bool) → Option (Option RawBatch × StreamState)
read_result s none = none
read_result s (some (b, closes)) =
    some (batch_of b, if closes then record s { open_file = false } else s)

-- `fopen` of the segments for reading: `opens` says for which it works, if they are there.
unfoldable pub opened_files : (ℕ → Bool) → Files → Files
opened_files opens files id = if opens id then files id else none

-- `readFrom`, on a stream's state; the outer `none` when the fuel runs out.
unfoldable pub read_from :
    (ℕ → Bool) → ℕ → ℕ → ℕ → StreamState → Option (Option RawBatch × StreamState)
read_from opens from_seq max_bytes max_records s =
    if not s.mounted || max_records == 0
    then some (none, s)
    else read_result s (
        read_segments max_bytes max_records (opened_files opens s.files)
          (s.closed ++ s.open_segment ∷ []) from_seq false empty_batch)
