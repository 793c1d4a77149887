-- ===== src/Log/Frames.antt =====
-- components/croniot/src/log/FrameCodec.h and FrameAccumulator.{h,cpp}: the length-prefixed frames
-- of a journal segment, read whole, streamed in chunks, or accumulated into a batch.
-- A pointer and a length are a list of bytes; `len` is passed beside it as in the source.
pub mod Format
pub mod Codec
pub mod Scanner
pub mod Accumulate
use croniot_iot.Prelude.{
  ℕ, zero, suc, ◌+◌, ◌-◌, ◌*◌, Bool, true, false, ◌||◌, Option, none, some, List, [], ◌∷◌, ◌++◌,
  ltb, leb, ◌==◌, if◌then◌else◌, length, get_or, take, drop, Bytes,
}
use croniot_iot.Prelude.Words.{u32}

-- What `readNextFrame` writes through its references when it returns true.
pub record Frame : Type 0 where
  pub next : ℕ  -- `offset`
  pub start : ℕ  -- `frameStart`
  pub frame_len : ℕ  -- `frameLen`

-- `FrameCodec::readNextFrame`; `none` is `return false`, with the references left alone. A read out
-- of range of the buffer gives 0 here.
unfoldable pub read_next_frame : Bytes → ℕ → ℕ → Option Frame
read_next_frame buf len offset =
    let payload_len = get_or buf offset 0 + 256 * get_or buf (u32 (offset + 1)) 0 in
    if ltb len (u32 (offset + 2))
    then none
    else if ltb len (u32 (offset + 2 + payload_len))
    then none
    else some (record {
      next = u32 (offset + (2 + payload_len));
      start = u32 (offset + 2);
      frame_len = payload_len;
    })

-- The loop of `FrameCodec::countFrames`; `none` when the fuel runs out.
unfoldable pub count_from : ℕ → Bytes → ℕ → ℕ → ℕ → Option ℕ
unfolding read_next_frame
count_from zero buf len offset count = none
count_from (suc fuel) buf len offset count = elim (read_next_frame buf len offset) [
  | none ↦ some count
  | some f ↦ count_from fuel buf len f.next (u32 (count + 1))
]

-- `FrameCodec::countFrames`.
unfoldable pub count_frames : Bytes → ℕ → Option ℕ
unfolding count_from
count_frames buf len = count_from (suc len) buf len 0 0

-- `FrameScanner`. The buffer `prefix_[2]` is its first byte: the second is written only to be used
-- at once.
pub record FrameScanner : Type 0 where
  pub prefix : ℕ
  pub prefix_have : ℕ
  pub payload_remaining : ℕ
  pub complete_frames : ℕ
  pub valid_bytes : ℕ
  pub total_bytes : ℕ

abbrev pub fresh_scanner : FrameScanner
fresh_scanner = record {
  prefix = 0;
  prefix_have = 0;
  payload_remaining = 0;
  complete_frames = 0;
  valid_bytes = 0;
  total_bytes = 0;
}

-- `FrameScanner::completeFrame`.
unfoldable pub complete_frame : FrameScanner → FrameScanner
complete_frame s = record s {
  complete_frames = u32 (s.complete_frames + 1);
  valid_bytes = s.total_bytes;
}

abbrev complete_if : Bool → FrameScanner → FrameScanner
complete_if done s = if done then complete_frame s else s

-- The branch of `feed` that consumes a piece of a payload: `take` bytes.
unfoldable pub feed_payload : FrameScanner → ℕ → FrameScanner
unfolding complete_frame
feed_payload s n =
    let left = s.payload_remaining - n in
    complete_if (left == 0)
      (record s { total_bytes = u32 (s.total_bytes + n); payload_remaining = left })

-- The other branch of `feed`: one byte of a length prefix.
unfoldable pub feed_prefix : FrameScanner → ℕ → FrameScanner
unfolding complete_frame
feed_prefix s b =
    let t = record s { total_bytes = u32 (s.total_bytes + 1) } in
    if s.prefix_have + 1 == 2
    then complete_if (s.prefix + 256 * b == 0)
        (record t { prefix_have = 0; payload_remaining = s.prefix + 256 * b })
    else record t { prefix = b; prefix_have = s.prefix_have + 1 }

-- `take = payloadRemaining_ < len - i ? payloadRemaining_ : len - i`.
abbrev pub feed_take : FrameScanner → Bytes → ℕ
feed_take s xs = if ltb s.payload_remaining (length xs) then s.payload_remaining else length xs

-- The loop of `FrameScanner::feed`; the list is `data[i .. len)`. `none` when the fuel runs out.
unfoldable pub feed_loop : ℕ → FrameScanner → Bytes → Option FrameScanner
unfolding feed_payload feed_prefix
feed_loop fuel s [] = some s
feed_loop zero s (b ∷ xs) = none
feed_loop (suc fuel) s (b ∷ xs) = elim (ltb 0 s.payload_remaining) [
  | true ↦
      feed_loop fuel (feed_payload s (feed_take s (b ∷ xs))) (drop (feed_take s (b ∷ xs)) (b ∷ xs))
  | false ↦ feed_loop fuel (feed_prefix s b) xs
]

-- `FrameScanner::feed`: each round consumes a byte at least.
unfoldable pub feed : FrameScanner → Bytes → Option FrameScanner
unfolding feed_loop
feed s xs = feed_loop (length xs) s xs

-- The in-out arguments of `accumulateFrames`.
pub record Batch : Type 0 where
  pub seq : ℕ
  pub started : Bool
  pub first_seq : ℕ
  pub frames : Bytes
  pub count : ℕ

-- `AccumulateResult`.
pub record AccumulateResult : Type 0 where
  pub consumed_bytes : ℕ
  pub limit_reached : Bool

module _ (next_wanted_seq max_bytes max_records : ℕ) where
  -- `count >= maxRecords || frames.size() >= maxBytes`.
  abbrev pub limit_hit : Batch → Bool
  limit_hit b = leb max_records b.count || leb max_bytes (length b.frames)

  -- The last part of the loop's body: a frame that is kept.
  unfoldable pub keep_frame : Bytes → Batch → Batch
  keep_frame payload b = record {
    seq = u32 (b.seq + 1);
    started = true;
    first_seq = if b.started then b.first_seq else b.seq;
    frames = b.frames ++ payload;
    count = u32 (b.count + 1);
  }

  -- The loop of `accumulateFrames`; `none` when the fuel runs out.
  unfoldable pub accumulate_from : ℕ → Bytes → ℕ → ℕ → ℕ → Batch → Option (AccumulateResult × Batch)
  unfolding read_next_frame keep_frame
  accumulate_from zero buf len offset consumed b = none
  accumulate_from (suc fuel) buf len offset consumed b = elim (read_next_frame buf len offset) [
    | none ↦ some (record { consumed_bytes = consumed; limit_reached = false }, b)
    | some f ↦ elim (ltb b.seq next_wanted_seq) [
      | true ↦ accumulate_from fuel buf len f.next f.next (record b { seq = u32 (b.seq + 1) })
      | false ↦ elim (limit_hit b) [
        | true ↦ some (record { consumed_bytes = consumed; limit_reached = true }, b)
        | false ↦
            accumulate_from fuel buf len f.next f.next
              (keep_frame (take f.frame_len (drop f.start buf)) b)
      ]
    ]
  ]

  -- `accumulateFrames`.
  unfoldable pub accumulate_frames : Bytes → ℕ → Batch → Option (AccumulateResult × Batch)
  unfolding accumulate_from
  accumulate_frames buf len b = accumulate_from (suc len) buf len 0 0 b
