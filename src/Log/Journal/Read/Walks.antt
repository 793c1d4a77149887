-- ===== src/Log/Journal/Read/Walks.antt =====
-- The walk of `accumulateFrames` over the payloads of neighbouring segments.
use croniot_iot.Prelude.{
  ℕ, ◌+◌, ◌^◌, ◌≤◌, ◌<◌, ◌≡◌, refl, true, false, List, [], ◌∷◌, arith, length, Bytes,
}
use croniot_iot.Prelude.Words.{u32}
use croniot_iot.Log.Frames.{Batch, limit_hit, keep_frame}
use croniot_iot.Log.Frames.Accumulate.{walk}
use croniot_iot.Log.Journal.Read.Chunked.{outcome}

abbrev pub from_seq : ℕ → Batch → Batch
from_seq seq b = record b { seq = seq }

module _ (next max_bytes max_records : ℕ) where
  -- Payloads that are all in front of what is wanted.
  pub walk-skip :
      (ps : List Bytes) (c : ℕ) (b : Batch)
      → b.seq + length ps ≤ next
      → b.seq + length ps < 2 ^ 32
      → outcome next max_bytes max_records (walk next max_bytes max_records ps c b)
        ≡ (from_seq (b.seq + length ps) b, false)
  unfolding walk
  walk-skip [] c b below room = ground arith
  walk-skip (p ∷ ps) c b below room =
      ground (arith, walk-skip ps (c + (2 + length p)) (from_seq (u32 (b.seq + 1)) b))

  -- The number behind the last of them.
  pub walk-seq :
      (ps : List Bytes) (c : ℕ) (b : Batch)
      → b.seq + length ps < 2 ^ 32
      → (walk next max_bytes max_records ps c b).0.limit_reached ≡ false
      → (walk next max_bytes max_records ps c b).1.seq ≡ b.seq + length ps
  unfolding walk keep_frame
  walk-seq [] c b room more = omega arith
  walk-seq (p ∷ ps) c b room more = ground (
    arith,
    walk-seq ps (c + (2 + length p)) (from_seq (u32 (b.seq + 1)) b),
    walk-seq ps (c + (2 + length p)) (keep_frame next max_bytes max_records p b),
  )

  -- A batch that is full stays as it is.
  pub walk-full :
      (ps : List Bytes) (c : ℕ) (b : Batch)
      → next ≤ b.seq
      → limit_hit next max_bytes max_records b ≡ true
      → (walk next max_bytes max_records ps c b).1 ≡ b
  unfolding walk
  walk-full [] c b above full = refl
  walk-full (p ∷ ps) c b above full = ground arith

  -- What is wanted no longer matters.
  pub walk-next :
      (next' : ℕ) (ps : List Bytes) (c : ℕ) (b : Batch)
      → next ≤ b.seq
      → next' ≤ b.seq
      → b.seq + length ps < 2 ^ 32
      → walk next max_bytes max_records ps c b ≡ walk next' max_bytes max_records ps c b
  unfolding walk keep_frame
  walk-next next' [] c b above above' room = refl
  walk-next next' (p ∷ ps) c b above above' room =
      ground
        (arith, walk-next next' ps (c + (2 + length p)) (keep_frame next max_bytes max_records p b))

  -- A payload that is wanted and has room.
  pub walk-keep :
      (p : Bytes) (ps : List Bytes) (c : ℕ) (b : Batch)
      → next ≤ b.seq
      → limit_hit next max_bytes max_records b ≡ false
      → walk next max_bytes max_records (p ∷ ps) c b
        ≡ walk next max_bytes max_records ps
            (c + (2 + length p))
            (keep_frame next max_bytes max_records p b)
  unfolding walk
  walk-keep p ps c b above room = ground arith

  -- A payload that is not wanted.
  pub walk-pass :
      (p : Bytes) (ps : List Bytes) (c : ℕ) (b : Batch)
      → b.seq < next
      → walk next max_bytes max_records (p ∷ ps) c b
        ≡ walk next max_bytes max_records ps (c + (2 + length p)) (from_seq (u32 (b.seq + 1)) b)
  unfolding walk
  walk-pass p ps c b below = ground arith
