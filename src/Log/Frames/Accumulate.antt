-- ===== src/Log/Frames/Accumulate.antt =====
-- `accumulateFrames` (log/FrameAccumulator.cpp) against a walk over the payloads themselves.
use croniot_iot.Prelude.{
  ℕ, zero, suc, ◌+◌, ◌<◌, ◌≡◌, refl, ap, ◌∙◌, true, false, some, List, [], ◌∷◌, ◌++◌, append_assoc,
  arith, ltb, Bool-cases, inl, inr, length, take, drop, length-append, drop-append,
  take-append_self, Bytes,
}
use croniot_iot.Prelude.Words.{u32}
use croniot_iot.Log.Frames.Format.{write_length_prefixed, segment, AllFit, IsCutShort}
use croniot_iot.Log.Frames.Codec.{
  InMemory, read_next_frame-write, read_next_frame-cut_short, step_past, length-step,
  length-segment,
}
use croniot_iot.Log.Frames.{
  Batch, AccumulateResult, limit_hit, keep_frame, accumulate_from, accumulate_frames,
}

-- The payload that a frame's offsets cut out of the buffer.
take-drop-frame :
    (pre p rest : Bytes) {buf : Bytes} {offset : ℕ}
    → offset ≡ length pre
    → buf ≡ pre ++ (write_length_prefixed p ++ rest)
    → take (length p) (drop (offset + 2) buf) ≡ p
unfolding write_length_prefixed
take-drop-frame pre p rest {offset} at e = rw e (
    rw (drop-append pre (write_length_prefixed p ++ rest) (offset + 2) 2 (omega arith))
      (take-append_self p rest))

module _ (next_wanted_seq max_bytes max_records : ℕ) where
  -- The same decisions over the payloads, with no buffer and no offset: how many bytes of the
  -- segment are used up, whether a limit was met, and the batch.
  unfoldable pub walk : List Bytes → ℕ → Batch → AccumulateResult × Batch
  walk [] consumed b = (record { consumed_bytes = consumed; limit_reached = false }, b)
  walk (p ∷ ps) consumed b = elim (ltb b.seq next_wanted_seq) [
    | true ↦ walk ps (consumed + (2 + length p)) (record b { seq = u32 (b.seq + 1) })
    | false ↦ elim (limit_hit next_wanted_seq max_bytes max_records b) [
      | true ↦ (record { consumed_bytes = consumed; limit_reached = true }, b)
      | false ↦
          walk ps (consumed + (2 + length p)) (keep_frame next_wanted_seq max_bytes max_records p b)
    ]
  ]

  accumulate_from-walk :
      (ps : List Bytes) (pre tail : Bytes) {buf : Bytes} {offset : ℕ} (fuel consumed : ℕ)
      (b : Batch)
      → AllFit ps
      → IsCutShort tail
      → offset ≡ length pre
      → InMemory buf
      → buf ≡ pre ++ (segment ps ++ tail)
      → length ps < fuel
      → consumed ≡ offset
      → accumulate_from next_wanted_seq max_bytes max_records fuel buf
          (length buf)
          offset
          consumed
          b
        ≡ some (walk ps consumed b)
  unfolding accumulate_from walk
  accumulate_from-walk ps pre tail zero c b fit cut at small e enough same = absurd (omega arith)
  accumulate_from-walk [] pre tail (suc fuel) c b fit cut at small e enough same =
      rw (read_next_frame-cut_short pre at small tail cut e, accumulate_from)
  accumulate_from-walk (p ∷ ps) pre tail {offset} (suc fuel) c b fit cut at small e enough same =
      let e' = e ∙ ap (◌++◌ pre) (append_assoc (write_length_prefixed p) (segment ps) tail) in
      let next = λ (b' : Batch).
        accumulate_from-walk ps (pre ++ write_length_prefixed p) tail fuel (offset + (2 + length p))
          b' fit.1 cut (length-step pre p at) small (e ∙ step_past pre p ps tail) (omega arith)
          refl in
      rw (read_next_frame-write pre at small p (segment ps ++ tail) fit.0 e', accumulate_from)
        (elim (Bool-cases (ltb b.seq next_wanted_seq)) [
          | inl below ↦ rw (below, walk, same) (next (record b { seq = u32 (b.seq + 1) }))
          | inr wanted ↦
              rw (wanted, walk)
                (elim (Bool-cases (limit_hit next_wanted_seq max_bytes max_records b)) [
                  | inl full ↦ rw (full, walk)
                  | inr room ↦
                      rw (room, walk, same, take-drop-frame pre p (segment ps ++ tail) at e')
                        (next (keep_frame next_wanted_seq max_bytes max_records p b))
                ])
        ])

  -- `accumulateFrames` ends on a segment, whole or cut short, that fits the memory, and does what the
  -- walk over the payloads does.
  pub accumulate_frames-walk :
      (ps : List Bytes) (tail : Bytes) (b : Batch)
      → AllFit ps
      → IsCutShort tail
      → InMemory (segment ps ++ tail)
      → accumulate_frames next_wanted_seq max_bytes max_records
          (segment ps ++ tail)
          (length (segment ps ++ tail))
          b
        ≡ some (walk ps 0 b)
  unfolding accumulate_frames
  accumulate_frames-walk ps tail b fit cut small =
      let room = length-append (segment ps) tail in
      let rounds = length-segment ps in
      accumulate_from-walk ps [] tail (suc (length (segment ps ++ tail))) 0 b fit cut refl small
        refl (omega arith) refl
