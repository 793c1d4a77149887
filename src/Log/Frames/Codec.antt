-- ===== src/Log/Frames/Codec.antt =====
-- `FrameCodec` (log/FrameCodec.h) on what `writeLengthPrefixed` writes.
use croniot_iot.Prelude.{
  ℕ, zero, suc, ◌+◌, ◌*◌, ◌/◌, ◌%◌, ◌^◌, ◌≤◌, ◌<◌, ◌≡◌, refl, ap, ◌∙◌, none, some, List, [], ◌∷◌,
  ◌++◌, append_assoc, arith, length, get_or, length-append, get_or-append, Bytes,
}
use croniot_iot.Prelude.Words.{u16, u32}
use croniot_iot.Log.Frames.Format.{
  write_length_prefixed, segment, Fits, AllFit, IsCutShort, length-write_length_prefixed,
}
use croniot_iot.Log.Frames.{Frame, read_next_frame, count_from, count_frames}

-- A buffer that the device's memory can hold: no `size_t` sum of the readers wraps.
abbrev pub InMemory : Bytes → Type 0
InMemory buf = length buf < 2 ^ 31

abbrev pub frame_after : ℕ → ℕ → Frame
frame_after offset n = record { next = offset + (2 + n); start = offset + 2; frame_len = n }

module _ (pre : Bytes) {buf : Bytes} {offset : ℕ} (at : offset ≡ length pre)
    (small : InMemory buf) where
  -- Where a whole frame begins, `readNextFrame` finds its payload and steps past it.
  pub read_next_frame-write :
      (p rest : Bytes)
      → Fits p
      → buf ≡ pre ++ (write_length_prefixed p ++ rest)
      → read_next_frame buf (length buf) offset ≡ some (frame_after offset (length p))
  unfolding read_next_frame write_length_prefixed
  read_next_frame-write p rest fits e =
      let body = write_length_prefixed p ++ rest in
      let size : length buf ≡ length pre + (length p + 2 + length rest) = rw e (
        omega (
          arith,
          length-append pre body,
          length-append (write_length_prefixed p) rest,
          length-write_length_prefixed p,
        )) in
      let lo : get_or buf offset 0 ≡ u16 (length p) % 256 =
        rw e (get_or-append pre body offset 0 0 (omega arith)) in
      let hi : get_or buf (u32 (offset + 1)) 0 ≡ u16 (length p) / 256 =
        rw e (get_or-append pre body (u32 (offset + 1)) 1 0 (omega arith)) in
      rw (lo, hi) (ground arith)

  -- Where fewer bytes than a frame remain, it returns false.
  pub read_next_frame-cut_short :
      (rest : Bytes)
      → IsCutShort rest
      → buf ≡ pre ++ rest
      → read_next_frame buf (length buf) offset ≡ none
  unfolding read_next_frame
  read_next_frame-cut_short [] cut e = ground (arith, length-append pre [], ap length e)
  read_next_frame-cut_short (a ∷ []) cut e = ground (arith, length-append pre (a ∷ []), ap length e)
  read_next_frame-cut_short (a ∷ b ∷ rest) cut e =
      let size : length buf ≡ length pre + (2 + length rest) =
        rw e (omega (arith, length-append pre (a ∷ b ∷ rest))) in
      let lo : get_or buf offset 0 ≡ a =
        rw e (get_or-append pre (a ∷ b ∷ rest) offset 0 0 (omega arith)) in
      let hi : get_or buf (u32 (offset + 1)) 0 ≡ b =
        rw e (get_or-append pre (a ∷ b ∷ rest) (u32 (offset + 1)) 1 0 (omega arith)) in
      rw (lo, hi) (ground arith)

-- One step along a segment, as an equation between the two ways to cut it.
pub step_past :
    (pre p : Bytes) (ps : List Bytes) (tail : Bytes)
    → pre ++ (segment (p ∷ ps) ++ tail) ≡ (pre ++ write_length_prefixed p) ++ (segment ps ++ tail)
step_past pre p ps tail = simp append_assoc

-- Its length, which the next offset has to meet.
pub length-step :
    (pre p : Bytes) {offset : ℕ}
    → offset ≡ length pre
    → offset + (2 + length p) ≡ length (pre ++ write_length_prefixed p)
length-step pre p e =
    omega (arith, length-append pre (write_length_prefixed p), length-write_length_prefixed p)

count_from-segment :
    (ps : List Bytes) (pre tail : Bytes) {buf : Bytes} {offset : ℕ} (fuel count : ℕ)
    → AllFit ps
    → IsCutShort tail
    → offset ≡ length pre
    → InMemory buf
    → buf ≡ pre ++ (segment ps ++ tail)
    → length ps < fuel
    → count + length ps < 2 ^ 32
    → count_from fuel buf (length buf) offset count ≡ some (count + length ps)
unfolding count_from
count_from-segment ps pre tail zero count fit cut at small e enough bound = absurd (omega arith)
count_from-segment [] pre tail (suc fuel) count fit cut at small e enough bound =
    rw (read_next_frame-cut_short pre at small tail cut e, count_from) (ap some (omega arith))
count_from-segment (p ∷ ps) pre tail (suc fuel) count fit cut at small e enough bound =
    rw
      (
        read_next_frame-write pre at small p (segment ps ++ tail) fit.0
            (e ∙ ap (◌++◌ pre) (append_assoc (write_length_prefixed p) (segment ps) tail)),
        count_from,
      )
      (count_from-segment ps (pre ++ write_length_prefixed p) tail fuel (u32 (count + 1)) fit.1 cut
          (length-step pre p at) small (e ∙ step_past pre p ps tail) (omega arith) (omega arith)
        ∙ ap some (omega arith))

pub length-segment : (ps : List Bytes) → 2 * length ps ≤ length (segment ps)
length-segment [] = omega arith
length-segment (p ∷ ps) = omega (
  arith,
  length-segment ps,
  length-append (write_length_prefixed p) (segment ps),
  length-write_length_prefixed p,
)

-- `countFrames` ends on a segment file that any payloads of at most 65,535 bytes were appended to,
-- with or without a frame cut short behind them, and returns the number of those payloads.
pub count_frames-segment :
    (ps : List Bytes) (tail : Bytes)
    → AllFit ps
    → IsCutShort tail
    → InMemory (segment ps ++ tail)
    → count_frames (segment ps ++ tail) (length (segment ps ++ tail)) ≡ some (length ps)
unfolding count_frames
count_frames-segment ps tail fit cut small =
    let room = length-append (segment ps) tail in
    let rounds = length-segment ps in
    count_from-segment ps [] tail (suc (length (segment ps ++ tail))) 0 fit cut refl small refl
      (omega arith) (omega arith)
    ∙ ap some (omega arith)
