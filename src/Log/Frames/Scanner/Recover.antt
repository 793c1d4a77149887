-- ===== src/Log/Frames/Scanner/Recover.antt =====
-- What the scanner has counted at the end of a segment file.
use mathlib.Core.List.{flatten}
use croniot_iot.Prelude.{
  ℕ, suc, ◌+◌, ◌*◌, ◌/◌, ◌%◌, ◌^◌, ◌<◌, ◌==◌, ◌≡◌, refl, ap, ◌∙◌, some, List, [], ◌∷◌, ◌++◌, arith,
  if◌then◌else◌, length, length-append, Bytes,
}
use croniot_iot.Prelude.Words.{u16, u32}
use croniot_iot.Log.Frames.Format.{
  write_length_prefixed, segment, Fits, AllFit, IsCutShort, length-write_length_prefixed,
}
use croniot_iot.Log.Frames.Scanner.{scan, scan-append, scan-piece, feed_all, feed_all-scan}
use croniot_iot.Log.Frames.{FrameScanner, fresh_scanner, feed_payload, feed_prefix}

-- Between two frames.
record IsIdle (s : FrameScanner) : Type 0 where
  no_prefix : s.prefix_have ≡ 0
  no_payload : s.payload_remaining ≡ 0

record ReadFrame (s t : FrameScanner) (size : ℕ) : Type 0 where
  idle : IsIdle t
  complete : t.complete_frames ≡ u32 (s.complete_frames + 1)
  total : t.total_bytes ≡ u32 (s.total_bytes + size)
  valid : t.valid_bytes ≡ t.total_bytes

-- The two bytes of a length prefix.
after_prefix : FrameScanner → ℕ → FrameScanner
after_prefix s n = feed_prefix (feed_prefix s (u16 n % 256)) (u16 n / 256)

record ReadPrefix (s t : FrameScanner) (n : ℕ) : Type 0 where
  no_prefix : t.prefix_have ≡ 0
  payload : t.payload_remaining ≡ n
  total : t.total_bytes ≡ u32 (s.total_bytes + 2)
  complete : t.complete_frames ≡ u32 (s.complete_frames + (if n == 0 then 1 else 0))
  valid : n ≡ 0 → t.valid_bytes ≡ t.total_bytes

after_prefix_lem :
    (s : FrameScanner) (n : ℕ)
    → n < 2 ^ 16
    → s.complete_frames < 2 ^ 32
    → IsIdle s
    → ReadPrefix s (after_prefix s n) n
unfolding after_prefix feed_prefix
after_prefix_lem s n fits word idle = ground arith

scan-after_prefix :
    (p : Bytes) (s : FrameScanner)
    → IsIdle s
    → scan s (write_length_prefixed p) ≡ scan (after_prefix s (length p)) p
unfolding scan write_length_prefixed after_prefix feed_prefix
scan-after_prefix p s idle = ground arith

feed_payload_whole :
    (s t : FrameScanner) (n : ℕ) → 0 < n → ReadPrefix s t n → ReadFrame s (feed_payload t n) (n + 2)
unfolding feed_payload
feed_payload_whole s t n pos r = ground arith

scan-write :
    (p : Bytes) (s : FrameScanner)
    → Fits p
    → s.complete_frames < 2 ^ 32
    → IsIdle s
    → ReadFrame s (scan s (write_length_prefixed p)) (length p + 2)
scan-write [] s fits word idle =
    let r = after_prefix_lem s 0 fits word idle in
    rw (scan-after_prefix [] s idle) (unfold scan in ground (arith, r))
scan-write (x ∷ xs) s fits word idle =
    let r = after_prefix_lem s (length (x ∷ xs)) fits word idle in
    rw
      (
        scan-after_prefix (x ∷ xs) s idle,
        scan-piece (x ∷ xs) (after_prefix s (length (x ∷ xs))) (omega arith) (omega arith),
      )
      (feed_payload_whole s (after_prefix s (length (x ∷ xs))) (length (x ∷ xs)) (omega arith) r)

record ReadSegment (s t : FrameScanner) (frames size : ℕ) : Type 0 where
  idle : IsIdle t
  complete : t.complete_frames ≡ u32 (s.complete_frames + frames)
  total : t.total_bytes ≡ u32 (s.total_bytes + size)
  valid : t.valid_bytes ≡ t.total_bytes

ReadSegment-cons :
    (s t r : FrameScanner) (n frames size : ℕ)
    → ReadFrame s t (n + 2)
    → ReadSegment t r frames size
    → ReadSegment s r (suc frames) (n + 2 + size)
ReadSegment-cons s t r n frames size f h = record {
  idle = h.idle;
  complete = omega (arith, f.complete, h.complete);
  total = omega (arith, f.total, h.total);
  valid = h.valid;
}

-- What holds of a scanner between two frames, whatever it has read.
record IsBetween (s : FrameScanner) : Type 0 where
  idle : IsIdle s
  word : s.complete_frames < 2 ^ 32
  small : s.total_bytes < 2 ^ 32
  valid : s.valid_bytes ≡ s.total_bytes

scan-segment :
    (ps : List Bytes) (s : FrameScanner)
    → AllFit ps
    → IsBetween s
    → ReadSegment s (scan s (segment ps)) (length ps) (length (segment ps))
scan-segment [] s fit h =
    unfold scan in
    record {
      idle = h.idle;
      complete = omega (arith, h.word);
      total = omega (arith, h.small);
      valid = h.valid;
    }
scan-segment (p ∷ ps) s fit h =
    let t = scan s (write_length_prefixed p) in
    let f = scan-write p s fit.0 h.word h.idle in
    let between : IsBetween t = record {
      idle = f.idle;
      word = omega (arith, f.complete);
      small = omega (arith, f.total);
      valid = f.valid;
    } in
    let size : length (segment (p ∷ ps)) ≡ length p + 2 + length (segment ps) = omega (
      arith,
      length-append (write_length_prefixed p) (segment ps),
      length-write_length_prefixed p,
    ) in
    rw (size, scan-append (write_length_prefixed p) (segment ps) s)
      (ReadSegment-cons s t (scan t (segment ps)) (length p) (length ps) (length (segment ps)) f
        (scan-segment ps t fit.1 between))

record ReadTail (s t : FrameScanner) (size : ℕ) : Type 0 where
  complete : t.complete_frames ≡ s.complete_frames
  valid : t.valid_bytes ≡ s.valid_bytes
  total : t.total_bytes ≡ u32 (s.total_bytes + size)

feed_prefix_twice :
    (s : FrameScanner) (a b : ℕ)
    → IsIdle s
    → 0 < a + 256 * b
    → let t = feed_prefix (feed_prefix s a) b in
      (t.payload_remaining ≡ a + 256 * b) × ReadTail s t 2
unfolding feed_prefix
feed_prefix_twice s a b idle pos = ground arith

feed_payload_part :
    (s t : FrameScanner) (n : ℕ)
    → n < t.payload_remaining
    → ReadTail s t 2
    → ReadTail s (feed_payload t n) (suc (suc n))
unfolding feed_payload
feed_payload_part s t n short r = ground arith

scan-two :
    (s : FrameScanner) (a b : ℕ) (rest : Bytes)
    → IsIdle s
    → scan s (a ∷ b ∷ rest) ≡ scan (feed_prefix (feed_prefix s a) b) rest
unfolding scan feed_prefix
scan-two s a b rest idle = ground arith

scan-cut_short :
    (tail : Bytes) (s : FrameScanner)
    → IsCutShort tail
    → IsBetween s
    → ReadTail s (scan s tail) (length tail)
scan-cut_short [] s cut h = unfold scan in ground (arith, h.small)
scan-cut_short (a ∷ []) s cut h = unfold scan feed_prefix in ground (arith, h.idle)
scan-cut_short (a ∷ b ∷ []) s cut h =
    rw (scan-two s a b [] h.idle)
      (unfold scan in (feed_prefix_twice s a b h.idle (omega (arith, cut.2))).1)
scan-cut_short (a ∷ b ∷ x ∷ rest) s cut h =
    let t = feed_prefix (feed_prefix s a) b in
    let read = feed_prefix_twice s a b h.idle (omega (arith, cut.2)) in
    rw
      (
        scan-two s a b (x ∷ rest) h.idle,
        scan-piece (x ∷ rest) t (omega arith) (omega (arith, read.0, cut.2)),
      )
      (feed_payload_part s t (length (x ∷ rest)) (omega (arith, read.0, cut.2)) read.1)

-- What `Journal::recoverOpenSegment` learns of a file.
pub record Recovered (s : FrameScanner) (ps : List Bytes) (tail : Bytes) : Type 0 where
  pub complete : s.complete_frames ≡ u32 (length ps)
  pub valid : s.valid_bytes ≡ u32 (length (segment ps))
  pub total : s.total_bytes ≡ u32 (length (segment ps) + length tail)

-- A file that holds whole frames, with or without a frame cut short behind them, is read to its end
-- in chunks of any sizes; the scanner then has the number of whole frames, the length up to the
-- last of them, and the length of the file, each modulo 2^32.
pub feed_all-segment :
    (ps : List Bytes) (tail : Bytes) (chunks : List Bytes)
    → AllFit ps
    → IsCutShort tail
    → flatten chunks ≡ segment ps ++ tail
    → (s : FrameScanner) × (feed_all fresh_scanner chunks ≡ some s) × Recovered s ps tail
feed_all-segment ps tail chunks fit cut e =
    let start : IsBetween fresh_scanner = record {
      idle = record { no_prefix = refl; no_payload = refl };
      word = omega arith;
      small = omega arith;
      valid = refl;
    } in
    let whole = scan fresh_scanner (segment ps) in
    let r = scan-segment ps fresh_scanner fit start in
    let between : IsBetween whole = record {
      idle = r.idle;
      word = omega (arith, r.complete);
      small = omega (arith, r.total);
      valid = r.valid;
    } in
    let t = scan-cut_short tail whole cut between in
    (
      scan whole tail,
      feed_all-scan chunks fresh_scanner
          ∙ ap some (ap (scan fresh_scanner) e ∙ scan-append (segment ps) tail fresh_scanner),
      record {
        complete = omega (arith, t.complete, r.complete);
        valid = omega (arith, t.valid, r.valid, r.total);
        total = omega (arith, t.total, r.total);
      },
    )
