-- ===== src/Log/Journal/Boot/Recover.antt =====
-- `recoverOpenSegment` (log/Journal.cpp) on whole frames and a frame cut short.
use croniot_iot.Prelude.{
  ℕ, ◌+◌, ◌^◌, ◌≤◌, ◌<◌, ◌≡◌, refl, ap, ◌∙◌, Bool, true, false, some, List, [], ◌∷◌, ◌++◌,
  append-nil, arith, ltb, if◌then◌else◌, length, Bytes,
}
use croniot_iot.Prelude.Words.{u32, sub_u32}
use croniot_iot.Log.Cursor.{restore}
use croniot_iot.Log.Frames.{FrameScanner}
use croniot_iot.Log.Frames.Format.{segment, AllFit, IsCutShort}
use croniot_iot.Log.Frames.Scanner.Recover.{Recovered, feed_all-segment}
use croniot_iot.Log.Journal.{StreamState, Files, put_file, bytes_of, truncate_to}
use croniot_iot.Log.Journal.Stored.{IsStored, AreClosed, AreClosed-put_file, newest_of}
use croniot_iot.Log.Journal.Write.{truncate_to-append, put_file_self, put_file-ahead}
use croniot_iot.Log.Journal.Boot.Chunks.{read_chunks, flatten-read_chunks}
use croniot_iot.Log.Journal.Boot.{ack_of, recover_chunk, rebuild_open, recover_open_segment}

-- The stream's structure on a partition whose open file may end in a frame cut short.
pub record IsTorn (s : StreamState) (pss : List (List Bytes)) (ps : List Bytes) (tail : Bytes)
    : Type 0 where
  pub file : bytes_of (s.files s.open_segment.segment_id) ≡ segment ps ++ tail
  pub fits : AllFit ps
  pub cut : IsCutShort tail
  pub small : length (segment ps) < 2 ^ 31
  pub named : s.open_segment.segment_id ≤ s.open_segment.oldest_seq
  pub room : s.open_segment.oldest_seq + length ps < 2 ^ 32
  pub closed : AreClosed s.files s.closed pss s.open_segment.segment_id s.open_segment.oldest_seq
  pub ahead : (id : ℕ) → s.open_segment.segment_id < id → bytes_of (s.files id) ≡ []

length-cut_short : (tail : Bytes) → IsCutShort tail → length tail < 2 ^ 17
length-cut_short [] cut = omega arith
length-cut_short (a ∷ []) cut = omega arith
length-cut_short (a ∷ b ∷ rest) cut = omega (arith, cut)

-- The file that `truncate` leaves, if there was something to cut off.
cut_file : Bool → ℕ → Files → ℕ → Files
cut_file test valid files id =
    if test then put_file id (some (truncate_to valid (bytes_of (files id)))) files else files

newest_rebuilt :
    (ps : List Bytes) (oldest : ℕ)
    → oldest + length ps < 2 ^ 32
    → (if ltb 0 (length ps) then sub_u32 (oldest + length ps) 1 else oldest)
      ≡ newest_of ps (oldest + length ps)
newest_rebuilt [] oldest room = omega arith
newest_rebuilt (p ∷ ps) oldest room = ground arith

nothing_cut : (n : ℕ) (tail : Bytes) → ltb n (n + length tail) ≡ false → tail ≡ []
nothing_cut n [] e = refl
nothing_cut n (a ∷ tail) e = absurd (ground arith)

-- The files behind the cut.
record IsCut (s : StreamState) (pss : List (List Bytes)) (ps : List Bytes) (fs : Files)
    : Type 0 where
  file : bytes_of (fs s.open_segment.segment_id) ≡ segment ps
  closed : AreClosed fs s.closed pss s.open_segment.segment_id s.open_segment.oldest_seq
  ahead : (id : ℕ) → s.open_segment.segment_id < id → bytes_of (fs id) ≡ []

cut_file-IsCut :
    {s : StreamState} {pss : List (List Bytes)} {ps : List Bytes} {tail : Bytes}
    → IsTorn s pss ps tail
    → (test : Bool) → (test ≡ false → tail ≡ [])
    → IsCut s pss ps (cut_file test (length (segment ps)) s.files s.open_segment.segment_id)
unfolding cut_file
cut_file-IsCut {s} {pss} {ps} {tail} h true whole =
    let id = s.open_segment.segment_id in
    let f = some (truncate_to (length (segment ps)) (bytes_of (s.files id))) in
    record {
      file =
          ap bytes_of (put_file_self s.files id f)
          ∙ rw h.file (truncate_to-append (segment ps) tail);
      closed = AreClosed-put_file s.files s.closed pss id s.open_segment.oldest_seq f h.closed;
      ahead = λ i above. ap bytes_of (put_file-ahead s.files id i f above) ∙ h.ahead i above;
    }
cut_file-IsCut {s} {pss} {ps} {tail} h false whole = record {
  file = h.file ∙ ap (◌++◌ (segment ps)) (whole refl) ∙ append-nil (segment ps);
  closed = h.closed;
  ahead = h.ahead;
}

rebuild_open-mounted :
    (truncates : Bool) (scanner : FrameScanner) (s : StreamState)
    → (rebuild_open truncates scanner s).mounted ≡ s.mounted
unfolding rebuild_open
rebuild_open-mounted truncates scanner s = refl

module _ {s : StreamState} {pss : List (List Bytes)} {ps : List Bytes} {tail : Bytes}
    (h : IsTorn s pss ps tail) where
  rebuild_open-IsStored :
      (scanner : FrameScanner)
      → Recovered scanner ps tail
      → IsStored (rebuild_open true scanner s) pss ps
        × ((rebuild_open true scanner s).cursor
            ≡ restore
                (s.open_segment.oldest_seq + length ps)
                s.cursor.oldest_seq
                (ack_of s.cursor)
                s.cursor)
  unfolding rebuild_open restore cut_file
  rebuild_open-IsStored scanner r =
      let id = s.open_segment.segment_id in
      let valid : scanner.valid_bytes ≡ length (segment ps) = omega (arith, r.valid, h.small) in
      let total : scanner.total_bytes ≡ length (segment ps) + length tail =
        omega (arith, r.total, h.small, length-cut_short tail h.cut) in
      let frames : scanner.complete_frames ≡ length ps = omega (arith, r.complete, h.room) in
      let next : u32 (s.open_segment.oldest_seq + scanner.complete_frames)
          ≡ s.open_segment.oldest_seq + length ps =
        omega (arith, frames, h.room) in
      let test = ltb (length (segment ps)) (length (segment ps) + length tail) in
      let cut = cut_file-IsCut h test (nothing_cut (length (segment ps)) tail) in
      rw (next, frames, valid, total)
        (
          record {
            file = cut.file;
            fits = h.fits;
            numbered = refl;
            size = refl;
            known_size = refl;
            newest = newest_rebuilt ps s.open_segment.oldest_seq h.room;
            named = h.named;
            room = h.room;
            closed = cut.closed;
            ahead = cut.ahead;
          },
          refl,
        )

  pub recover_open_segment-IsStored :
      (s' : StreamState) × (recover_open_segment true s ≡ some s')
      × IsStored s' pss ps
      × (s'.mounted ≡ s.mounted)
      × (s'.cursor
          ≡ restore
              (s.open_segment.oldest_seq + length ps)
              s.cursor.oldest_seq
              (ack_of s.cursor)
              s.cursor)
  unfolding recover_open_segment
  recover_open_segment-IsStored =
      let file = bytes_of (s.files s.open_segment.segment_id) in
      let chunks = read_chunks (length file) recover_chunk file in
      let (scanner, fed, r) = feed_all-segment ps tail chunks h.fits h.cut (
        flatten-read_chunks (length file) recover_chunk file (omega arith) (omega arith)
        ∙ h.file) in
      let built = rebuild_open-IsStored scanner r in
      (rebuild_open true scanner s, rw fed, built.0, rebuild_open-mounted true scanner s, built.1)
