-- ===== src/Log/Journal/Read/Appended.antt =====
-- `readFrom` behind `appendRaw` (log/Journal.cpp).
use mathlib.Core.Path.{subst}
use mathlib.Core.List.{flatten}
use croniot_iot.Prelude.{
  ℕ, ◌+◌, ◌-◌, ◌^◌, ◌<◌, max, ◌≡◌, ap, ◌∙◌, inl, inr, Bool, true, false, ◌&&◌, ◌||◌, some, List, [],
  ◌∷◌, ◌++◌, append-nil, arith, ltb, leb, Bool-cases, length, length-append, drop, drop-append_self,
  Bytes,
}
use croniot_iot.Log.Cursor.{Stream, JournalCursor, assign_seq}
use croniot_iot.Log.PerStream.{at, put, at-put_self}
use croniot_iot.Log.Frames.Format.{Fits}
use croniot_iot.Log.Journal.{
  SegmentRecord, StreamState, Conditions, segment_count, segment_rotate_bytes, max_tracked_segments,
  write_frame, count_frame, next_segment, save_index, rotate_if_needed,
}
use croniot_iot.Log.Journal.Streams.{Journal, append_frame, rotate_stream, append_raw}
use croniot_iot.Log.Journal.Write.{RollsBack, write_frame-IsUnchanged}
use croniot_iot.Log.Journal.Append.{
  Holds, is_written, write_frame-is_written, number_if, IsAppended, append_raw-IsAppended,
}
use croniot_iot.Log.Journal.Read.{read_from}
use croniot_iot.Log.Journal.Read.Segments.{AreContiguous, length-contiguous}
use croniot_iot.Log.Journal.Read.Exact.{batch_from}
use croniot_iot.Log.Journal.Read.Records.{base_seq, read_from-batch_from}

abbrev pub IsGapless : StreamState → Type 0
IsGapless s = AreContiguous s.closed s.open_segment.oldest_seq

AreContiguous-append :
    (gs : List SegmentRecord) (g : SegmentRecord) (seq : ℕ)
    → AreContiguous gs g.oldest_seq
    → g.newest_seq + 1 ≡ seq
    → AreContiguous (gs ++ g ∷ []) seq
AreContiguous-append [] g seq h e = (e, tt)
AreContiguous-append (k ∷ []) g seq h e = (h.0, (e, tt))
AreContiguous-append (k ∷ l ∷ gs) g seq h e = (h.0, AreContiguous-append (l ∷ gs) g seq h.1 e)

save_index-IsGapless :
    (saves : Bool) (s : StreamState) → IsGapless s → IsGapless (save_index saves s)
unfolding save_index
save_index-IsGapless saves s h = elim (Bool-cases (s.mounted && saves)) [
  | inl saved ↦ rw saved h
  | inr not_saved ↦ rw not_saved h
]

next_segment-IsGapless :
    (uptime : ℕ) (s : StreamState)
    → IsGapless s
    → s.open_segment.newest_seq + 1 ≡ s.cursor.next_seq
    → IsGapless (next_segment uptime s)
unfolding next_segment
next_segment-IsGapless uptime s h last =
    elim (Bool-cases (ltb (segment_count s) max_tracked_segments)) [
      | inl more ↦ rw more (AreContiguous-append s.closed _ s.cursor.next_seq h last)
      | inr none_left ↦ rw none_left h
    ]

rotate_if_needed-IsGapless :
    (stream : Stream) (c : Conditions) (s : StreamState)
    → IsGapless s
    → s.open_segment.newest_seq + 1 ≡ s.cursor.next_seq
    → IsGapless (rotate_if_needed stream c s).0
unfolding rotate_if_needed
rotate_if_needed-IsGapless stream c s h last =
    elim (Bool-cases (ltb s.open_segment_bytes segment_rotate_bytes)) [
      | inl room ↦ rw room h
      | inr full ↦ rw full (
          save_index-IsGapless c.saves (next_segment c.uptime_sec s)
            (next_segment-IsGapless c.uptime_sec s h last))
    ]

AreContiguous-eq :
    {gs gs' : List SegmentRecord} {seq seq' : ℕ}
    → gs' ≡ gs
    → seq' ≡ seq
    → AreContiguous gs seq
    → AreContiguous gs' seq'
AreContiguous-eq eg es h = rw (eg, es) h

batch_from_one :
    (max_bytes max_records seq : ℕ) (p : Bytes)
    → 0 < max_bytes
    → 0 < max_records
    → batch_from max_bytes max_records seq (p ∷ [])
      ≡ some (record { first_seq = seq; count = 1; frames = p })
unfolding flatten
batch_from_one max_bytes max_records seq p bytes records =
    let room : (leb max_records 0 || leb max_bytes 0) ≡ false = ground arith in
    rw (room, append-nil p)

module _ (stream : Stream) (c : Conditions) (p : Bytes) (j : Journal) {rs : List Bytes}
    (h : Holds (at j.states stream) rs) (gapless : IsGapless (at j.states stream)) (fits : Fits p)
    (last : (at j.states stream).cursor.next_seq + 1 < 2 ^ 32)
    (tracked : segment_count (at j.states stream) < max_tracked_segments)
    (written : is_written c (at j.states stream) ≡ true) where
  append_raw-IsGapless : IsGapless (at (append_raw stream c p j).1.states stream)
  unfolding append_raw append_frame rotate_stream
  append_raw-IsGapless =
      let s = at j.states stream in
      let t = count_frame p (write_frame c p s).0 in
      let same = write_frame-IsUnchanged c p s in
      let wrote : (write_frame c p s).1 ≡ true = write_frame-is_written c p s ∙ written in
      let here : IsGapless t =
        unfold count_frame in
        AreContiguous-eq same.closed (ap (λ (g : SegmentRecord). g.oldest_seq) same.open_segment)
          gapless in
      let number : t.open_segment.newest_seq + 1 ≡ t.cursor.next_seq =
        unfold count_frame assign_seq in
        omega (arith, ap (λ (k : JournalCursor). k.next_seq) same.cursor, last) in
      rw (h.mounted, wrote)
        (rw (at-put_self stream t j.states) (
          rw (at-put_self stream (rotate_if_needed stream c t).0 (put stream t j.states))
            (rotate_if_needed-IsGapless stream c t here number)))

  -- On a mounted stream without a hole, with room for a number and a segment, a payload whose
  -- length fits the prefix and that `appendRaw` gets to the disk whole is what `readFrom` returns
  -- from the number that `appendRaw` gave it, with that number, under any limits above zero, where
  -- the segment files can be opened.
  pub append_raw-read_from :
      RollsBack c.write
      → (opens : ℕ → Bool) → ((id : ℕ) → opens id ≡ true)
      → (max_bytes max_records : ℕ) → 0 < max_bytes
      → 0 < max_records
      → (seq : ℕ) × ((append_raw stream c p j).0 ≡ some seq)
        × ((t : StreamState) × (read_from opens seq max_bytes max_records
                (at (append_raw stream c p j).1.states stream)
              ≡ some (some (record { first_seq = seq; count = 1; frames = p }), t)))
  append_raw-read_from rolls opens all_open max_bytes max_records pos_bytes pos_records =
      let s = at j.states stream in
      let s' = at (append_raw stream c p j).1.states stream in
      let seq = s.cursor.next_seq in
      let appended = append_raw-IsAppended stream c p j h fits last tracked rolls in
      let after : IsAppended true p rs s s' =
        subst (λ b. IsAppended b p rs s s') written appended.1 in
      let t =
        read_from-batch_from opens seq max_bytes max_records all_open after.0
          append_raw-IsGapless in
      let next : s'.cursor.next_seq ≡ seq + 1 =
        ap (λ (k : JournalCursor). k.next_seq) after.1 ∙ (unfold assign_seq in omega arith) in
      let k = after.0 in
      let behind : base_seq s' + length rs ≡ seq = omega (
        arith,
        length-contiguous s'.files s'.closed k.closed s'.open_segment.segment_id
            s'.open_segment.oldest_seq k.stored.closed append_raw-IsGapless,
        k.stored.numbered,
        next,
        ap length k.records,
        length-append (flatten k.closed) k.opened,
        length-append rs (p ∷ []),
      ) in
      let before : seq - base_seq s' ≡ length rs = omega arith in
      let first : max (base_seq s') seq ≡ seq = omega arith in
      let one : batch_from max_bytes max_records seq (p ∷ [])
          ≡ some (record { first_seq = seq; count = 1; frames = p }) =
        batch_from_one max_bytes max_records seq p pos_bytes pos_records in
      (
        seq,
        appended.0 ∙ ap (λ b. number_if b seq) written,
        (
          t.0,
          t.1
              ∙ ap (λ b. some (b, t.0))
                  (ap
                      (λ n.
                        batch_from max_bytes max_records n
                          (drop (seq - base_seq s') (rs ++ p ∷ [])))
                      first
                    ∙ ap (λ n. batch_from max_bytes max_records seq (drop n (rs ++ p ∷ []))) before
                    ∙ ap (batch_from max_bytes max_records seq) (drop-append_self rs (p ∷ []))
                    ∙ one),
        ),
      )
