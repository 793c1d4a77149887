-- ===== src/Log/Journal/Write.antt =====
-- `writeFrame` (log/Journal.cpp), whole and cut short.
use croniot_iot.Prelude.{
  ℕ, ◌+◌, ◌-◌, ◌^◌, ◌<◌, ◌≡◌, refl, sym, ap, ◌∙◌, true, false, ◌||◌, Option, some, List, [], ◌∷◌,
  ◌++◌, append-nil, arith, Bool-cases, inl, inr, length, length-append, take, take-append_self,
  Bytes,
}
use croniot_iot.Prelude.Words.{u32}
use croniot_iot.Log.Cursor.{assign_seq}
use croniot_iot.Log.Frames.Format.{
  segment, write_length_prefixed, Fits, length-write_length_prefixed,
}
use croniot_iot.Log.Journal.{
  StreamState, Files, Conditions, WriteResult, whole, part, put_file, bytes_of, truncate_to,
  write_opened, write_frame, count_frame,
}
use croniot_iot.Log.Journal.Stored.{
  IsStored, HasRoom, AreClosed-put_file, newest_of, segment-append, AllFit-append,
}

pub put_file_self : (files : Files) (id : ℕ) (f : Option Bytes) → put_file id f files id ≡ f
put_file_self files id f = ground arith

pub put_file-ahead :
    (files : Files) (id i : ℕ) (f : Option Bytes) → id < i → put_file id f files i ≡ files i
put_file-ahead files id i f h = ground arith

-- A file that is cut back to what it held before.
pub truncate_to-append : (old new : Bytes) → truncate_to (length old) (old ++ new) ≡ old
truncate_to-append old new =
    let none_missing : length old - length (old ++ new) ≡ 0 =
      omega (arith, length-append old new) in
    rw (none_missing, take-append_self old new) (append-nil old)

segment_one :
    (ps : List Bytes) (p : Bytes) → segment (ps ++ p ∷ []) ≡ segment ps ++ write_length_prefixed p
segment_one ps p = segment-append ps (p ∷ []) ∙ simp append-nil

module _ {s : StreamState} {pss : List (List Bytes)} {ps : List Bytes} (h : IsStored s pss ps) where
  -- The open segment's file gets another frame, which is counted.
  pub count_frame-IsStored :
      (p : Bytes)
      → Fits p
      → HasRoom s
      → s.cursor.next_seq + 1 < 2 ^ 32
      → IsStored (count_frame p (write_opened whole p s).0) pss (ps ++ p ∷ [])
  unfolding write_opened count_frame assign_seq
  count_frame-IsStored p fits room last =
      let id = s.open_segment.segment_id in
      let file = some (bytes_of (s.files id) ++ write_length_prefixed p) in
      let size : u32 (s.open_segment_bytes + u32 (length p + 2)) ≡ length (segment (ps ++ p ∷ [])) =
        rw (segment_one ps p) (
          omega (
            arith,
            h.size,
            length-append (segment ps) (write_length_prefixed p),
            length-write_length_prefixed p,
          )) in
      record {
        file =
            ap bytes_of (put_file_self s.files id file)
            ∙ ap (λ f. f ++ write_length_prefixed p) h.file
            ∙ sym (segment_one ps p);
        fits = AllFit-append ps (p ∷ []) h.fits (fits, tt);
        numbered = omega (arith, h.numbered, length-append ps (p ∷ []));
        size = size;
        known_size = refl;
        newest = newest_after ps p s.cursor.next_seq last;
        named = h.named;
        room = omega arith;
        closed = AreClosed-put_file s.files s.closed pss id s.open_segment.oldest_seq file h.closed;
        ahead = λ i above. ap bytes_of (put_file-ahead s.files id i file above) ∙ h.ahead i above;
      }
    where
      newest_after :
          (ps : List Bytes) (p : Bytes) (next : ℕ)
          → next + 1 < 2 ^ 32
          → next ≡ newest_of (ps ++ p ∷ []) (u32 (next + 1))
      newest_after [] p next last = omega arith
      newest_after (q ∷ ps) p next last = omega arith

  -- A write that fails and is rolled back.
  pub write_opened-IsStored :
      (n : ℕ) (p : Bytes) → IsStored (write_opened (part n true) p s).0 pss ps
  unfolding write_opened
  write_opened-IsStored n p =
      let id = s.open_segment.segment_id in
      let new = take n (write_length_prefixed p) in
      let file = some (truncate_to s.open_segment_bytes (bytes_of (s.files id) ++ new)) in
      record {
        file =
            ap bytes_of (put_file_self s.files id file)
            ∙ rw (h.file, h.size) (truncate_to-append (segment ps) new);
        fits = h.fits;
        numbered = h.numbered;
        size = h.size;
        known_size = h.known_size;
        newest = h.newest;
        named = h.named;
        room = h.room;
        closed = AreClosed-put_file s.files s.closed pss id s.open_segment.oldest_seq file h.closed;
        ahead = λ i above. ap bytes_of (put_file-ahead s.files id i file above) ∙ h.ahead i above;
      }

-- A write that fails is rolled back.
abbrev pub RollsBack : WriteResult → Type 0
RollsBack whole = Unit {0}
RollsBack (part n cut) = cut ≡ true

-- What a write that fails leaves alone.
pub record IsUnchanged (s t : StreamState) : Type 0 where
  pub cursor : t.cursor ≡ s.cursor
  pub closed : t.closed ≡ s.closed
  pub open_segment : t.open_segment ≡ s.open_segment
  pub open_segment_bytes : t.open_segment_bytes ≡ s.open_segment_bytes
  pub mounted : t.mounted ≡ s.mounted
  pub index : t.index ≡ s.index

write_opened-IsUnchanged :
    (w : WriteResult) (p : Bytes) (s : StreamState) → IsUnchanged s (write_opened w p s).0
unfolding write_opened
write_opened-IsUnchanged whole p s = ground arith
write_opened-IsUnchanged (part n cut) p s = ground arith

pub write_frame-IsUnchanged :
    (c : Conditions) (p : Bytes) (s : StreamState) → IsUnchanged s (write_frame c p s).0
unfolding write_frame
write_frame-IsUnchanged c p s = elim (Bool-cases (s.open_file || c.opens)) [
  | inr closed ↦ rw closed (ground arith)
  | inl ready ↦ rw ready (write_opened-IsUnchanged c.write p s)
]

module _ (p : Bytes) {s : StreamState} {pss : List (List Bytes)} {ps : List Bytes}
    (h : IsStored s pss ps) where
  write_opened-failed :
      (w : WriteResult)
      → RollsBack w
      → (write_opened w p s).1 ≡ false
      → IsStored (write_opened w p s).0 pss ps
  write_opened-failed whole rolls failed = unfold write_opened in cc failed
  write_opened-failed (part n true) rolls failed = write_opened-IsStored h n p
  write_opened-failed (part n false) rolls failed = cc rolls

  write_opened-written :
      (w : WriteResult)
      → Fits p
      → HasRoom s
      → s.cursor.next_seq + 1 < 2 ^ 32
      → (write_opened w p s).1 ≡ true
      → IsStored (count_frame p (write_opened w p s).0) pss (ps ++ p ∷ [])
  write_opened-written whole fits room last written = count_frame-IsStored h p fits room last
  write_opened-written (part n cut) fits room last written = unfold write_opened in cc written

  -- A frame that is not written leaves the stream as it was.
  pub write_frame-failed :
      (c : Conditions)
      → RollsBack c.write
      → (write_frame c p s).1 ≡ false
      → IsStored (write_frame c p s).0 pss ps
  unfolding write_frame
  write_frame-failed c rolls failed = elim (Bool-cases (s.open_file || c.opens)) [
    | inr closed ↦ rw closed h
    | inl ready ↦ rw ready (write_opened-failed c.write rolls (rw ready at failed))
  ]

  -- A frame that is written stands behind the others.
  pub write_frame-written :
      (c : Conditions)
      → Fits p
      → HasRoom s
      → s.cursor.next_seq + 1 < 2 ^ 32
      → (write_frame c p s).1 ≡ true
      → IsStored (count_frame p (write_frame c p s).0) pss (ps ++ p ∷ [])
  unfolding write_frame
  write_frame-written c fits room last written = elim (Bool-cases (s.open_file || c.opens)) [
    | inr closed ↦ let e = rw closed at written in cc e
    | inl ready ↦ rw ready (write_opened-written c.write fits room last (rw ready at written))
  ]
