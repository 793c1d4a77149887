-- ===== src/Log/Journal/Stored.antt =====
-- What the records of components/croniot/src/log/Journal.cpp have to agree on: a record's number is its
-- place in its segment.
use croniot_iot.Prelude.{
  ℕ, ◌+◌, ◌-◌, ◌^◌, ◌≤◌, ◌<◌, ◌≡◌, refl, ap, ◌∙◌, Option, some, List, [], ◌∷◌, ◌++◌, append_assoc,
  arith, if◌then◌else◌, length, is_empty, Bytes,
}
use croniot_iot.Log.Frames.Format.{segment, write_length_prefixed, AllFit}
use croniot_iot.Log.Journal.{
  SegmentRecord, StreamState, Files, put_file, bytes_of, segment_rotate_bytes,
}

pub segment-append : (ps qs : List Bytes) → segment (ps ++ qs) ≡ segment ps ++ segment qs
segment-append [] qs = refl
segment-append (p ∷ ps) qs =
    ap (◌++◌ (write_length_prefixed p)) (segment-append ps qs) ∙ simp append_assoc

pub AllFit-append : (ps qs : List Bytes) → AllFit ps → AllFit qs → AllFit (ps ++ qs)
AllFit-append [] qs a b = b
AllFit-append (p ∷ ps) qs a b = (a.0, AllFit-append ps qs a.1 b)

-- A closed segment whose file holds these payloads, the first of them numbered `oldest_seq`.
pub record IsClosed (files : Files) (g : SegmentRecord) (ps : List Bytes) : Type 0 where
  pub file : files g.segment_id ≡ some (segment ps)
  pub fits : AllFit ps
  pub size : g.size_bytes ≡ length (segment ps)
  pub small : length (segment ps) < 2 ^ 31
  pub not_empty : 0 < length ps
  pub numbered : g.newest_seq + 1 ≡ g.oldest_seq + length ps

-- The number, and the first record's, of the segment behind a place in the list.
abbrev pub first_id : List SegmentRecord → ℕ → ℕ
first_id [] id = id
first_id (g ∷ gs) id = g.segment_id

abbrev pub first_seq : List SegmentRecord → ℕ → ℕ
first_seq [] seq = seq
first_seq (g ∷ gs) seq = g.oldest_seq

-- Closed segments, oldest first, in front of the segment `id` that begins at `seq`.
abbrev pub AreClosed : Files → List SegmentRecord → List (List Bytes) → ℕ → ℕ → Type 0
AreClosed files [] [] id seq = Unit {0}
AreClosed files [] (ps ∷ pss) id seq = ⊥
AreClosed files (g ∷ gs) [] id seq = ⊥
AreClosed files (g ∷ gs) (ps ∷ pss) id seq =
    IsClosed files g ps
    × (g.segment_id < first_id gs id)
    × (g.newest_seq < first_seq gs seq)
    × AreClosed files gs pss id seq

-- The number of the last record in a segment that ends in front of `next`.
abbrev pub newest_of : List Bytes → ℕ → ℕ
newest_of ps next = if is_empty ps then next else next - 1

-- A stream that holds the payloads `pss` in its closed segments and `ps` in the open one.
pub record IsStored (s : StreamState) (pss : List (List Bytes)) (ps : List Bytes) : Type 0 where
  pub file : bytes_of (s.files s.open_segment.segment_id) ≡ segment ps
  pub fits : AllFit ps
  pub numbered : s.open_segment.oldest_seq + length ps ≡ s.cursor.next_seq
  pub size : s.open_segment_bytes ≡ length (segment ps)
  pub known_size : s.open_segment.size_bytes ≡ s.open_segment_bytes
  pub newest : s.open_segment.newest_seq ≡ newest_of ps s.cursor.next_seq
  pub named : s.open_segment.segment_id ≤ s.open_segment.oldest_seq
  pub room : s.cursor.next_seq < 2 ^ 32
  pub closed : AreClosed s.files s.closed pss s.open_segment.segment_id s.open_segment.oldest_seq
  -- `removeOrphanSegments`, and the file that `writeFrame` creates: none stands ahead.
  pub ahead : (id : ℕ) → s.open_segment.segment_id < id → bytes_of (s.files id) ≡ []

-- The segment still has room, as between two calls.
abbrev pub HasRoom : StreamState → Type 0
HasRoom s = s.open_segment_bytes < segment_rotate_bytes

pub first_id-le :
    (files : Files) (gs : List SegmentRecord) (pss : List (List Bytes)) (id seq : ℕ)
    → AreClosed files gs pss id seq
    → first_id gs id ≤ id
first_id-le files [] pss id seq h = omega arith
first_id-le files (g ∷ gs) [] id seq h = absurd h
first_id-le files (g ∷ gs) (ps ∷ pss) id seq h =
    omega (arith, h.1, first_id-le files gs pss id seq h.3)

put_file-ne :
    (files : Files) {id i : ℕ} (f : Option Bytes) → i < id → put_file id f files i ≡ files i
put_file-ne files f h = ground arith

IsClosed-put_file :
    (files : Files) (id : ℕ) (f : Option Bytes) (g : SegmentRecord) (ps : List Bytes)
    → g.segment_id < id
    → IsClosed files g ps
    → IsClosed (put_file id f files) g ps
IsClosed-put_file files id f g ps other h = record {
  file = put_file-ne files f other ∙ h.file;
  fits = h.fits;
  size = h.size;
  small = h.small;
  not_empty = h.not_empty;
  numbered = h.numbered;
}

-- Closed segments do not see a change of the open segment's file.
pub AreClosed-put_file :
    (files : Files) (gs : List SegmentRecord) (pss : List (List Bytes)) (id seq : ℕ)
    (f : Option Bytes)
    → AreClosed files gs pss id seq
    → AreClosed (put_file id f files) gs pss id seq
AreClosed-put_file files [] [] id seq f h = tt
AreClosed-put_file files [] (ps ∷ pss) id seq f h = h
AreClosed-put_file files (g ∷ gs) [] id seq f h = h
AreClosed-put_file files (g ∷ gs) (ps ∷ pss) id seq f h =
    let below : g.segment_id < id = omega (arith, h.1, first_id-le files gs pss id seq h.3) in
    (
      IsClosed-put_file files id f g ps below h.0,
      h.1,
      h.2,
      AreClosed-put_file files gs pss id seq f h.3,
    )

-- The open segment is closed, and another opened behind it.
pub AreClosed-append :
    (files : Files) (gs : List SegmentRecord) (pss : List (List Bytes)) (g : SegmentRecord)
    (ps : List Bytes) (id seq : ℕ)
    → AreClosed files gs pss g.segment_id g.oldest_seq
    → IsClosed files g ps
    → g.segment_id < id
    → g.newest_seq < seq
    → AreClosed files (gs ++ g ∷ []) (pss ++ ps ∷ []) id seq
AreClosed-append files [] [] g ps id seq h c i n = (c, i, n, tt)
AreClosed-append files [] (qs ∷ pss) g ps id seq h c i n = absurd h
AreClosed-append files (k ∷ gs) [] g ps id seq h c i n = absurd h
AreClosed-append files (k ∷ gs) (qs ∷ pss) g ps id seq h c i n = (
  h.0,
  let e : first_id (gs ++ g ∷ []) id ≡ first_id gs g.segment_id = first_id-append gs g id in
      omega (arith, e, h.1),
  let e : first_seq (gs ++ g ∷ []) seq ≡ first_seq gs g.oldest_seq = first_seq-append gs g seq in
      omega (arith, e, h.2),
  AreClosed-append files gs pss g ps id seq h.3 c i n,
)
  where
    first_id-append :
        (gs : List SegmentRecord) (g : SegmentRecord) (id : ℕ)
        → first_id (gs ++ g ∷ []) id ≡ first_id gs g.segment_id
    first_id-append [] g id = refl
    first_id-append (k ∷ gs) g id = refl

    first_seq-append :
        (gs : List SegmentRecord) (g : SegmentRecord) (seq : ℕ)
        → first_seq (gs ++ g ∷ []) seq ≡ first_seq gs g.oldest_seq
    first_seq-append [] g seq = refl
    first_seq-append (k ∷ gs) g seq = refl
