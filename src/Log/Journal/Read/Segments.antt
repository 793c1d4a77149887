-- ===== src/Log/Journal/Read/Segments.antt =====
-- The loop of `readFrom` (log/Journal.cpp) over the segments, and a walk over their payloads.
use mathlib.Core.List.{flatten}
use croniot_iot.Prelude.{
  ℕ, suc, ◌+◌, ◌^◌, ◌≤◌, ◌<◌, ◌≡◌, refl, sym, ap, ◌∙◌, inl, inr, Bool, true, false, ◌||◌, some,
  List, [], ◌∷◌, ◌++◌, append_assoc, arith, Bool-cases, length, length-append, is_empty, Bytes,
}
use croniot_iot.Log.Frames.{Batch, AccumulateResult, limit_hit}
use croniot_iot.Log.Frames.Format.{segment, AllFit}
use croniot_iot.Log.Frames.Codec.{InMemory, length-segment}
use croniot_iot.Log.Frames.Accumulate.{walk}
use croniot_iot.Log.Journal.{SegmentRecord, Files, bytes_of}
use croniot_iot.Log.Journal.Stored.{IsClosed, AreClosed, first_seq, newest_of}
use croniot_iot.Log.Journal.Rotate.{file_of}
use croniot_iot.Log.Journal.Read.{read_file, read_segments, is_passed_over, batch_of}
use croniot_iot.Log.Journal.Read.Chunked.{outcome, read_file-walk}
use croniot_iot.Log.Journal.Read.Walks.{from_seq, walk-skip}
use croniot_iot.Log.Journal.Read.Walked.{walked, walked-passed, walked-full, walked-on}

-- No records are missing between the segments.
abbrev pub AreContiguous : List SegmentRecord → ℕ → Type 0
AreContiguous [] seq = Unit {0}
AreContiguous (g ∷ gs) seq = (g.newest_seq + 1 ≡ first_seq gs seq) × AreContiguous gs seq

-- Small enough for the memory, each of them.
abbrev pub AreSmall : List (List Bytes) → Type 0
AreSmall [] = Unit {0}
AreSmall (ps ∷ pss) = InMemory (segment ps) × AreSmall pss

-- The open segment, as `IsStored` describes it.
pub record IsOpen (files : Files) (o : SegmentRecord) (ps : List Bytes) : Type 0 where
  pub file : bytes_of (files o.segment_id) ≡ segment ps
  pub fits : AllFit ps
  pub small : InMemory (segment ps)
  pub size : o.size_bytes ≡ length (segment ps)
  pub newest : o.newest_seq ≡ newest_of ps (o.oldest_seq + length ps)
  pub room : o.oldest_seq + length ps < 2 ^ 32

pub length-contiguous :
    (files : Files) (gs : List SegmentRecord) (pss : List (List Bytes)) (id seq : ℕ)
    → AreClosed files gs pss id seq
    → AreContiguous gs seq
    → first_seq gs seq + length (flatten pss) ≡ seq
unfolding flatten
length-contiguous files [] [] id seq h c = omega arith
length-contiguous files [] (ps ∷ pss) id seq h c = absurd h
length-contiguous files (g ∷ gs) [] id seq h c = absurd h
length-contiguous files (g ∷ gs) (ps ∷ pss) id seq h c = omega (
  arith,
  length-contiguous files gs pss id seq h.3 c.1,
  h.0.numbered,
  c.0,
  length-append ps (flatten pss),
)

module _ (max_bytes max_records : ℕ) (files : Files) where
  -- One segment that is read.
  read_one :
      (next : ℕ) (ps : List Bytes) (b : Batch) (file : Bytes)
      → file ≡ segment ps
      → AllFit ps
      → InMemory (segment ps)
      → read_file max_bytes max_records next (suc (length file)) file [] b
        ≡ some (outcome next max_bytes max_records (walk next max_bytes max_records ps 0 b))
  read_one next ps b file e fit small =
      read_file-walk next max_bytes max_records (suc (length file)) file [] ps b e fit small
        (omega arith)

  open_passed :
      (o : SegmentRecord) (ps : List Bytes) (next : ℕ) (b : Batch)
      → IsOpen files o ps
      → is_passed_over o next ≡ true
      → batch_of b ≡ walked max_bytes max_records next ps (from_seq o.oldest_seq b)
  open_passed o [] next b h passed = unfold walk in refl
  open_passed o (p ∷ ps) next b h passed =
      let long = length-segment (p ∷ ps) in
      let below : o.oldest_seq + length (p ∷ ps) ≤ next = ground (arith, h.size, h.newest, long) in
      ap (λ (x : Batch × Bool). batch_of x.0)
        (sym
          (walk-skip next max_bytes max_records (p ∷ ps) 0 (from_seq o.oldest_seq b) below h.room))

  -- The open segment is the last that is read.
  read_open :
      (o : SegmentRecord) (ps : List Bytes)
      → IsOpen files o ps
      → (next : ℕ) (closes : Bool) (b : Batch)
      → (r : Batch × Bool) × (read_segments max_bytes max_records files (o ∷ []) next closes b
          ≡ some r)
        × (batch_of r.0 ≡ walked max_bytes max_records next ps (from_seq o.oldest_seq b))
  unfolding read_segments
  read_open o ps h next closes b = elim (Bool-cases (is_passed_over o next)) [
    | inl passed ↦ ((b, closes), rw (passed, read_segments), open_passed o ps next b h passed)
    | inr wanted ↦
        let file = file_of (files o.segment_id) (segment ps) h.file (ground (arith, h.size)) in
        let w = walk next max_bytes max_records ps 0 (from_seq o.oldest_seq b) in
        let read = read_one next ps (from_seq o.oldest_seq b) (segment ps) refl h.fits h.small in
        (
          (w.1, true),
          rw (wanted, file, read, read_segments)
              (elim (Bool-cases (w.0.limit_reached || limit_hit 0 max_bytes max_records w.1)) [
                | inl full ↦ rw full
                | inr room ↦ rw room
              ]),
          refl,
        )
  ]

  -- The other segments, in front of it.
  module _ (g : SegmentRecord) (gs : List SegmentRecord) (qs : List Bytes) (c : IsClosed files g qs)
      (next : ℕ) (closes : Bool) (b : Batch) where
    abbrev walk_one : AccumulateResult × Batch
    walk_one = walk next max_bytes max_records qs 0 (from_seq g.oldest_seq b)

    step_passed :
        is_passed_over g next ≡ true
        → read_segments max_bytes max_records files (g ∷ gs) next closes b
          ≡ read_segments max_bytes max_records files gs next closes b
    unfolding read_segments
    step_passed passed = rw (passed, read_segments)

    step_full :
        InMemory (segment qs)
        → is_passed_over g next ≡ false
        → (walk_one.0.limit_reached || limit_hit 0 max_bytes max_records walk_one.1) ≡ true
        → read_segments max_bytes max_records files (g ∷ gs) next closes b
          ≡ some (walk_one.1, is_empty gs)
    unfolding read_segments
    step_full small wanted full =
        let read = read_one next qs (from_seq g.oldest_seq b) (segment qs) refl c.fits small in
        rw (wanted, c.file, read, read_segments) (rw full)

    step_more :
        InMemory (segment qs)
        → is_passed_over g next ≡ false
        → (walk_one.0.limit_reached || limit_hit 0 max_bytes max_records walk_one.1) ≡ false
        → read_segments max_bytes max_records files (g ∷ gs) next closes b
          ≡ read_segments max_bytes max_records files gs walk_one.1.seq (is_empty gs) walk_one.1
    unfolding read_segments
    step_more small wanted more =
        let read = read_one next qs (from_seq g.oldest_seq b) (segment qs) refl c.fits small in
        rw (wanted, c.file, read, read_segments) (rw more)

  pub read_all :
      (o : SegmentRecord) (ps : List Bytes)
      → IsOpen files o ps
      → (gs : List SegmentRecord) (pss : List (List Bytes))
      → AreClosed files gs pss o.segment_id o.oldest_seq
      → AreContiguous gs o.oldest_seq
      → AreSmall pss
      → (next : ℕ) (closes : Bool) (b : Batch)
      → (r : Batch × Bool) × (read_segments max_bytes max_records files (gs ++ o ∷ []) next closes b
          ≡ some r)
        × (batch_of r.0
            ≡ walked max_bytes max_records next
                (flatten pss ++ ps)
                (from_seq (first_seq gs o.oldest_seq) b))
  unfolding read_segments flatten
  read_all o ps h [] [] cl co sm next closes b = read_open o ps h next closes b
  read_all o ps h [] (qs ∷ pss) cl co sm next closes b = absurd cl
  read_all o ps h (g ∷ gs) [] cl co sm next closes b = absurd cl
  read_all o ps h (g ∷ gs) (qs ∷ pss) cl co sm next closes b =
      let all = flatten pss ++ ps in
      let count = length-contiguous files gs pss o.segment_id o.oldest_seq cl.3 co.1 in
      let room : g.newest_seq + 1 + length all < 2 ^ 32 =
        omega (arith, co.0, count, h.room, length-append (flatten pss) ps) in
      let same : qs ++ all ≡ (qs ++ flatten pss) ++ ps = sym (append_assoc qs (flatten pss) ps) in
      let w = walk_one g gs qs cl.0 next closes b in
      elim (Bool-cases (is_passed_over g next)) [
        | inl passed ↦
            let (r, e, v) = read_all o ps h gs pss cl.3 co.1 sm.1 next closes b in
            (
              r,
              step_passed g (gs ++ o ∷ []) qs cl.0 next closes b passed ∙ e,
              v
                  ∙ ap (λ q. walked max_bytes max_records next all (from_seq q b)) (sym co.0)
                  ∙ sym (walked-passed max_bytes max_records files g qs all cl.0 next b room passed)
                  ∙ ap (λ rs. walked max_bytes max_records next rs (from_seq g.oldest_seq b)) same,
            )
        | inr wanted ↦
            elim (Bool-cases (w.0.limit_reached || limit_hit 0 max_bytes max_records w.1)) [
              | inl full ↦ (
                (w.1, is_empty (gs ++ o ∷ [])),
                step_full g (gs ++ o ∷ []) qs cl.0 next closes b sm.0 wanted full,
                sym (walked-full max_bytes max_records files g qs all cl.0 next b room wanted full)
                    ∙ ap (λ rs. walked max_bytes max_records next rs (from_seq g.oldest_seq b))
                        same,
              )
              | inr more ↦
                  let (r, e, v) =
                    read_all o ps h gs pss cl.3 co.1 sm.1 w.1.seq (is_empty (gs ++ o ∷ [])) w.1 in
                  (
                    r,
                    step_more g (gs ++ o ∷ []) qs cl.0 next closes b sm.0 wanted more ∙ e,
                    v
                        ∙ ap (λ q. walked max_bytes max_records w.1.seq all (from_seq q w.1))
                            (sym co.0)
                        ∙ sym (
                            walked-on max_bytes max_records files g qs all cl.0 next b room wanted
                              (ground arith))
                        ∙ ap (λ rs. walked max_bytes max_records next rs (from_seq g.oldest_seq b))
                            same,
                  )
            ]
      ]
