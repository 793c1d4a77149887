-- ===== src/Log/Journal/Read/Walked.antt =====
-- The walk over the payloads of a segment and of those behind it, for `readFrom` (log/Journal.cpp).
use croniot_iot.Prelude.{
  ℕ, ◌+◌, ◌^◌, ◌≤◌, ◌<◌, ◌≡◌, sym, ap, ◌∙◌, inl, inr, Bool, true, false, ◌||◌, Option, List, ◌++◌,
  arith, Bool-cases, length, Bytes,
}
use croniot_iot.Log.Frames.{Batch, AccumulateResult, limit_hit}
use croniot_iot.Log.Frames.Codec.{length-segment}
use croniot_iot.Log.Frames.Accumulate.{walk}
use croniot_iot.Log.Journal.{SegmentRecord, Files}
use croniot_iot.Log.Journal.Stored.{IsClosed}
use croniot_iot.Log.Journal.Read.{RawBatch, is_passed_over, batch_of}
use croniot_iot.Log.Journal.Read.Chunked.{walk-append, limit_case, more_case}
use croniot_iot.Log.Journal.Read.Walks.{from_seq, walk-skip, walk-seq, walk-full, walk-next}

-- The walk that the loop amounts to.
abbrev pub walked : ℕ → ℕ → ℕ → List Bytes → Batch → Option RawBatch
walked max_bytes max_records next ps b = batch_of (walk next max_bytes max_records ps 0 b).1

module _ (max_bytes max_records : ℕ) (files : Files) where
  -- Payloads of one segment, and then others.
  walked-limit :
      (next : ℕ) (ps qs : List Bytes) (b : Batch)
      → (walk next max_bytes max_records ps 0 b).0.limit_reached ≡ true
      → walked max_bytes max_records next (ps ++ qs) b ≡ walked max_bytes max_records next ps b
  walked-limit next ps qs b limit =
      let w = walk next max_bytes max_records ps 0 b in
      ap (λ (x : AccumulateResult × Batch). batch_of x.1)
        (walk-append next max_bytes max_records ps qs 0 b)
      ∙ ap (λ (x : Batch × Bool). batch_of x.0) (limit_case next max_bytes max_records qs w limit)

  walked-more :
      (next : ℕ) (ps qs : List Bytes) (b : Batch)
      → (walk next max_bytes max_records ps 0 b).0.limit_reached ≡ false
      → walked max_bytes max_records next (ps ++ qs) b
        ≡ walked max_bytes max_records next qs (walk next max_bytes max_records ps 0 b).1
  walked-more next ps qs b more =
      let w = walk next max_bytes max_records ps 0 b in
      ap (λ (x : AccumulateResult × Batch). batch_of x.1)
        (walk-append next max_bytes max_records ps qs 0 b)
      ∙ ap (λ (x : Batch × Bool). batch_of x.0) (more_case next max_bytes max_records qs w more)

  -- Payloads of one segment that are not wanted, and then others.
  walked-skip :
      (next : ℕ) (ps qs : List Bytes) (b : Batch)
      → b.seq + length ps ≤ next
      → b.seq + length ps < 2 ^ 32
      → walked max_bytes max_records next (ps ++ qs) b
        ≡ walked max_bytes max_records next qs (from_seq (b.seq + length ps) b)
  walked-skip next ps qs b below room =
      let passed = walk-skip next max_bytes max_records ps 0 b below room in
      walked-more next ps qs b (ap (λ (x : Batch × Bool). x.1) passed)
      ∙ ap (λ (x : Batch × Bool). walked max_bytes max_records next qs x.0) passed

  -- The walk over a segment's payloads and all behind it, where the segment is passed over, where a
  -- limit is met in it or at its end, and where it goes on.
  module _ (g : SegmentRecord) (qs all : List Bytes) (c : IsClosed files g qs) (next : ℕ)
      (b : Batch) (room : g.newest_seq + 1 + length all < 2 ^ 32) where
    abbrev walk_here : AccumulateResult × Batch
    walk_here = walk next max_bytes max_records qs 0 (from_seq g.oldest_seq b)

    seq_behind : walk_here.0.limit_reached ≡ false → walk_here.1.seq ≡ g.newest_seq + 1
    seq_behind more = omega (
      arith,
      walk-seq next max_bytes max_records qs 0 (from_seq g.oldest_seq b) (omega (arith, c.numbered))
          more,
      c.numbered,
    )

    pub walked-passed :
        is_passed_over g next ≡ true
        → walked max_bytes max_records next (qs ++ all) (from_seq g.oldest_seq b)
          ≡ walked max_bytes max_records next all (from_seq (g.newest_seq + 1) b)
    walked-passed passed =
        let long = length-segment qs in
        let below : g.newest_seq < next = ground (arith, c.size, c.not_empty, long) in
        walked-skip next qs all (from_seq g.oldest_seq b) (omega (arith, c.numbered))
          (omega (arith, c.numbered))
        ∙ ap (λ q. walked max_bytes max_records next all (from_seq q b)) (sym c.numbered)

    pub walked-full :
        is_passed_over g next ≡ false
        → (walk_here.0.limit_reached || limit_hit 0 max_bytes max_records walk_here.1) ≡ true
        → walked max_bytes max_records next (qs ++ all) (from_seq g.oldest_seq b)
          ≡ batch_of walk_here.1
    walked-full wanted full = elim (Bool-cases walk_here.0.limit_reached) [
      | inl limit ↦ walked-limit next qs all (from_seq g.oldest_seq b) limit
      | inr more ↦
          walked-more next qs all (from_seq g.oldest_seq b) more
          ∙ ap batch_of (
              walk-full next max_bytes max_records all 0 walk_here.1
                (ground (arith, seq_behind more)) (rw more at full))
    ]

    pub walked-on :
        is_passed_over g next ≡ false
        → walk_here.0.limit_reached ≡ false
        → walked max_bytes max_records next (qs ++ all) (from_seq g.oldest_seq b)
          ≡ walked max_bytes max_records walk_here.1.seq all
              (from_seq (g.newest_seq + 1) walk_here.1)
    walked-on wanted more =
        let seq = seq_behind more in
        walked-more next qs all (from_seq g.oldest_seq b) more
        ∙ ap (λ (x : AccumulateResult × Batch). batch_of x.1)
            (walk-next next max_bytes max_records walk_here.1.seq all 0 walk_here.1
              (ground (arith, seq)) (omega arith) (omega (arith, seq)))
        ∙ ap (λ q. walked max_bytes max_records walk_here.1.seq all (from_seq q walk_here.1)) seq
