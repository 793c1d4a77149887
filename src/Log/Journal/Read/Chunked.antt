-- ===== src/Log/Journal/Read/Chunked.antt =====
-- The chunks in which `readFrom` (log/Journal.cpp) reads a file.
use croniot_iot.Prelude.{
  ℕ, zero, suc, ◌+◌, ◌<◌, ◌==◌, ◌≡◌, refl, sym, ap, ◌∙◌, inl, inr, Bool, true, false, some, List,
  [], ◌∷◌, ◌++◌, append_assoc, arith, Bool-cases, length, take, drop, length-append, length-take,
  length-drop, take-append-drop, drop-append_self, Bytes,
}
use croniot_iot.Prelude.Words.{u32}
use croniot_iot.Log.Frames.{Batch, AccumulateResult, keep_frame, accumulate_frames}
use croniot_iot.Log.Frames.Format.{
  segment, write_length_prefixed, AllFit, length-write_length_prefixed,
}
use croniot_iot.Log.Frames.Codec.{InMemory}
use croniot_iot.Log.Frames.Accumulate.{walk, accumulate_frames-walk}
use croniot_iot.Log.Journal.Read.{read_file, read_chunk_bytes}
use croniot_iot.Log.Journal.Read.Fronts.{
  front, ap_AllFit, AllFit-front, AllFit-back, short_chunk, all_read,
}

module _ (next_wanted max_bytes max_records : ℕ) where
  -- A walk over some payloads and then others.
  abbrev pub walk_on : List Bytes → AccumulateResult × Batch → AccumulateResult × Batch
  walk_on ps (r, b) = elim r.limit_reached [
    | true ↦ (r, b)
    | false ↦ walk next_wanted max_bytes max_records ps r.consumed_bytes b
  ]

  pub walk-append :
      (ps qs : List Bytes) (consumed : ℕ) (b : Batch)
      → walk next_wanted max_bytes max_records (ps ++ qs) consumed b
        ≡ walk_on qs (walk next_wanted max_bytes max_records ps consumed b)
  unfolding walk
  walk-append [] qs consumed b = refl
  walk-append (p ∷ ps) qs consumed b = ground (
    arith,
    walk-append ps qs (consumed + (2 + length p)) (record b { seq = u32 (b.seq + 1) }),
    walk-append ps qs (consumed + (2 + length p))
        (keep_frame next_wanted max_bytes max_records p b),
  )

  -- Where no limit is met, all is consumed.
  walk_consumed :
      (ps : List Bytes) (consumed : ℕ) (b : Batch)
      → (walk next_wanted max_bytes max_records ps consumed b).0.limit_reached ≡ false
      → (walk next_wanted max_bytes max_records ps consumed b).0.consumed_bytes
        ≡ consumed + length (segment ps)
  unfolding walk
  walk_consumed [] consumed b e = omega arith
  walk_consumed (p ∷ ps) consumed b e = ground (
    arith,
    walk_consumed ps (consumed + (2 + length p)) (record b { seq = u32 (b.seq + 1) }),
    walk_consumed ps (consumed + (2 + length p)) (keep_frame next_wanted max_bytes max_records p b),
    length-append (write_length_prefixed p) (segment ps),
    length-write_length_prefixed p,
  )

  -- The count of consumed bytes decides nothing.
  abbrev pub outcome : AccumulateResult × Batch → Batch × Bool
  outcome (r, b) = (b, r.limit_reached)

  pub walk-consumed :
      (ps : List Bytes) (c d : ℕ) (b : Batch)
      → outcome (walk next_wanted max_bytes max_records ps c b)
        ≡ outcome (walk next_wanted max_bytes max_records ps d b)
  unfolding walk
  walk-consumed [] c d b = refl
  walk-consumed (p ∷ ps) c d b = ground (
    arith,
    walk-consumed ps (c + (2 + length p)) (d + (2 + length p)) (record b { seq = u32 (b.seq + 1) }),
    walk-consumed ps (c + (2 + length p)) (d + (2 + length p))
        (keep_frame next_wanted max_bytes max_records p b),
  )

module _ (next_wanted max_bytes max_records : ℕ) where
  ended_case :
      (later : List Bytes) (b : Batch)
      → later ≡ []
      → outcome next_wanted max_bytes max_records (walk next_wanted max_bytes max_records later 0 b)
        ≡ (b, false)
  unfolding walk
  ended_case later b e = rw e

  pub limit_case :
      (later : List Bytes) (w : AccumulateResult × Batch)
      → w.0.limit_reached ≡ true
      → outcome next_wanted max_bytes max_records
          (walk_on next_wanted max_bytes max_records later w)
        ≡ (w.1, true)
  limit_case later (r, b) limit = ground arith

  pub more_case :
      (later : List Bytes) (w : AccumulateResult × Batch)
      → w.0.limit_reached ≡ false
      → outcome next_wanted max_bytes max_records
          (walk_on next_wanted max_bytes max_records later w)
        ≡ outcome next_wanted max_bytes max_records
            (walk next_wanted max_bytes max_records later 0 w.1)
  more_case later (r, b) more =
      ground (arith, walk-consumed next_wanted max_bytes max_records later r.consumed_bytes 0 b)

  -- Reading a file of whole frames, some of which was read before, is the walk over its payloads.
  pub read_file-walk :
      (fuel : ℕ) (rest pending : Bytes) (ps : List Bytes) (b : Batch)
      → pending ++ rest ≡ segment ps
      → AllFit ps
      → InMemory (segment ps)
      → length rest < fuel
      → read_file max_bytes max_records next_wanted fuel rest pending b
        ≡ some (
            outcome next_wanted max_bytes max_records
              (walk next_wanted max_bytes max_records ps 0 b))
  unfolding read_file
  read_file-walk zero rest pending ps b e fit small enough = absurd (omega arith)
  read_file-walk (suc fuel) rest pending ps b e fit small enough =
      let chunk = take read_chunk_bytes rest in
      let rest' = drop read_chunk_bytes rest in
      let buf = pending ++ chunk in
      let whole : buf ++ rest' ≡ segment ps =
        append_assoc pending chunk rest'
        ∙ ap (◌++◌ pending) (take-append-drop read_chunk_bytes rest)
        ∙ e in
      let f = front ps buf rest' fit whole in
      let fit' : AllFit (f.whole ++ f.later) = ap_AllFit f.frames fit in
      let w = walk next_wanted max_bytes max_records f.whole 0 b in
      let step : accumulate_frames next_wanted max_bytes max_records buf (length buf) b ≡ some w =
        rw f.form (
          accumulate_frames-walk next_wanted max_bytes max_records f.whole f.tail b
            (AllFit-front f.whole f.later fit') f.cut
            (omega (arith, ap length f.form, ap length whole, length-append buf rest'))) in
      let whole_walk : walk next_wanted max_bytes max_records ps 0 b
          ≡ walk_on next_wanted max_bytes max_records f.later w =
        ap (λ qs. walk next_wanted max_bytes max_records qs 0 b) f.frames
        ∙ walk-append next_wanted max_bytes max_records f.whole f.later 0 b in
      rw (step, read_file)
        (elim (Bool-cases w.0.limit_reached) [
          | inl limit ↦ rw (limit, whole_walk) (ap some (sym (limit_case f.later w limit)))
          | inr none_hit ↦
              rw (none_hit, whole_walk)
                (elim (Bool-cases (length chunk == read_chunk_bytes)) [
                  | inr short ↦
                      let ended : f.later ≡ [] =
                        all_read f.later f.tail rest' (AllFit-back f.whole f.later fit') f.cut
                          f.follows (short_chunk read_chunk_bytes rest short) in
                      rw short (
                        ap some (sym (more_case f.later w none_hit ∙ ended_case f.later w.1 ended)))
                  | inl full ↦
                      let used : w.0.consumed_bytes ≡ length (segment f.whole) = omega (
                        arith,
                        walk_consumed next_wanted max_bytes max_records f.whole 0 b none_hit,
                      ) in
                      let kept : drop w.0.consumed_bytes buf ≡ f.tail =
                        ap (λ n. drop n buf) used
                        ∙ ap (drop (length (segment f.whole))) f.form
                        ∙ drop-append_self (segment f.whole) f.tail in
                      rw full (
                        read_file-walk fuel rest' (drop w.0.consumed_bytes buf) f.later w.1
                          (ap (λ xs. xs ++ rest') kept ∙ f.follows)
                          (AllFit-back f.whole f.later fit')
                          (omega (
                            arith,
                            ap length whole,
                            ap length f.form,
                            ap length f.follows,
                            length-append buf rest',
                            length-append (segment f.whole) f.tail,
                            length-append f.tail rest',
                          ))
                          (ground (
                            arith,
                            length-drop read_chunk_bytes rest,
                            length-take read_chunk_bytes rest,
                          ))
                        ∙ ap some (sym (more_case f.later w none_hit)))
                ])
        ])
