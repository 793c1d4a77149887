-- ===== src/Log/Journal/Read/Exact.antt =====
-- What `readFrom` (log/Journal.cpp) returns of the records that a stream holds.
use mathlib.Core.List.{flatten}
use croniot_iot.Prelude.{
  ℕ, zero, suc, ◌+◌, ◌-◌, ◌^◌, ◌≤◌, ◌<◌, max, ◌≡◌, refl, ap, ◌∙◌, inl, inr, true, ◌||◌, Option,
  none, some, List, [], ◌∷◌, ◌++◌, append-nil, append_assoc, arith, ltb, ltb→lt, leb, if◌then◌else◌,
  Bool-cases, length, length-append, drop, is_empty, Bytes,
}
use croniot_iot.Prelude.Words.{u32}
use croniot_iot.Log.Frames.{Batch, AccumulateResult, limit_hit, keep_frame}
use croniot_iot.Log.Frames.Accumulate.{walk}
use croniot_iot.Log.Journal.Read.{RawBatch, batch_of, empty_batch}
use croniot_iot.Log.Journal.Read.Walks.{from_seq, walk-keep, walk-full, walk-pass}

drop-nil : (n : ℕ) → drop {A = Bytes} n [] ≡ []
drop-nil zero = refl
drop-nil (suc n) = refl

module _ (max_bytes max_records : ℕ) where
  -- The records that there is room for, behind some that number `count` and have `size` bytes: one
  -- more while both are below their limits.
  abbrev pub take_room : ℕ → ℕ → List Bytes → List Bytes
  take_room count size [] = []
  take_room count size (p ∷ ps) =
      if leb max_records count || leb max_bytes size
      then []
      else p ∷ take_room (count + 1) (size + length p) ps

  -- The batch of the first of these records, which are numbered from `seq`.
  abbrev pub batch_from : ℕ → List Bytes → Option RawBatch
  batch_from seq ps =
      let taken = take_room 0 0 ps in
      if is_empty taken
      then none
      else some (record { first_seq = seq; count = length taken; frames = flatten taken })

  -- The batch that `b` becomes when `taken` is put behind it.
  abbrev extended : Batch → List Bytes → RawBatch
  extended b taken = record {
    first_seq = b.first_seq;
    count = b.count + length taken;
    frames = b.frames ++ flatten taken;
  }

  extended-keep_frame :
      (next : ℕ) (p : Bytes) (b : Batch) (taken : List Bytes)
      → b.started ≡ true
      → b.count + 1 < 2 ^ 32
      → extended (keep_frame next max_bytes max_records p b) taken ≡ extended b (p ∷ taken)
  unfolding keep_frame flatten
  extended-keep_frame next p b taken begun small =
      let count : u32 (b.count + 1) + length taken ≡ b.count + suc (length taken) = omega arith in
      rw (begun, count, append_assoc b.frames p (flatten taken))

  keep_frame-room :
      (next : ℕ) (p : Bytes) (b : Batch) (ps : List Bytes)
      → b.count + 1 < 2 ^ 32
      → let b' = keep_frame next max_bytes max_records p b in
        take_room b'.count (length b'.frames) ps
        ≡ take_room (b.count + 1) (length b.frames + length p) ps
  unfolding keep_frame
  keep_frame-room next p b ps small =
      let count : u32 (b.count + 1) ≡ b.count + 1 = omega arith in
      rw (count, length-append b.frames p)

  batch_of-started : (b : Batch) → b.started ≡ true → batch_of b ≡ some (extended b [])
  unfolding flatten
  batch_of-started b begun = ground (arith, append-nil b.frames)

  -- A batch that was begun.
  walked_started :
      (next : ℕ) (ps : List Bytes) (c : ℕ) (b : Batch)
      → b.started ≡ true
      → next ≤ b.seq
      → b.seq + length ps < 2 ^ 32
      → b.count + length ps < 2 ^ 32
      → batch_of (walk next max_bytes max_records ps c b).1
        ≡ some (extended b (take_room b.count (length b.frames) ps))
  unfolding walk
  walked_started next [] c b begun above room small = batch_of-started b begun
  walked_started next (p ∷ ps) c b begun above room small =
      let of_walk = λ (x : AccumulateResult × Batch). batch_of x.1 in
      elim (Bool-cases (limit_hit next max_bytes max_records b)) [
        | inl full ↦
            ap batch_of (walk-full next max_bytes max_records (p ∷ ps) c b above full)
            ∙ rw full (batch_of-started b begun)
        | inr more ↦
            let b' = keep_frame next max_bytes max_records p b in
            let rest = take_room (b.count + 1) (length b.frames + length p) ps in
            let seq : b'.seq ≡ b.seq + 1 = unfold keep_frame in (omega arith) in
            let count : b'.count ≡ b.count + 1 = unfold keep_frame in (omega arith) in
            let later =
              walked_started next ps (c + (2 + length p)) b' (unfold keep_frame in refl)
                (omega (arith, seq)) (omega (arith, seq)) (omega (arith, count)) in
            let same =
              ap (extended b') (keep_frame-room next p b ps (omega arith))
              ∙ extended-keep_frame next p b rest begun (omega arith) in
            ap of_walk (walk-keep next max_bytes max_records p ps c b above more)
            ∙ rw more (later ∙ ap some same)
      ]

  -- The first record of a batch.
  extended-first :
      (next seq : ℕ) (p : Bytes) (taken : List Bytes)
      → some (extended (keep_frame next max_bytes max_records p (from_seq seq empty_batch)) taken)
        ≡ some
            (record { first_seq = seq; count = length (p ∷ taken); frames = flatten (p ∷ taken) })
  unfolding keep_frame flatten
  extended-first next seq p taken = ground arith

  -- A batch that is still empty, and whose first record may be behind.
  walked_empty :
      (next : ℕ) (ps : List Bytes) (c seq : ℕ)
      → next ≤ seq
      → seq + length ps < 2 ^ 32
      → batch_of (walk next max_bytes max_records ps c (from_seq seq empty_batch)).1
        ≡ batch_from seq ps
  unfolding walk
  walked_empty next [] c seq above room = refl
  walked_empty next (p ∷ ps) c seq above room =
      let b = from_seq seq empty_batch in
      let of_walk = λ (x : AccumulateResult × Batch). batch_of x.1 in
      let b = from_seq seq empty_batch in
      elim (Bool-cases (leb max_records 0 || leb max_bytes 0)) [
        | inl full ↦
            ap batch_of (walk-full next max_bytes max_records (p ∷ ps) c b above full) ∙ rw full
        | inr more ↦
            let b' = keep_frame next max_bytes max_records p b in
            let number : b'.seq ≡ seq + 1 = unfold keep_frame in (omega arith) in
            let count : b'.count ≡ 1 = unfold keep_frame in refl in
            let later =
              walked_started next ps (c + (2 + length p)) b' (unfold keep_frame in refl)
                (omega (arith, number)) (omega (arith, number)) (omega (arith, count)) in
            ap of_walk (walk-keep next max_bytes max_records p ps c b above more)
            ∙ rw more (
                later
                ∙ ap (λ taken. some (extended b' taken)) (keep_frame-room next p b ps (omega arith))
                ∙ extended-first next seq p (take_room (0 + 1) (0 + length p) ps))
      ]

  -- The walk begins at the record that is wanted, or at the first that there is.
  pub walked_seek :
      (next : ℕ) (ps : List Bytes) (c seq : ℕ)
      → seq + length ps < 2 ^ 32
      → batch_of (walk next max_bytes max_records ps c (from_seq seq empty_batch)).1
        ≡ batch_from (max seq next) (drop (next - seq) ps)
  unfolding walk
  walked_seek next [] c seq room = rw (drop-nil (next - seq))
  walked_seek next (p ∷ ps) c seq room = elim (Bool-cases (ltb seq next)) [
    | inr above ↦
        let none_before : next - seq ≡ 0 = ground arith in
        let first : max seq next ≡ seq = ground arith in
        rw (none_before, first) (walked_empty next (p ∷ ps) c seq (ground arith) room)
    | inl below ↦
        let before : next - seq ≡ suc (next - (seq + 1)) = ground arith in
        let first : max seq next ≡ max (seq + 1) next = ground arith in
        let word : u32 (seq + 1) ≡ seq + 1 = omega arith in
        ap (λ (x : AccumulateResult × Batch). batch_of x.1)
          (walk-pass next max_bytes max_records p ps c (from_seq seq empty_batch)
            (ltb→lt seq next below))
        ∙ rw (before, first, word)
            (walked_seek next ps (c + (2 + length p)) (seq + 1) (omega arith))
  ]
