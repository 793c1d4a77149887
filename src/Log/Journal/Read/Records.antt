-- ===== src/Log/Journal/Read/Records.antt =====
-- `readFrom` (log/Journal.cpp) on a stream that holds some records.
use mathlib.Core.List.{flatten}
use mathlib.Core.Path.{fun_ext}
use croniot_iot.Prelude.{
  ℕ, ◌-◌, max, ◌==◌, ◌≡◌, refl, sym, ap, ◌∙◌, ◌⊎◌, inl, inr, Bool, true, false, not, ◌||◌, none,
  some, List, [], ◌∷◌, ◌++◌, arith, Bool-cases, length-append, drop, Bytes,
}
use croniot_iot.Log.Frames.{Batch}
use croniot_iot.Log.Journal.{StreamState, SegmentRecord, Files}
use croniot_iot.Log.Journal.Stored.{AreClosed, first_seq, newest_of}
use croniot_iot.Log.Journal.Append.{Holds}
use croniot_iot.Log.Journal.Read.{batch_of, empty_batch, read_result, opened_files, read_from}
use croniot_iot.Log.Journal.Read.Segments.{
  AreContiguous, AreSmall, IsOpen, length-contiguous, read_all,
}
use croniot_iot.Log.Journal.Read.Exact.{batch_from, walked_seek}

AreClosed-AreSmall :
    (files : Files) (gs : List SegmentRecord) (pss : List (List Bytes)) (id seq : ℕ)
    → AreClosed files gs pss id seq
    → AreSmall pss
AreClosed-AreSmall files [] [] id seq h = tt
AreClosed-AreSmall files [] (ps ∷ pss) id seq h = absurd h
AreClosed-AreSmall files (g ∷ gs) [] id seq h = absurd h
AreClosed-AreSmall files (g ∷ gs) (ps ∷ pss) id seq h =
    (h.0.small, AreClosed-AreSmall files gs pss id seq h.3)

-- The number of the oldest record.
abbrev pub base_seq : StreamState → ℕ
base_seq s = first_seq s.closed s.open_segment.oldest_seq

-- The stream is as it was, but that the file may be closed that was open for appending.
abbrev pub IsRead : StreamState → StreamState → Type 0
IsRead s t = (t ≡ s) ⊎ (t ≡ record s { open_file = false })

read_result_lem :
    (s : StreamState) (r : Batch × Bool)
    → (t : StreamState) × (read_result s (some r) ≡ some (batch_of r.0, t)) × IsRead s t
read_result_lem s (b, true) = (record s { open_file = false }, refl, inr refl)
read_result_lem s (b, false) = (s, refl, inl refl)

batch_from-zero : (max_bytes seq : ℕ) (ps : List Bytes) → batch_from max_bytes 0 seq ps ≡ none
batch_from-zero max_bytes seq [] = refl
batch_from-zero max_bytes seq (p ∷ ps) = refl

-- Where every file can be opened, they are the files.
opened_files-all :
    (opens : ℕ → Bool) (files : Files)
    → ((id : ℕ) → opens id ≡ true)
    → opened_files opens files ≡ files
unfolding opened_files
opened_files-all opens files all = fun_ext (λ id. rw (all id))

-- Of a stream that holds the records `rs`, with none missing between its segments, and whose files can
-- be opened, `readFrom` ends and returns the records from the wanted number on, or from the oldest if
-- that one is gone: as many in a row as there are while neither limit is reached, numbered by the first
-- of them, and nothing if there are none. The stream is left as it was, but that the file may be closed
-- that was open for appending.
pub read_from-batch_from :
    (opens : ℕ → Bool) (wanted max_bytes max_records : ℕ) {s : StreamState} {rs : List Bytes}
    → ((id : ℕ) → opens id ≡ true)
    → Holds s rs
    → AreContiguous s.closed s.open_segment.oldest_seq
    → (t : StreamState) × (read_from opens wanted max_bytes max_records s
        ≡ some (
          batch_from max_bytes max_records
              (max (base_seq s) wanted)
              (drop (wanted - base_seq s) rs),
          t,
        ))
      × IsRead s t
unfolding read_from
read_from-batch_from opens wanted max_bytes max_records {s} {rs} all_open h contiguous =
    let open_one : IsOpen s.files s.open_segment h.opened = record {
      file = h.stored.file;
      fits = h.stored.fits;
      small = omega (arith, h.stored.size, h.room);
      size = h.stored.known_size ∙ h.stored.size;
      newest = h.stored.newest ∙ ap (newest_of h.opened) (sym h.stored.numbered);
      room = omega (arith, h.stored.numbered, h.stored.room);
    } in
    let (r, read, batch) =
      read_all max_bytes max_records s.files s.open_segment h.opened open_one s.closed h.closed
        h.stored.closed contiguous
        (AreClosed-AreSmall s.files s.closed h.closed s.open_segment.segment_id
          s.open_segment.oldest_seq h.stored.closed)
        wanted false empty_batch in
    let (t, result, kept) = read_result_lem s r in
    let count =
      length-contiguous s.files s.closed h.closed s.open_segment.segment_id
        s.open_segment.oldest_seq h.stored.closed contiguous in
    let all = flatten h.closed ++ h.opened in
    let sought : batch_of r.0
        ≡ batch_from max_bytes max_records (max (base_seq s) wanted)
            (drop (wanted - base_seq s) rs) =
      batch
      ∙ walked_seek max_bytes max_records wanted all 0 (base_seq s) (
          omega (
            arith,
            count,
            h.stored.numbered,
            h.stored.room,
            length-append (flatten h.closed) h.opened,
          ))
      ∙ ap
          (λ xs.
            batch_from max_bytes max_records (max (base_seq s) wanted)
              (drop (wanted - base_seq s) xs))
          h.records in
    elim (Bool-cases (max_records == 0)) [
      | inl nothing ↦
          let stop : (not s.mounted || max_records == 0) ≡ true = ground arith in
          let zero_records : max_records ≡ 0 = ground arith in
          let first = max (base_seq s) wanted in
          let from = drop (wanted - base_seq s) rs in
          (
            s,
            rw stop (
                ap (λ o. some (o, s))
                  (sym (
                    ap (λ m. batch_from max_bytes m first from) zero_records
                    ∙ batch_from-zero max_bytes first from))),
            inl refl,
          )
      | inr some_wanted ↦
          let goes_on : (not s.mounted || max_records == 0) ≡ false = ground (arith, h.mounted) in
          (
            t,
            rw (goes_on, opened_files-all opens s.files all_open)
                (ap (read_result s) read ∙ result ∙ ap (λ o. some (o, t)) sought),
            kept,
          )
    ]
