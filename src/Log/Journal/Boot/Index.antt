-- ===== src/Log/Journal/Boot/Index.antt =====
-- `saveIndex` and `loadIndex` (log/Journal.cpp), and a whole boot.
use mathlib.Core.List.{flatten}
use croniot_iot.Prelude.{
  ℕ, ◌+◌, ◌^◌, ◌≤◌, ◌<◌, ◌≡◌, ◌≢◌, refl, sym, ap, ◌∙◌, append_assoc, length-append, true, Option,
  none, some, List, [], ◌∷◌, ◌++◌, arith, length, Bytes,
}
use croniot_iot.Log.Cursor.{JournalCursor, restore}
use croniot_iot.Log.Frames.Format.{segment, write_length_prefixed, AllFit, IsCutShort}
use croniot_iot.Log.Journal.{
  SegmentRecord, StreamState, Files, bytes_of, segment_count, max_tracked_segments, index_of,
}
use croniot_iot.Log.Journal.Stored.{IsStored, AreClosed, first_id-le}
use croniot_iot.Log.Journal.Append.{Holds}
use croniot_iot.Log.Journal.Boot.{
  ack_of, recover_open_segment, is_among, is_tracked, DirEntry, remove_orphans,
  remove_orphan_segments, read_index, load_index,
}
use croniot_iot.Log.Journal.Read.Fronts.{front, ap_AllFit, AllFit-front}
use croniot_iot.Log.Journal.Boot.Recover.{IsTorn, recover_open_segment-IsStored}
use croniot_iot.Log.Journal.Boot.Orphans.{
  remove_orphans-tracked, remove_orphans-empty, AreClosed-agree,
}
use croniot_iot.Log.Journal.Boot.Saved.{as_saved, read_index-index_of}

-- The index names the segments that the stream has, as it does from a rotation on.
pub record IsIndexed (s : StreamState) : Type 0 where
  pub saved : StreamState
  pub index : s.index ≡ some (index_of saved)
  pub closed : saved.closed ≡ s.closed
  pub open_id : saved.open_segment.segment_id ≡ s.open_segment.segment_id
  pub open_oldest : saved.open_segment.oldest_seq ≡ s.open_segment.oldest_seq
  pub tracked : segment_count saved ≤ max_tracked_segments

-- The segment files at a crash. LittleFS commits what was written to the file that is open for
-- appending only when it is closed, so that its last records may be lost, any number of them; it may
-- end in a frame that was cut short. The other files were closed.
pub record IsCrash (s : StreamState) (opened : List Bytes) (files : Files) : Type 0 where
  pub kept : List Bytes
  pub lost : List Bytes
  pub tail : Bytes
  pub split : opened ≡ kept ++ lost
  pub torn : bytes_of (files s.open_segment.segment_id) ≡ segment kept ++ tail
  pub cut : IsCutShort tail
  pub others : (id : ℕ) → id ≢ s.open_segment.segment_id → files id ≡ s.files id

-- Any front of the open segment's bytes is such a crash.
pub IsCrash-front :
    (s : StreamState) (opened : List Bytes) (files : Files) (rest : Bytes)
    → AllFit opened
    → bytes_of (files s.open_segment.segment_id) ++ rest ≡ segment opened
    → ((id : ℕ) → id ≢ s.open_segment.segment_id → files id ≡ s.files id)
    → IsCrash s opened files
IsCrash-front s opened files rest fit e others =
    let f = front opened (bytes_of (files s.open_segment.segment_id)) rest fit e in
    record {
      kept = f.whole;
      lost = f.later;
      tail = f.tail;
      split = f.frames;
      torn = f.form;
      cut = f.cut;
      others = others;
    }

length-segment_front : (ps qs : List Bytes) → length (segment ps) ≤ length (segment (ps ++ qs))
length-segment_front [] qs = omega arith
length-segment_front (p ∷ ps) qs = omega (
  arith,
  length-segment_front ps qs,
  length-append (write_length_prefixed p) (segment ps),
  length-append (write_length_prefixed p) (segment (ps ++ qs)),
)

tracked_among : (s : StreamState) (i : ℕ) → is_among i s.closed ≡ true → is_tracked s i ≡ true
tracked_among s i among = rw among

tracked_open : (s : StreamState) → is_tracked s s.open_segment.segment_id ≡ true
tracked_open s = ground arith

among-lt :
    (files : Files) (gs : List SegmentRecord) (pss : List (List Bytes)) (id seq i : ℕ)
    → AreClosed files gs pss id seq
    → is_among i gs ≡ true
    → i < id
unfolding is_among
among-lt files [] pss id seq i h among = cc among
among-lt files (g ∷ gs) [] id seq i h among = absurd h
among-lt files (g ∷ gs) (ps ∷ pss) id seq i h among =
    ground (arith, among-lt files gs pss id seq i h.3, first_id-le files gs pss id seq h.3)

AreClosed-eq :
    (files : Files) (gs gs' : List SegmentRecord) (pss : List (List Bytes)) (id id' seq seq' : ℕ)
    → gs' ≡ gs
    → id' ≡ id
    → seq' ≡ seq
    → AreClosed files gs pss id seq
    → AreClosed files gs' pss id' seq'
AreClosed-eq files gs gs' pss id id' seq seq' eg ei es h = rw (eg, ei, es) h

ack_of-restore :
    (next oldest : ℕ) (a : Option ℕ) (c : JournalCursor) → ack_of (restore next oldest a c) ≡ a
unfolding restore
ack_of-restore next oldest none c = refl
ack_of-restore next oldest (some a) c = refl

next_seq-restore :
    (next oldest : ℕ) (a : Option ℕ) (c : JournalCursor) → (restore next oldest a c).next_seq ≡ next
unfolding restore
next_seq-restore next oldest a c = refl

module _ (prefix : Bytes) (entries : List DirEntry) {s : StreamState} {pss : List (List Bytes)}
    {ps : List Bytes} (h : IsStored s pss ps) (ix : IsIndexed s) (t : StreamState)
    (crash : IsCrash s ps t.files) where
  -- The stream as `removeOrphanSegments` leaves it at the boot.
  read_back : StreamState
  read_back = remove_orphan_segments prefix entries (as_saved ix.saved t)

  read_back-oldest_seq : read_back.open_segment.oldest_seq ≡ s.open_segment.oldest_seq
  unfolding read_back remove_orphan_segments
  read_back-oldest_seq = ix.open_oldest

  read_back-ack_of : ack_of read_back.cursor ≡ ack_of ix.saved.cursor
  unfolding read_back remove_orphan_segments
  read_back-ack_of =
      ack_of-restore ix.saved.cursor.next_seq ix.saved.cursor.oldest_seq (ack_of ix.saved.cursor)
        t.cursor

  read_back-files : (i : ℕ) → is_among i s.closed ≡ true → read_back.files i ≡ s.files i
  unfolding read_back remove_orphan_segments
  read_back-files i among =
      let b = as_saved ix.saved t in
      let known : is_among i b.closed ≡ true = ap (is_among i) ix.closed ∙ among in
      let below =
        among-lt s.files s.closed pss s.open_segment.segment_id s.open_segment.oldest_seq i h.closed
          among in
      remove_orphans-tracked prefix b entries t.files i (tracked_among b i known)
      ∙ crash.others i (λ e. absurd (omega (arith, e)))

  kept-short :
      (length (segment crash.kept) ≤ length (segment ps))
      × (length crash.kept + length crash.lost ≡ length ps)
  kept-short =
      rw (crash.split)
        (length-segment_front crash.kept crash.lost, sym (length-append crash.kept crash.lost))

  read_back-IsTorn : length (segment ps) < 2 ^ 31 → IsTorn read_back pss crash.kept crash.tail
  unfolding read_back remove_orphan_segments
  read_back-IsTorn small =
      let b = as_saved ix.saved t in
      let id = ix.saved.open_segment.segment_id in
      let short = kept-short in
      record {
        file =
            ap bytes_of (remove_orphans-tracked prefix b entries t.files id (tracked_open b))
            ∙ ap (λ i. bytes_of (t.files i)) ix.open_id
            ∙ crash.torn;
        fits = AllFit-front crash.kept crash.lost (ap_AllFit crash.split h.fits);
        cut = crash.cut;
        small = omega (arith, short.0);
        named = omega (arith, ix.open_id, ix.open_oldest, h.named);
        room = omega (arith, ix.open_oldest, h.numbered, h.room, short.1);
        closed =
            AreClosed-eq (remove_orphans prefix b entries t.files) s.closed ix.saved.closed pss
              s.open_segment.segment_id id s.open_segment.oldest_seq
              ix.saved.open_segment.oldest_seq ix.closed ix.open_id ix.open_oldest
              (AreClosed-agree s.files (remove_orphans prefix b entries t.files) s.closed pss
                s.open_segment.segment_id s.open_segment.oldest_seq read_back-files h.closed);
        ahead = λ i above. remove_orphans-empty prefix b entries t.files i (
            ap bytes_of (crash.others i (λ e. absurd (omega (arith, e, ix.open_id))))
            ∙ h.ahead i (omega (arith, ix.open_id)));
      }

-- A boot behind a crash, of the partition of a mounted stream that is well-formed, whose index names
-- its segments: the file of the open segment has lost any number of its last records, and may end in a
-- frame cut short, which the boot can truncate; the directory lists anything. `loadIndex` ends and finds
-- exactly the records that are not lost; the next number is behind the last of these, and the
-- acknowledgement is the one that was saved.
pub load_index-Holds :
    (prefix : Bytes) (entries : List DirEntry) (t : StreamState) {s : StreamState} {rs : List Bytes}
    → (h : Holds s rs) → (ix : IsIndexed s) → t.mounted ≡ true
    → t.index ≡ s.index
    → (crash : IsCrash s h.opened t.files)
    → (s' : StreamState) × (found : List Bytes) × (load_index prefix entries true t ≡ some s')
      × (found ++ crash.lost ≡ rs)
      × Holds s' found
      × (s'.cursor.next_seq + length crash.lost ≡ s.cursor.next_seq)
      × (ack_of s'.cursor ≡ ack_of ix.saved.cursor)
unfolding load_index
load_index-Holds prefix entries t {s} h ix mounted same crash =
    let back = read_back prefix entries h.stored ix t crash in
    let torn =
      read_back-IsTorn prefix entries h.stored ix t crash (omega (arith, h.stored.size, h.room)) in
    let (s', e, stored, kept, cursor) = recover_open_segment-IsStored torn in
    let short = kept-short prefix entries h.stored ix t crash in
    let read : read_index t.index t ≡ as_saved ix.saved t =
      ap (λ i. read_index i t) (same ∙ ix.index) ∙ read_index-index_of ix.saved t ix.tracked in
    let next : s'.cursor.next_seq ≡ s.open_segment.oldest_seq + length crash.kept =
      ap (λ (c : JournalCursor). c.next_seq) cursor
      ∙ next_seq-restore (back.open_segment.oldest_seq + length crash.kept) back.cursor.oldest_seq
          (ack_of back.cursor) back.cursor
      ∙ ap (λ n. n + length crash.kept) (read_back-oldest_seq prefix entries h.stored ix t crash) in
    (
      s',
      flatten h.closed ++ crash.kept,
      ap (λ b. recover_open_segment true (remove_orphan_segments prefix entries b)) read
          ∙ (unfold read_back in e),
      append_assoc (flatten h.closed) crash.kept crash.lost
          ∙ ap (λ ps. flatten h.closed ++ ps) (sym crash.split)
          ∙ h.records,
      record {
        closed = h.closed;
        opened = crash.kept;
        mounted = kept ∙ (unfold read_back remove_orphan_segments in mounted);
        stored = stored;
        room = omega (arith, stored.size, h.stored.size, h.room, short.0);
        records = refl;
      },
      omega (arith, next, short.1, h.stored.numbered),
      ap ack_of cursor
          ∙ ack_of-restore (back.open_segment.oldest_seq + length crash.kept) back.cursor.oldest_seq
              (ack_of back.cursor) back.cursor
          ∙ read_back-ack_of prefix entries h.stored ix t crash,
    )
