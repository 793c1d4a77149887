-- ===== src/Log/Journal/Reclaim/Kept.antt =====
-- What `reclaimMount` (log/Journal.cpp) leaves of a stream.
use croniot_iot.Prelude.{
  ℕ, ◌≤◌, ◌<◌, ◌==◌, ◌≡◌, ◌≢◌, refl, sym, ap, ◌∙◌, inl, inr, Bool, none, some, List, [], ◌∷◌, arith,
  if◌then◌else◌, Bool-cases, Bytes, ==_iff,
}
use croniot_iot.Log.Cursor.{JournalCursor, reclaim_to}
use croniot_iot.Log.Journal.{SegmentRecord, StreamState, Files, put_file, bytes_of}
use croniot_iot.Log.Journal.Stored.{
  IsStored, IsClosed, AreClosed, newest_of, first_id, first_seq, first_id-le,
}
use croniot_iot.Log.Journal.Reclaim.{find_segment, drop_segment, forget_segment}

-- The payloads that stay when the segment of a number goes.
abbrev pub drop_payloads : ℕ → List SegmentRecord → List (List Bytes) → List (List Bytes)
drop_payloads id [] pss = pss
drop_payloads id (g ∷ gs) [] = []
drop_payloads id (g ∷ gs) (ps ∷ pss) =
    let rest = ps ∷ drop_payloads id gs pss in if g.segment_id == id then pss else rest

IsClosed-agree :
    {files files' : Files} {g : SegmentRecord} {ps : List Bytes}
    → files' g.segment_id ≡ files g.segment_id
    → IsClosed files g ps
    → IsClosed files' g ps
IsClosed-agree same c = record {
  file = same ∙ c.file;
  fits = c.fits;
  size = c.size;
  small = c.small;
  not_empty = c.not_empty;
  numbered = c.numbered;
}

first_seq-drop :
    (files : Files) (id : ℕ) (gs : List SegmentRecord) (pss : List (List Bytes)) (end seq : ℕ)
    → AreClosed files gs pss end seq
    → (first_id gs end ≤ first_id (drop_segment id gs) end)
      × (first_seq gs seq ≤ first_seq (drop_segment id gs) seq)
unfolding drop_segment
first_seq-drop files id [] pss end seq h = (omega arith, omega arith)
first_seq-drop files id (g ∷ gs) [] end seq h = absurd h
first_seq-drop files id (g ∷ gs) (ps ∷ pss) end seq h = elim (Bool-cases (g.segment_id == id)) [
  | inl gone ↦ rw gone (omega (arith, h.1), omega (arith, h.2, h.0.numbered, h.0.not_empty))
  | inr kept ↦ rw kept (omega arith, omega arith)
]

-- A segment goes, with or without its file: the others are as they were.
AreClosed-above :
    (files files' : Files) (id : ℕ)
    → ((i : ℕ) → i ≢ id → files' i ≡ files i)
    → (gs : List SegmentRecord) (pss : List (List Bytes)) (end seq : ℕ) → id < first_id gs end
    → AreClosed files gs pss end seq
    → AreClosed files' gs pss end seq
AreClosed-above files files' id same [] [] end seq above h = tt
AreClosed-above files files' id same [] (ps ∷ pss) end seq above h = h
AreClosed-above files files' id same (g ∷ gs) [] end seq above h = h
AreClosed-above files files' id same (g ∷ gs) (ps ∷ pss) end seq above h = (
  IsClosed-agree (same g.segment_id (λ e. absurd (omega (arith, e)))) h.0,
  h.1,
  h.2,
  AreClosed-above files files' id same gs pss end seq (omega (arith, h.1)) h.3,
)

AreClosed-drop :
    (files files' : Files) (id : ℕ)
    → ((i : ℕ) → i ≢ id → files' i ≡ files i)
    → (gs : List SegmentRecord) (pss : List (List Bytes)) (end seq : ℕ)
    → AreClosed files gs pss end seq
    → AreClosed files' (drop_segment id gs) (drop_payloads id gs pss) end seq
unfolding drop_segment
AreClosed-drop files files' id same [] [] end seq h = tt
AreClosed-drop files files' id same [] (ps ∷ pss) end seq h = h
AreClosed-drop files files' id same (g ∷ gs) [] end seq h = absurd h
AreClosed-drop files files' id same (g ∷ gs) (ps ∷ pss) end seq h =
    elim (Bool-cases (g.segment_id == id)) [
      | inl gone ↦
          let e = (==_iff g.segment_id id).0 gone in
          rw gone (AreClosed-above files files' id same gs pss end seq (omega (arith, e, h.1)) h.3)
      | inr kept ↦
          let other : g.segment_id ≢ id = λ e. cc ((==_iff g.segment_id id).1 e, kept) in
          let later = first_seq-drop files id gs pss end seq h.3 in
          rw kept (
            IsClosed-agree (same g.segment_id other) h.0,
            omega (arith, h.1, later.0),
            omega (arith, h.2, later.1),
            AreClosed-drop files files' id same gs pss end seq h.3,
          )
    ]

removed_file :
    (removed : Bool) (id i : ℕ) (files : Files)
    → i ≢ id
    → (if removed then put_file id none files else files) i ≡ files i
removed_file removed id i files other = ground arith

pub find_segment-eq-some :
    (files : Files) (id : ℕ) (gs : List SegmentRecord) (pss : List (List Bytes)) (end seq : ℕ)
    (g : SegmentRecord)
    → AreClosed files gs pss end seq
    → find_segment id gs ≡ some g
    → (g.segment_id ≡ id) × (id < end)
unfolding find_segment
find_segment-eq-some files id [] pss end seq g h found = cc found
find_segment-eq-some files id (k ∷ gs) [] end seq g h found = absurd h
find_segment-eq-some files id (k ∷ gs) (ps ∷ pss) end seq g h found =
    elim (Bool-cases (k.segment_id == id)) [
      | inl here ↦
          let e = (==_iff k.segment_id id).0 here in
          let same : k ≡ g = let f = rw here at found in cc f in
          (
            ap (λ (x : SegmentRecord). x.segment_id) (sym same) ∙ e,
            omega (arith, e, h.1, first_id-le files gs pss end seq h.3),
          )
      | inr later ↦ find_segment-eq-some files id gs pss end seq g h.3 (rw later at found)
    ]

pub drop_segment-none :
    (id : ℕ) (gs : List SegmentRecord) → find_segment id gs ≡ none → drop_segment id gs ≡ gs
unfolding find_segment drop_segment
drop_segment-none id [] e = refl
drop_segment-none id (g ∷ gs) e = elim (Bool-cases (g.segment_id == id)) [
  | inl here ↦ let e' = rw here at e in cc e'
  | inr later ↦ rw later (ap (◌∷◌ g) (drop_segment-none id gs (rw later at e)))
]

-- What a reclaim changes of a stream: its closed segments and its oldest number alone.
pub record IsKept (s t : StreamState) : Type 0 where
  pub open_segment : t.open_segment ≡ s.open_segment
  pub open_segment_bytes : t.open_segment_bytes ≡ s.open_segment_bytes
  pub next_seq : t.cursor.next_seq ≡ s.cursor.next_seq
  pub mounted : t.mounted ≡ s.mounted

pub forget_segment-IsStored :
    (removed : Bool) (g : SegmentRecord) (cursor : JournalCursor) {s : StreamState}
    {pss : List (List Bytes)} {ps : List Bytes}
    → IsStored s pss ps
    → cursor.next_seq ≡ s.cursor.next_seq
    → g.segment_id < s.open_segment.segment_id
    → IsStored (forget_segment removed g cursor s) (drop_payloads g.segment_id s.closed pss) ps
unfolding forget_segment
forget_segment-IsStored removed g cursor {s} {pss} {ps} h next below =
    let id = g.segment_id in
    let files' : Files = if removed then put_file id none s.files else s.files in
    let same : (i : ℕ) → i ≢ id → files' i ≡ s.files i =
      λ i other. removed_file removed id i s.files other in
    record {
      file = ap bytes_of (same s.open_segment.segment_id (λ e. absurd (omega (arith, e)))) ∙ h.file;
      fits = h.fits;
      numbered = h.numbered ∙ sym next;
      size = h.size;
      known_size = h.known_size;
      newest = h.newest ∙ ap (newest_of ps) (sym next);
      named = h.named;
      room = omega (arith, next, h.room);
      closed =
          AreClosed-drop s.files files' id same s.closed pss s.open_segment.segment_id
            s.open_segment.oldest_seq h.closed;
      ahead = λ i above. ap bytes_of (same i (λ e. absurd (omega (arith, e)))) ∙ h.ahead i above;
    }

pub reclaim_to-next_seq :
    (oldest : ℕ) (reason : Bytes) (c : JournalCursor)
    → (reclaim_to oldest reason c).1.next_seq ≡ c.next_seq
unfolding reclaim_to
reclaim_to-next_seq oldest reason c = ground arith

-- The segments that are left when those of some numbers go, one after the other.
abbrev pub drop_all : List ℕ → List SegmentRecord → List SegmentRecord
drop_all [] gs = gs
drop_all (id ∷ ids) gs = drop_all ids (drop_segment id gs)

-- The stream behind the deletion of some segments.
pub record IsReclaimed (ids : List ℕ) (s t : StreamState) (pss : List (List Bytes))
    (ps : List Bytes) : Type 0 where
  pub kept : IsKept s t
  pub payloads : List (List Bytes)
  pub stored : IsStored t payloads ps
  pub closed : t.closed ≡ drop_all ids s.closed
