-- ===== src/Log/Journal/Rotate.antt =====
-- `rotateIfNeeded` and `saveIndex` (log/Journal.cpp), and the records' places.
use mathlib.Core.List.{flatten}
use croniot_iot.Prelude.{
  ℕ, ◌^◌, ◌+◌, ◌≤◌, ◌<◌, ◌≡◌, refl, sym, ap, ◌∙◌, Bool, true, false, ◌&&◌, Option, none, some, List,
  [], ◌∷◌, ◌++◌, append_assoc, append-nil, arith, ltb, ltb→lt, leb, Bool-cases, inl, inr, length,
  Bytes,
}
use croniot_iot.Prelude.Words.{u32}
use croniot_iot.Log.Cursor.{Stream}
use croniot_iot.Log.Frames.Format.{segment}
use croniot_iot.Log.Journal.{
  StreamState, Conditions, bytes_of, segment_count, segment_rotate_bytes, max_tracked_segments,
  IndexFile, index_of, next_segment, save_index, rotate_if_needed,
}
use croniot_iot.Log.Journal.Stored.{IsStored, HasRoom, AreClosed-append, newest_of}

pub file_of :
    (f : Option Bytes) (file : Bytes) → bytes_of f ≡ file → 0 < length file → f ≡ some file
file_of none file e long = absurd (omega (arith, ap length e))
file_of (some g) file e long = ap some e

-- What the segments hold behind a rotation.
abbrev pub rotated_closed : Bool → List (List Bytes) → List Bytes → List (List Bytes)
rotated_closed true pss ps = pss ++ ps ∷ []
rotated_closed false pss ps = pss

abbrev pub rotated_open : Bool → List Bytes → List Bytes
rotated_open true ps = []
rotated_open false ps = ps

abbrev pub is_full : StreamState → Bool
is_full s = leb segment_rotate_bytes s.open_segment_bytes

pub newest_last :
    (ps : List Bytes) (newest next : ℕ)
    → newest ≡ newest_of ps next
    → 0 < length ps
    → 0 < next
    → newest + 1 ≡ next
newest_last [] newest next e long pos = absurd (omega arith)
newest_last (p ∷ ps) newest next e long pos = omega arith

pub segment_long : (ps : List Bytes) → 0 < length (segment ps) → 0 < length ps
segment_long [] h = h
segment_long (p ∷ ps) h = omega arith

module _ {s : StreamState} {pss : List (List Bytes)} {ps : List Bytes} (h : IsStored s pss ps) where
  next_segment-IsStored :
      (uptime : ℕ)
      → segment_rotate_bytes ≤ s.open_segment_bytes
      → s.open_segment_bytes < 2 ^ 31
      → segment_count s < max_tracked_segments
      → IsStored (next_segment uptime s) (pss ++ ps ∷ []) []
  unfolding next_segment
  next_segment-IsStored uptime full small tracked =
      let test : ltb (segment_count s) max_tracked_segments ≡ true = ground arith in
      let long = segment_long ps (omega (arith, h.size)) in
      let id' : u32 (s.open_segment.segment_id + 1) ≡ s.open_segment.segment_id + 1 =
        omega (arith, h.named, h.numbered, h.room) in
      let last =
        newest_last ps s.open_segment.newest_seq s.cursor.next_seq h.newest long
          (omega (arith, h.numbered)) in
      rw (test, id')
        (record {
          file = h.ahead (s.open_segment.segment_id + 1) (omega arith);
          fits = tt;
          numbered = omega arith;
          size = refl;
          known_size = refl;
          newest = refl;
          named = omega (arith, h.named, h.numbered);
          room = h.room;
          closed =
              AreClosed-append s.files s.closed pss
                (record s.open_segment { closed_at_uptime_sec = u32 uptime }) ps
                (s.open_segment.segment_id + 1) s.cursor.next_seq h.closed
                (record {
                  file =
                      file_of (s.files s.open_segment.segment_id) (segment ps) h.file
                        (omega (arith, h.size));
                  fits = h.fits;
                  size = h.known_size ∙ h.size;
                  small = omega (arith, h.size, small);
                  not_empty = long;
                  numbered = last ∙ sym h.numbered;
                })
                (omega arith) (omega (arith, last));
          ahead = λ i above. h.ahead i (omega arith);
        })

  -- Neither the index nor the day of a warning matter.
  pub index-IsStored :
      (i : Option IndexFile) (day : ℕ)
      → IsStored (record s { index = i; last_budget_warn_day = day }) pss ps
  index-IsStored i day = record {
    file = h.file;
    fits = h.fits;
    numbered = h.numbered;
    size = h.size;
    known_size = h.known_size;
    newest = h.newest;
    named = h.named;
    room = h.room;
    closed = h.closed;
    ahead = h.ahead;
  }

  pub save_index-IsStored : (saves : Bool) → IsStored (save_index saves s) pss ps
  unfolding save_index
  save_index-IsStored saves = elim (Bool-cases (s.mounted && saves)) [
    | inl saved ↦ rw saved (index-IsStored (some (index_of s)) s.last_budget_warn_day)
    | inr not_saved ↦ rw not_saved h
  ]

save_index-HasRoom : (saves : Bool) (s : StreamState) → HasRoom s → HasRoom (save_index saves s)
unfolding save_index
save_index-HasRoom saves s r = ground arith

next_segment-HasRoom : (uptime : ℕ) (s : StreamState) → HasRoom (next_segment uptime s)
unfolding next_segment
next_segment-HasRoom uptime s = ground arith

-- A rotation loses nothing while another segment can be tracked.
pub rotate_if_needed-IsStored :
    (stream : Stream) (c : Conditions) {s : StreamState} {pss : List (List Bytes)} {ps : List Bytes}
    → IsStored s pss ps
    → s.open_segment_bytes < 2 ^ 31
    → segment_count s < max_tracked_segments
    → IsStored
        (rotate_if_needed stream c s).0
        (rotated_closed (is_full s) pss ps)
        (rotated_open (is_full s) ps)
      × HasRoom (rotate_if_needed stream c s).0
unfolding rotate_if_needed
rotate_if_needed-IsStored stream c {s} h small tracked =
    elim (Bool-cases (ltb s.open_segment_bytes segment_rotate_bytes)) [
      | inl room ↦
          let not_full : is_full s ≡ false = ground arith in
          rw (room, not_full) (h, ltb→lt s.open_segment_bytes segment_rotate_bytes room)
      | inr full ↦
          let is : is_full s ≡ true = ground arith in
          rw (full, is)
            (
              save_index-IsStored
                  (next_segment-IsStored h c.uptime_sec (ground arith) small tracked) c.saves,
              save_index-HasRoom c.saves (next_segment c.uptime_sec s)
                  (next_segment-HasRoom c.uptime_sec s),
            )
    ]

flatten_snoc :
    (pss : List (List Bytes)) (ps : List Bytes) → flatten (pss ++ ps ∷ []) ≡ flatten pss ++ ps
unfolding flatten
flatten_snoc [] ps = append-nil ps
flatten_snoc (qs ∷ pss) ps = ap (◌++◌ qs) (flatten_snoc pss ps) ∙ simp append_assoc

pub flatten-rotated :
    (full : Bool) (pss : List (List Bytes)) (ps : List Bytes)
    → flatten (rotated_closed full pss ps) ++ rotated_open full ps ≡ flatten pss ++ ps
flatten-rotated true pss ps = append-nil (flatten (pss ++ ps ∷ [])) ∙ flatten_snoc pss ps
flatten-rotated false pss ps = refl
