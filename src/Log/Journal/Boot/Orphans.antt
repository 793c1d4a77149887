-- ===== src/Log/Journal/Boot/Orphans.antt =====
-- `removeOrphanSegments` (log/Journal.cpp).
use croniot_iot.Prelude.{
  ℕ, ◌==◌, ◌≡◌, refl, ◌∙◌, ◌⊎◌, inl, inr, Bool, true, false, Option, none, some, List, [], ◌∷◌,
  arith, Bool-cases, Bytes,
}
use croniot_iot.Log.Journal.{SegmentRecord, StreamState, Files, bytes_of}
use croniot_iot.Log.Journal.Files.{parse_segment_id}
use croniot_iot.Log.Journal.Stored.{AreClosed}
use croniot_iot.Log.Journal.Boot.{DirEntry, is_among, is_tracked, remove_untracked, remove_orphans}

remove_untracked-tracked :
    (s : StreamState) (removable : Bool) (named : Option ℕ) (files : Files) (id : ℕ)
    → is_tracked s id ≡ true
    → remove_untracked s removable named files id ≡ files id
remove_untracked-tracked s removable none files id t = refl
remove_untracked-tracked s removable (some k) files id t = elim (Bool-cases (k == id)) [
  | inl same ↦ let e : k ≡ id = ground arith in rw (e, t)
  | inr other ↦ ground arith
]

-- The files of tracked segments are left alone.
pub remove_orphans-tracked :
    (prefix : Bytes) (s : StreamState) (entries : List DirEntry) (files : Files) (id : ℕ)
    → is_tracked s id ≡ true
    → remove_orphans prefix s entries files id ≡ files id
unfolding remove_orphans
remove_orphans-tracked prefix s [] files id t = refl
remove_orphans-tracked prefix s (e ∷ es) files id t =
    let named = parse_segment_id e.name prefix in
    remove_orphans-tracked prefix s es (remove_untracked s e.removable named files) id t
    ∙ remove_untracked-tracked s e.removable named files id t

-- A file that is removed, or was not there, does not come back.
remove_orphans-none :
    (prefix : Bytes) (s : StreamState) (entries : List DirEntry) (files : Files) (id : ℕ)
    → files id ≡ none
    → remove_orphans prefix s entries files id ≡ none
unfolding remove_orphans
remove_orphans-none prefix s [] files id gone = gone
remove_orphans-none prefix s (e ∷ es) files id gone =
    let named = parse_segment_id e.name prefix in
    remove_orphans-none prefix s es (remove_untracked s e.removable named files) id
      (still_gone named)
  where
    still_gone : (named : Option ℕ) → remove_untracked s e.removable named files id ≡ none
    still_gone none = gone
    still_gone (some k) = ground arith

-- The directory lists the segment's file, which can be removed.
abbrev pub IsListed : Bytes → ℕ → List DirEntry → Type 0
IsListed prefix id [] = ⊥
IsListed prefix id (e ∷ es) =
    ((parse_segment_id e.name prefix ≡ some id) × (e.removable ≡ true)) ⊎ IsListed prefix id es

remove_untracked_self :
    (s : StreamState) (id : ℕ) (files : Files)
    → is_tracked s id ≡ false
    → remove_untracked s true (some id) files id ≡ none
remove_untracked_self s id files t = rw t (ground arith)

-- Every listed file that the index does not track is gone.
pub remove_orphans-untracked :
    (prefix : Bytes) (s : StreamState) (entries : List DirEntry) (files : Files) (id : ℕ)
    → is_tracked s id ≡ false
    → IsListed prefix id entries
    → remove_orphans prefix s entries files id ≡ none
unfolding remove_orphans
remove_orphans-untracked prefix s [] files id t listed = absurd listed
remove_orphans-untracked prefix s (e ∷ es) files id t (inl here) =
    rw (here.0, here.1)
      (remove_orphans-none prefix s es (remove_untracked s true (some id) files) id
        (remove_untracked_self s id files t))
remove_orphans-untracked prefix s (e ∷ es) files id t (inr later) =
    remove_orphans-untracked prefix s es
      (remove_untracked s e.removable (parse_segment_id e.name prefix) files) id t later

-- A file without bytes stays one.
pub remove_orphans-empty :
    (prefix : Bytes) (s : StreamState) (entries : List DirEntry) (files : Files) (id : ℕ)
    → bytes_of (files id) ≡ []
    → bytes_of (remove_orphans prefix s entries files id) ≡ []
unfolding remove_orphans
remove_orphans-empty prefix s [] files id e = e
remove_orphans-empty prefix s (k ∷ es) files id e =
    let named = parse_segment_id k.name prefix in
    remove_orphans-empty prefix s es (remove_untracked s k.removable named files) id
      (still_empty named)
  where
    still_empty : (named : Option ℕ) → bytes_of (remove_untracked s k.removable named files id) ≡ []
    still_empty none = e
    still_empty (some i) = ground arith

-- Closed segments depend on their own files alone.
pub AreClosed-agree :
    (files files' : Files) (gs : List SegmentRecord) (pss : List (List Bytes)) (id seq : ℕ)
    → ((i : ℕ) → is_among i gs ≡ true → files' i ≡ files i)
    → AreClosed files gs pss id seq
    → AreClosed files' gs pss id seq
unfolding is_among
AreClosed-agree files files' [] [] id seq same h = tt
AreClosed-agree files files' [] (ps ∷ pss) id seq same h = h
AreClosed-agree files files' (g ∷ gs) [] id seq same h = h
AreClosed-agree files files' (g ∷ gs) (ps ∷ pss) id seq same h = (
  record {
    file = same g.segment_id (ground arith) ∙ h.0.file;
    fits = h.0.fits;
    size = h.0.size;
    small = h.0.small;
    not_empty = h.0.not_empty;
    numbered = h.0.numbered;
  },
  h.1,
  h.2,
  AreClosed-agree files files' gs pss id seq (λ i among. same i (ground arith)) h.3,
)

-- `removeOrphanSegments` leaves the files of all tracked segments as they are, whatever the directory
-- lists, and removes the file of every other segment that is listed and can be removed.
pub remove_orphans_lem :
    (prefix : Bytes) (s : StreamState) (entries : List DirEntry) (files : Files) (id : ℕ)
    → (is_tracked s id ≡ true → remove_orphans prefix s entries files id ≡ files id)
      × (is_tracked s id ≡ false
          → IsListed prefix id entries
          → remove_orphans prefix s entries files id ≡ none)
remove_orphans_lem prefix s entries files id = (
  remove_orphans-tracked prefix s entries files id,
  remove_orphans-untracked prefix s entries files id,
)
