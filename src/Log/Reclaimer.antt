-- ===== src/Log/Reclaimer.antt =====
-- components/croniot/src/log/SpaceReclaimer.{h,cpp}: which closed segments go when space is short.
-- The computations on `double` are a parameter.
pub mod Members
pub mod Order
pub mod Priority
pub mod Sacrifice
use croniot_iot.Prelude.{
  ℕ, ◌+◌, Bool, true, false, not, ◌&&◌, ◌||◌, List, [], ◌∷◌, ◌++◌, ltb, leb, ◌==◌, if◌then◌else◌,
  is_empty,
}
use croniot_iot.Prelude.Words.{u64}
use croniot_iot.Log.Cursor.{Stream, logs, events, data_stream}
use croniot_iot.Log.PerStream.{stream_eq}

-- What `reclaim` uses of `double`.
pub record Percents : Type 1 where
  pub Value : Type 0
  pub of_u64 : ℕ → Value
  pub to_u64 : Value → ℕ
  pub mul : Value → Value → Value
  pub div : Value → Value → Value
  pub f_ge : Value → Value → Bool
  pub f_lt : Value → Value → Bool

-- `SegmentInfo`.
pub record SegmentInfo : Type 0 where
  pub stream : Stream
  pub segment_id : ℕ
  pub oldest_seq : ℕ
  pub newest_seq : ℕ
  pub size_bytes : ℕ
  pub fully_acked : Bool
  pub age_seconds : ℕ

-- `SpaceReclaimer::Result`.
pub record Result : Type 0 where
  pub segment_ids_to_delete : List ℕ
  pub reached_low_water_mark : Bool
  pub had_to_breach_retention_window : Bool
  pub degraded_to_ram_only : Bool

-- The vector that the loop over the segments puts a segment in; 0 is none.
unfoldable pub tier_of : ℕ → SegmentInfo → ℕ
tier_of retention g =
    if g.fully_acked
    then 1
    else if stream_eq g.stream data_stream && ltb retention g.age_seconds
    then 2
    else if stream_eq g.stream logs
    then 3
    else if stream_eq g.stream data_stream
    then 4
    else 0

-- `std::sort` with `byAge`. Segments of one number do not occur in one stream.
unfoldable pub insert_by_age : SegmentInfo → List SegmentInfo → List SegmentInfo
insert_by_age g [] = g ∷ []
insert_by_age g (h ∷ hs) =
    let later = h ∷ insert_by_age g hs in
    if ltb h.segment_id g.segment_id then later else g ∷ h ∷ hs

unfoldable pub sort_by_age : List SegmentInfo → List SegmentInfo
sort_by_age [] = []
sort_by_age (g ∷ gs) = insert_by_age g (sort_by_age gs)

-- `tier1` to `tier4`, as the loop over the segments fills them.
unfoldable pub in_tier : ℕ → ℕ → List SegmentInfo → List SegmentInfo
in_tier retention n [] = []
in_tier retention n (g ∷ gs) =
    let rest = in_tier retention n gs in if tier_of retention g == n then g ∷ rest else rest

-- A tier, sorted.
abbrev pub tier : ℕ → ℕ → List SegmentInfo → List SegmentInfo
tier retention n segments = sort_by_age (in_tier retention n segments)

-- What `consume` writes: `freed` and `segmentIdsToDelete`.
pub record Chosen : Type 0 where
  pub freed : ℕ
  pub ids : List ℕ

-- `consume`.
unfoldable pub consume : ℕ → List SegmentInfo → Chosen → Chosen
consume target [] c = c
consume target (g ∷ gs) c =
    let more =
      consume target gs
        (record { freed = u64 (c.freed + g.size_bytes); ids = c.ids ++ g.segment_id ∷ [] }) in
    if leb target c.freed then c else more

abbrev no_result : Result
no_result = record {
  segment_ids_to_delete = [];
  reached_low_water_mark = false;
  had_to_breach_retention_window = false;
  degraded_to_ram_only = false;
}

-- `reclaim` behind the tests on the free space.
unfoldable pub sacrifice : ℕ → Bool → ℕ → ℕ → List SegmentInfo → Result
sacrifice target critical retention free segments =
    let start : Chosen = record { freed = free; ids = [] } in
    let one = consume target (tier retention 1 segments) start in
    let two = consume target (tier retention 2 segments) one in
    let three = consume target (tier retention 3 segments) two in
    let breach = ltb three.freed target && critical in
    let last = if breach then consume target (tier retention 4 segments) three else three in
    record {
      segment_ids_to_delete = last.ids;
      reached_low_water_mark = leb target last.freed;
      had_to_breach_retention_window = breach && not (is_empty (tier retention 4 segments));
      degraded_to_ram_only = not (leb target last.freed);
    }

module _ (d : Percents) where
  open d use {Value, of_u64, to_u64, mul, div, f_ge, f_lt}

  -- `percentFree` and `targetFreeBytes`.
  abbrev pub percent_free : ℕ → ℕ → Value
  percent_free total free = div (mul (of_u64 free) (of_u64 100)) (of_u64 total)

  abbrev pub target_free_bytes : ℕ → Value → ℕ
  target_free_bytes total low = to_u64 (div (mul (of_u64 total) low) (of_u64 100))

  -- `SpaceReclaimer::reclaim`.
  unfoldable pub reclaim : List SegmentInfo → ℕ → ℕ → ℕ → Value → Value → Result
  reclaim segments total free retention low critical =
      if total == 0
      then no_result
      else if f_ge (percent_free total free) low
      then record no_result { reached_low_water_mark = true }
      else sacrifice (target_free_bytes total low) (f_lt (percent_free total free) critical)
          retention free segments
