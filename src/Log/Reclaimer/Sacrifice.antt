-- ===== src/Log/Reclaimer/Sacrifice.antt =====
-- The whole of `SpaceReclaimer::reclaim` (log/SpaceReclaimer.cpp).
use croniot_iot.Prelude.{ℕ, ◌≤◌, ◌<◌, ◌==◌, ◌≡◌, ◌≢◌, refl, Bool, true, false, not, List, leb}
use croniot_iot.Log.Cursor.{events, data_stream}
use croniot_iot.Log.Reclaimer.{
  Percents, SegmentInfo, Result, tier_of, percent_free, target_free_bytes, reclaim,
}
use croniot_iot.Log.Reclaimer.Order.{shortest, freed_by, ids_of, plan, sacrifice-shortest}
use croniot_iot.Log.Reclaimer.Members.{IsIn}
use croniot_iot.Log.Reclaimer.Priority.{shortest-plan-tier_of, shortest-plan-spared}

-- What a reclaim promises of the segments that it chooses.
pub record IsSacrifice (target : ℕ) (critical : Bool) (retention free : ℕ) (gs : List SegmentInfo)
    (r : Result) : Type 0 where
  pub chosen : List SegmentInfo
  pub ids : r.segment_ids_to_delete ≡ ids_of chosen
  -- No more than it takes.
  pub front : chosen ≡ shortest target free (plan retention critical gs)
  pub reached : r.reached_low_water_mark ≡ leb target (freed_by free chosen)
  pub degraded : r.degraded_to_ram_only ≡ not (leb target (freed_by free chosen))
  -- None while one that goes earlier stays.
  pub ordered :
      (g h : SegmentInfo)
      → IsIn g gs
      → 0 < tier_of retention g
      → tier_of retention g < tier_of retention h
      → IsIn h chosen
      → IsIn g chosen
  -- Of what the server lacks, no events, and young Data only where space is critical.
  pub spared :
      (g : SegmentInfo)
      → IsIn g chosen
      → g.fully_acked ≡ false
      → (g.stream ≢ events) × (g.stream ≡ data_stream → g.age_seconds ≤ retention → critical ≡ true)

-- Where the partition is not empty and less of it is free than the low-water mark, `reclaim` chooses
-- the shortest front of its order that frees enough, or all of it, and says whether that is enough:
-- no segment goes while one of an earlier tier stays (what the server has, Data past its retention,
-- Logs, other Data), no events that the server lacks go at all, and such Data within its retention
-- only where space is critical. Sums of sizes wrap at 2^64.
pub reclaim-IsSacrifice :
    (d : Percents) (gs : List SegmentInfo) (total free retention : ℕ) (low critical : d.Value)
    → (total == 0) ≡ false
    → d.f_ge (percent_free d total free) low ≡ false
    → IsSacrifice
        (target_free_bytes d total low)
        (d.f_lt (percent_free d total free) critical)
        retention
        free
        gs
        (reclaim d gs total free retention low critical)
unfolding reclaim
reclaim-IsSacrifice d gs total free retention low critical some_bytes short =
    let target = target_free_bytes d total low in
    let crit = d.f_lt (percent_free d total free) critical in
    let r = sacrifice-shortest target crit retention free gs in
    rw (some_bytes, short)
      (record {
        chosen = shortest target free (plan retention crit gs);
        ids = r.0;
        front = refl;
        reached = r.1;
        degraded = r.2;
        ordered = λ g h. shortest-plan-tier_of target free retention crit gs g h;
        spared = λ g. shortest-plan-spared target free retention crit gs g;
      })
