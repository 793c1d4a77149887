-- ===== src/Log/Journal/Reclaim/Deleted.antt =====
-- `reclaimMount` (log/Journal.cpp): the deletion of the chosen segments.
use mathlib.Core.Path.{subst}
use croniot_iot.Prelude.{
  ℕ, ◌+◌, ◌≡◌, ◌≢◌, refl, sym, ap, ◌∙◌, inl, inr, Bool, Option, none, some, Option-cases, List, [],
  ◌∷◌, ◌<◌, arith, codes, Bytes,
}
use croniot_iot.Prelude.Words.{u32}
use croniot_iot.Log.Cursor.{Stream, events, GapMarker, JournalCursor, reclaim_to}
use croniot_iot.Log.PerStream.{at, at-put_self}
use croniot_iot.Log.Journal.{SegmentRecord, StreamState, Conditions}
use croniot_iot.Log.Journal.Stored.{IsStored}
use croniot_iot.Log.Journal.Streams.{Journal}
use croniot_iot.Log.Journal.Budget.{append_event-other}
use croniot_iot.Log.Journal.Reclaim.{
  ReclaimInput, find_segment, drop_segment, forget_segment, report_gap, gap_event, delete_found,
  delete_if, delete_segments,
}
use croniot_iot.Log.Journal.Reclaim.Kept.{
  drop_payloads, drop_all, IsKept, IsReclaimed, find_segment-eq-some, drop_segment-none,
  forget_segment-IsStored, reclaim_to-next_seq,
}

pub report_gap-other :
    (stream : Stream) (w : ℕ → Conditions) (id : ℕ) (gap : Option GapMarker) (j : Journal)
    → stream ≢ events
    → at (report_gap w id gap j).states stream ≡ at j.states stream
report_gap-other stream w id none j other = refl
report_gap-other stream w id (some g) j other =
    append_event-other stream (w id) (gap_event g) j other

-- One segment goes.
pub delete_found-forget :
    (stream : Stream) (i : ReclaimInput) (g : SegmentRecord) (j : Journal)
    → stream ≢ events
    → let s = at j.states stream in
      at (delete_found stream i g j).states stream
      ≡ forget_segment
          (i.removes g.segment_id)
          g
          (reclaim_to (u32 (g.newest_seq + 1)) (codes "space_pressure") s.cursor).1
          s
unfolding delete_found
delete_found-forget stream i g j other =
    let s = at j.states stream in
    let r = reclaim_to (u32 (g.newest_seq + 1)) (codes "space_pressure") s.cursor in
    let t = forget_segment (i.removes g.segment_id) g r.1 s in
    report_gap-other stream i.gap_write g.segment_id r.0 _ other ∙ at-put_self stream t j.states

pub IsKept-forget :
    (removed : Bool) (g : SegmentRecord) (c : JournalCursor) (s : StreamState)
    → c.next_seq ≡ s.cursor.next_seq
    → IsKept s (forget_segment removed g c s)
unfolding forget_segment
IsKept-forget removed g c s next = record {
  open_segment = refl;
  open_segment_bytes = refl;
  next_seq = next;
  mounted = refl;
}

pub IsKept-trans : {s t u : StreamState} → IsKept s t → IsKept t u → IsKept s u
IsKept-trans a b = record {
  open_segment = b.open_segment ∙ a.open_segment;
  open_segment_bytes = b.open_segment_bytes ∙ a.open_segment_bytes;
  next_seq = b.next_seq ∙ a.next_seq;
  mounted = b.mounted ∙ a.mounted;
}

pub IsKept-refl : (s : StreamState) → IsKept s s
IsKept-refl s = record {
  open_segment = refl;
  open_segment_bytes = refl;
  next_seq = refl;
  mounted = refl;
}

pub forget-closed :
    (removed : Bool) (g : SegmentRecord) (c : JournalCursor) (s : StreamState)
    → (forget_segment removed g c s).closed ≡ drop_segment g.segment_id s.closed
unfolding forget_segment
forget-closed removed g c s = refl

-- The search and the deletion for one number.
pub delete_if-IsReclaimed :
    (stream : Stream) (i : ReclaimInput) (id : ℕ) (j : Journal) {pss : List (List Bytes)}
    {ps : List Bytes}
    → stream ≢ events
    → IsStored (at j.states stream) pss ps
    → let s = at j.states stream in
      IsReclaimed
        (id ∷ [])
        s
        (at (delete_if stream i (find_segment id s.closed) j).states stream)
        pss
        ps
delete_if-IsReclaimed stream i id j {pss} {ps} other h =
    let s = at j.states stream in
    elim (Option-cases (find_segment id s.closed)) [
      | inl absent ↦ rw absent (record {
        kept = IsKept-refl s;
        payloads = pss;
        stored = h;
        closed = sym (drop_segment-none id s.closed absent);
      })
      | inr (g, found) ↦
          let c = (reclaim_to (u32 (g.newest_seq + 1)) (codes "space_pressure") s.cursor).1 in
          let next =
            reclaim_to-next_seq (u32 (g.newest_seq + 1)) (codes "space_pressure") s.cursor in
          let t = forget_segment (i.removes g.segment_id) g c s in
          let at_most =
            find_segment-eq-some s.files id s.closed pss s.open_segment.segment_id
              s.open_segment.oldest_seq g h.closed found in
          let below : g.segment_id < s.open_segment.segment_id =
            omega (arith, at_most.0, at_most.1) in
          rw (found, delete_found-forget stream i g j other)
            (record {
              kept = IsKept-forget (i.removes g.segment_id) g c s next;
              payloads = drop_payloads g.segment_id s.closed pss;
              stored = forget_segment-IsStored (i.removes g.segment_id) g c h next below;
              closed =
                  forget-closed (i.removes g.segment_id) g c s
                  ∙ ap (λ n. drop_segment n s.closed) at_most.0;
            })
    ]

pub delete_segments-IsReclaimed :
    (stream : Stream) (i : ReclaimInput) (ids : List ℕ) (j : Journal) {pss : List (List Bytes)}
    {ps : List Bytes}
    → stream ≢ events
    → IsStored (at j.states stream) pss ps
    → IsReclaimed ids
        (at j.states stream)
        (at (delete_segments stream i ids j).states stream)
        pss
        ps
unfolding delete_segments
delete_segments-IsReclaimed stream i [] j {pss} other h = record {
  kept = IsKept-refl (at j.states stream);
  payloads = pss;
  stored = h;
  closed = refl;
}
delete_segments-IsReclaimed stream i (id ∷ ids) j other h =
    let s = at j.states stream in
    let one = delete_if-IsReclaimed stream i id j other h in
    let rest =
      delete_segments-IsReclaimed stream i ids (delete_if stream i (find_segment id s.closed) j)
        other one.stored in
    record {
      kept = IsKept-trans one.kept rest.kept;
      payloads = rest.payloads;
      stored = rest.stored;
      closed = rest.closed ∙ ap (drop_all ids) one.closed;
    }

pub IsReclaimed-eq :
    {ids : List ℕ} {s t u : StreamState} {pss : List (List Bytes)} {ps : List Bytes}
    → t ≡ u
    → IsReclaimed ids s u pss ps
    → IsReclaimed ids s t pss ps
IsReclaimed-eq {ids} {s} {pss = pss} {ps = ps} e r =
    subst (λ (x : StreamState). IsReclaimed ids s x pss ps) (sym e) r
