-- ===== src/Log/Journal/Reclaim/Mount.antt =====
-- What `reclaimMount` (log/Journal.cpp) deletes.
use croniot_iot.Prelude.{
  ℕ, ◌==◌, ◌≡◌, ◌≢◌, refl, ◌∙◌, Bool, true, false, not, ◌||◌, List, [], arith, if◌then◌else◌,
  is_empty, Bytes,
}
use croniot_iot.Log.Cursor.{Stream, events}
use croniot_iot.Log.PerStream.{at, at-put_self}
use croniot_iot.Log.Reclaimer.{Percents, Result}
use croniot_iot.Log.Journal.{StreamState, save_index}
use croniot_iot.Log.Journal.Stored.{IsStored}
use croniot_iot.Log.Journal.Streams.{Journal, append_event}
use croniot_iot.Log.Journal.Rotate.{save_index-IsStored}
use croniot_iot.Log.Journal.Budget.{append_event-other, if_either}
use croniot_iot.Log.Journal.Reclaim.{
  ReclaimInput, critical_event, delete_segments, apply_result, decide_reclaim, reclaim_mount,
}
use croniot_iot.Log.Journal.Reclaim.Kept.{IsKept, IsReclaimed}
use croniot_iot.Log.Journal.Reclaim.Deleted.{
  IsKept-trans, IsKept-refl, delete_segments-IsReclaimed, IsReclaimed-eq,
}

save_index-IsKept :
    (saves : Bool) (s : StreamState)
    → IsKept s (save_index saves s) × ((save_index saves s).closed ≡ s.closed)
unfolding save_index
save_index-IsKept saves s = ground arith

IsReclaimed-save_index :
    (saves : Bool) {ids : List ℕ} {s t : StreamState} {pss : List (List Bytes)} {ps : List Bytes}
    → IsReclaimed ids s t pss ps
    → IsReclaimed ids s (save_index saves t) pss ps
IsReclaimed-save_index saves {t = t} r =
    let k = save_index-IsKept saves t in
    record {
      kept = IsKept-trans r.kept k.0;
      payloads = r.payloads;
      stored = save_index-IsStored r.stored saves;
      closed = k.1 ∙ r.closed;
    }

apply_result-IsReclaimed :
    (stream : Stream) (label : Bytes) (i : ReclaimInput) (r : Result) (j : Journal)
    {pss : List (List Bytes)} {ps : List Bytes}
    → stream ≢ events
    → IsStored (at j.states stream) pss ps
    → IsReclaimed r.segment_ids_to_delete
        (at j.states stream)
        (at (apply_result stream label i r j).states stream)
        pss
        ps
unfolding apply_result
apply_result-IsReclaimed stream label i r j {pss} {ps} other h =
    let ids = r.segment_ids_to_delete in
    let deleted = delete_segments stream i ids j in
    let reported : Journal =
      if r.degraded_to_ram_only
      then append_event i.critical_write (critical_event label) deleted
      else deleted in
    let gone = delete_segments-IsReclaimed stream i ids j other h in
    let same : at reported.states stream ≡ at deleted.states stream =
      if_either (λ (k : Journal). at k.states stream ≡ at deleted.states stream)
        r.degraded_to_ram_only
        (append_event-other stream i.critical_write (critical_event label) deleted other) refl in
    let told = IsReclaimed-eq same gone in
    let t = save_index i.saves (at reported.states stream) in
    if_either (λ (k : Journal). IsReclaimed ids (at j.states stream) (at k.states stream) pss ps)
      (is_empty ids) told
      (IsReclaimed-eq (at-put_self stream t reported.states) (IsReclaimed-save_index i.saves told))

-- What one `reclaimMount` deletes.
abbrev pub chosen_ids : Percents → Stream → ℕ → ReclaimInput → StreamState → List ℕ
chosen_ids d stream retention i s =
    if not i.info_ok || i.total == 0
    then []
    else (decide_reclaim d stream retention i s).segment_ids_to_delete

-- A reclaim of a well-formed stream other than the events' keeps it well-formed, whether files can
-- be removed or not and whatever becomes of its events: the closed segments that the reclaimer chose
-- go, in its order, and the others, the open segment with all its records, and the next number stay.
pub reclaim_mount-IsReclaimed :
    (d : Percents) (stream : Stream) (label : Bytes) (retention : ℕ) (i : ReclaimInput)
    (j : Journal) {pss : List (List Bytes)} {ps : List Bytes}
    → stream ≢ events
    → IsStored (at j.states stream) pss ps
    → let s = at j.states stream in
      IsReclaimed
        (chosen_ids d stream retention i s)
        s
        (at (reclaim_mount d stream label retention i j).states stream)
        pss
        ps
unfolding reclaim_mount
reclaim_mount-IsReclaimed d stream label retention i j {pss} {ps} other h =
    let s = at j.states stream in
    let r = decide_reclaim d stream retention i s in
    either_reclaimed (not i.info_ok || i.total == 0) s j (apply_result stream label i r j)
      r.segment_ids_to_delete
      (record { kept = IsKept-refl s; payloads = pss; stored = h; closed = refl })
      (apply_result-IsReclaimed stream label i r j other h)
  where
    either_reclaimed :
        (b : Bool) (s : StreamState) (j k : Journal) (ids : List ℕ)
        → IsReclaimed [] s (at j.states stream) pss ps
        → IsReclaimed ids s (at k.states stream) pss ps
        → IsReclaimed (if b then [] else ids) s (at (if b then j else k).states stream) pss ps
    either_reclaimed true s j k ids a b' = a
    either_reclaimed false s j k ids a b' = b'
