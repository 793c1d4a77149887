-- ===== src/Telemetry/Uplink/Session.antt =====
-- Services, acknowledgements and new records, in any order.
use croniot_iot.Prelude.{ℕ, ◌+◌, ◌-◌, ◌≤◌, ◌<◌, ◌^◌, ◌≡◌, ◌≢◌, true, false, Option, arith}
use croniot_iot.Log.Cursor.{
  Stream, logs, events, data_stream, JournalCursor, IsValid, assign_seq, fresh_cursor, ack,
  first_unacked,
}
use croniot_iot.Log.PerStream.{PerStream, at, put, at-put, at-put_self, at-put_ne}
use croniot_iot.Telemetry.Retry.Float.{Double}
use croniot_iot.Telemetry.Uplink.{
  RawBatch, InFlightBatch, Uplink, empty_slot, fresh_uplink, max_attempts, clear_slot, on_ack,
  service_once,
}
use croniot_iot.Log.PerStream.{PerStream, at, put}
use croniot_iot.Telemetry.Uplink.Slots.{
  SlotStep, stays, first_send, resend, give_up, service_once-SlotStep,
}

abbrev pub fresh_journal : PerStream JournalCursor
fresh_journal = record {
  of_logs = fresh_cursor logs;
  of_events = fresh_cursor events;
  of_data = fresh_cursor data_stream;
}

module _ (d : Double) where
  -- The states that a device can come to: services at any time with any batch read, any
  -- acknowledgements, and records appended to any stream.
  pub data Reachable : PerStream JournalCursor → Uplink → Type 0 where
    booted : Reachable fresh_journal fresh_uplink
    serviced :
        {j : PerStream JournalCursor} {u : Uplink}
        → Reachable j u
        → (now : ℕ) (jitter : d.Value) (read_from : Stream → ℕ → Option RawBatch)
        → Reachable j (service_once d now jitter read_from j u).1
    acked :
        {j : PerStream JournalCursor} {u : Uplink}
        → Reachable j u
        → (s : Stream) (up_to : ℕ) → Reachable (on_ack s up_to j u).0 (on_ack s up_to j u).1
    appended :
        {j : PerStream JournalCursor} {u : Uplink}
        → Reachable j u
        → (s : Stream) → Reachable (put s (assign_seq (at j s)).1 j) u

  -- A batch in flight was sent once at least and has an attempt left; no slot counts further.
  pub record IsBounded (slot : InFlightBatch) : Type 0 where
    pub attempts_left : slot.active ≡ true → (0 < slot.attempt) × (slot.attempt < max_attempts)
    pub counted : slot.attempt ≤ max_attempts

  SlotStep-IsBounded :
      (now : ℕ) {b : InFlightBatch} {o : Option RawBatch} {b' : InFlightBatch}
      → SlotStep now b o b'
      → IsBounded b
      → IsBounded b'
  SlotStep-IsBounded now (stays b) v = v
  SlotStep-IsBounded now (first_send b r e) v = record {
    attempts_left = λ h. omega arith;
    counted = omega arith;
  }
  SlotStep-IsBounded now (resend b due act late more) v = record {
    attempts_left = λ h. omega arith;
    counted = omega arith;
  }
  SlotStep-IsBounded now (give_up b act late over) v = record {
    attempts_left = λ h. absurd (ground arith);
    counted = omega (arith, v.attempts_left act);
  }

  clear_slot-IsBounded :
      (up_to : ℕ) (slot : InFlightBatch) → IsBounded slot → IsBounded (clear_slot up_to slot)
  clear_slot-IsBounded up_to slot v = record {
    attempts_left = λ h. ground (arith, v.attempts_left);
    counted = ground (arith, v.counted);
  }

  unsent : IsBounded empty_slot
  unsent = record { attempts_left = λ h. absurd (ground arith); counted = omega arith }

  -- In every session, whatever is acknowledged, read or appended, a batch in flight has been sent at
  -- least once and fewer than eight times.
  pub Reachable-IsBounded :
      {j : PerStream JournalCursor} {u : Uplink}
      → Reachable j u
      → (s : Stream) → IsBounded (at u.in_flight s)
  unfolding on_ack
  Reachable-IsBounded booted logs = unsent
  Reachable-IsBounded booted events = unsent
  Reachable-IsBounded booted data_stream = unsent
  Reachable-IsBounded (serviced {j} {u} r now jitter read_from) s =
      SlotStep-IsBounded now
        (service_once-SlotStep d now jitter read_from j u s
          (λ t. omega (arith, (Reachable-IsBounded r t).counted)))
        (Reachable-IsBounded r s)
  Reachable-IsBounded (acked {j} {u} r t up_to) s =
      at-put IsBounded t s (clear_slot up_to (at u.in_flight t)) u.in_flight
        (clear_slot-IsBounded up_to (at u.in_flight t) (Reachable-IsBounded r t))
        (Reachable-IsBounded r s)
  Reachable-IsBounded (appended r t) s = Reachable-IsBounded r s

clear_slot-delivered :
    (slot : InFlightBatch)
    → 0 < slot.batch.count
    → slot.batch.first_seq + slot.batch.count < 2 ^ 32
    → (clear_slot (slot.batch.first_seq + slot.batch.count - 1) slot).active ≡ false
clear_slot-delivered slot some_record word = ground arith

ack-delivered :
    (c : JournalCursor) (behind : ℕ)
    → IsValid c
    → 0 < behind
    → behind ≤ c.next_seq
    → behind ≤ first_unacked (ack (behind - 1) c)
unfolding ack
ack-delivered c behind v some_record written = ground arith

-- The acknowledgement of a whole batch frees its slot and moves the journal behind it, so that no
-- record of it is read again; the other streams keep their slots. The batch has a record, all of
-- its records were written, and the cursor is well-formed.
pub on_ack-delivered :
    (s : Stream) (j : PerStream JournalCursor) (u : Uplink)
    → IsValid (at j s)
    → 0 < (at u.in_flight s).batch.count
    → (at u.in_flight s).batch.first_seq + (at u.in_flight s).batch.count ≤ (at j s).next_seq
    → let b = (at u.in_flight s).batch in
      let after = on_ack s (b.first_seq + b.count - 1) j u in
      ((at after.1.in_flight s).active ≡ false)
      × (b.first_seq + b.count ≤ first_unacked (at after.0 s))
      × ((t : Stream) → t ≢ s → at after.1.in_flight t ≡ at u.in_flight t)
unfolding on_ack
on_ack-delivered s j u v some_record written =
    let slot = at u.in_flight s in
    let behind = slot.batch.first_seq + slot.batch.count in
    (
      rw (at-put_self s (clear_slot (behind - 1) slot) u.in_flight)
          (clear_slot-delivered slot some_record (omega (arith, v.room))),
      rw (at-put_self s (ack (behind - 1) (at j s)) j)
          (ack-delivered (at j s) behind v (omega arith) written),
      λ t apart. at-put_ne s t (clear_slot (behind - 1) slot) u.in_flight apart,
    )
