-- ===== src/Telemetry/Uplink/Slots.antt =====
-- What a service does to the batches in flight.
use croniot_iot.Prelude.{
  ℕ, ◌+◌, ◌-◌, leb→le, leb→gt, ◌≤◌, ◌<◌, ◌^◌, ◌≡◌, refl, Bool, true, false, Option, none, some,
  arith, ltb, leb, if◌then◌else◌, Bool-cases, inl, inr, ltb→ge,
}
use croniot_iot.Prelude.Words.{u32, u64}
use croniot_iot.Log.Cursor.{Stream, logs, events, data_stream, JournalCursor, first_unacked}
use croniot_iot.Telemetry.Scheduler.{pick_next}
use croniot_iot.Log.PerStream.{stream_eq}
use croniot_iot.Telemetry.Retry.{should_give_up, next_delay_ms}
use croniot_iot.Telemetry.Retry.Float.{Double}
use croniot_iot.Telemetry.Uplink.{
  RawBatch, InFlightBatch, Uplink, max_attempts, ack_timeout_ms, backoff_cap_ms, data_starvation_ms,
  logs_starvation_ms, observe, backlogs_of, send_fresh, retry, retry_unless, serve, service_slot,
  sent_on, service_pick, service_once,
}
use croniot_iot.Log.PerStream.{PerStream, at}

-- The life of the batch in flight of one stream: its slot, what goes out, and the slot behind it.
pub data SlotStep (now : ℕ) : InFlightBatch → Option RawBatch → InFlightBatch → Type 0 where
  stays : (b : InFlightBatch) → SlotStep now b none b
  first_send :
      (b : InFlightBatch) (r : RawBatch)
      → b.active ≡ false
      → SlotStep now b (some r) (record {
        active = true;
        batch = r;
        attempt = 1;
        next_send_due_ms = u64 (now + ack_timeout_ms);
      })
  resend :
      (b : InFlightBatch) (due : ℕ)
      → b.active ≡ true
      → b.next_send_due_ms ≤ now
      → b.attempt + 1 < max_attempts
      → SlotStep now b (some b.batch) (record b { attempt = b.attempt + 1; next_send_due_ms = due })
  give_up :
      (b : InFlightBatch)
      → b.active ≡ true
      → b.next_send_due_ms ≤ now
      → max_attempts ≤ b.attempt + 1
      → SlotStep now b none (record b { attempt = b.attempt + 1; active = false })

-- What went out on a stream.
abbrev pub sent_to : Stream → Option (Stream × RawBatch) → Option RawBatch
sent_to s none = none
sent_to s (some (t, b)) = if stream_eq t s then some b else none

module _ (d : Double) (now : ℕ) (jitter : d.Value) where
  retry-SlotStep :
      (slot : InFlightBatch)
      → slot.active ≡ true
      → slot.next_send_due_ms ≤ now
      → slot.attempt < 2 ^ 32 - 1
      → SlotStep now slot (retry d now jitter slot).0 (retry d now jitter slot).1
  unfolding should_give_up
  retry-SlotStep slot act due small =
      let n = slot.attempt + 1 in
      let word : u32 n ≡ n = omega arith in
      elim (Bool-cases (leb max_attempts n)) [
        | inl over ↦ rw (word, over) (give_up slot act due (leb→le max_attempts n over))
        | inr more ↦
            rw (word, more)
              (resend slot (u64 (now + next_delay_ms d n ack_timeout_ms backoff_cap_ms jitter)) act
                due (leb→gt max_attempts n more))
      ]

  send_fresh-SlotStep :
      (read : Option RawBatch) (slot : InFlightBatch)
      → slot.active ≡ false
      → SlotStep now slot (send_fresh now read slot).0 (send_fresh now read slot).1
  send_fresh-SlotStep none slot idle = stays slot
  send_fresh-SlotStep (some r) slot idle = first_send slot r idle

  retry_unless-SlotStep :
      (early : Bool) (slot : InFlightBatch)
      → ltb now slot.next_send_due_ms ≡ early
      → slot.active ≡ true
      → slot.attempt < 2 ^ 32 - 1
      → SlotStep now slot
          (retry_unless d early now jitter slot).0
          (retry_unless d early now jitter slot).1
  retry_unless-SlotStep true slot e act small = stays slot
  retry_unless-SlotStep false slot e act small =
      retry-SlotStep slot act (ltb→ge now slot.next_send_due_ms e) small

  serve-SlotStep :
      (act : Bool) (read : Option RawBatch) (slot : InFlightBatch)
      → slot.active ≡ act
      → slot.attempt < 2 ^ 32 - 1
      → SlotStep now slot (serve d act now jitter read slot).0 (serve d act now jitter read slot).1
  serve-SlotStep true read slot e small =
      retry_unless-SlotStep (ltb now slot.next_send_due_ms) slot refl e small
  serve-SlotStep false read slot e small = send_fresh-SlotStep read slot e

  service_slot-SlotStep :
      (read : Option RawBatch) (slot : InFlightBatch)
      → slot.attempt < 2 ^ 32 - 1
      → SlotStep now slot
          (service_slot d now jitter read slot).0
          (service_slot d now jitter read slot).1
  unfolding service_slot
  service_slot-SlotStep read slot small = serve-SlotStep slot.active read slot refl small

  sent_to_self : (s : Stream) (o : Option RawBatch) → sent_to s (sent_on d s o) ≡ o
  sent_to_self s none = refl
  sent_to_self logs (some b) = refl
  sent_to_self events (some b) = refl
  sent_to_self data_stream (some b) = refl

  sent_to_other :
      (t s : Stream) (o : Option RawBatch)
      → stream_eq t s ≡ false
      → sent_to s (sent_on d t o) ≡ none
  sent_to_other t s none e = refl
  sent_to_other t s (some b) e = rw e

  module _ (read_from : Stream → ℕ → Option RawBatch) (j : PerStream JournalCursor) where
    abbrev reply : Uplink → Stream → Option RawBatch
    reply u t =
        (service_slot d now jitter (read_from t (first_unacked (at j t))) (at u.in_flight t)).0

    reply-SlotStep :
        (u : Uplink) (t : Stream)
        → (at u.in_flight t).attempt < 2 ^ 32 - 1
        → SlotStep now
            (at u.in_flight t)
            (reply u t)
            (service_slot d now jitter (read_from t (first_unacked (at j t))) (at u.in_flight t)).1
    reply-SlotStep u t small =
        service_slot-SlotStep (read_from t (first_unacked (at j t))) (at u.in_flight t) small

    service_pick-SlotStep :
        (u : Uplink) (pick : Option Stream) (s : Stream)
        → ((t : Stream) → (at u.in_flight t).attempt < 2 ^ 32 - 1)
        → SlotStep now
            (at u.in_flight s)
            (sent_to s (service_pick d now jitter read_from j u pick).0)
            (at (service_pick d now jitter read_from j u pick).1.in_flight s)
    service_pick-SlotStep u none s small = stays (at u.in_flight s)
    service_pick-SlotStep u (some logs) logs small =
        rw (sent_to_self logs (reply u logs)) (reply-SlotStep u logs (small logs))
    service_pick-SlotStep u (some logs) events small =
        rw (sent_to_other logs events (reply u logs) refl) (stays (at u.in_flight events))
    service_pick-SlotStep u (some logs) data_stream small =
        rw (sent_to_other logs data_stream (reply u logs) refl) (stays (at u.in_flight data_stream))
    service_pick-SlotStep u (some events) logs small =
        rw (sent_to_other events logs (reply u events) refl) (stays (at u.in_flight logs))
    service_pick-SlotStep u (some events) events small =
        rw (sent_to_self events (reply u events)) (reply-SlotStep u events (small events))
    service_pick-SlotStep u (some events) data_stream small =
        rw (sent_to_other events data_stream (reply u events) refl)
          (stays (at u.in_flight data_stream))
    service_pick-SlotStep u (some data_stream) logs small =
        rw (sent_to_other data_stream logs (reply u data_stream) refl) (stays (at u.in_flight logs))
    service_pick-SlotStep u (some data_stream) events small =
        rw (sent_to_other data_stream events (reply u data_stream) refl)
          (stays (at u.in_flight events))
    service_pick-SlotStep u (some data_stream) data_stream small =
        rw (sent_to_self data_stream (reply u data_stream))
          (reply-SlotStep u data_stream (small data_stream))

  -- The uplink refines the life of its batches. Whatever a service does, each stream's batch in
  -- flight stays as it is, is sent for the first time when none was in flight, is sent again as the
  -- same batch once it is due, or is given up after its last attempt.
  pub service_once-SlotStep :
      (read_from : Stream → ℕ → Option RawBatch) (j : PerStream JournalCursor) (u : Uplink)
      (s : Stream)
      → ((t : Stream) → (at u.in_flight t).attempt < 2 ^ 32 - 1)
      → SlotStep now
          (at u.in_flight s)
          (sent_to s (service_once d now jitter read_from j u).0)
          (at (service_once d now jitter read_from j u).1.in_flight s)
  unfolding service_once
  service_once-SlotStep read_from j u s small =
      service_pick-SlotStep read_from j (observe now j u)
        (pick_next (backlogs_of now j u) data_starvation_ms logs_starvation_ms) s small
