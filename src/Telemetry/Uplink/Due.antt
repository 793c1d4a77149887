-- ===== src/Telemetry/Uplink/Due.antt =====
-- Retries that are due, in telemetry/Uplink.cpp.
use croniot_iot.Prelude.{
  ℕ, ◌+◌, ◌-◌, ◌<◌, ◌^◌, ◌≡◌, refl, sym, ◌∙◌, Bool, true, false, ◌&&◌, Option, some, arith, ltb,
  leb, Bool-cases, Option-cases, inl, inr,
}
use croniot_iot.Prelude.Words.{u32, u64}
use croniot_iot.Log.Cursor.{Stream, logs, events, data_stream, JournalCursor, first_unacked}
use croniot_iot.Telemetry.Scheduler.{find, is_retry, pick_next}
use croniot_iot.Telemetry.Scheduler.Order.{pick_next-is_retry}
use croniot_iot.Telemetry.Retry.{should_give_up, next_delay_ms}
use croniot_iot.Telemetry.Retry.Float.{Double}
use croniot_iot.Telemetry.Retry.Backoff.{one-le-pow, next_delay_ms_bounds}
use croniot_iot.Telemetry.Uplink.{
  RawBatch, InFlightBatch, Uplink, ack_timeout_ms, backoff_cap_ms, data_starvation_ms,
  logs_starvation_ms, observe, backlog_of, backlogs_of, retry, retry_unless, serve, service_slot,
  service_pick, service_once,
}
use croniot_iot.Log.PerStream.{PerStream, at}

-- The batch in flight waits for its acknowledgement no longer.
abbrev pub is_due : ℕ → InFlightBatch → Bool
is_due now slot = slot.active && leb slot.next_send_due_ms now

abbrev count_if : Bool → ℕ
count_if true = 1
count_if false = 0

-- How many batches wait for a retry that is due.
abbrev pub due_count : ℕ → PerStream InFlightBatch → ℕ
due_count now p =
    count_if (is_due now p.of_logs)
    + count_if (is_due now p.of_events)
    + count_if (is_due now p.of_data)

is_retry-backlogs :
    (now : ℕ) (j : PerStream JournalCursor) (u : Uplink) (s : Stream)
    → is_retry (find (backlogs_of now j u) s) ≡ is_due now (at u.in_flight s)
unfolding find backlog_of
is_retry-backlogs now j u logs = ground arith
is_retry-backlogs now j u events = ground arith
is_retry-backlogs now j u data_stream = ground arith

some_due :
    (now : ℕ) (p : PerStream InFlightBatch)
    → 0 < due_count now p
    → (s : Stream) × (is_due now (at p s) ≡ true)
some_due now p h = elim (Bool-cases (is_due now p.of_logs)) [
  | inl e ↦ (logs, e)
  | inr no_logs ↦ elim (Bool-cases (is_due now p.of_events)) [
    | inl e ↦ (events, e)
    | inr no_events ↦ (data_stream, ground arith)
  ]
]

module _ (d : Double) (now : ℕ) (jitter : d.Value) (early : now < 2 ^ 63)
    (number : d.is_nan jitter ≡ false) where
  next_due : (n : ℕ) → now < u64 (now + next_delay_ms d n ack_timeout_ms backoff_cap_ms jitter)
  next_due n =
      let b = next_delay_ms_bounds d n ack_timeout_ms backoff_cap_ms jitter (omega arith) number in
      let p = one-le-pow (n - 1) in omega (arith, b, p)

  retry-is_due : (slot : InFlightBatch) → is_due now (retry d now jitter slot).1 ≡ false
  unfolding should_give_up
  retry-is_due slot = ground (arith, next_due (u32 (slot.attempt + 1)))

  retry_unless-is_due :
      (early : Bool) (slot : InFlightBatch)
      → ltb now slot.next_send_due_ms ≡ early
      → is_due now slot ≡ true
      → is_due now (retry_unless d early now jitter slot).1 ≡ false
  retry_unless-is_due true slot e h = absurd (ground arith)
  retry_unless-is_due false slot e h = retry-is_due slot

  serve-is_due :
      (act : Bool) (read : Option RawBatch) (slot : InFlightBatch)
      → slot.active ≡ act
      → is_due now slot ≡ true
      → is_due now (serve d act now jitter read slot).1 ≡ false
  serve-is_due true read slot e h = retry_unless-is_due (ltb now slot.next_send_due_ms) slot refl h
  serve-is_due false read slot e h = absurd (ground arith)

  service_slot-is_due :
      (read : Option RawBatch) (slot : InFlightBatch)
      → is_due now slot ≡ true
      → is_due now (service_slot d now jitter read slot).1 ≡ false
  unfolding service_slot
  service_slot-is_due read slot h = serve-is_due slot.active read slot refl h

  module _ (read_from : Stream → ℕ → Option RawBatch) (j : PerStream JournalCursor) where
    service_pick-due_count :
        (u : Uplink) (s : Stream)
        → is_due now (at u.in_flight s) ≡ true
        → due_count now (service_pick d now jitter read_from j u (some s)).1.in_flight
          < due_count now u.in_flight
    service_pick-due_count u logs h =
        let q =
          service_slot-is_due (read_from logs (first_unacked (at j logs))) (at u.in_flight logs)
            h in
        rw (h, q) (omega arith)
    service_pick-due_count u events h =
        let q =
          service_slot-is_due (read_from events (first_unacked (at j events)))
            (at u.in_flight events) h in
        rw (h, q) (omega arith)
    service_pick-due_count u data_stream h =
        let q =
          service_slot-is_due (read_from data_stream (first_unacked (at j data_stream)))
            (at u.in_flight data_stream) h in
        rw (h, q) (omega arith)

    -- While retries are due, each service lowers their number, by a resend that puts the next one in
    -- the future or by giving up. The clock is below 2^63, and the jitter a number.
    pub service_once-due_count :
        (u : Uplink)
        → 0 < due_count now u.in_flight
        → due_count now (service_once d now jitter read_from j u).1.in_flight
          < due_count now u.in_flight
    unfolding service_once
    service_once-due_count u h =
        let bs = backlogs_of now j u in
        let (t, due) = some_due now u.in_flight h in
        let r =
          pick_next-is_retry bs data_starvation_ms logs_starvation_ms t
            (is_retry-backlogs now j u t ∙ due) in
        elim (Option-cases (pick_next bs data_starvation_ms logs_starvation_ms)) [
          | inl nothing ↦ absurd (r.0 nothing)
          | inr (s, picked) ↦ rw picked (
              service_pick-due_count (observe now j u) s
                (sym (is_retry-backlogs now j u s) ∙ r.1 s picked))
        ]
