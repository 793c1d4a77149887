-- ===== src/Telemetry/Tests.antt =====
-- Runs of the telemetry modules at small inputs, and instances of their theorems.
use native.Mathlib.Nat.{div-le_of_le-mul}
use croniot_iot.Prelude.{◌<◌, ◌-◌, ◌^◌, Option}
use croniot_iot.Prelude.{
  ℕ, ◌*◌, ◌/◌, ◌≤◌, ◌≡◌, ◌≢◌, refl, true, false, none, some, List, [], ◌∷◌, arith, ltb, ltb→ge,
}
use croniot_iot.Log.Cursor.{Stream, logs, events, data_stream}
use croniot_iot.Telemetry.Scheduler.{StreamBacklog, find, pick_next}
use croniot_iot.Telemetry.Scheduler.Order.{HasRetry, IsWaiting, IsOverdue, pick_next-IsOverdue}
use croniot_iot.Log.Cursor.{JournalCursor, first_unacked}
use croniot_iot.Telemetry.Uplink.{
  RawBatch, InFlightBatch, Uplink, fresh_uplink, backlog_of, service_slot, service_once, on_ack,
}
use croniot_iot.Log.PerStream.{PerStream, at}
use croniot_iot.Telemetry.Uplink.Slots.{SlotStep, sent_to, service_once-SlotStep}
use croniot_iot.Telemetry.Uplink.Due.{due_count, service_once-due_count}
use croniot_iot.Telemetry.Uplink.Session.{
  IsBounded, booted, serviced, fresh_journal, Reachable-IsBounded, on_ack-delivered,
}
use croniot_iot.Telemetry.Retry.Float.{Double}
use croniot_iot.Telemetry.Retry.{should_give_up, base_delay, next_delay_ms}
use croniot_iot.Telemetry.Retry.Backoff.{base_delay_lem, next_delay_ms_bounds}

abbrev fresh_events : StreamBacklog
fresh_events = record {
  stream = events;
  has_pending = true;
  in_flight = false;
  oldest_pending_age_ms = 9;
  retry_due = false;
}

abbrev old_data : StreamBacklog
old_data = record fresh_events { stream = data_stream; oldest_pending_age_ms = 9000 }

abbrev late_logs : StreamBacklog
late_logs = record fresh_events { stream = logs; in_flight = true; retry_due = true }

abbrev busy : List StreamBacklog
busy = fresh_events ∷ late_logs ∷ old_data ∷ []

pick_next-busy : pick_next busy 5000 7000 ≡ some logs
unfolding pick_next find
pick_next-busy = refl

no_retry : (s : Stream) → ¬ HasRetry (find (fresh_events ∷ old_data ∷ []) s)
unfolding find
no_retry logs h = h
no_retry events h = ground arith
no_retry data_stream h = ground arith

pick_next-IsOverdue_example :
    let bs = fresh_events ∷ old_data ∷ [] in
    let pick = pick_next bs 5000 7000 in
    (IsOverdue 5000 (some old_data) → pick ≡ some data_stream)
    × (¬ IsOverdue 5000 (some old_data) → ⊥ → pick ≡ some logs)
    × (¬ IsOverdue 5000 (some old_data)
        → ¬ ⊥
        → (IsWaiting (some fresh_events) → pick ≡ some events)
          × (¬ IsWaiting (some fresh_events) → ⊥ → pick ≡ some logs)
          × (¬ IsWaiting (some fresh_events)
              → ¬ ⊥
              → IsWaiting (some old_data)
              → pick ≡ some data_stream)
          × (¬ IsWaiting (some fresh_events) → ¬ ⊥ → ¬ IsWaiting (some old_data) → pick ≡ none))
unfolding find
pick_next-IsOverdue_example = pick_next-IsOverdue (fresh_events ∷ old_data ∷ []) 5000 7000 no_retry

-- Thousandths in place of floating-point numbers.
mul-thousandths : (n j : ℕ) → ltb 1000 j ≡ false → n * 1000 * j / 1000 / 1000 ≤ n
mul-thousandths n j h =
    let small = ltb→ge 1000 j h in
    div-le_of_le-mul 1000 (div-le_of_le-mul 1000 {m = n * 1000 * j} {n = 1000 * n} (grind arith))

ltb_irrefl : (n : ℕ) → ltb n n ≡ false
ltb_irrefl n = ground arith

abbrev thousandths : Double
thousandths = record {
  Value = ℕ;
  f_zero = 0;
  f_one = 1000;
  of_nat = λ n. n * 1000;
  to_nat = λ v. v / 1000;
  mul = λ a b. a * b / 1000;
  f_lt = ltb;
  is_nan = λ v. false;
  zero_not_nan = refl;
  one_not_nan = refl;
  f_lt_irrefl = ltb_irrefl;
  one_not_neg = refl;
  mul_le = λ n j small number low high. mul-thousandths n j high;
}

base_delay_example : base_delay 4 1000 60000 ≡ 8000
unfolding base_delay
base_delay_example = refl

base_delay_lem_example : base_delay 8 1000 60000 ≡ 60000
base_delay_lem_example = base_delay_lem 8 1000 60000 (omega arith)

next_delay_ms_bounds_example :
    (8000 ≤ next_delay_ms thousandths 4 1000 60000 250)
    × (next_delay_ms thousandths 4 1000 60000 250 ≤ 16000)
next_delay_ms_bounds_example = next_delay_ms_bounds thousandths 4 1000 60000 250 (omega arith) refl

-- A batch of logs whose acknowledgement is late.
abbrev late_slot : InFlightBatch
late_slot = record {
  active = true;
  batch = record { first_seq = 3; count = 2; frames = 7 ∷ [] };
  attempt = 1;
  next_send_due_ms = 40000;
}

abbrev waiting : Uplink
waiting = record fresh_uplink { in_flight = record fresh_uplink.in_flight { of_logs = late_slot } }

abbrev journal : PerStream JournalCursor
journal = record fresh_journal {
  of_logs = record { stream = logs; next_seq = 9; oldest_seq = 0; has_ack = true; acked_seq = 2 };
}

abbrev no_batch : Stream → ℕ → Option RawBatch
no_batch s from_seq = none

service_once-waiting :
    (service_once thousandths 50000 250 no_batch journal waiting).0 ≡ some (logs, late_slot.batch)
unfolding service_once service_slot backlog_of pick_next find should_give_up
service_once-waiting = refl

small_attempts : (t : Stream) → (at waiting.in_flight t).attempt < 2 ^ 32 - 1
small_attempts logs = omega arith
small_attempts events = omega arith
small_attempts data_stream = omega arith

service_once-SlotStep_example :
    SlotStep 50000 late_slot
      (sent_to logs (service_once thousandths 50000 250 no_batch journal waiting).0)
      (service_once thousandths 50000 250 no_batch journal waiting).1.in_flight.of_logs
service_once-SlotStep_example =
    service_once-SlotStep thousandths 50000 250 no_batch journal waiting logs small_attempts

service_once-due_count_example :
    due_count 50000 (service_once thousandths 50000 250 no_batch journal waiting).1.in_flight < 1
service_once-due_count_example =
    service_once-due_count thousandths 50000 250 (omega arith) refl no_batch journal waiting
      (omega arith)

Reachable-IsBounded_example :
    IsBounded thousandths
      (service_once thousandths 50000 250 no_batch fresh_journal fresh_uplink).1.in_flight.of_data
Reachable-IsBounded_example =
    Reachable-IsBounded thousandths (serviced booted 50000 250 no_batch) data_stream

on_ack-delivered_example :
    let after = on_ack logs 4 journal waiting in
    (after.1.in_flight.of_logs.active ≡ false)
    × (5 ≤ first_unacked after.0.of_logs)
    × ((t : Stream) → t ≢ logs → at after.1.in_flight t ≡ at waiting.in_flight t)
on_ack-delivered_example =
    on_ack-delivered logs journal waiting
      (record {
        room = omega arith;
        reclaimed_written = omega arith;
        acked_written = λ h. omega arith;
      })
      (omega arith) (omega arith)
