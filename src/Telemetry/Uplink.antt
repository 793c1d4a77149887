-- ===== src/Telemetry/Uplink.antt =====
-- components/croniot/src/telemetry/Uplink.{h,cpp}: one batch in flight for each stream. The journal
-- is its three cursors and what `readFrom` returns, an input of a service. `onAck` starts behind
-- cJSON, with the stream and the number of a well-formed acknowledgement.
pub mod Slots
pub mod Session
pub mod Due
pub use croniot_iot.Log.Journal.Read.{RawBatch}
use croniot_iot.Prelude.{
  ℕ, ◌+◌, ◌-◌, Bool, true, false, ◌&&◌, Option, none, some, List, [], ◌∷◌, ltb, leb, ◌==◌,
  if◌then◌else◌, Bytes,
}
use croniot_iot.Prelude.Words.{u32, u64, sub_u64}
use croniot_iot.Log.Cursor.{Stream, logs, events, data_stream, JournalCursor, ack, first_unacked}
use croniot_iot.Log.PerStream.{PerStream, at, put}
use croniot_iot.Telemetry.Scheduler.{StreamBacklog, pick_next}
use croniot_iot.Telemetry.Retry.{should_give_up, next_delay_ms}
use croniot_iot.Telemetry.Retry.Float.{Double}

-- `InFlightBatch`; its `firstSeq`, `count` and `frames` are `batch`.
pub record InFlightBatch : Type 0 where
  pub active : Bool
  pub batch : RawBatch
  pub attempt : ℕ
  pub next_send_due_ms : ℕ

-- `Uplink`.
pub record Uplink : Type 0 where
  pub in_flight : PerStream InFlightBatch
  pub pending_since_ms : PerStream ℕ
  pub acks_received : ℕ

abbrev pub empty_slot : InFlightBatch
empty_slot = record {
  active = false;
  batch = record { first_seq = 0; count = 0; frames = [] };
  attempt = 0;
  next_send_due_ms = 0;
}

abbrev pub fresh_uplink : Uplink
fresh_uplink = record {
  in_flight = record { of_logs = empty_slot; of_events = empty_slot; of_data = empty_slot };
  pending_since_ms = record { of_logs = 0; of_events = 0; of_data = 0 };
  acks_received = 0;
}

-- The constants, at the values that hold without a configuration of their own.
abbrev pub ack_timeout_ms : ℕ
ack_timeout_ms = 30000

abbrev pub backoff_cap_ms : ℕ
backoff_cap_ms = 300000

abbrev pub max_attempts : ℕ
max_attempts = 8

abbrev pub data_starvation_ms : ℕ
data_starvation_ms = 300000

abbrev pub logs_starvation_ms : ℕ
logs_starvation_ms = 60000

-- `onAck`, behind the parser: the journal and the uplink.
abbrev pub clear_slot : ℕ → InFlightBatch → InFlightBatch
clear_slot up_to slot =
    if slot.active && leb slot.batch.first_seq (u32 (up_to + 1))
    then record slot { active = false }
    else slot

unfoldable pub on_ack :
    Stream → ℕ → PerStream JournalCursor → Uplink → PerStream JournalCursor × Uplink
on_ack s up_to j u = (
  put s (ack up_to (at j s)) j,
  record u {
    acks_received = u32 (u.acks_received + 1);
    in_flight = put s (clear_slot up_to (at u.in_flight s)) u.in_flight;
  },
)

-- `currentAttempt`.
unfoldable pub current_attempt : Stream → Uplink → ℕ
current_attempt s u = if (at u.in_flight s).active then (at u.in_flight s).attempt else 0

-- The loop's body in `serviceOnce`: `hasPending`, `pendingSince` and the backlog of a stream.
abbrev pub resume_seq : InFlightBatch → JournalCursor → ℕ
resume_seq slot c = if slot.active then slot.batch.first_seq else first_unacked c

abbrev pub has_pending_now : InFlightBatch → JournalCursor → Bool
has_pending_now slot c = ltb (resume_seq slot c) c.next_seq

abbrev pub since_now : ℕ → Bool → ℕ → ℕ
since_now now pending since = if pending then (if since == 0 then now else since) else 0

unfoldable pub backlog_of : ℕ → Stream → InFlightBatch → JournalCursor → ℕ → StreamBacklog
backlog_of now s slot c since =
    let pending = has_pending_now slot c in
    record {
      stream = s;
      has_pending = pending;
      in_flight = slot.active;
      oldest_pending_age_ms = if pending then sub_u64 now (since_now now pending since) else 0;
      retry_due = slot.active && leb slot.next_send_due_ms now;
    }

abbrev backlog_at : ℕ → PerStream JournalCursor → Uplink → Stream → StreamBacklog
backlog_at now j u s = backlog_of now s (at u.in_flight s) (at j s) (at u.pending_since_ms s)

abbrev pub backlogs_of : ℕ → PerStream JournalCursor → Uplink → List StreamBacklog
backlogs_of now j u =
    backlog_at now j u events ∷ backlog_at now j u logs ∷ backlog_at now j u data_stream ∷ []

abbrev since_at : ℕ → PerStream JournalCursor → Uplink → Stream → ℕ
since_at now j u s =
    since_now now (has_pending_now (at u.in_flight s) (at j s)) (at u.pending_since_ms s)

-- The uplink behind the loop.
abbrev pub observe : ℕ → PerStream JournalCursor → Uplink → Uplink
observe now j u = record u {
  pending_since_ms = record {
    of_logs = since_at now j u logs;
    of_events = since_at now j u events;
    of_data = since_at now j u data_stream;
  };
}

-- A fresh batch, if the journal has one: what is sent, and the slot.
abbrev pub send_fresh : ℕ → Option RawBatch → InFlightBatch → Option RawBatch × InFlightBatch
send_fresh now none slot = (none, slot)
send_fresh now (some b) slot = (
  some b,
  record { active = true; batch = b; attempt = 1; next_send_due_ms = u64 (now + ack_timeout_ms) },
)

module _ (d : Double) where
  -- A batch that is in flight: sent again, or given up.
  abbrev pub retry : ℕ → d.Value → InFlightBatch → Option RawBatch × InFlightBatch
  retry now jitter slot =
      let n = u32 (slot.attempt + 1) in
      if should_give_up n max_attempts
      then (none, record slot { attempt = n; active = false })
      else (
        some slot.batch,
        record slot {
          attempt = n;
          next_send_due_ms = u64 (now + next_delay_ms d n ack_timeout_ms backoff_cap_ms jitter);
        },
      )

  -- Whether the ack timeout or the backoff is still running.
  abbrev pub retry_unless : Bool → ℕ → d.Value → InFlightBatch → Option RawBatch × InFlightBatch
  retry_unless true now jitter slot = (none, slot)
  retry_unless false now jitter slot = retry now jitter slot

  abbrev pub serve :
      Bool → ℕ → d.Value → Option RawBatch → InFlightBatch → Option RawBatch × InFlightBatch
  serve true now jitter read slot = retry_unless (ltb now slot.next_send_due_ms) now jitter slot
  serve false now jitter read slot = send_fresh now read slot

  -- The rest of `serviceOnce`, on the slot of the stream that was picked.
  unfoldable pub service_slot :
      ℕ → d.Value → Option RawBatch → InFlightBatch → Option RawBatch × InFlightBatch
  service_slot now jitter read slot = serve slot.active now jitter read slot

  abbrev pub sent_on : Stream → Option RawBatch → Option (Stream × RawBatch)
  sent_on s none = none
  sent_on s (some b) = some (s, b)

  -- Behind the choice of a stream.
  abbrev pub service_pick :
      ℕ
      → d.Value
      → (Stream → ℕ → Option RawBatch)
      → PerStream JournalCursor
      → Uplink
      → Option Stream
      → Option (Stream × RawBatch) × Uplink
  service_pick now jitter read_from j u none = (none, u)
  service_pick now jitter read_from j u (some s) =
      let (out, slot) =
        service_slot now jitter (read_from s (first_unacked (at j s))) (at u.in_flight s) in
      (sent_on s out, record u { in_flight = put s slot u.in_flight })

  -- `serviceOnce`: the batch that is sent, and the uplink.
  unfoldable pub service_once :
      ℕ
      → d.Value
      → (Stream → ℕ → Option RawBatch)
      → PerStream JournalCursor
      → Uplink
      → Option (Stream × RawBatch) × Uplink
  unfolding backlog_of service_slot
  service_once now jitter read_from j u =
      service_pick now jitter read_from j (observe now j u)
        (pick_next (backlogs_of now j u) data_starvation_ms logs_starvation_ms)
