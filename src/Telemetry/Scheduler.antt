-- ===== src/Telemetry/Scheduler.antt =====
-- components/croniot/src/telemetry/UplinkScheduler.h.
pub mod Order
use croniot_iot.Prelude.{
  ℕ, ◌≡◌, ◌↔◌, Bool, true, false, not, ◌&&◌, Option, none, some, List, [], ◌∷◌, arith, leb, ◌==◌,
  if◌then◌else◌,
}
use croniot_iot.Log.Cursor.{Stream, logs, events, data_stream}
use croniot_iot.Log.PerStream.{stream_eq}

-- `StreamBacklog`.
pub record StreamBacklog : Type 0 where
  pub stream : Stream
  pub has_pending : Bool
  pub in_flight : Bool
  pub oldest_pending_age_ms : ℕ
  pub retry_due : Bool

-- `find`.
unfoldable pub find : List StreamBacklog → Stream → Option StreamBacklog
find [] s = none
find (b ∷ bs) s = if stream_eq b.stream s then some b else find bs s

-- `backlog && backlog->inFlight && backlog->retryDue`.
abbrev pub is_retry : Option StreamBacklog → Bool
is_retry none = false
is_retry (some b) = b.in_flight && b.retry_due

-- `backlog && backlog->hasPending && !backlog->inFlight`.
abbrev pub is_fresh : Option StreamBacklog → Bool
is_fresh none = false
is_fresh (some b) = b.has_pending && not b.in_flight

-- A fresh batch that has waited `limit` milliseconds.
abbrev pub is_starved : ℕ → Option StreamBacklog → Bool
is_starved limit none = false
is_starved limit (some b) = b.has_pending && (not b.in_flight && leb limit b.oldest_pending_age_ms)

-- A loop over the three streams in the order of their priority.
unfoldable pub first_of_streams : (Option StreamBacklog → Bool) → List StreamBacklog → Option Stream
first_of_streams test bs =
    if test (find bs events)
    then some events
    else if test (find bs logs)
    then some logs
    else if test (find bs data_stream)
    then some data_stream
    else none

abbrev or_else : Option Stream → Option Stream → Option Stream
or_else none o = o
or_else (some s) o = some s

-- `pickNext`.
unfoldable pub pick_next : List StreamBacklog → ℕ → ℕ → Option Stream
unfolding first_of_streams
pick_next bs data_starvation_ms logs_starvation_ms = or_else (first_of_streams is_retry bs) (
    if is_starved data_starvation_ms (find bs data_stream)
    then some data_stream
    else if is_starved logs_starvation_ms (find bs logs)
    then some logs
    else first_of_streams is_fresh bs)
