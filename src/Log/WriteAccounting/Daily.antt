-- ===== src/Log/WriteAccounting/Daily.antt =====
-- The daily budget.
use croniot_iot.Prelude.{
  ℕ, ◌+◌, ◌≤◌, ◌<◌, ◌^◌, ◌≡◌, ◌↔◌, true, ◌&&◌, List, [], ◌∷◌, arith, ◌==◌, if◌then◌else◌,
}
use croniot_iot.Log.Cursor.{Stream, logs, events, data_stream}
use croniot_iot.Log.PerStream.{at, stream_eq}
use croniot_iot.Log.WriteAccounting.{
  WriteAccounting, fresh_accounting, add_bytes_written, bytes_today, daily_budget_exceeded,
}

-- A write: its stream, bytes and day.
pub record Write : Type 0 where
  pub stream : Stream
  pub bytes : ℕ
  pub day : ℕ

unfoldable pub after_writes : List Write → WriteAccounting → WriteAccounting
unfolding add_bytes_written
after_writes [] w = w
after_writes (x ∷ xs) w = after_writes xs (add_bytes_written x.stream x.bytes x.day w)

-- The bytes that the writes put on a stream on a day.
abbrev pub written_on : Stream → ℕ → List Write → ℕ
written_on s day [] = 0
written_on s day (x ∷ xs) =
    (if stream_eq x.stream s && x.day == day then x.bytes else 0) + written_on s day xs

-- The days of the writes do not go back, from `from` on, and end at `day`.
abbrev pub InOrder : ℕ → ℕ → List Write → Type 0
InOrder day from [] = Unit
InOrder day from (x ∷ xs) = (from ≤ x.day) × (x.day ≤ day) × InOrder day x.day xs

abbrev if_counted : Stream → Stream → ℕ → ℕ → ℕ → ℕ
if_counted t s bytes written day = if stream_eq t s && written == day then bytes else 0

bytes_today-add :
    (t s : Stream) (bytes written day : ℕ) (w : WriteAccounting)
    → (at w s).current_day_index ≤ written
    → written ≤ day
    → bytes_today s day w + if_counted t s bytes written day < 2 ^ 32
    → (bytes_today s day (add_bytes_written t bytes written w)
        ≡ bytes_today s day w + if_counted t s bytes written day)
      × ((at (add_bytes_written t bytes written w) s).current_day_index ≤ written)
unfolding add_bytes_written bytes_today
bytes_today-add logs logs bytes written day w from until small = ground arith
bytes_today-add logs events bytes written day w from until small = ground arith
bytes_today-add logs data_stream bytes written day w from until small = ground arith
bytes_today-add events logs bytes written day w from until small = ground arith
bytes_today-add events events bytes written day w from until small = ground arith
bytes_today-add events data_stream bytes written day w from until small = ground arith
bytes_today-add data_stream logs bytes written day w from until small = ground arith
bytes_today-add data_stream events bytes written day w from until small = ground arith
bytes_today-add data_stream data_stream bytes written day w from until small = ground arith

fresh-bytes_today :
    (s : Stream) (day : ℕ)
    → (bytes_today s day fresh_accounting ≡ 0) × ((at fresh_accounting s).current_day_index ≡ 0)
unfolding bytes_today
fresh-bytes_today logs day = ground arith
fresh-bytes_today events day = ground arith
fresh-bytes_today data_stream day = ground arith

bytes_today-after :
    (s : Stream) (day from : ℕ) (xs : List Write) (w : WriteAccounting)
    → (at w s).current_day_index ≤ from
    → InOrder day from xs
    → bytes_today s day w + written_on s day xs < 2 ^ 32
    → bytes_today s day (after_writes xs w) ≡ bytes_today s day w + written_on s day xs
unfolding after_writes
bytes_today-after s day from [] w past order small = omega arith
bytes_today-after s day from (x ∷ xs) w past order small =
    let step =
      bytes_today-add x.stream s x.bytes x.day day w (omega (arith, order.0)) order.1
        (omega arith) in
    let rest =
      bytes_today-after s day x.day xs (add_bytes_written x.stream x.bytes x.day w) step.1 order.2
        (omega (arith, step.0)) in
    omega (arith, step.0, rest)

-- The daily budget of a stream is exceeded exactly when there is one and the bytes written to that
-- stream on that day, out of all the writes since the start, are more. The days do not go back, and
-- that day's bytes are below 2^32.
pub daily_budget_exceeded-after_writes :
    (s : Stream) (day limit : ℕ) (xs : List Write)
    → InOrder day 0 xs
    → written_on s day xs < 2 ^ 32
    → (daily_budget_exceeded s day limit (after_writes xs fresh_accounting) ≡ true)
      ↔ ((0 < limit) × (limit < written_on s day xs))
unfolding daily_budget_exceeded
daily_budget_exceeded-after_writes s day limit xs order small =
    let fresh = fresh-bytes_today s day in
    let total =
      bytes_today-after s day 0 xs fresh_accounting (omega (arith, fresh.1)) order
        (omega (arith, fresh.0)) in
    rw (total, fresh.0) (λ e. ground arith, λ e. ground arith)
