-- ===== src/Log/WriteAccounting.antt =====
-- components/croniot/src/log/WriteAccounting.h: the bytes written to each stream, in all and today.
-- `estimatedWearPercent`, a quotient of doubles, is left out.
pub mod Daily
use croniot_iot.Prelude.{ℕ, ◌+◌, Bool, true, false, not, ◌&&◌, ltb, ◌==◌, if◌then◌else◌}
use croniot_iot.Prelude.Words.{u32, u64}
use croniot_iot.Log.Cursor.{Stream}
use croniot_iot.Log.PerStream.{PerStream, at, put}

-- `Counter`.
pub record Counter : Type 0 where
  pub lifetime_bytes : ℕ
  pub current_day_index : ℕ
  pub bytes_so_far : ℕ

abbrev pub zero_counter : Counter
zero_counter = record { lifetime_bytes = 0; current_day_index = 0; bytes_so_far = 0 }

-- `WriteAccounting`.
abbrev pub WriteAccounting : Type 0
WriteAccounting = PerStream Counter

abbrev pub fresh_accounting : WriteAccounting
fresh_accounting = record {
  of_logs = zero_counter;
  of_events = zero_counter;
  of_data = zero_counter;
}

-- The counter that `addBytesWritten` leaves.
abbrev pub count_bytes : ℕ → ℕ → Counter → Counter
count_bytes bytes day c = record {
  lifetime_bytes = u64 (c.lifetime_bytes + bytes);
  current_day_index = day;
  bytes_so_far = u32 ((if day == c.current_day_index then c.bytes_so_far else 0) + bytes);
}

-- `addBytesWritten`.
unfoldable pub add_bytes_written : Stream → ℕ → ℕ → WriteAccounting → WriteAccounting
add_bytes_written s bytes day w = put s (count_bytes bytes day (at w s)) w

-- `bytesToday`.
unfoldable pub bytes_today : Stream → ℕ → WriteAccounting → ℕ
bytes_today s day w = if (at w s).current_day_index == day then (at w s).bytes_so_far else 0

-- `dailyBudgetExceeded`.
unfoldable pub daily_budget_exceeded : Stream → ℕ → ℕ → WriteAccounting → Bool
unfolding bytes_today
daily_budget_exceeded s day limit w = ltb 0 limit && ltb limit (bytes_today s day w)

abbrev restored : ℕ → Counter → Counter
restored bytes c = record c { lifetime_bytes = bytes }

-- `snapshot` and `restore`.
abbrev pub snapshot : WriteAccounting → PerStream ℕ
snapshot w = record {
  of_logs = w.of_logs.lifetime_bytes;
  of_events = w.of_events.lifetime_bytes;
  of_data = w.of_data.lifetime_bytes;
}

abbrev pub restore_bytes : PerStream ℕ → WriteAccounting → WriteAccounting
restore_bytes n w = record {
  of_logs = restored n.of_logs w.of_logs;
  of_events = restored n.of_events w.of_events;
  of_data = restored n.of_data w.of_data;
}
