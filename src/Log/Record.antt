-- ===== src/Log/Record.antt =====
-- components/croniot/src/log/Level.h and LogRecord.h. The character arrays `tag` and `message` are
-- the C strings that they hold.
use croniot_iot.Prelude.{
  ℕ, ◌+◌, ◌-◌, ◌≤◌, ◌≡◌, ◌↔◌, Bool, true, [], arith, leb, ltb, ◌==◌, if◌then◌else◌, length, take,
  length-take, take-all, Bytes,
}

-- `enum class Level`.
pub data Level : Type 0 where
  error warn info debug trace : Level

-- `static_cast<uint8_t>(level)`.
abbrev pub level_code : Level → ℕ
level_code error = 0
level_code warn = 1
level_code info = 2
level_code debug = 3
level_code trace = 4

-- `==` on `Level`.
abbrev pub level_eq : Level → Level → Bool
level_eq a b = level_code a == level_code b

pub level_eq_iff : (a b : Level) → (level_eq a b ≡ true) ↔ (a ≡ b)
level_eq_iff a b = ground arith

-- `meetsThreshold`.
unfoldable pub meets_threshold : Level → Level → Bool
meets_threshold record_level configured_level =
    leb (level_code record_level) (level_code configured_level)

abbrev pub max_tag_len : ℕ
max_tag_len = 15

abbrev pub max_message_len : ℕ
max_message_len = 200

-- `LogRecord`.
pub record LogRecord : Type 0 where
  pub seq : ℕ
  pub uptime_ms : ℕ
  pub level : Level
  pub repeat_count : ℕ
  pub tag : Bytes
  pub message : Bytes

-- `copyTruncated`, into an array of `dst_size` characters.
unfoldable pub copy_truncated : ℕ → Bytes → Bytes
copy_truncated dst_size src =
    take (if ltb (dst_size - 1) (length src) then dst_size - 1 else length src) src

-- `setTag`.
abbrev pub set_tag : Bytes → LogRecord → LogRecord
set_tag value r = record r { tag = copy_truncated (max_tag_len + 1) value }

-- `setMessage`.
abbrev pub set_message : Bytes → LogRecord → LogRecord
set_message value r = record r { message = copy_truncated (max_message_len + 1) value }

-- `LogRecord{}`.
abbrev pub zero_record : LogRecord
zero_record = record {
  seq = 0;
  uptime_ms = 0;
  level = error;
  repeat_count = 0;
  tag = [];
  message = [];
}

-- What fits the array is copied whole.
pub copy_truncated-of_le : (n : ℕ) (src : Bytes) → length src ≤ n → copy_truncated (n + 1) src ≡ src
unfolding copy_truncated
copy_truncated-of_le n src h = ground (arith, take-all src)

-- What is copied never overruns it.
pub length-copy_truncated : (n : ℕ) (src : Bytes) → length (copy_truncated (n + 1) src) ≤ n
unfolding copy_truncated
length-copy_truncated n src = ground (arith, length-take n src, length-take (length src) src)
