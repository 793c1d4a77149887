-- ===== src/Log/RateLimiter.antt =====
-- components/croniot/src/log/RateLimiter.h.
pub mod Exact
use croniot_iot.Prelude.{
  ℕ, ◌+◌, Bool, true, false, ◌&&◌, Option, none, some, List, [], ◌∷◌, ◌++◌, ltb, ◌==◌,
  if◌then◌else◌, Bytes, bytes_eq,
}
use croniot_iot.Prelude.Words.{u16}
use croniot_iot.Log.Record.{Level, info, level_eq, LogRecord, set_tag, set_message, zero_record}

-- `RateLimiter`.
pub record RateLimiter : Type 0 where
  pub has_last : Bool
  pub last_tag : Bytes
  pub last_message : Bytes
  pub last_level : Level
  pub repeat_count : ℕ

abbrev pub fresh_limiter : RateLimiter
fresh_limiter = record {
  has_last = false;
  last_tag = [];
  last_message = [];
  last_level = info;
  repeat_count = 0;
}

-- `FeedResult`.
pub record FeedResult : Type 0 where
  pub emit_now : Bool
  pub pending_flush : Option LogRecord

-- `makeFlushRecord`.
unfoldable pub make_flush_record : RateLimiter → LogRecord
make_flush_record l =
    let r = record zero_record { level = l.last_level } in
    let r = set_message l.last_message (set_tag l.last_tag r) in
    record r { repeat_count = l.repeat_count }

-- The test of `feed`: the record repeats the last one.
abbrev pub is_repeat : RateLimiter → LogRecord → Bool
is_repeat l r =
    l.has_last
    && (bytes_eq l.last_tag r.tag
        && (bytes_eq l.last_message r.message && level_eq l.last_level r.level))

-- `feed`.
unfoldable pub feed : LogRecord → RateLimiter → FeedResult × RateLimiter
feed r l =
    if is_repeat l r
    then (
      record { emit_now = false; pending_flush = none },
      record l { repeat_count = u16 (l.repeat_count + 1) },
    )
    else (
      record {
        emit_now = true;
        pending_flush = if ltb 0 l.repeat_count then some (make_flush_record l) else none;
      },
      record {
        has_last = true;
        last_tag = r.tag;
        last_message = r.message;
        last_level = r.level;
        repeat_count = 0;
      },
    )

-- `flushPending`.
unfoldable pub flush_pending : RateLimiter → Option LogRecord × RateLimiter
flush_pending l =
    if l.repeat_count == 0
    then (none, l)
    else (some (make_flush_record l), record l { repeat_count = 0 })

-- What reaches the limiter: a line, or the periodic flush.
pub data Input : Type 0 where
  line : LogRecord → Input
  flush : Input

abbrev pub pushed : Option LogRecord → List LogRecord
pushed none = []
pushed (some r) = r ∷ []

-- The records that `LogRouter::vprintfHook` and `flushRateLimiterPending` push, in order, and the
-- limiter at the end.
unfoldable pub route : RateLimiter → List Input → List LogRecord × RateLimiter
route l [] = ([], l)
route l (line r ∷ ins) =
    let (result, l') = feed r l in
    let (out, l'') = route l' ins in
    (pushed result.pending_flush ++ ((if result.emit_now then r ∷ [] else []) ++ out), l'')
route l (flush ∷ ins) =
    let (flushed, l') = flush_pending l in
    let (out, l'') = route l' ins in (pushed flushed ++ out, l'')
