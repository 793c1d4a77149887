-- ===== src/Log/Tests.antt =====
-- Runs of the log modules at small inputs, and instances of their theorems.
use mathlib.Core.List.{flatten}
use native.Mathlib.Nat.{dvd_of_mod-eq-zero}
use croniot_iot.Prelude.{
  ◌≤◌, ℕ, ◌+◌, ◌%◌, ◌^◌, ◌<◌, ◌≡◌, refl, true, false, none, some, List, [], ◌∷◌, ◌++◌, arith,
  length, codes, Bytes, bytes_eq,
}
use croniot_iot.Log.Frames.Format.{write_length_prefixed, segment}
use croniot_iot.Log.Frames.Accumulate.{walk, accumulate_frames-walk}
use croniot_iot.Log.Frames.Scanner.{feed_all}
use croniot_iot.Log.Frames.Scanner.Recover.{Recovered, feed_all-segment}
use croniot_iot.Log.Frames.{count_frames, accumulate_frames, Batch, FrameScanner, fresh_scanner}
use croniot_iot.Log.Ring.{run, push, pop, fresh_ring}
use croniot_iot.Log.Ring.Queue
use croniot_iot.Log.Ring.Queue.{Op, put, get}
use croniot_iot.Log.Ring.Refine.{run-fresh_ring}
use croniot_iot.Log.Ring.Noinit.{
  NoinitRing, Event, call, reset, reset_header, is_valid, run_events, header_crc, run_events-run,
}
use croniot_iot.Log.Cursor.{logs, JournalCursor, GapMarker, IsValid, reclaim_to}
use croniot_iot.Log.Cursor.Reclaim.{IsLost, InGap, reclaim_to-InGap}
use croniot_iot.Log.Cbor.{encode_log_record, write_type_and_length, append_big_endian}
use croniot_iot.Log.Cbor.Decode.{decode_log_record, decode_log_record-encode_log_record}
use croniot_iot.Prelude.{◌↔◌}
use croniot_iot.Log.Cursor.{events}
use croniot_iot.Log.WriteAccounting.{fresh_accounting, daily_budget_exceeded}
use croniot_iot.Log.WriteAccounting.Daily.{Write, after_writes, daily_budget_exceeded-after_writes}
use croniot_iot.Log.Levels.{
  fresh_resolver, effective_level, set_ttl_tag_override, software_restart, IncidentSummary,
  is_crash_like_reset, should_raise_incident,
}
use croniot_iot.Log.Levels.Overrides.{effective_level-set_ttl_tag_override}
use croniot_iot.Prelude.{◌≢◌, bytes_eq_iff, false}
use croniot_iot.Log.Record.{trace, LogRecord, zero_record, error, copy_truncated}
use croniot_iot.Log.RateLimiter.{
  Input, line, flush, route, feed, flush_pending, make_flush_record, fresh_limiter, RateLimiter,
}
use croniot_iot.Log.RateLimiter.Exact.{content, expand, absorbed, route-exact, feed-wrapped}

-- Two records and the first bytes of a third.
abbrev payloads : List Bytes
payloads = (7 ∷ 8 ∷ []) ∷ (9 ∷ []) ∷ []

abbrev torn : Bytes
torn = 5 ∷ 0 ∷ 1 ∷ []

abbrev file : Bytes
file = 2 ∷ 0 ∷ 7 ∷ 8 ∷ 1 ∷ 0 ∷ 9 ∷ 5 ∷ 0 ∷ 1 ∷ []

file_is_segment : segment payloads ++ torn ≡ file
unfolding write_length_prefixed
file_is_segment = refl

count_frames-file : count_frames file 10 ≡ some 2
unfolding count_frames
count_frames-file = refl

abbrev empty_batch : Batch
empty_batch = record { seq = 4; started = false; first_seq = 0; frames = []; count = 0 }

accumulate_frames-file :
    accumulate_frames 5 100 10 file 10 empty_batch
    ≡ some (
      record { consumed_bytes = 7; limit_reached = false },
      record { seq = 6; started = true; first_seq = 5; frames = 9 ∷ []; count = 1 },
    )
unfolding accumulate_frames
accumulate_frames-file = refl

accumulate_frames-walk_example :
    accumulate_frames 5 100 10
      (segment payloads ++ torn)
      (length (segment payloads ++ torn))
      empty_batch
    ≡ some (walk 5 100 10 payloads 0 empty_batch)
unfolding write_length_prefixed
accumulate_frames-walk_example =
    accumulate_frames-walk 5 100 10 payloads torn empty_batch (omega arith) (omega arith)
      (omega arith)

abbrev chunks : List Bytes
chunks = (2 ∷ []) ∷ (0 ∷ 7 ∷ 8 ∷ 1 ∷ []) ∷ (0 ∷ 9 ∷ 5 ∷ 0 ∷ 1 ∷ []) ∷ []

chunks_cover : flatten chunks ≡ segment payloads ++ torn
unfolding write_length_prefixed flatten
chunks_cover = refl

feed_all-segment_example :
    (s : FrameScanner) × (feed_all fresh_scanner chunks ≡ some s) × Recovered s payloads torn
feed_all-segment_example =
    feed_all-segment payloads torn chunks (omega arith) (omega arith) chunks_cover

-- Three items through a ring of two.
abbrev ring_calls : List (Op ℕ)
ring_calls = put 1 ∷ put 2 ∷ put 3 ∷ get ∷ get ∷ get ∷ []

run-ring_calls : run 2 (fresh_ring (0 ∷ 0 ∷ [])) ring_calls ≡ (some 2 ∷ some 3 ∷ none ∷ [], 1)
unfolding run push pop
run-ring_calls = refl

run-fresh_ring_example :
    ((run 2 (fresh_ring (0 ∷ 0 ∷ [])) ring_calls).0 ≡ (Queue.run 2 [] 0 ring_calls).0)
    × ((run 2 (fresh_ring (0 ∷ 0 ∷ [])) ring_calls).1 ≡ (Queue.run 2 [] 0 ring_calls).1 % 2 ^ 32)
run-fresh_ring_example =
    run-fresh_ring 2 (omega arith) (dvd_of_mod-eq-zero 2 refl) (omega arith) (0 ∷ 0 ∷ []) ring_calls
      refl

-- A checksum for the tests: the sum of the bytes.
sum_crc : ℕ → Bytes → ℕ
sum_crc acc [] = acc
sum_crc acc (b ∷ bs) = sum_crc (acc + b) bs

abbrev booted : NoinitRing ℕ
booted = record { header = reset_header sum_crc; records = 0 ∷ 0 ∷ [] }

abbrev events_with_reset : List (Event ℕ)
events_with_reset = call (put 1) ∷ call (put 2) ∷ reset ∷ call (put 3) ∷ call get ∷ []

booted_is_valid : is_valid sum_crc booted.header ≡ true
unfolding header_crc sum_crc
booted_is_valid = refl

run_events-run_example :
    run_events sum_crc 2 booted events_with_reset
    ≡ run 2 (fresh_ring (0 ∷ 0 ∷ [])) (put 1 ∷ put 2 ∷ put 3 ∷ get ∷ [])
run_events-run_example = run_events-run sum_crc 2 events_with_reset booted booted_is_valid

-- Ten records written, four confirmed.
abbrev cursor : JournalCursor
cursor = record { stream = logs; next_seq = 10; oldest_seq = 0; has_ack = true; acked_seq = 3 }

cursor-IsValid : IsValid cursor
cursor-IsValid = ground arith

reclaim_to-cursor :
    (reclaim_to 6 (codes "space_pressure") cursor).0
    ≡ some (record {
      stream = logs;
      from_seq = 4;
      to_seq = 6;
      count = 2;
      reason = codes "space_pressure";
    })
unfolding reclaim_to
reclaim_to-cursor = refl

reclaim_to-InGap_example :
    (InGap (reclaim_to 6 [] cursor).0 5 → IsLost cursor 6 5)
    × (IsLost cursor 6 5 → InGap (reclaim_to 6 [] cursor).0 5)
reclaim_to-InGap_example = reclaim_to-InGap 6 [] cursor 5

abbrev gap : GapMarker
gap = record { stream = logs; from_seq = 4; to_seq = 6; count = 2; reason = [] }

-- A line that comes three times, and another.
abbrev beep : LogRecord
beep = record zero_record { tag = codes "buzzer"; message = codes "beep" }

abbrev boop : LogRecord
boop = record beep { message = codes "boop" }

abbrev traffic : List Input
traffic = line beep ∷ line beep ∷ line beep ∷ flush ∷ line boop ∷ []

route-traffic :
    (route fresh_limiter traffic).0 ≡ beep ∷ record beep { repeat_count = 2 } ∷ boop ∷ []
unfolding route feed flush_pending make_flush_record copy_truncated bytes_eq
route-traffic = refl

route-exact_example :
    expand (route fresh_limiter traffic).0 ++ absorbed (route fresh_limiter traffic).1
    ≡ content beep ∷ content beep ∷ content beep ∷ content boop ∷ []
unfolding bytes_eq
route-exact_example =
    route-exact traffic fresh_limiter (ground arith) (omega arith) (omega arith, (omega arith, tt))

abbrev brimful : RateLimiter
brimful = record {
  has_last = true;
  last_tag = codes "buzzer";
  last_message = codes "beep";
  last_level = error;
  repeat_count = 65535;
}

feed-wrapped_example : (feed boop (feed beep brimful).1).0.pending_flush ≡ none
unfolding bytes_eq
feed-wrapped_example = feed-wrapped brimful beep boop refl refl refl

abbrev numbered : LogRecord
numbered = record beep { seq = 70000; uptime_ms = 300 }

encode_log_record-numbered :
    encode_log_record numbered
    ≡ 0x85 ∷ 26 ∷ 0 ∷ 1 ∷ 17 ∷ 112 ∷ 25 ∷ 1 ∷ 44 ∷ 0 ∷ 0x66 ∷ codes "buzzer" ++ 0x64 ∷ codes "beep"
unfolding encode_log_record write_type_and_length append_big_endian
encode_log_record-numbered = refl

decode_log_record-encode_log_record_example :
    decode_log_record (encode_log_record numbered ++ 7 ∷ [])
    ≡ some ((70000, 300, 0, codes "buzzer", codes "beep"), 7 ∷ [])
decode_log_record-encode_log_record_example =
    decode_log_record-encode_log_record numbered (7 ∷ []) (omega arith) (omega arith) (omega arith)
      (omega arith)

apart_tags : codes "wifi" ≢ codes "ota"
unfolding bytes_eq
apart_tags e = let f = (bytes_eq_iff (codes "wifi") (codes "ota")).1 e in ground arith

effective_level-set_ttl_tag_override_example :
    (5 < 9
      → effective_level
          (codes "wifi")
          5
          (set_ttl_tag_override (codes "wifi") trace 9 fresh_resolver)
        ≡ trace)
    × (9 ≤ 5
        → effective_level
            (codes "wifi")
            5
            (set_ttl_tag_override (codes "wifi") trace 9 fresh_resolver)
          ≡ effective_level (codes "wifi") 5 (record fresh_resolver { ttl_tags = [] }))
    × (effective_level (codes "ota") 5 (set_ttl_tag_override (codes "wifi") trace 9 fresh_resolver)
        ≡ effective_level (codes "ota") 5 fresh_resolver)
effective_level-set_ttl_tag_override_example =
    effective_level-set_ttl_tag_override (codes "wifi") (codes "ota") trace 9 5 fresh_resolver
      apart_tags

-- A clean restart with nothing left to report is no incident.
abbrev clean_restart : IncidentSummary
clean_restart = record {
  cause = software_restart;
  recovered_ring_records = 0;
  recovered_rtc_records = 0;
  coredump_present = false;
}

should_raise_incident-restart : should_raise_incident clean_restart ≡ false
unfolding should_raise_incident is_crash_like_reset
should_raise_incident-restart = refl

abbrev writes : List Write
writes =
    record { stream = logs; bytes = 40; day = 1 }
    ∷ record { stream = events; bytes = 5; day = 2 }
    ∷ record { stream = logs; bytes = 60; day = 2 }
    ∷ record { stream = logs; bytes = 7; day = 2 }
    ∷ []

daily_budget_exceeded-after_writes_example :
    (daily_budget_exceeded logs 2 66 (after_writes writes fresh_accounting) ≡ true)
    ↔ ((0 < 66) × (66 < 67))
daily_budget_exceeded-after_writes_example =
    daily_budget_exceeded-after_writes logs 2 66 writes
      (
        omega arith,
        omega arith,
        (omega arith, omega arith, (omega arith, omega arith, (omega arith, omega arith, tt))),
      )
      (omega arith)
