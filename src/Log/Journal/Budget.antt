-- ===== src/Log/Journal/Budget.antt =====
-- `appendToStream` (log/Journal.cpp), with its warning about the daily budget.
use mathlib.Core.Path.{subst}
use croniot_iot.Prelude.{
  ℕ, ◌+◌, ◌^◌, ◌<◌, ◌≡◌, ◌≢◌, refl, sym, ap, ◌∙◌, Bool, true, false, not, List, arith, Bool-cases,
  inl, inr, length, Bytes, if◌then◌else◌,
}
use croniot_iot.Prelude.Words.{u32}
use croniot_iot.Log.WriteAccounting.{add_bytes_written}
use croniot_iot.Log.Cursor.{Stream, logs, events, data_stream}
use croniot_iot.Log.PerStream.{at, put, at-put_self, at-put_ne, stream_eq}
use croniot_iot.Log.Record.{LogRecord}
use croniot_iot.Log.Frames.Format.{Fits}
use croniot_iot.Log.Journal.{
  StreamState, Conditions, uptime_day_index, segment_count, max_tracked_segments, write_frame,
  count_frame, rotate_if_needed,
}
use croniot_iot.Log.Journal.Streams.{
  Journal, append_frame, rotate_stream, append_mounted, append_with, append_event,
  should_warn_budget, check_budget, append_to_stream, budget_event, stamped,
}
use croniot_iot.Log.Journal.Write.{RollsBack}
use croniot_iot.Log.Journal.Append.{
  Holds, is_written, write_frame-is_written, IsAppended, on_day, rotate-count_frame,
  write_frame-kept,
}

append_frame-other :
    (stream t : Stream) (c : Conditions) (p : Bytes) (j : Journal)
    → t ≢ stream
    → at (append_frame stream c p j).0.states t ≡ at j.states t
unfolding append_frame
append_frame-other stream t c p j other =
    elim (Bool-cases (write_frame c p (at j.states stream)).1) [
      | inl written ↦ rw written (at-put_ne stream t _ j.states other)
      | inr failed ↦ rw failed (at-put_ne stream t _ j.states other)
    ]

append_mounted-other :
    (t : Stream) (c : Conditions) (r : LogRecord) (j : Journal)
    → t ≢ events
    → at (append_mounted (λ j'. j') events c r j).states t ≡ at j.states t
unfolding append_mounted rotate_stream
append_mounted-other t c r j other =
    let wrote = append_frame events c (stamped events r j) j in
    let kept = append_frame-other events t c (stamped events r j) j other in
    elim (Bool-cases (append_frame events c (stamped events r j) j).1) [
      | inr failed ↦ rw failed kept
      | inl written ↦ rw written (at-put_ne events t _ wrote.0.states other ∙ kept)
    ]

pub if_either {ℓ} :
    {A : Type ℓ} (P : A → Type 0) (b : Bool) {x y : A} → P x → P y → P (if b then x else y)
if_either P true px py = px
if_either P false px py = py

if_true {ℓ} :
    {A : Type ℓ} (P : A → Type 0) (b : Bool) {x : A} (y : A)
    → b ≡ true
    → P x
    → P (if b then x else y)
if_true P true y e px = px
if_true P false y e px = cc e

-- An event touches its own stream alone.
pub append_event-other :
    (t : Stream) (c : Conditions) (r : LogRecord) (j : Journal)
    → t ≢ events
    → at (append_event c r j).states t ≡ at j.states t
unfolding append_event append_with
append_event-other t c r j other =
    if_either (λ (j' : Journal). at j'.states t ≡ at j.states t) (at j.states events).mounted
      (append_mounted-other t c r j other) refl

not_events : (stream : Stream) → not (stream_eq stream events) ≡ true → stream ≢ events
not_events logs h = λ e. cc e
not_events events h = λ e. cc h
not_events data_stream h = λ e. cc e

should_warn_budget-stream :
    (max_bytes : ℕ) (stream : Stream) (c : Conditions) (j : Journal)
    → should_warn_budget max_bytes stream c j ≡ true
    → not (stream_eq stream events) ≡ true
unfolding should_warn_budget
should_warn_budget-stream max_bytes stream c j h = ground arith

-- The stream itself, behind the block about the budget.
check_budget-on_day :
    (max_bytes : ℕ) (stream : Stream) (c c_event : Conditions) (j : Journal)
    → (day : ℕ) × (at (check_budget max_bytes stream c c_event j).states stream
        ≡ on_day day (at j.states stream))
unfolding check_budget
check_budget-on_day max_bytes stream c c_event j =
    elim (Bool-cases (should_warn_budget max_bytes stream c j)) [
      | inr no_warning ↦ ((at j.states stream).last_budget_warn_day, rw no_warning)
      | inl warns ↦
          let other = not_events stream (should_warn_budget-stream max_bytes stream c j warns) in
          (
            uptime_day_index c,
            rw warns (
                append_event-other stream c_event (budget_event stream) _ other
                ∙ at-put_self stream _ j.states),
          )
    ]

-- The journal behind a frame that was written and counted.
append_written : Stream → Conditions → Bytes → StreamState → Journal → Journal
append_written stream c p t j = record j {
  states = put stream t j.states;
  accounting = add_bytes_written stream (u32 (length p + 2)) (uptime_day_index c) j.accounting;
}

module _ (max_bytes : ℕ) (stream : Stream) (c c_event : Conditions) (r : LogRecord) (j : Journal)
    {rs : List Bytes} (h : Holds (at j.states stream) rs) where
  append_mounted-IsAppended :
      Fits (stamped stream r j)
      → (at j.states stream).cursor.next_seq + 1 < 2 ^ 32
      → segment_count (at j.states stream) < max_tracked_segments
      → RollsBack c.write
      → let s = at j.states stream in
        IsAppended
          (is_written c s)
          (stamped stream r j)
          rs
          s
          (at (append_mounted (check_budget max_bytes stream c c_event) stream c r j).states stream)
  unfolding append_mounted append_frame rotate_stream append_written
  append_mounted-IsAppended fits last tracked rolls =
      let s = at j.states stream in
      let p = stamped stream r j in
      let result = write_frame-is_written c p s in
      elim (Bool-cases (write_frame c p s).1) [
        | inl written ↦
            let is : is_written c s ≡ true = sym result ∙ written in
            let t = count_frame p (write_frame c p s).0 in
            let j' = (append_written stream c p t j) in
            let b = check_budget max_bytes stream c c_event j' in
            let (day, same) = check_budget-on_day max_bytes stream c c_event j' in
            rw (written, is)
              (subst (λ (u : StreamState). IsAppended true p rs s u)
                (sym (
                  at-put_self stream (rotate_if_needed stream c (at b.states stream)).0 b.states
                  ∙ ap (λ (u : StreamState). (rotate_if_needed stream c u).0)
                      (same ∙ ap (on_day day) (at-put_self stream t j.states))))
                (rotate-count_frame stream c p day h fits last tracked written))
        | inr failed ↦
            let is : is_written c s ≡ false = sym result ∙ failed in
            rw (failed, is)
              (rw (at-put_self stream (write_frame c p s).0 j.states)
                (write_frame-kept c p h rolls failed))
      ]

-- On a mounted stream whose next number is not the last of 32 bits and that does not track 64
-- segments yet, `appendToStream` of a record whose encoding fits the length prefix puts the record
-- last, with its place as its number, if the whole frame gets to the disk, and the next number is
-- one more. Where it does not, the write being rolled back, the stream holds what it held and no
-- number is used up. This holds whether a warning about the budget is written or not, and whatever
-- becomes of that warning.
pub append_to_stream-IsAppended :
    (max_bytes : ℕ) (stream : Stream) (c c_event : Conditions) (r : LogRecord) (j : Journal)
    {rs : List Bytes}
    → Holds (at j.states stream) rs
    → Fits (stamped stream r j)
    → (at j.states stream).cursor.next_seq + 1 < 2 ^ 32
    → segment_count (at j.states stream) < max_tracked_segments
    → RollsBack c.write
    → let s = at j.states stream in
      IsAppended
        (is_written c s)
        (stamped stream r j)
        rs
        s
        (at (append_to_stream max_bytes stream c c_event r j).states stream)
unfolding append_to_stream append_with
append_to_stream-IsAppended max_bytes stream c c_event r j {rs} h fits last tracked rolls =
    if_true
      (λ (j' : Journal).
        IsAppended (is_written c (at j.states stream)) (stamped stream r j) rs (at j.states stream)
          (at j'.states stream))
      (at j.states stream).mounted j h.mounted
      (append_mounted-IsAppended max_bytes stream c c_event r j h fits last tracked rolls)
