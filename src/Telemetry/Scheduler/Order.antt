-- ===== src/Telemetry/Scheduler/Order.antt =====
-- Who gets the next batch.
use croniot_iot.Prelude.{
  ℕ, ◌≤◌, ◌≡◌, ◌≢◌, ◌↔◌, refl, Bool, true, false, not, ◌&&◌, ◌||◌, Option, none, some, List, arith,
  Bool-cases, inl, inr,
}
use croniot_iot.Log.Cursor.{Stream, logs, events, data_stream}
use croniot_iot.Telemetry.Scheduler.{StreamBacklog, find, is_retry, is_fresh, is_starved, pick_next}

-- The stream has something to do: a retry that is due, or records and no batch under way.
abbrev pub is_eligible : List StreamBacklog → Stream → Bool
is_eligible bs s = is_retry (find bs s) || is_fresh (find bs s)

module _ (bs : List StreamBacklog) (data_ms logs_ms : ℕ) where
  -- Only a stream that has something to do is picked.
  pub pick_next-is_eligible :
      {s : Stream} → pick_next bs data_ms logs_ms ≡ some s → is_eligible bs s ≡ true
  unfolding pick_next
  pick_next-is_eligible {s} e = ground arith

  -- Nothing is picked exactly when no stream has anything to do.
  pub pick_next-eq-none : (pick_next bs data_ms logs_ms ≡ none) ↔ (
      (is_eligible bs events ≡ false)
      × (is_eligible bs logs ≡ false)
      × (is_eligible bs data_stream ≡ false))
  unfolding pick_next
  pick_next-eq-none = (ground arith, ground arith)

  -- A retry that is due is never passed over for a fresh batch.
  pub pick_next-is_retry :
      (t : Stream)
      → is_retry (find bs t) ≡ true
      → (pick_next bs data_ms logs_ms ≢ none)
        × ((s : Stream) → pick_next bs data_ms logs_ms ≡ some s → is_retry (find bs s) ≡ true)
  unfolding pick_next
  pick_next-is_retry events due = (λ e. ground arith, λ s e. ground arith)
  pick_next-is_retry _ due = (λ e. ground arith, λ s e. ground arith)

-- Of what `pick_next` looks at: a retry whose time has come, records that wait for a batch, and such
-- records that have waited `limit` milliseconds.
abbrev pub HasRetry : Option StreamBacklog → Type 0
HasRetry none = ⊥
HasRetry (some b) = (b.in_flight ≡ true) × (b.retry_due ≡ true)

abbrev pub IsWaiting : Option StreamBacklog → Type 0
IsWaiting none = ⊥
IsWaiting (some b) = (b.has_pending ≡ true) × (b.in_flight ≡ false)

abbrev pub IsOverdue : ℕ → Option StreamBacklog → Type 0
IsOverdue limit none = ⊥
IsOverdue limit (some b) =
    (b.has_pending ≡ true) × (b.in_flight ≡ false) × (limit ≤ b.oldest_pending_age_ms)

is_retry-none : (o : Option StreamBacklog) → ¬ HasRetry o → is_retry o ≡ false
is_retry-none none never = refl
is_retry-none (some b) never = elim (Bool-cases (b.in_flight && b.retry_due)) [
  | inl due ↦ absurd (never (ground arith, ground arith))
  | inr e ↦ e
]

is_fresh-IsWaiting : (o : Option StreamBacklog) → IsWaiting o → is_fresh o ≡ true
is_fresh-IsWaiting none w = absurd w
is_fresh-IsWaiting (some b) w = ground arith

is_fresh-none : (o : Option StreamBacklog) → ¬ IsWaiting o → is_fresh o ≡ false
is_fresh-none none never = refl
is_fresh-none (some b) never = elim (Bool-cases (b.has_pending && not b.in_flight)) [
  | inl waits ↦ absurd (never (ground arith, ground arith))
  | inr e ↦ e
]

is_starved-IsOverdue :
    (limit : ℕ) (o : Option StreamBacklog) → IsOverdue limit o → is_starved limit o ≡ true
is_starved-IsOverdue limit none h = absurd h
is_starved-IsOverdue limit (some b) h = ground arith

is_starved-none :
    (limit : ℕ) (o : Option StreamBacklog) → ¬ IsOverdue limit o → is_starved limit o ≡ false
is_starved-none limit none never = refl
is_starved-none limit (some b) never = elim (Bool-cases (is_starved limit (some b))) [
  | inl late ↦ absurd (never (ground arith, ground arith, ground arith))
  | inr e ↦ e
]

-- With no retry due, records of `Data` that no batch in flight covers and that have waited for their
-- quota go next; if there are none, such records of `Logs` do; and if there are none of these either,
-- the first of `Events`, `Logs` and `Data` that has records and no batch in flight, or nothing if none
-- has.
pub pick_next-IsOverdue :
    (bs : List StreamBacklog) (data_ms logs_ms : ℕ)
    → ((s : Stream) → ¬ HasRetry (find bs s))
    → let e = find bs events in
      let l = find bs logs in
      let d = find bs data_stream in
      let pick = pick_next bs data_ms logs_ms in
      (IsOverdue data_ms d → pick ≡ some data_stream)
      × (¬ IsOverdue data_ms d → IsOverdue logs_ms l → pick ≡ some logs)
      × (¬ IsOverdue data_ms d
          → ¬ IsOverdue logs_ms l
          → (IsWaiting e → pick ≡ some events)
            × (¬ IsWaiting e → IsWaiting l → pick ≡ some logs)
            × (¬ IsWaiting e → ¬ IsWaiting l → IsWaiting d → pick ≡ some data_stream)
            × (¬ IsWaiting e → ¬ IsWaiting l → ¬ IsWaiting d → pick ≡ none))
unfolding pick_next
pick_next-IsOverdue bs data_ms logs_ms no_retry =
    let e = find bs events in
    let l = find bs logs in
    let d = find bs data_stream in
    let re = is_retry-none e (no_retry events) in
    let rl = is_retry-none l (no_retry logs) in
    let rd = is_retry-none d (no_retry data_stream) in
    (
      λ od. rw (re, rl, rd, is_starved-IsOverdue data_ms d od),
      λ nd ol. rw (re, rl, rd, is_starved-none data_ms d nd, is_starved-IsOverdue logs_ms l ol),
      λ nd nl.
          let sd = is_starved-none data_ms d nd in
          let sl = is_starved-none logs_ms l nl in
          (
            λ we. rw (re, rl, rd, sd, sl, is_fresh-IsWaiting e we),
            λ ne wl. rw (re, rl, rd, sd, sl, is_fresh-none e ne, is_fresh-IsWaiting l wl),
            λ ne nl2 wd. rw (
              re,
              rl,
              rd,
              sd,
              sl,
              is_fresh-none e ne,
              is_fresh-none l nl2,
              is_fresh-IsWaiting d wd,
            ),
            λ ne nl2 nd2.
                rw (
                  re,
                  rl,
                  rd,
                  sd,
                  sl,
                  is_fresh-none e ne,
                  is_fresh-none l nl2,
                  is_fresh-none d nd2,
                ),
          ),
    )
