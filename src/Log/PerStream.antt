-- ===== src/Log/PerStream.antt =====
-- The three streams of components/croniot/src/log/JournalTypes.h as an index, and the arrays over
-- them in log/WriteAccounting.h and telemetry/Uplink.h.
use croniot_iot.Prelude.{ℕ, Bool, ◌==◌, ◌≡◌, ◌≢◌, refl}
use croniot_iot.Log.Cursor.{Stream, logs, events, data_stream}

-- `static_cast<size_t>(stream)`, and `==` on `Stream`.
abbrev pub stream_code : Stream → ℕ
stream_code logs = 0
stream_code events = 1
stream_code data_stream = 2

abbrev pub stream_eq : Stream → Stream → Bool
stream_eq a b = stream_code a == stream_code b

-- `std::array<A, 3>`, indexed by a stream.
pub record PerStream {ℓ} (A : Type ℓ) : Type ℓ where
  pub of_logs : A
  pub of_events : A
  pub of_data : A

abbrev pub at {ℓ} : {A : Type ℓ} → PerStream A → Stream → A
at p logs = p.of_logs
at p events = p.of_events
at p data_stream = p.of_data

abbrev pub put {ℓ} : {A : Type ℓ} → Stream → A → PerStream A → PerStream A
put logs a p = record p { of_logs = a }
put events a p = record p { of_events = a }
put data_stream a p = record p { of_data = a }

-- What holds of a slot that is written and of the one that is read, holds of the one read behind
-- the write.
pub at-put {ℓ} :
    {A : Type ℓ} (P : A → Type 0) (t s : Stream) (a : A) (p : PerStream A)
    → P a
    → P (at p s)
    → P (at (put t a p) s)
at-put P logs logs a p x y = x
at-put P logs events a p x y = y
at-put P logs data_stream a p x y = y
at-put P events logs a p x y = y
at-put P events events a p x y = x
at-put P events data_stream a p x y = y
at-put P data_stream logs a p x y = y
at-put P data_stream events a p x y = y
at-put P data_stream data_stream a p x y = x

pub at-put_self {ℓ} : {A : Type ℓ} (s : Stream) (a : A) (p : PerStream A) → at (put s a p) s ≡ a
at-put_self logs a p = refl
at-put_self events a p = refl
at-put_self data_stream a p = refl

pub at-put_ne {ℓ} :
    {A : Type ℓ} (s t : Stream) (a : A) (p : PerStream A) → t ≢ s → at (put s a p) t ≡ at p t
at-put_ne logs logs a p h = absurd (h refl)
at-put_ne logs events a p h = refl
at-put_ne logs data_stream a p h = refl
at-put_ne events logs a p h = refl
at-put_ne events events a p h = absurd (h refl)
at-put_ne events data_stream a p h = refl
at-put_ne data_stream logs a p h = refl
at-put_ne data_stream events a p h = refl
at-put_ne data_stream data_stream a p h = absurd (h refl)
