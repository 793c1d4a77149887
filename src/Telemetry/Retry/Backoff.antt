-- ===== src/Telemetry/Retry/Backoff.antt =====
-- The delays of the retries.
use native.Mathlib.Nat.{pow-suc}
use croniot_iot.Prelude.{
  ℕ, zero, suc, ◌-◌, ◌*◌, ◌/◌, ◌^◌, ◌≤◌, ◌<◌, min, ◌≡◌, ◌∙◌, false, inl, inr, Bool-cases, arith,
  ltb, ltb→lt, ltb→ge,
}
use croniot_iot.Prelude.Words.{u64}
use croniot_iot.Telemetry.Retry.Float.{Double}
use croniot_iot.Telemetry.Retry.{double_delay, base_delay, clamp_fraction, next_delay_ms}

pub one-le-pow : (n : ℕ) → 1 ≤ 2 ^ n
one-le-pow zero = omega arith
one-le-pow (suc n) = rw pow-suc (omega (arith, one-le-pow n))

-- A delay that has met the cap stays there however often it is doubled.
min-double : (cap d n : ℕ) → cap ≤ d → min cap (d * 2 ^ n) ≡ cap
min-double cap d n h = grind (arith, one-le-pow n)

-- The loop doubles the delay each round, until it meets the cap.
double_delay_lem :
    (cap rounds delay : ℕ)
    → cap < 2 ^ 64
    → min cap (double_delay cap rounds delay) ≡ min cap (delay * 2 ^ rounds)
unfolding double_delay
double_delay_lem cap zero delay word = omega arith
double_delay_lem cap (suc n) delay word = elim (Bool-cases (ltb delay cap)) [
  | inr met ↦
      let high = ltb→ge delay cap met in rw met (omega (arith, min-double cap delay (suc n) high))
  | inl below ↦ rw below (elim (Bool-cases (ltb (cap / 2) delay)) [
    | inl over ↦
        let half = ltb→lt (cap / 2) delay over in
        rw (over, pow-suc)
          (omega (
            arith,
            double_delay_lem cap n cap word,
            min-double cap cap n (omega arith),
            min-double cap (delay * 2) n (omega arith),
          ))
    | inr under ↦
        let half = ltb→ge (cap / 2) delay under in
        let next : u64 (delay * 2) ≡ delay * 2 = omega (arith, ltb→lt delay cap below) in
        rw (under, next, pow-suc) (double_delay_lem cap n (delay * 2) word ∙ omega arith)
  ])
]

-- The delay before the jitter: the base doubled once for each attempt after the first, at most the
-- cap.
pub base_delay_lem :
    (attempt base cap : ℕ)
    → cap < 2 ^ 64
    → base_delay attempt base cap ≡ min cap (base * 2 ^ (attempt - 1))
unfolding base_delay
base_delay_lem attempt base cap word =
    elim (Bool-cases (ltb cap (double_delay cap (attempt - 1) base))) [
      | inl over ↦ rw over (
          omega (
            arith,
            double_delay_lem cap (attempt - 1) base word,
            ltb→lt cap (double_delay cap (attempt - 1) base) over,
          ))
      | inr under ↦ rw under (
          omega (
            arith,
            double_delay_lem cap (attempt - 1) base word,
            ltb→ge cap (double_delay cap (attempt - 1) base) under,
          ))
    ]

module _ (d : Double) where
  open d use {
    Value, f_zero, f_one, of_nat, to_nat, mul, f_lt, is_nan, zero_not_nan, one_not_nan, f_lt_irrefl,
    one_not_neg, mul_le,
  }

  clamp_fraction_bounds :
      (j : Value)
      → is_nan j ≡ false
      → (is_nan (clamp_fraction d j) ≡ false)
        × (f_lt (clamp_fraction d j) f_zero ≡ false)
        × (f_lt f_one (clamp_fraction d j) ≡ false)
  clamp_fraction_bounds j number =
      ground (arith, zero_not_nan, one_not_nan, f_lt_irrefl f_zero, f_lt_irrefl f_one, one_not_neg)

  -- The next delay is the base schedule or later, and at most twice as late, whatever the jitter:
  -- the base doubled for each attempt after the first, up to the cap. The cap is below 2^53, and
  -- the jitter a number.
  pub next_delay_ms_bounds :
      (attempt base cap : ℕ) (jitter : Value)
      → cap < 2 ^ 53
      → is_nan jitter ≡ false
      → (min cap (base * 2 ^ (attempt - 1)) ≤ next_delay_ms d attempt base cap jitter)
        × (next_delay_ms d attempt base cap jitter ≤ 2 * min cap (base * 2 ^ (attempt - 1)))
  unfolding next_delay_ms
  next_delay_ms_bounds attempt base cap jitter small number =
      let e = base_delay_lem attempt base cap (omega arith) in
      let c = clamp_fraction_bounds jitter number in
      let extra =
        mul_le (base_delay attempt base cap) (clamp_fraction d jitter) (omega (arith, e)) c.0 c.1
          c.2 in
      omega (arith, e, extra)
