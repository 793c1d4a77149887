-- ===== src/Telemetry/Retry/Float.antt =====
-- What the code uses of `double`. There are no floating-point numbers to compute with: the type and
-- its operations are a parameter, with the laws that the proofs need.
use croniot_iot.Prelude.{ℕ, ◌^◌, ◌≤◌, ◌<◌, ◌≡◌, Bool, false}

pub record Double : Type 1 where
  pub Value : Type 0
  pub f_zero : Value
  pub f_one : Value
  pub of_nat : ℕ → Value
  pub to_nat : Value → ℕ  -- `static_cast<uint64_t>`
  pub mul : Value → Value → Value
  pub f_lt : Value → Value → Bool
  pub is_nan : Value → Bool
  pub zero_not_nan : is_nan f_zero ≡ false
  pub one_not_nan : is_nan f_one ≡ false
  pub f_lt_irrefl : (x : Value) → f_lt x x ≡ false
  pub one_not_neg : f_lt f_one f_zero ≡ false
  -- An integer below 2^53 is exact, and a product with a factor from 0.0 to 1.0 is rounded to no
  -- more than it.
  pub mul_le :
      (n : ℕ) (j : Value)
      → n < 2 ^ 53
      → is_nan j ≡ false
      → f_lt j f_zero ≡ false
      → f_lt f_one j ≡ false
      → to_nat (mul (of_nat n) j) ≤ n
