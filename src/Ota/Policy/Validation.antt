-- ===== src/Ota/Policy/Validation.antt =====
-- When a new image is kept.
use croniot_iot.Prelude.{ℕ, ◌≤◌, ◌≡◌, ◌↔◌, true, false, arith}
use croniot_iot.Ota.Policy.{ValidationInputs, wait, confirm, evaluate_validation}

module _ (v : ValidationInputs) (stable_ms deadline_ms : ℕ) where
  -- An image is confirmed exactly when it is past the stability window, its self tests passed and
  -- none failed, and the server answers.
  pub evaluate_validation-confirm : (evaluate_validation v stable_ms deadline_ms ≡ confirm) ↔ (
      (stable_ms ≤ v.uptime_ms)
      × (v.self_tests_passed ≡ true)
      × (v.self_tests_failed ≡ false)
      × (v.server_reachable ≡ true))
  unfolding evaluate_validation
  evaluate_validation-confirm = (λ e. ground arith, λ e. ground arith)

  -- Once both windows have passed, the image waits on exactly when the server answers and the self
  -- tests have neither passed nor failed: then no time ends the validation.
  pub evaluate_validation-wait :
      stable_ms ≤ v.uptime_ms
      → deadline_ms ≤ v.uptime_ms
      → (evaluate_validation v stable_ms deadline_ms ≡ wait) ↔ (
          (v.server_reachable ≡ true)
          × (v.self_tests_passed ≡ false)
          × (v.self_tests_failed ≡ false))
  unfolding evaluate_validation
  evaluate_validation-wait stable late = (λ e. ground arith, λ e. ground arith)
