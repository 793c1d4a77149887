-- ===== src/Provision/Verdict/Counts.antt =====
-- What the verdict depends on.
use croniot_iot.Prelude.{
  ℕ, zero, suc, ◌+◌, ◌≤◌, ◌<◌, ◌≡◌, ◌≢◌, ◌↔◌, refl, true, List, [], ◌∷◌, arith, leb, leb→le, leb→gt,
  sym, replicate, Bool-cases, inl, inr, ◌⊎◌,
}
use croniot_iot.Provision.Verdict.{
  ConnectFailure, wrong_password, network_not_found, timeout, classify_disconnect, ConnectVerdict,
  fresh_verdict, count_failure, on_failure, result, after_failures,
}

abbrev is_wrong : ConnectFailure → ℕ
is_wrong wrong_password = 1
is_wrong _ = 0

abbrev is_missing : ConnectFailure → ℕ
is_missing network_not_found = 1
is_missing _ = 0

-- How many of the reasons blame the password, and how many miss the network.
abbrev pub wrong_in : List ℕ → ℕ
wrong_in [] = 0
wrong_in (r ∷ rs) = is_wrong (classify_disconnect r) + wrong_in rs

abbrev pub missing_in : List ℕ → ℕ
missing_in [] = 0
missing_in (r ∷ rs) = is_missing (classify_disconnect r) + missing_in rs

count_failure-counts :
    (k : ConnectFailure) (v : ConnectVerdict)
    → ((count_failure k v).wrong_password_count ≡ is_wrong k + v.wrong_password_count)
      × ((count_failure k v).not_found_count ≡ is_missing k + v.not_found_count)
      × ((count_failure k v).saw_failure ≡ v.saw_failure)
count_failure-counts k v = ground arith

after_failures-counts :
    (rs : List ℕ) (v : ConnectVerdict)
    → ((after_failures rs v).wrong_password_count ≡ v.wrong_password_count + wrong_in rs)
      × ((after_failures rs v).not_found_count ≡ v.not_found_count + missing_in rs)
      × (v.saw_failure ≡ true → (after_failures rs v).saw_failure ≡ true)
unfolding after_failures on_failure
after_failures-counts [] v = ground arith
after_failures-counts (r ∷ rs) v =
    let c = count_failure-counts (classify_disconnect r) (record v { saw_failure = true }) in
    let h =
      after_failures-counts rs
        (count_failure (classify_disconnect r) (record v { saw_failure = true })) in
    (omega (arith, c, h.0), omega (arith, c, h.1), λ s. h.2 c.2)

saw_failure-after :
    (r : ℕ) (rs : List ℕ) (v : ConnectVerdict) → (after_failures (r ∷ rs) v).saw_failure ≡ true
unfolding after_failures on_failure
saw_failure-after r rs v =
    let seen = record v { saw_failure = true } in
    (after_failures-counts rs (count_failure (classify_disconnect r) seen)).2
      ((count_failure-counts (classify_disconnect r) seen).2)

-- The verdict on an attempt depends on two counts alone, not on the order of the failures: the
-- password is blamed if it was at least once and at least as often as the network was missing, the
-- network is missing if it was at least once and more often, and nothing but silence is a timeout.
pub result-after_failures :
    (rs : List ℕ)
    → ((result (after_failures rs fresh_verdict) ≡ wrong_password)
        ↔ ((0 < wrong_in rs) × (missing_in rs ≤ wrong_in rs)))
      × ((result (after_failures rs fresh_verdict) ≡ network_not_found)
          ↔ (wrong_in rs < missing_in rs))
      × ((result (after_failures rs fresh_verdict) ≡ timeout) ↔ (rs ≡ []))
unfolding result
result-after_failures [] = unfold after_failures in ground arith
result-after_failures (r ∷ rs) =
    let h = after_failures-counts (r ∷ rs) fresh_verdict in
    let saw = saw_failure-after r rs fresh_verdict in ground arith

wrong_reasons : (n : ℕ) → (wrong_in (replicate n 2) ≡ n) × (missing_in (replicate n 2) ≡ 0)
unfolding classify_disconnect
wrong_reasons zero = (refl, refl)
wrong_reasons (suc n) = omega (arith, wrong_reasons n)

missing_reasons : (n : ℕ) → (wrong_in (replicate n 201) ≡ 0) × (missing_in (replicate n 201) ≡ n)
unfolding classify_disconnect
missing_reasons zero = (refl, refl)
missing_reasons (suc n) = omega (arith, missing_reasons n)

on_failure-final :
    (r : ℕ) (v : ConnectVerdict)
    → (on_failure r v).0 ≡ true
    → (2 ≤ (on_failure r v).1.wrong_password_count) ⊎ (2 ≤ (on_failure r v).1.not_found_count)
unfolding on_failure
on_failure-final r v final = ground arith

-- The verdict from the two counts.
result-of_wrong :
    (v : ConnectVerdict)
    → 0 < v.wrong_password_count
    → v.not_found_count ≤ v.wrong_password_count
    → result v ≡ wrong_password
unfolding result
result-of_wrong v some_wrong most = ground arith

result-of_missing :
    (v : ConnectVerdict) → v.wrong_password_count < v.not_found_count → result v ≡ network_not_found
unfolding result
result-of_missing v most = ground arith

wrong-ne-missing : wrong_password ≢ network_not_found
wrong-ne-missing e = ground arith

-- A verdict that `onFailure` calls final is not: more failures of the other kind turn it round.
pub on_failure-not_final :
    (r : ℕ) (v : ConnectVerdict)
    → (on_failure r v).0 ≡ true
    → (rs : List ℕ) × (result (after_failures rs (on_failure r v).1) ≢ result (on_failure r v).1)
on_failure-not_final r v final =
    let v' = (on_failure r v).1 in
    let w = v'.wrong_password_count in
    let m = v'.not_found_count in
    let counts = on_failure-final r v final in
    elim (Bool-cases (leb m w)) [
      | inl blames ↦
          let more = after_failures-counts (replicate (w + 1) 201) v' in
          let n = missing_reasons (w + 1) in
          let le = leb→le m w blames in
          (
            replicate (w + 1) 201,
            rw
                (
                  result-of_missing (after_failures (replicate (w + 1) 201) v')
                      (omega (arith, more.0, more.1, n)),
                  result-of_wrong v' (ground (arith, counts, le)) le,
                )
                (λ e. wrong-ne-missing (sym e)),
          )
      | inr misses ↦
          let more = after_failures-counts (replicate m 2) v' in
          let n = wrong_reasons m in
          let lt = leb→gt m w misses in
          (
            replicate m 2,
            rw
                (
                  result-of_wrong (after_failures (replicate m 2) v')
                      (omega (arith, more.0, more.1, n, lt)) (omega (arith, more.0, more.1, n)),
                  result-of_missing v' lt,
                )
                wrong-ne-missing,
          )
    ]
