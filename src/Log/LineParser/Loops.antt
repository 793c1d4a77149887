-- ===== src/Log/LineParser/Loops.antt =====
-- components/croniot/src/log/LineParser.cpp: where its loops stop, from what stands at the places they visit.
use croniot_iot.Prelude.{
  ℕ, zero, suc, ◌+◌, ◌-◌, ◌*◌, ◌^◌, ◌<◌, ◌≡◌, refl, sym, ap, ◌∙◌, true, false, some, [], ◌∷◌, ◌++◌,
  arith, ◌==◌, length, get_or, Bytes,
}
use croniot_iot.Prelude.Chars.{is_digit}
use croniot_iot.Prelude.Words.{u64}
use croniot_iot.Log.Journal.Files.Names.{AreDigits, value, value-le}
use croniot_iot.Log.LineParser.{is_line_end, trim_end, find_m, skip_digits, number_at, find_colon}

-- No character of these is `c`.
abbrev pub IsWithout : ℕ → Bytes → Type 0
IsWithout c [] = Unit {0}
IsWithout c (x ∷ xs) = ((x == c) ≡ false) × IsWithout c xs

-- Line ends only.
abbrev pub AreEnds : Bytes → Type 0
AreEnds [] = Unit {0}
AreEnds (x ∷ xs) = (is_line_end x ≡ true) × AreEnds xs

pub get_or-front : (xs ys : Bytes) (i : ℕ) → i < length xs → get_or (xs ++ ys) i 0 ≡ get_or xs i 0
get_or-front [] ys i h = absurd (omega arith)
get_or-front (x ∷ xs) ys zero h = refl
get_or-front (x ∷ xs) ys (suc i) h = get_or-front xs ys i (omega arith)

pub without_at :
    (c : ℕ) (xs : Bytes) → IsWithout c xs → (i : ℕ) → i < length xs → (get_or xs i 0 == c) ≡ false
without_at c [] w i h = absurd (omega arith)
without_at c (x ∷ xs) w zero h = w.0
without_at c (x ∷ xs) w (suc i) h = without_at c xs w.1 i (omega arith)

pub digit_at :
    (xs : Bytes) → AreDigits xs → (i : ℕ) → i < length xs → is_digit (get_or xs i 0) ≡ true
digit_at [] w i h = absurd (omega arith)
digit_at (x ∷ xs) w zero h = w.0
digit_at (x ∷ xs) w (suc i) h = digit_at xs w.1 i (omega arith)

pub end_at :
    (xs : Bytes) → AreEnds xs → (i : ℕ) → i < length xs → is_line_end (get_or xs i 0) ≡ true
end_at [] w i h = absurd (omega arith)
end_at (x ∷ xs) w zero h = w.0
end_at (x ∷ xs) w (suc i) h = end_at xs w.1 i (omega arith)

-- The line ends behind `m` bytes are dropped.
pub trim_end-ends :
    (buf : Bytes) (m k : ℕ)
    → ((j : ℕ) → j < k → is_line_end (get_or buf (m + j) 0) ≡ true)
    → trim_end buf (m + k) ≡ trim_end buf m
unfolding trim_end
trim_end-ends buf m zero over = let z : m + 0 ≡ m = omega arith in rw z
trim_end-ends buf m (suc k) over =
    let e : m + suc k ≡ suc (m + k) = omega arith in
    rw (e, over k (omega arith), trim_end) (trim_end-ends buf m k (λ j h. over j (omega arith)))

pub trim_end-stops :
    (buf : Bytes) (m : ℕ) → is_line_end (get_or buf m 0) ≡ false → trim_end buf (suc m) ≡ suc m
unfolding trim_end
trim_end-stops buf m other = rw other

-- Each loop, for what stands at the places it visits.
pub find_m-stops :
    (buf : Bytes) (i k n : ℕ)
    → ((j : ℕ) → j < k → (get_or buf (i + j) 0 == b'm') ≡ false)
    → (get_or buf (i + k) 0 == b'm') ≡ true
    → find_m buf i (k + suc n) ≡ i + k
unfolding find_m
find_m-stops buf i zero n others stop =
    let z : i + 0 ≡ i = omega arith in
    let e : 0 + suc n ≡ suc n = omega arith in
    let here : (get_or buf i 0 == b'm') ≡ true = ap (λ x. get_or buf x 0 == b'm') (sym z) ∙ stop in
    rw (e, here, z)
find_m-stops buf i (suc k) n others stop =
    let z : i + 0 ≡ i = omega arith in
    let e : suc k + suc n ≡ suc (k + suc n) = omega arith in
    let here : (get_or buf i 0 == b'm') ≡ false =
      ap (λ x. get_or buf x 0 == b'm') (sym z) ∙ others 0 (omega arith) in
    let next : (j : ℕ) → (i + 1) + j ≡ i + suc j = λ j. omega arith in
    rw (e, here, find_m)
      (find_m-stops buf (i + 1) k n (λ j h. rw (next j) (others (suc j) (omega arith)))
          (rw (next k) stop)
        ∙ next k)

pub skip_digits-stops :
    (buf : Bytes) (i k n : ℕ)
    → ((j : ℕ) → j < k → is_digit (get_or buf (i + j) 0) ≡ true)
    → is_digit (get_or buf (i + k) 0) ≡ false
    → skip_digits buf i (k + suc n) ≡ i + k
unfolding skip_digits
skip_digits-stops buf i zero n others stop =
    let z : i + 0 ≡ i = omega arith in
    let e : 0 + suc n ≡ suc n = omega arith in
    let here : is_digit (get_or buf i 0) ≡ false =
      ap (λ x. is_digit (get_or buf x 0)) (sym z) ∙ stop in
    rw (e, here, z)
skip_digits-stops buf i (suc k) n others stop =
    let z : i + 0 ≡ i = omega arith in
    let e : suc k + suc n ≡ suc (k + suc n) = omega arith in
    let here : is_digit (get_or buf i 0) ≡ true =
      ap (λ x. is_digit (get_or buf x 0)) (sym z) ∙ others 0 (omega arith) in
    let next : (j : ℕ) → (i + 1) + j ≡ i + suc j = λ j. omega arith in
    rw (e, here, skip_digits)
      (skip_digits-stops buf (i + 1) k n (λ j h. rw (next j) (others (suc j) (omega arith)))
          (rw (next k) stop)
        ∙ next k)

pub find_colon-stops :
    (buf : Bytes) (i k n : ℕ)
    → ((j : ℕ) → j < k → (get_or buf (i + j) 0 == b':') ≡ false)
    → (get_or buf (i + k) 0 == b':') ≡ true
    → (get_or buf (i + k + 1) 0 == b' ') ≡ true
    → find_colon buf i (k + suc n) ≡ some (i + k)
unfolding find_colon
find_colon-stops buf i zero n others stop blank =
    let z : i + 0 ≡ i = omega arith in
    let e : 0 + suc n ≡ suc n = omega arith in
    let here : (get_or buf i 0 == b':') ≡ true = ap (λ x. get_or buf x 0 == b':') (sym z) ∙ stop in
    let behind : (get_or buf (i + 1) 0 == b' ') ≡ true =
      ap (λ x. get_or buf (x + 1) 0 == b' ') (sym z) ∙ blank in
    rw (e, here, behind, z)
find_colon-stops buf i (suc k) n others stop blank =
    let z : i + 0 ≡ i = omega arith in
    let e : suc k + suc n ≡ suc (k + suc n) = omega arith in
    let here : (get_or buf i 0 == b':') ≡ false =
      ap (λ x. get_or buf x 0 == b':') (sym z) ∙ others 0 (omega arith) in
    let next : (j : ℕ) → (i + 1) + j ≡ i + suc j = λ j. omega arith in
    rw (e, here, find_colon)
      (find_colon-stops buf (i + 1) k n (λ j h. rw (next j) (others (suc j) (omega arith)))
          (rw (next k) stop) (rw (next k) blank)
        ∙ ap some (next k))

pub number_at-value :
    (buf ds : Bytes) (i acc : ℕ)
    → ((j : ℕ) → j < length ds → get_or buf (i + j) 0 ≡ get_or ds j 0)
    → value acc ds < 2 ^ 64
    → number_at buf i (length ds) acc ≡ value acc ds
unfolding number_at
number_at-value buf [] i acc same fits = refl
number_at-value buf (d ∷ ds) i acc same fits =
    let z : i + 0 ≡ i = omega arith in
    let here : get_or buf i 0 ≡ d = ap (λ x. get_or buf x 0) (sym z) ∙ same 0 (omega arith) in
    let next : (j : ℕ) → (i + 1) + j ≡ i + suc j = λ j. omega arith in
    let grows = value-le (acc * 10 + (d - b'0')) ds in
    let small : u64 (acc * 10 + (d - b'0')) ≡ acc * 10 + (d - b'0') = ground arith in
    rw (here, small, number_at)
      (number_at-value buf ds (i + 1) (acc * 10 + (d - b'0'))
        (λ j h. rw (next j) (same (suc j) (omega arith))) fits)
