-- ===== src/Log/LineParser/Windows.antt =====
-- components/croniot/src/log/LineParser.cpp: its loops in a buffer and in the part of it that is
-- copied out.
use croniot_iot.Prelude.{
  ℕ, zero, suc, ◌+◌, ◌-◌, ◌*◌, ◌≤◌, ◌<◌, ◌≡◌, refl, sym, Bool, true, false, ◌&&◌, Option, none,
  some, List, [], ◌∷◌, arith, Bool-cases, inl, inr, ltb, leb, ◌==◌, if◌then◌else◌, length, get_or,
  take, drop, take-take, Bytes,
}
use croniot_iot.Prelude.Chars.{is_digit}
use croniot_iot.Prelude.Words.{u64}
use croniot_iot.Log.LineParser.{
  trim_end, trim_reset, find_m, leading_ansi_length, skip_digits, number_at, find_colon,
}

module _ {ℓ} {A : Type ℓ} where
  pub get_or-drop :
      (k : ℕ) (xs : List A) (i : ℕ) (d : A) → get_or (drop k xs) i d ≡ get_or xs (k + i) d
  get_or-drop zero xs i d = let e : 0 + i ≡ i = omega arith in rw e
  get_or-drop (suc k) [] i d = refl
  get_or-drop (suc k) (x ∷ xs) i d =
      let e : suc k + i ≡ suc (k + i) = omega arith in rw e (get_or-drop k xs i d)

  pub get_or-take :
      (n : ℕ) (xs : List A) (i : ℕ) (d : A) → i < n → get_or (take n xs) i d ≡ get_or xs i d
  get_or-take zero xs i d h = absurd (omega arith)
  get_or-take (suc n) [] i d h = refl
  get_or-take (suc n) (x ∷ xs) zero d h = refl
  get_or-take (suc n) (x ∷ xs) (suc i) d h = get_or-take n xs i d (omega arith)

  take-nil : (n : ℕ) → take {A = A} n [] ≡ []
  take-nil zero = refl
  take-nil (suc n) = refl

  pub drop-take : (k n : ℕ) (xs : List A) → drop k (take n xs) ≡ take (n - k) (drop k xs)
  drop-take zero n xs = let e : n - 0 ≡ n = omega arith in rw e
  drop-take (suc k) zero xs = let e : 0 - suc k ≡ 0 = omega arith in rw e
  drop-take (suc k) (suc n) [] = sym (take-nil (suc n - suc k))
  drop-take (suc k) (suc n) (x ∷ xs) =
      let e : suc n - suc k ≡ n - k = omega arith in rw e (drop-take k n xs)

ap_if : (s : ℕ) (b : Bool) (x y : ℕ) → (if b then s + x else (s + y)) ≡ s + (if b then x else y)
ap_if s true x y = refl
ap_if s false x y = refl

abbrev pub shifted : ℕ → Option ℕ → Option ℕ
shifted s none = none
shifted s (some i) = some (s + i)

shifted_if :
    (s : ℕ) (b : Bool) (i : ℕ) (rest : Option ℕ)
    → (if b then some (s + i) else shifted s rest) ≡ shifted s (if b then some i else rest)
shifted_if s true i rest = refl
shifted_if s false i rest = refl

-- `line` is `buf` from `s` on, as far as `line` goes.
module _ (buf line : Bytes) (s : ℕ)
    (same : (i : ℕ) → i < length line → get_or buf (s + i) 0 ≡ get_or line i 0) where
  pub skip_digits-shift :
      (i n : ℕ) → i + n ≤ length line → skip_digits buf (s + i) n ≡ s + skip_digits line i n
  unfolding skip_digits
  skip_digits-shift i zero h = refl
  skip_digits-shift i (suc n) h =
      let rest = skip_digits-shift (i + 1) n (omega arith) in
      let e : (s + i) + 1 ≡ s + (i + 1) = omega arith in
      let here = same i (omega arith) in
      rw (e, here, rest) (ap_if s (is_digit (get_or line i 0)) _ _)

  pub number_at-shift :
      (i n acc : ℕ) → i + n ≤ length line → number_at buf (s + i) n acc ≡ number_at line i n acc
  unfolding number_at
  number_at-shift i zero acc h = refl
  number_at-shift i (suc n) acc h =
      let e : (s + i) + 1 ≡ s + (i + 1) = omega arith in
      let here = same i (omega arith) in
      rw (e, here)
        (number_at-shift (i + 1) n (u64 (acc * 10 + (get_or line i 0 - b'0'))) (omega arith))

  pub find_colon-shift :
      (i n : ℕ)
      → n ≤ length line - 1 - i
      → find_colon buf (s + i) n ≡ shifted s (find_colon line i n)
  unfolding find_colon
  find_colon-shift i zero h = refl
  find_colon-shift i (suc n) h =
      let rest = find_colon-shift (i + 1) n (omega arith) in
      let e : (s + i) + 1 ≡ s + (i + 1) = omega arith in
      let here = same i (omega arith) in
      let next = same (i + 1) (omega arith) in
      rw (e, here, next, rest)
        (shifted_if s (get_or line i 0 == b':' && get_or line (i + 1) 0 == b' ') _ _)

  -- The test at one place.
  pub is_at-shift :
      (end p c : ℕ)
      → length line ≡ end - s
      → (ltb (s + p) end && get_or buf (s + p) 0 == c)
        ≡ (ltb p (length line) && get_or line p 0 == c)
  is_at-shift end p c size = elim (Bool-cases (ltb p (length line))) [
    | inl inside ↦
        let e : ltb (s + p) end ≡ true = ground arith in
        let here = same p (ground arith) in rw (e, inside, here)
    | inr outside ↦ let e : ltb (s + p) end ≡ false = ground arith in rw (e, outside)
  ]

pub skip_digits-ends : (line : Bytes) (i n : ℕ) → skip_digits line i n ≤ i + n
unfolding skip_digits
skip_digits-ends line i zero = omega arith
skip_digits-ends line i (suc n) = ground (arith, skip_digits-ends line (i + 1) n)

pub find_colon-ends :
    (line : Bytes) (i n colon : ℕ) → find_colon line i n ≡ some colon → colon < i + n
unfolding find_colon
find_colon-ends line i zero colon found = ground arith
find_colon-ends line i (suc n) colon found = ground (arith, find_colon-ends line (i + 1) n colon)

pub find_colon-starts :
    (line : Bytes) (i n colon : ℕ) → find_colon line i n ≡ some colon → i ≤ colon
unfolding find_colon
find_colon-starts line i zero colon found = ground arith
find_colon-starts line i (suc n) colon found =
    ground (arith, find_colon-starts line (i + 1) n colon)

pub trim_end-short : (buf : Bytes) (e : ℕ) → trim_end buf e ≤ e
unfolding trim_end
trim_end-short buf zero = omega arith
trim_end-short buf (suc e) = ground (arith, trim_end-short buf e)

pub trim_reset-short : (buf : Bytes) (e : ℕ) → trim_reset buf e ≤ e
unfolding trim_reset
trim_reset-short buf e = ground arith

pub leading_ansi_length-short : (buf : Bytes) (len : ℕ) → leading_ansi_length buf len ≤ len
unfolding leading_ansi_length
leading_ansi_length-short buf len = ground arith

pub trim_end-take : (n : ℕ) (buf : Bytes) (e : ℕ) → e ≤ n → trim_end (take n buf) e ≡ trim_end buf e
unfolding trim_end
trim_end-take n buf zero h = refl
trim_end-take n buf (suc e) h =
    let rest = trim_end-take n buf e (omega arith) in
    let here = get_or-take n buf e 0 (omega arith) in rw (here, rest)

pub trim_reset-take : (n : ℕ) (buf : Bytes) → trim_reset (take n buf) n ≡ trim_reset buf n
unfolding trim_reset
trim_reset-take n buf = elim (Bool-cases (leb 4 n)) [
  | inl long ↦
      let e : n - (n - 4) ≡ 4 = ground arith in
      let w : take 4 (drop (n - 4) (take n buf)) ≡ take 4 (drop (n - 4) buf) =
        rw (drop-take (n - 4) n buf, e) (take-take 4 4 (drop (n - 4) buf) (omega arith)) in
      rw w
  | inr short ↦ rw short
]

pub find_m-take :
    (len : ℕ) (buf : Bytes) (i n : ℕ) → i + n ≤ len → find_m (take len buf) i n ≡ find_m buf i n
unfolding find_m
find_m-take len buf i zero h = refl
find_m-take len buf i (suc n) h =
    let rest = find_m-take len buf (i + 1) n (omega arith) in
    let here = get_or-take len buf i 0 (omega arith) in rw (here, rest)

pub leading_ansi_length-take :
    (len : ℕ) (buf : Bytes) → leading_ansi_length (take len buf) len ≡ leading_ansi_length buf len
unfolding leading_ansi_length
leading_ansi_length-take len buf = elim (Bool-cases (ltb len 3)) [
  | inl short ↦ rw short
  | inr long ↦
      let e0 = get_or-take len buf 0 0 (ground arith) in
      let e1 = get_or-take len buf 1 0 (ground arith) in
      let m = find_m-take len buf 2 (len - 2) (ground arith) in rw (e0, e1, m)
]
