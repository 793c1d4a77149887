-- ===== src/Log/LineParser/Parts.antt =====
-- components/croniot/src/log/LineParser.cpp: the tag, the number and the message of a line as LineParser.h
-- describes it.
use croniot_iot.Prelude.{
  ℕ, suc, ◌+◌, ◌-◌, ◌^◌, ◌<◌, ◌≡◌, refl, ap, ap₂, ◌∙◌, Bool, true, false, not, ◌||◌, Option, none,
  some, [], ◌∷◌, ◌++◌, arith, ltb, ◌==◌, if◌then◌else◌, length, get_or, take, drop, Bytes,
  length-append, get_or-append, take-append_self, drop-append,
}
use croniot_iot.Prelude.Chars.{is_digit}
use croniot_iot.Log.Record.{Level}
use croniot_iot.Log.Journal.Files.{decimal_digits}
use croniot_iot.Log.Journal.Files.Names.{
  decimal_digits-AreDigits, value-decimal_digits, decimal_digits-suc,
}
use croniot_iot.Log.LineParser.{
  ParsedLine, level_from_char, is_level_char, is_at, skip_digits, number_at, find_colon, shape_at,
  shape_of, find_shape, parsed_line,
}
use croniot_iot.Log.LineParser.Loops.{
  IsWithout, get_or-front, without_at, digit_at, skip_digits-stops, find_colon-stops,
  number_at-value,
}

-- `<L> (<uptime_ms>) <tag>: <msg>`.
abbrev pub esp_line : ℕ → ℕ → Bytes → Bytes → Bytes
esp_line c uptime_ms tag message =
    c
    ∷ b' '
    ∷ b'('
    ∷ (decimal_digits (suc uptime_ms) uptime_ms ++ b')' ∷ b' ' ∷ (tag ++ b':' ∷ b' ' ∷ message))

abbrev read_back : Level → ℕ → Bytes → Bytes → Option ParsedLine
read_back level uptime_ms tag message =
    some (record { level = level; uptime_ms = uptime_ms; tag = tag; message = message })

passed {ℓ} :
    {A : Type ℓ} (test : Bool) (x : Option A) → test ≡ false → (if test then none else x) ≡ x
passed true x e = ground arith
passed false x e = refl

-- `buf[pos] == c` inside.
there :
    (buf : Bytes) (pos c : ℕ)
    → pos < length buf
    → get_or buf pos 0 ≡ c
    → not (is_at buf (length buf) pos c) ≡ false
there buf pos c inside e =
    let i : ltb pos (length buf) ≡ true = ground arith in rw (i, e) (ground arith)

module _ (c uptime_ms : ℕ) (tag message : Bytes) where
  abbrev digits : Bytes
  digits = decimal_digits (suc uptime_ms) uptime_ms

  abbrev behind : Bytes
  behind = tag ++ b':' ∷ b' ' ∷ message

  abbrev line : Bytes
  line = esp_line c uptime_ms tag message

  -- What stands where.
  at_digits : (j : ℕ) → j < length digits → get_or line (3 + j) 0 ≡ get_or digits j 0
  at_digits j h =
      get_or-append (c ∷ b' ' ∷ b'(' ∷ []) _ (3 + j) j 0 (omega arith)
      ∙ get_or-front digits (b')' ∷ b' ' ∷ behind) j h

  at_rest :
      (i k : ℕ) → i ≡ 3 + length digits + k → get_or line i 0 ≡ get_or (b')' ∷ b' ' ∷ behind) k 0
  at_rest i k e =
      get_or-append (c ∷ b' ' ∷ b'(' ∷ digits) (b')' ∷ b' ' ∷ behind) i k 0 (omega arith)

  at_tag : (i j : ℕ) → i ≡ 5 + length digits + j → j < length tag → get_or line i 0 ≡ get_or tag j 0
  at_tag i j e h =
      at_rest i (suc (suc j)) (omega arith) ∙ get_or-front tag (b':' ∷ b' ' ∷ message) j h

  at_colon :
      (i k : ℕ)
      → i ≡ 5 + length digits + length tag + k
      → get_or line i 0 ≡ get_or (b':' ∷ b' ' ∷ message) k 0
  at_colon i k e =
      at_rest i (suc (suc (length tag + k))) (omega arith)
      ∙ get_or-append tag (b':' ∷ b' ' ∷ message) (length tag + k) k 0 refl

  size : length line ≡ 7 + length digits + length tag + length message
  size = omega (
    arith,
    length-append digits (b')' ∷ b' ' ∷ behind),
    length-append tag (b':' ∷ b' ' ∷ message),
  )

  module _ (level : is_level_char c ≡ true) (fits : uptime_ms < 2 ^ 64) (named : 0 < length tag)
      (plain : IsWithout b':' tag) where
    some_digits : 0 < length digits
    some_digits =
        let d = decimal_digits-suc uptime_ms uptime_ms in
        let e : length digits ≡ suc (length d.1) = ap length d.2 in omega arith

    digits_end : skip_digits line 3 (length line - 3) ≡ 3 + length digits
    digits_end =
        let n = size in
        let e : length line - 3 ≡ length digits + suc (3 + length tag + length message) =
          omega arith in
        let paren = at_rest (3 + length digits) 0 (omega arith) in
        let stop : is_digit (get_or line (3 + length digits) 0) ≡ false = ap is_digit paren in
        rw e (
          skip_digits-stops line 3 (length digits) (3 + length tag + length message)
            (λ j h.
              rw (at_digits j h)
                (digit_at digits (decimal_digits-AreDigits (suc uptime_ms) uptime_ms) j h))
            stop)

    number : number_at line 3 (length digits) 0 ≡ uptime_ms
    number =
        let v = value-decimal_digits (suc uptime_ms) uptime_ms (omega arith) in
        number_at-value line digits 3 0 at_digits (rw v fits) ∙ v

    colon_at :
        find_colon line (5 + length digits) (length line - 1 - (5 + length digits))
        ≡ some (5 + length digits + length tag)
    colon_at =
        let n = size in
        let e : length line - 1 - (5 + length digits) ≡ length tag + suc (length message) =
          omega arith in
        let colon = at_colon (5 + length digits + length tag) 0 (omega arith) in
        let blank = at_colon (5 + length digits + length tag + 1) 1 (omega arith) in
        rw e (
          find_colon-stops line (5 + length digits) (length tag) (length message)
            (λ j h. rw (at_tag (5 + length digits + j) j refl h) (without_at b':' tag plain j h))
            (ap (λ x. x == b':') colon) (ap (λ x. x == b' ') blank))

    shape_found :
        shape_at
          (level_from_char c)
          uptime_ms
          (5 + length digits)
          (some (5 + length digits + length tag))
        ≡ some (record {
          level = level_from_char c;
          uptime_ms = uptime_ms;
          tag_start = 5 + length digits;
          colon_pos = 5 + length digits + length tag;
        })
    unfolding shape_at
    shape_found = passed (5 + length digits + length tag == 5 + length digits) _ (ground arith)

    shape_behind :
        shape_of line
          (length line)
          (level_from_char c)
          (number_at line 3 (skip_digits line 3 (length line - 3) - 3) 0)
          (skip_digits line 3 (length line - 3) + 2)
        ≡ some (record {
          level = level_from_char c;
          uptime_ms = uptime_ms;
          tag_start = 5 + length digits;
          colon_pos = 5 + length digits + length tag;
        })
    unfolding shape_of
    shape_behind =
        let e : skip_digits line 3 (length line - 3) - 3 ≡ length digits =
          omega (arith, digits_end) in
        let f : skip_digits line 3 (length line - 3) + 2 ≡ 5 + length digits =
          omega (arith, digits_end) in
        let level_at = level_from_char c in
        ap
          (λ k.
            shape_of line (length line) level_at (number_at line 3 k 0)
              (skip_digits line 3 (length line - 3) + 2))
          e
        ∙ (ap (λ k. shape_of line (length line) level_at (number_at line 3 (length digits) 0) k) f
            ∙ (ap (λ k. shape_of line (length line) level_at k (5 + length digits)) number
                ∙ (ap (shape_at level_at uptime_ms (5 + length digits)) colon_at ∙ shape_found)))

    find_shape-line :
        find_shape line 0 (length line)
        ≡ some (record {
          level = level_from_char c;
          uptime_ms = uptime_ms;
          tag_start = 5 + length digits;
          colon_pos = 5 + length digits + length tag;
        })
    unfolding find_shape
    find_shape-line =
        let n = size in
        let d = some_digits in
        let paren = at_rest (3 + length digits) 0 (omega arith) in
        let blank = at_rest (3 + length digits + 1) 1 (omega arith) in
        let pos = digits_end in
        let t4 : (skip_digits line 3 (length line - 3) == 3) ≡ false = rw pos (ground arith) in
        let t5 =
          ap (λ k. not (is_at line (length line) k b')')) pos
          ∙ there line (3 + length digits) b')' (omega arith) paren in
        let t6 =
          ap (λ k. not (is_at line (length line) (k + 1) b' ')) pos
          ∙ there line (3 + length digits + 1) b' ' (omega arith) blank in
        passed (ltb (length line - 0) 2) _ (ground arith)
        ∙ (passed _ _ (ap (λ b. not b || false) level)
            ∙ (passed _ _ (there line 2 b'(' (omega arith) refl)
                ∙ (passed _ _ t4 ∙ (passed _ _ t5 ∙ (passed _ _ t6 ∙ shape_behind)))))

    pub parsed_line-line :
        parsed_line line (find_shape line 0 (length line))
        ≡ some (record {
          level = level_from_char c;
          uptime_ms = uptime_ms;
          tag = tag;
          message = message;
        })
    parsed_line-line =
        let start = 5 + length digits in
        let colon = 5 + length digits + length tag in
        let front : Bytes = c ∷ b' ' ∷ b'(' ∷ digits in
        let t : drop start line ≡ behind =
          drop-append front (b')' ∷ b' ' ∷ behind) start 2 (omega arith) in
        let w : take (colon - start) (drop start line) ≡ tag =
          let e : colon - start ≡ length tag = omega arith in
          rw (e, t) (take-append_self tag (b':' ∷ b' ' ∷ message)) in
        let m : drop (colon + 2) line ≡ message =
          drop-append front (b')' ∷ b' ' ∷ behind) (colon + 2) (suc (suc (length tag + 2)))
            (omega arith)
          ∙ drop-append tag (b':' ∷ b' ' ∷ message) (length tag + 2) 2 refl in
        ap (parsed_line line) find_shape-line ∙ ap₂ (read_back (level_from_char c) uptime_ms) w m
