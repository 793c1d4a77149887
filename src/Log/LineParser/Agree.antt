-- ===== src/Log/LineParser/Agree.antt =====
-- components/croniot/src/log/LineParser.cpp: `parseEspLogLineFast` beside `parseEspLogLine`.
use croniot_iot.Prelude.{
  take-take, ℕ, ◌+◌, ◌-◌, ◌≤◌, ◌<◌, ◌≡◌, refl, sym, ap, ◌∙◌, Bool, true, false, not, ◌||◌, Option,
  none, some, arith, ltb, ◌==◌, if◌then◌else◌, length, get_or, take, drop, Bytes, length-take,
  length-drop, drop-drop,
}
use croniot_iot.Log.Record.{LogRecord, set_tag, set_message}
use croniot_iot.Log.LineParser.{
  Shape, ParsedLine, level_from_char, trim_end, skip_digits, number_at, find_colon, is_level_char,
  is_at, shape_at, shape_of, find_shape, fast_end, fast_start, write_record,
  parse_esp_log_line_fast, without_end, without_reset, without_colour, bare_line, parsed_line,
  parse_esp_log_line,
}
use croniot_iot.Log.LineParser.Windows.{
  get_or-drop, get_or-take, drop-take, skip_digits-shift, number_at-shift, shifted,
  find_colon-shift, is_at-shift, skip_digits-ends, find_colon-starts, find_colon-ends,
  trim_end-short, trim_reset-short, leading_ansi_length-short, trim_end-take, trim_reset-take,
  leading_ansi_length-take,
}

-- `out` with the fields of a parsed line; `none` is the line that is refused.
abbrev pub record_of : LogRecord → Option ParsedLine → Option LogRecord
record_of out none = none
record_of out (some p) = some (
    set_message p.message (set_tag p.tag (record out { level = p.level; uptime_ms = p.uptime_ms })))

-- One test that both parsers make, and what they do behind it.
refused {ℓ} :
    {A B C : Type ℓ}
    → (f : Option A → C) (g : Option B → C) (a b : Bool) (x : Option A) (y : Option B) → a ≡ b
    → f none ≡ g none
    → (b ≡ false → f x ≡ g y)
    → f (if a then none else x) ≡ g (if b then none else y)
refused f g a true x y e stop go = rw e stop
refused f g a false x y e stop go = rw e (go refl)

module _ (buf : Bytes) (end s : ℕ) (out : LogRecord) (inside : end ≤ length buf)
    (from : s ≤ end) where
  abbrev line : Bytes
  line = drop s (take end buf)

  size : length line ≡ end - s
  size = ground (arith, length-drop s (take end buf), length-take end buf)

  same : (i : ℕ) → i < length line → get_or buf (s + i) 0 ≡ get_or line i 0
  same i h =
      let n = size in
      rw (get_or-drop s (take end buf) i 0) (sym (get_or-take end buf (s + i) 0 (omega arith)))

  -- What one parser writes, and the other returns, for a tag and a colon within the line.
  written :
      (level : _) (uptime_ms tag colon : ℕ)
      → tag ≤ colon
      → colon < length line
      → write_record buf end out (
          some (record {
            level = level;
            uptime_ms = uptime_ms;
            tag_start = s + tag;
            colon_pos = s + colon;
          }))
        ≡ record_of out (
            parsed_line line (
              some (record {
                level = level;
                uptime_ms = uptime_ms;
                tag_start = tag;
                colon_pos = colon;
              })))
  written level uptime_ms tag colon before within =
      let t : drop tag line ≡ take (end - (s + tag)) (drop (s + tag) buf) =
        rw (drop-drop tag s (take end buf)) (drop-take (s + tag) end buf) in
      let n = size in
      let d : (s + colon) - (s + tag) ≡ colon - tag = omega arith in
      let tt : take (colon - tag) (drop tag line) ≡ take (colon - tag) (drop (s + tag) buf) =
        rw t (take-take (colon - tag) (end - (s + tag)) (drop (s + tag) buf) (omega arith)) in
      let c : (s + colon) + 2 ≡ s + (colon + 2) = omega arith in
      let m : drop (colon + 2) line ≡ take (end - (s + (colon + 2))) (drop (s + (colon + 2)) buf) =
        rw (drop-drop (colon + 2) s (take end buf)) (drop-take (s + (colon + 2)) end buf) in
      rw (tt, m, d, c)

  shape_at-agrees :
      (level : _) (uptime_ms tag : ℕ) (found : Option ℕ)
      → ((colon : ℕ) → found ≡ some colon → tag ≤ colon)
      → ((colon : ℕ) → found ≡ some colon → colon < length line)
      → write_record buf end out (shape_at level uptime_ms (s + tag) (shifted s found))
        ≡ record_of out (parsed_line line (shape_at level uptime_ms tag found))
  unfolding shape_at
  shape_at-agrees level uptime_ms tag none before within = refl
  shape_at-agrees level uptime_ms tag (some colon) before within =
      refused (write_record buf end out) (λ p. record_of out (parsed_line line p))
        (s + colon == s + tag) (colon == tag) _ _ (ground arith) refl
        (λ _. written level uptime_ms tag colon (before colon refl) (within colon refl))

  shape_of-agrees :
      (level : _) (uptime_ms tag : ℕ)
      → write_record buf end out (shape_of buf end level uptime_ms (s + tag))
        ≡ record_of out (parsed_line line (shape_of line (length line) level uptime_ms tag))
  unfolding shape_of
  shape_of-agrees level uptime_ms tag =
      let n = size in
      let places = length line - 1 - tag in
      let e : end - 1 - (s + tag) ≡ places = omega arith in
      let f = find_colon-shift buf line s same tag places (omega arith) in
      rw (e, f, write_record)
        (shape_at-agrees level uptime_ms tag (find_colon line tag places)
          (λ colon found. find_colon-starts line tag places colon found)
          (λ colon found.
            let b = find_colon-ends line tag places colon found in
            let c = find_colon-starts line tag places colon found in omega arith))

  -- Where the digits end, behind a parenthesis.
  digits-shift :
      2 < length line
      → skip_digits buf (s + 3) (end - (s + 3)) ≡ s + skip_digits line 3 (length line - 3)
  digits-shift long =
      let n = size in
      let e : end - (s + 3) ≡ length line - 3 = omega arith in
      rw e (skip_digits-shift buf line s same 3 (length line - 3) (omega arith))

  digits-number :
      2 < length line
      → number_at buf (s + 3) (skip_digits buf (s + 3) (end - (s + 3)) - (s + 3)) 0
        ≡ number_at line 3 (skip_digits line 3 (length line - 3) - 3) 0
  digits-number long =
      let p = skip_digits line 3 (length line - 3) in
      let e : (s + p) - (s + 3) ≡ p - 3 = omega arith in
      let b = skip_digits-ends line 3 (length line - 3) in
      rw (digits-shift long, e) (number_at-shift buf line s same 3 (p - 3) 0 (omega arith))

  level_char-same : 2 ≤ length line → get_or buf s 0 ≡ get_or line 0 0
  level_char-same long =
      let z : s + 0 ≡ s = omega arith in ap (λ i. get_or buf i 0) (sym z) ∙ same 0 (omega arith)

  level-same :
      2 ≤ length line
      → (not (is_level_char (get_or buf s 0)) || not (get_or buf (s + 1) 0 == b' '))
        ≡ (not (is_level_char (get_or line 0 0)) || not (get_or line 1 0 == b' '))
  level-same long = let e = level_char-same long in let f = same 1 (omega arith) in rw (e, f)

  not_at : (p c : ℕ) → not (is_at buf end (s + p) c) ≡ not (is_at line (length line) p c)
  not_at p c = ap not (is_at-shift buf line s same end p c size)

  pub find_shape-agrees :
      write_record buf end out (find_shape buf s end)
      ≡ record_of out (parsed_line line (find_shape line 0 (length line)))
  unfolding find_shape
  find_shape-agrees =
      let n = size in
      let f : Option Shape → Option LogRecord = write_record buf end out in
      let g : Option Shape → Option LogRecord = λ p. record_of out (parsed_line line p) in
      refused f g (ltb (end - s) 2) (ltb (length line - 0) 2) _ _ (ground arith) refl (λ two.
        let long : 2 ≤ length line = ground arith in
        refused f g _ _ _ _ (level-same long) refl (λ _.
          refused f g _ _ _ _ (not_at 2 b'(') refl (λ paren.
            let longer : 2 < length line = ground arith in
            let d = digits-shift longer in
            let p = skip_digits line 3 (length line - 3) in
            let e : (skip_digits buf (s + 3) (end - (s + 3)) == s + 3) ≡ (p == 3) =
              ground (arith, d) in
            let q = ap (λ k. not (is_at buf end k b')')) d ∙ not_at p b')' in
            let c : (s + p) + 1 ≡ s + (p + 1) = omega arith in
            let r =
              ap (λ k. not (is_at buf end (k + 1) b' ')) d
              ∙ (ap (λ k. not (is_at buf end k b' ')) c ∙ not_at (p + 1) b' ') in
            refused f g _ _ _ _ e refl (λ _. refused f g _ _ _ _ q refl (λ _.
              refused f g _ _ _ _ r refl (λ _.
                let level = level_from_char (get_or line 0 0) in
                let value = number_at line 3 (p - 3) 0 in
                let start : skip_digits buf (s + 3) (end - (s + 3)) + 2 ≡ s + (p + 2) =
                  omega (arith, d) in
                ap
                  (λ x. f (
                    shape_of buf end (level_from_char x)
                      (number_at buf (s + 3) (skip_digits buf (s + 3) (end - (s + 3)) - (s + 3)) 0)
                      (skip_digits buf (s + 3) (end - (s + 3)) + 2)))
                  (level_char-same long)
                ∙ (ap
                      (λ x.
                        f (shape_of buf end level x (skip_digits buf (s + 3) (end - (s + 3)) + 2)))
                      (digits-number longer)
                    ∙ (ap (λ x. f (shape_of buf end level value x)) start
                        ∙ shape_of-agrees level value (p + 2)))))))))

-- Where the two trim to.
bare_line-agrees :
    (buf : Bytes) (len : ℕ)
    → len ≤ length buf
    → bare_line (take len buf) ≡ drop (fast_start buf len) (take (fast_end buf len) buf)
bare_line-agrees buf len h =
    let n = trim_end-short buf len in
    let m = trim_reset-short buf (trim_end buf len) in
    let size : length (take len buf) ≡ len = ground (arith, length-take len buf) in
    let ends : without_end (take len buf) ≡ take (trim_end buf len) buf =
      rw (size, trim_end-take len buf len (omega arith)) (take-take (trim_end buf len) len buf n) in
    let size2 : length (take (trim_end buf len) buf) ≡ trim_end buf len =
      ground (arith, length-take (trim_end buf len) buf) in
    let resets : without_reset (take (trim_end buf len) buf) ≡ take (fast_end buf len) buf =
      rw (size2, trim_reset-take (trim_end buf len) buf)
        (take-take (fast_end buf len) (trim_end buf len) buf m) in
    let size3 : length (take (fast_end buf len) buf) ≡ fast_end buf len =
      ground (arith, length-take (fast_end buf len) buf) in
    let colours : without_colour (take (fast_end buf len) buf)
        ≡ drop (fast_start buf len) (take (fast_end buf len) buf) =
      rw (size3, leading_ansi_length-take (fast_end buf len) buf) in
    ap (λ l. without_colour (without_reset l)) ends ∙ (ap without_colour resets ∙ colours)

-- `parseEspLogLineFast` on the first `len` bytes of a buffer and `parseEspLogLine` on a string of them
-- agree: both refuse the line, or the first writes the level, the number, the tag and the message that the
-- second returns, the last two cut to what a record holds.
pub parse_esp_log_line_fast-agrees :
    (buf : Bytes) (len : ℕ) (out : LogRecord)
    → len ≤ length buf
    → parse_esp_log_line_fast buf len out ≡ record_of out (parse_esp_log_line (take len buf))
unfolding parse_esp_log_line_fast parse_esp_log_line
parse_esp_log_line_fast-agrees buf len out h =
    let b = bare_line-agrees buf len h in
    let short = trim_reset-short buf (trim_end buf len) in
    let short2 = trim_end-short buf len in
    let from = leading_ansi_length-short buf (fast_end buf len) in
    rw b (find_shape-agrees buf (fast_end buf len) (fast_start buf len) out (omega arith) from)
