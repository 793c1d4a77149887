-- ===== src/Log/LineParser.antt =====
-- components/croniot/src/log/LineParser.{h,cpp}: a log line of ESP-IDF, read from a `std::string` and,
-- without allocation, from a part of a buffer.
-- Both walk with indices; the functions that the two share here are written twice in the source, with
-- `line` and `line.size()` in the place of `buf` and `end`.
pub mod Windows
pub mod Agree
pub mod Loops
pub mod Parts
pub mod Colour
pub mod RoundTrip
pub mod Tests
use croniot_iot.Prelude.{
  ℕ, zero, suc, ◌+◌, ◌-◌, ◌*◌, Bool, true, false, not, ◌&&◌, ◌||◌, Option, none, some, List, [],
  ◌∷◌, ltb, leb, ◌==◌, if◌then◌else◌, length, get_or, take, drop, codes, Bytes, bytes_eq,
}
use croniot_iot.Prelude.Chars.{is_digit}
use croniot_iot.Prelude.Words.{u64}
use croniot_iot.Log.Record.{Level, error, warn, info, debug, trace, LogRecord, set_tag, set_message}

-- `levelFromChar`.
unfoldable pub level_from_char : ℕ → Level
level_from_char c =
    if c == b'E'
    then error
    else if c == b'W'
    then warn
    else if c == b'I'
    then info
    else if c == b'D'
    then debug
    else if c == b'V'
    then trace
    else info

-- `isLevelChar`.
unfoldable pub is_level_char : ℕ → Bool
is_level_char c = c == b'E' || (c == b'W' || (c == b'I' || (c == b'D' || c == b'V')))

-- `'\033'`.
abbrev pub escape : ℕ
escape = 27

-- `kAnsiReset`.
abbrev pub ansi_reset : Bytes
ansi_reset = escape ∷ b'[' ∷ b'0' ∷ b'm' ∷ []

abbrev is_line_end : ℕ → Bool
is_line_end c = c == b'\n' || c == b'\r'

-- The loop of both parsers that drops line ends: the length that is left of `buf[0 .. end)`.
unfoldable pub trim_end : Bytes → ℕ → ℕ
trim_end buf zero = zero
trim_end buf (suc e) =
    let rest = trim_end buf e in if is_line_end (get_or buf e 0) then rest else suc e

-- The test for a colour reset at the end, and its removal.
unfoldable pub trim_reset : Bytes → ℕ → ℕ
trim_reset buf end =
    if leb 4 end && bytes_eq (take 4 (drop (end - 4) buf)) ansi_reset then end - 4 else end

-- The loop for the closing `m`: `n` characters from `i` on.
unfoldable pub find_m : Bytes → ℕ → ℕ → ℕ
find_m buf i zero = i
find_m buf i (suc n) = let rest = find_m buf (i + 1) n in if get_or buf i 0 == b'm' then i else rest

-- `leadingAnsiLength`, and `leadingAnsiLengthSpan`.
unfoldable pub leading_ansi_length : Bytes → ℕ → ℕ
leading_ansi_length buf len =
    let i = find_m buf 2 (len - 2) in
    if ltb len 3 || (not (get_or buf 0 0 == escape) || not (get_or buf 1 0 == b'['))
    then 0
    else if leb len i
    then 0
    else i + 1

-- The loop over the digits: where they end.
unfoldable pub skip_digits : Bytes → ℕ → ℕ → ℕ
skip_digits buf i zero = i
skip_digits buf i (suc n) =
    let rest = skip_digits buf (i + 1) n in if is_digit (get_or buf i 0) then rest else i

-- The number that `n` digits from `i` on state, behind `acc`.
unfoldable pub number_at : Bytes → ℕ → ℕ → ℕ → ℕ
number_at buf i zero acc = acc
number_at buf i (suc n) acc = number_at buf (i + 1) n (u64 (acc * 10 + (get_or buf i 0 - b'0')))

-- The first colon with a blank behind it, among `n` places from `i` on; `none` is `npos`.
unfoldable pub find_colon : Bytes → ℕ → ℕ → Option ℕ
find_colon buf i zero = none
find_colon buf i (suc n) =
    let rest = find_colon buf (i + 1) n in
    if get_or buf i 0 == b':' && get_or buf (i + 1) 0 == b' ' then some i else rest

-- What both parsers find behind the colours: a level, a number, and where tag and message stand.
pub record Shape : Type 0 where
  pub level : Level
  pub uptime_ms : ℕ
  pub tag_start : ℕ
  pub colon_pos : ℕ

-- `pos < end && buf[pos] == c`.
abbrev pub is_at : Bytes → ℕ → ℕ → ℕ → Bool
is_at buf end pos c = ltb pos end && get_or buf pos 0 == c

-- What is found behind the tag: no colon, an empty tag, or a tag.
unfoldable pub shape_at : Level → ℕ → ℕ → Option ℕ → Option Shape
shape_at level uptime_ms tag_start none = none
shape_at level uptime_ms tag_start (some colon) =
    if colon == tag_start
    then none
    else some
        (record { level = level; uptime_ms = uptime_ms; tag_start = tag_start; colon_pos = colon })

-- From the tag on.
unfoldable pub shape_of : Bytes → ℕ → Level → ℕ → ℕ → Option Shape
shape_of buf end level uptime_ms tag_start =
    shape_at level uptime_ms tag_start (find_colon buf tag_start (end - 1 - tag_start))

-- The tests of both parsers in order, on `buf[start .. end)`; `none` is the line that is refused.
unfoldable pub find_shape : Bytes → ℕ → ℕ → Option Shape
find_shape buf start end =
    let digits = start + 3 in
    let pos = skip_digits buf digits (end - digits) in
    if ltb (end - start) 2
    then none
    else if not (is_level_char (get_or buf start 0)) || not (get_or buf (start + 1) 0 == b' ')
    then none
    else if not (is_at buf end (start + 2) b'(')
    then none
    else if pos == digits
    then none
    else if not (is_at buf end pos b')')
    then none
    else if not (is_at buf end (pos + 1) b' ')
    then none
    else shape_of buf end (level_from_char (get_or buf start 0))
        (number_at buf digits (pos - digits) 0) (pos + 2)

-- `buf[start .. end)` of `parseEspLogLineFast` behind its trimming.
abbrev pub fast_end : Bytes → ℕ → ℕ
fast_end buf len = trim_reset buf (trim_end buf len)

abbrev pub fast_start : Bytes → ℕ → ℕ
fast_start buf len = leading_ansi_length buf (fast_end buf len)

abbrev write_record : Bytes → ℕ → LogRecord → Option Shape → Option LogRecord
write_record buf end out none = none
write_record buf end out (some s) = some (
    set_message (take (end - (s.colon_pos + 2)) (drop (s.colon_pos + 2) buf)) (
      set_tag (take (s.colon_pos - s.tag_start) (drop s.tag_start buf))
        (record out { level = s.level; uptime_ms = s.uptime_ms })))

-- `parseEspLogLineFast`: what it writes, or `none` if it returns false and writes nothing.
unfoldable pub parse_esp_log_line_fast : Bytes → ℕ → LogRecord → Option LogRecord
parse_esp_log_line_fast buf len out =
    write_record buf (fast_end buf len) out (find_shape buf (fast_start buf len) (fast_end buf len))

-- `ParsedLine`, if it is valid.
pub record ParsedLine : Type 0 where
  pub level : Level
  pub uptime_ms : ℕ
  pub tag : Bytes
  pub message : Bytes

abbrev pub without_end : Bytes → Bytes
without_end raw = let end = trim_end raw (length raw) in take end raw

abbrev pub without_reset : Bytes → Bytes
without_reset line = take (trim_reset line (length line)) line

abbrev pub without_colour : Bytes → Bytes
without_colour line = drop (leading_ansi_length line (length line)) line

-- `line` of `parseEspLogLine` behind its trimming.
abbrev pub bare_line : Bytes → Bytes
bare_line raw = without_colour (without_reset (without_end raw))

abbrev parsed_line : Bytes → Option Shape → Option ParsedLine
parsed_line line none = none
parsed_line line (some s) = some (record {
  level = s.level;
  uptime_ms = s.uptime_ms;
  tag = take (s.colon_pos - s.tag_start) (drop s.tag_start line);
  message = drop (s.colon_pos + 2) line;
})

-- `parseEspLogLine`; `none` is a result that is not valid.
unfoldable pub parse_esp_log_line : Bytes → Option ParsedLine
parse_esp_log_line raw =
    let line = bare_line raw in parsed_line line (find_shape line 0 (length line))
