-- ===== src/Json.antt =====
-- components/croniot/src/JsonScanner.h: the scanner behind the messages and files that the device
-- reads. `s_` and `pos_` are the rest of the text.
pub mod Object
pub mod Progress
pub mod Strings
use croniot_iot.Prelude.{
  ℕ, suc, ◌-◌, ◌+◌, ◌^◌, Bool, true, false, not, ◌&&◌, ◌||◌, Option, none, some, List, [], ◌∷◌, min,
  ltb, ◌==◌, if◌then◌else◌, is_empty, Bytes,
}
use croniot_iot.Prelude.Chars.{is_space, is_digit, read_digits}

pub record Scanner : Type 0 where
  pub rest : Bytes
  pub ok : Bool

-- `JsonScanner(s)`.
abbrev pub scanner_on : Bytes → Scanner
scanner_on s = record { rest = s; ok = true }

abbrev pub fail : Scanner → Scanner
fail s = record s { ok = false }

-- The loop of `skipWs`.
unfoldable pub trim_front : Bytes → Bytes
trim_front [] = []
trim_front (c ∷ cs) = let rest = trim_front cs in if is_space c then rest else c ∷ cs

-- `skipWs`.
abbrev pub skip_ws : Scanner → Scanner
skip_ws s = record s { rest = trim_front s.rest }

-- `pos_ < s_.size() && s_[pos_] == c`.
abbrev pub starts_with : ℕ → Bytes → Bool
starts_with c [] = false
starts_with c (x ∷ xs) = x == c

-- `++pos_`.
abbrev pub behind : Bytes → Bytes
behind [] = []
behind (x ∷ xs) = xs

-- `consume`.
unfoldable pub consume : ℕ → Scanner → Bool × Scanner
unfolding trim_front
consume c s =
    let t = skip_ws s in
    if starts_with c t.rest then (true, record t { rest = behind t.rest }) else (false, fail t)

abbrev front : Bytes → ℕ
front [] = 0
front (x ∷ xs) = x

-- `peek`.
unfoldable pub peek : Scanner → ℕ × Scanner
unfolding trim_front
peek s = let t = skip_ws s in (front t.rest, t)

-- The `switch` on an escaped character.
abbrev unescape : ℕ → ℕ
unescape c = if c == b'n' then b'\n' else if c == b't' then b'\t' else c

-- `out += c`, in front of what is read later.
abbrev pub with_char : ℕ → Option (Bytes × Bytes) → Option (Bytes × Bytes)
with_char c none = none
with_char c (some (out, rest)) = some (c ∷ out, rest)

-- The loop of `parseString` behind the opening quote: the string, and what stands behind the
-- closing quote; `none` if there is no closing quote.
unfoldable pub read_string : Bytes → Option (Bytes × Bytes)
read_string [] = none
read_string (c ∷ []) = if c == b'"' then some ([], []) else none
read_string (c ∷ d ∷ cs) = elim (c == b'"') [
  | true ↦ some ([], d ∷ cs)
  | false ↦ elim (c == b'\\') [
    | true ↦ with_char (unescape d) (read_string cs)
    | false ↦ with_char c (read_string (d ∷ cs))
  ]
]

abbrev pub string_end : Scanner → Option (Bytes × Bytes) → Option Bytes × Scanner
string_end s none = (none, record { rest = []; ok = false })
string_end s (some (out, rest)) = (some out, record s { rest = rest })

-- `parseString`.
unfoldable pub parse_string : Scanner → Option Bytes × Scanner
unfolding read_string trim_front
parse_string s =
    let t = skip_ws s in
    if starts_with b'"' t.rest then string_end t (read_string (behind t.rest)) else (none, fail t)

-- `int64_t`.
pub data ℤ : Type 0 where
  pos : ℕ → ℤ
  negsuc : ℕ → ℤ

-- The value of `strtoll` on a sign and a magnitude: out of range, it is the nearest limit.
abbrev pub to_int64 : Bool → ℕ → ℤ
to_int64 negative n =
    if negative && ltb 0 n then negsuc (min n (2 ^ 63) - 1) else pos (min n (2 ^ 63 - 1))

unfoldable pub drop_digits : Bytes → Bytes
drop_digits [] = []
drop_digits (c ∷ cs) = let rest = drop_digits cs in if is_digit c then rest else c ∷ cs

abbrev starts_with_digit : Bytes → Bool
starts_with_digit [] = false
starts_with_digit (c ∷ cs) = is_digit c

abbrev digits_end : Scanner → Bool → Bytes → Option ℤ × Scanner
digits_end s negative digits =
    if starts_with_digit digits
    then (some (to_int64 negative (read_digits 0 digits)), record s { rest = drop_digits digits })
    else (none, record s { rest = digits; ok = false })

-- `parseInt`.
unfoldable pub parse_int : Scanner → Option ℤ × Scanner
unfolding read_digits drop_digits trim_front
parse_int s =
    let t = skip_ws s in
    let negative = starts_with b'-' t.rest in
    digits_end t negative (if negative then behind t.rest else t.rest)

-- The loop of `skipValue` over an object or a list; `none` if it never closes.
unfoldable pub skip_nested : ℕ → ℕ → ℕ → Bool → Bytes → Option Bytes
skip_nested left right depth in_string [] = none
skip_nested left right depth true (c ∷ []) = none
skip_nested left right depth true (c ∷ d ∷ cs) = elim (c == b'\\') [
  | true ↦ skip_nested left right depth true cs
  | false ↦ skip_nested left right depth (not (c == b'"')) (d ∷ cs)
]
skip_nested left right depth false (c ∷ cs) = elim (c == b'"') [
  | true ↦ skip_nested left right depth true cs
  | false ↦ elim (c == left) [
    | true ↦ skip_nested left right (suc depth) false cs
    | false ↦ elim (c == right) [
      | true ↦ elim (depth - 1 == 0) [
        | true ↦ some cs
        | false ↦ skip_nested left right (depth - 1) false cs
      ]
      | false ↦ skip_nested left right depth false cs
    ]
  ]
]

abbrev pub nested_end : Scanner → Option Bytes → Scanner
nested_end s none = record { rest = []; ok = false }
nested_end s (some rest) = record s { rest = rest }

abbrev is_delimiter : ℕ → Bool
is_delimiter c = (c == b',') || ((c == b'}') || ((c == b']') || is_space c))

-- The last loop of `skipValue`.
unfoldable pub drop_plain : Bytes → Bytes
drop_plain [] = []
drop_plain (c ∷ cs) = let rest = drop_plain cs in if is_delimiter c then c ∷ cs else rest

abbrev pub skip_here : Scanner → Bytes → Scanner
skip_here s [] = fail s
skip_here s (c ∷ cs) =
    if c == b'"'
    then (parse_string s).1
    else if c == b'{'
    then nested_end s (skip_nested b'{' b'}' 0 false (c ∷ cs))
    else if c == b'['
    then nested_end s (skip_nested b'[' b']' 0 false (c ∷ cs))
    else record s { rest = drop_plain (c ∷ cs) }

-- `skipValue`.
unfoldable pub skip_value : Scanner → Scanner
unfolding parse_string skip_nested drop_plain trim_front
skip_value s = let t = skip_ws s in skip_here t t.rest
