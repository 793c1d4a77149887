-- ===== src/Json/Progress.antt =====
-- How far the scanner has come: what makes the loops over an object's fields end.
use croniot_iot.Prelude.{
  ℕ, suc, ◌-◌, ◌≤◌, ◌<◌, ◌≡◌, refl, Bool, true, false, Option, none, some, [], ◌∷◌, arith, ◌==◌,
  length, Bytes, Bool-cases, inl, inr,
}
use croniot_iot.Json.{
  Scanner, trim_front, skip_ws, consume, peek, read_string, with_char, parse_string, parse_int,
  drop_digits, skip_nested, drop_plain, skip_value, skip_here, nested_end, string_end, starts_with,
  behind,
}

pub length-trim_front : (cs : Bytes) → length (trim_front cs) ≤ length cs
unfolding trim_front
length-trim_front [] = omega arith
length-trim_front (c ∷ cs) = ground (arith, length-trim_front cs)

-- What is left behind the closing quote of a string.
abbrev pub left_of : Option (Bytes × Bytes) → ℕ
left_of none = 0
left_of (some (out, rest)) = length rest

left_of-with_char : (c : ℕ) (o : Option (Bytes × Bytes)) → left_of (with_char c o) ≡ left_of o
left_of-with_char c none = refl
left_of-with_char c (some (out, rest)) = refl

length-read_string : (cs : Bytes) → left_of (read_string cs) ≤ length cs
unfolding read_string
length-read_string [] = omega arith
length-read_string (c ∷ []) = ground arith
length-read_string (c ∷ d ∷ cs) = elim (Bool-cases (c == b'"')) [
  | inl quote ↦ rw (quote, left_of) (omega arith)
  | inr plain ↦ elim (Bool-cases (c == b'\\')) [
    | inl escape ↦
        rw (plain, escape, left_of, left_of-with_char) (omega (arith, length-read_string cs))
    | inr more ↦
        rw (plain, more, left_of, left_of-with_char) (omega (arith, length-read_string (d ∷ cs)))
  ]
]

abbrev pub left_behind : Option Bytes → ℕ
left_behind none = 0
left_behind (some rest) = length rest

length-skip_nested :
    (left right depth : ℕ) (in_string : Bool) (cs : Bytes)
    → left_behind (skip_nested left right depth in_string cs) ≤ length cs
unfolding skip_nested
length-skip_nested left right depth in_string [] = omega arith
length-skip_nested left right depth true (c ∷ []) = omega arith
length-skip_nested left right depth true (c ∷ d ∷ cs) = ground (
  arith,
  length-skip_nested left right depth true cs,
  length-skip_nested left right depth true (d ∷ cs),
  length-skip_nested left right depth false (d ∷ cs),
)
length-skip_nested left right depth false (c ∷ cs) = ground (
  arith,
  length-skip_nested left right depth true cs,
  length-skip_nested left right depth false cs,
  length-skip_nested left right (suc depth) false cs,
  length-skip_nested left right (depth - 1) false cs,
)

length-behind : (cs : Bytes) → length (behind cs) ≤ length cs
length-behind [] = omega arith
length-behind (c ∷ cs) = omega arith

length-drop_plain : (cs : Bytes) → length (drop_plain cs) ≤ length cs
unfolding drop_plain
length-drop_plain [] = omega arith
length-drop_plain (c ∷ cs) = ground (arith, length-drop_plain cs)

length-drop_digits : (cs : Bytes) → length (drop_digits cs) ≤ length cs
unfolding drop_digits
length-drop_digits [] = omega arith
length-drop_digits (c ∷ cs) = ground (arith, length-drop_digits cs)

string_end-left :
    (s : Scanner) (o : Option (Bytes × Bytes)) → length (string_end s o).1.rest ≡ left_of o
string_end-left s none = refl
string_end-left s (some (out, rest)) = refl

-- A step of the scanner leaves no more than was there.
pub length-parse_string : (s : Scanner) → length (parse_string s).1.rest ≤ length s.rest
unfolding parse_string
length-parse_string s = elim (Bool-cases (starts_with b'"' (trim_front s.rest))) [
  | inl e ↦
      rw (e, string_end-left)
        (omega (
          arith,
          length-read_string (behind (trim_front s.rest)),
          length-behind (trim_front s.rest),
          length-trim_front s.rest,
        ))
  | inr e ↦ rw e (length-trim_front s.rest)
]

pub length-parse_int : (s : Scanner) → length (parse_int s).1.rest ≤ length s.rest
unfolding parse_int
length-parse_int s = ground (
  arith,
  length-trim_front s.rest,
  length-drop_digits (trim_front s.rest),
  length-behind (trim_front s.rest),
  length-drop_digits (behind (trim_front s.rest)),
)

pub length-peek : (s : Scanner) → length (peek s).1.rest ≤ length s.rest
unfolding peek
length-peek s = length-trim_front s.rest

nested_end-left : (s : Scanner) (o : Option Bytes) → length (nested_end s o).rest ≡ left_behind o
nested_end-left s none = refl
nested_end-left s (some rest) = refl

length-skip_here :
    (s : Scanner) (cs : Bytes) → s.rest ≡ cs → length (skip_here s cs).rest ≤ length cs
length-skip_here s [] e = ground arith
length-skip_here s (c ∷ cs) e = ground (
  arith,
  length-parse_string s,
  nested_end-left s,
  length-skip_nested b'{' b'}' 0 false (c ∷ cs),
  length-skip_nested b'[' b']' 0 false (c ∷ cs),
  length-drop_plain (c ∷ cs),
)

pub length-skip_value : (s : Scanner) → length (skip_value s).rest ≤ length s.rest
unfolding skip_value
length-skip_value s =
    omega (arith, length-skip_here (skip_ws s) (trim_front s.rest) refl, length-trim_front s.rest)

-- A character that is consumed is gone.
pub length-consume :
    (c : ℕ) (s : Scanner) → (consume c s).0 ≡ true → length (consume c s).1.rest < length s.rest
unfolding consume
length-consume c s e = ground (arith, length-trim_front s.rest)
