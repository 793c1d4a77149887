-- ===== src/Ota/Blob.antt =====
-- `encodeRecord` and `decodeRecord` (components/croniot/src/ota/OtaPolicy.cpp), with `std::to_string`
-- and `std::atoi` on the numbers of a record.
pub mod Numbers
pub mod Lines
pub mod RoundTrip
use croniot_iot.Prelude.{
  ℕ, zero, suc, ◌+◌, ◌-◌, ◌*◌, ◌/◌, ◌%◌, ◌^◌, Bool, true, false, ◌&&◌, ◌||◌, Option, none, some,
  List, [], ◌∷◌, ◌++◌, ltb, leb, ◌==◌, if◌then◌else◌, length, codes, Bytes, bytes_eq,
}
use croniot_iot.Prelude.Chars.{is_space, is_digit, read_digits}
use croniot_iot.Prelude.Words.{u8}
use croniot_iot.Ota.Policy.{
  Phase, idle, installed, probing, phase_code, BadRelease, OtaRecord, empty_record,
  max_bad_releases,
}

-- `std::to_string` of a number that is not negative; a digit for each unit of fuel.
unfoldable pub digits_of : ℕ → ℕ → Bytes
digits_of zero n = []
digits_of (suc fuel) n =
    let rest = digits_of fuel (n / 10) ++ (n % 10 + b'0') ∷ [] in
    if ltb n 10 then (n + b'0') ∷ [] else rest

unfoldable pub to_string : ℕ → Bytes
unfolding digits_of
to_string n = digits_of (suc n) n

-- The value of `std::atoi`: a sign and a magnitude. (A value out of range of `int` is undefined in
-- the source.)
pub record Atoi : Type 0 where
  pub negative : Bool
  pub magnitude : ℕ

abbrev signed : Bytes → Atoi
signed [] = record { negative = false; magnitude = 0 }
signed (c ∷ cs) =
    if c == b'-'
    then record { negative = true; magnitude = read_digits 0 cs }
    else if c == b'+'
    then record { negative = false; magnitude = read_digits 0 cs }
    else record { negative = false; magnitude = read_digits 0 (c ∷ cs) }

unfoldable pub atoi : Bytes → Atoi
unfolding read_digits
atoi [] = signed []
atoi (c ∷ cs) = let rest = atoi cs in if is_space c then rest else signed (c ∷ cs)

-- Converted to an unsigned type of `modulus` values.
abbrev pub to_unsigned : ℕ → Atoi → ℕ
to_unsigned modulus a =
    if a.negative then (modulus - a.magnitude % modulus) % modulus else a.magnitude % modulus

-- `out += text + "\n"`, with what is appended later.
abbrev pub line_then : Bytes → Bytes → Bytes
line_then text rest = text ++ (b'\n' ∷ rest)

-- A line for each refused release.
unfoldable pub encode_bad : List BadRelease → Bytes
encode_bad [] = []
encode_bad (b ∷ bs) = line_then (b.version ++ (b'\t' ∷ b.request_id)) (encode_bad bs)

-- `encodeRecord`.
unfoldable pub encode_record : OtaRecord → Bytes
encode_record r = line_then (codes "v1") (
    line_then (to_string (phase_code r.phase)) (
      line_then r.request_id (
        line_then r.target_version (
          line_then r.previous_version (
            line_then (to_string r.attempts) (
              line_then r.last_failure
                (line_then (to_string (length r.bad)) (encode_bad r.bad))))))))

-- `find` of a character, with the two substrings that the callers take: before it, and behind it.
unfoldable pub split_at : ℕ → Bytes → Option (Bytes × Bytes)
split_at c [] = none
split_at c (x ∷ xs) =
    if x == c
    then some ([], xs)
    else elim (split_at c xs) [ none ↦ none | some (front, back) ↦ some (x ∷ front, back) ]

-- The loop of `decodeRecord`: every line ends in '\n'. Each round takes a byte at least.
unfoldable pub split_lines : ℕ → Bytes → Option (List Bytes)
split_lines fuel [] = some []
split_lines zero (c ∷ cs) = none
split_lines (suc fuel) (c ∷ cs) = elim (split_at b'\n' (c ∷ cs)) [
  | none ↦ none
  | some (line, rest) ↦ elim (split_lines fuel rest) [ none ↦ none | some ls ↦ some (line ∷ ls) ]
]

-- `static_cast<Phase>`, behind the test that the number is in range.
unfoldable pub decode_phase : Atoi → Option Phase
decode_phase a =
    if a.negative && ltb 0 a.magnitude
    then none
    else if a.magnitude == 0
    then some idle
    else if a.magnitude == 1
    then some installed
    else if a.magnitude == 2
    then some probing
    else none

-- `static_cast<uint8_t>(std::min(std::atoi(...), 255))`.
unfoldable pub decode_attempts : Atoi → ℕ
decode_attempts a =
    if a.negative
    then to_unsigned (2 ^ 8) a
    else if ltb 255 a.magnitude
    then 255
    else u8 a.magnitude

-- The loop over the refused releases.
unfoldable pub decode_bad : List Bytes → Option (List BadRelease)
decode_bad [] = some []
decode_bad (line ∷ ls) = elim (split_at b'\t' line) [
  | none ↦ none
  | some (version, request_id) ↦ elim (decode_bad ls) [
    | none ↦ none
    | some bs ↦ some (record { version = version; request_id = request_id } ∷ bs)
  ]
]

-- The record that the eight first lines and the refused releases make.
abbrev assemble :
    Option Phase → Bytes → Bytes → Bytes → ℕ → Bytes → Option (List BadRelease) → OtaRecord
assemble none request target previous attempts failure bad = empty_record
assemble (some p) request target previous attempts failure none = empty_record
assemble (some p) request target previous attempts failure (some bs) = record {
  phase = p;
  request_id = request;
  target_version = target;
  previous_version = previous;
  attempts = attempts;
  last_failure = failure;
  bad = bs;
}

-- The part of `decodeRecord` behind the split. `size_t` arithmetic is that of 32 bits.
unfoldable pub decode_lines : List Bytes → OtaRecord
decode_lines (v ∷ phase ∷ request ∷ target ∷ previous ∷ attempts ∷ failure ∷ count ∷ rest) =
    let bad_count = to_unsigned (2 ^ 32) (atoi count) in
    if bytes_eq v (codes "v1")
    then if (length rest + 8 == (8 + bad_count) % 2 ^ 32) && leb bad_count max_bad_releases
      then assemble (decode_phase (atoi phase)) request target previous
          (decode_attempts (atoi attempts)) failure (decode_bad rest)
      else empty_record
    else empty_record
decode_lines _ = empty_record

-- `decodeRecord`.
unfoldable pub decode_record : Bytes → OtaRecord
decode_record blob = elim (split_lines (length blob) blob) [
  | none ↦ empty_record
  | some ls ↦ decode_lines ls
]
