-- ===== src/Log/Journal/Files.antt =====
-- components/croniot/src/log/SegmentFiles.h and `Journal::segmentPath` (log/Journal.cpp): the names of
-- the segment files. A name is what stands in front of the terminating zero.
pub mod Names
use croniot_iot.Prelude.{
  ℕ, zero, suc, ◌+◌, ◌-◌, ◌*◌, ◌/◌, ◌%◌, Bool, true, false, Option, none, some, List, [], ◌∷◌, ◌++◌,
  ltb, ◌==◌, if◌then◌else◌, length, replicate, codes, Bytes, bytes_eq,
}
use croniot_iot.Prelude.Chars.{is_digit}

-- The digits of a number in base ten; each unit of fuel gives one.
unfoldable pub decimal_digits : ℕ → ℕ → Bytes
decimal_digits zero n = []
decimal_digits (suc fuel) n =
    let front = decimal_digits fuel (n / 10) in
    (if ltb n 10 then [] else front) ++ (b'0' + n % 10) ∷ []

-- `%05` of `printf`: zeros in front up to five digits.
abbrev pub pad_zeros : Bytes → Bytes
pad_zeros digits = replicate (5 - length digits) b'0' ++ digits

-- The last part of `segmentPath`: the file's name in its directory.
unfoldable pub segment_name : Bytes → ℕ → Bytes
segment_name prefix id =
    prefix ++ codes "_" ++ pad_zeros (decimal_digits (suc id) id) ++ codes ".cbor"

-- `strncmp(fileName, prefix, strlen(prefix)) != 0 || fileName[prefixLen] != '_'`: what stands behind.
unfoldable pub skip_prefix : Bytes → Bytes → Option Bytes
skip_prefix [] [] = none
skip_prefix [] (c ∷ name) = if c == b'_' then some name else none
skip_prefix (p ∷ prefix) [] = none
skip_prefix (p ∷ prefix) (c ∷ name) = elim (p == c) [
  | true ↦ skip_prefix prefix name
  | false ↦ none
]

-- `UINT32_MAX`.
abbrev pub uint32_max : ℕ
uint32_max = 4294967295

-- The loop over the digits, with the number so far, and the tests behind it; `some_digit` says that
-- `p != digits`.
unfoldable pub parse_id : ℕ → Bool → Bytes → Option ℕ
parse_id id some_digit [] = none
parse_id id some_digit (c ∷ cs) = elim (is_digit c) [
  | true ↦ elim (ltb uint32_max (id * 10 + (c - b'0'))) [
    | true ↦ none
    | false ↦ parse_id (id * 10 + (c - b'0')) true cs
  ]
  | false ↦
      if some_digit then (if bytes_eq (c ∷ cs) (codes ".cbor") then some id else none) else none
]

abbrev parse_behind : Option Bytes → Option ℕ
parse_behind none = none
parse_behind (some digits) = parse_id 0 false digits

-- `SegmentFiles::parseSegmentId`.
unfoldable pub parse_segment_id : Bytes → Bytes → Option ℕ
parse_segment_id name prefix = parse_behind (skip_prefix prefix name)
