-- ===== src/Log/Frames/Format.antt =====
-- The format that `writeLengthPrefixed` (log/Journal.cpp) writes: the specification of the readers.
use croniot_iot.Prelude.{
  ◌+◌, ◌*◌, ◌/◌, ◌%◌, ◌^◌, ◌<◌, ◌≡◌, List, [], ◌∷◌, ◌++◌, arith, length, Bytes,
}
use croniot_iot.Prelude.Words.{u16}

-- `writeLengthPrefixed`, where every write succeeds: what it appends to the file.
unfoldable pub write_length_prefixed : Bytes → Bytes
write_length_prefixed bytes = let len = u16 (length bytes) in (len % 256) ∷ (len / 256) ∷ bytes

-- A segment file to which these payloads were appended in order.
abbrev pub segment : List Bytes → Bytes
segment [] = []
segment (p ∷ ps) = write_length_prefixed p ++ segment ps

-- A payload whose length the 16-bit prefix can state.
abbrev pub Fits : Bytes → Type 0
Fits p = length p < 2 ^ 16

abbrev pub AllFit : List Bytes → Type 0
AllFit [] = Unit {0}
AllFit (p ∷ ps) = Fits p × AllFit ps

-- The front of a frame that was cut off.
abbrev pub IsCutShort : Bytes → Type 0
IsCutShort [] = Unit {0}
IsCutShort (a ∷ []) = Unit {0}
IsCutShort (a ∷ b ∷ rest) = (a < 256) × (b < 256) × (length rest < a + 256 * b)

pub length-write_length_prefixed : (p : Bytes) → length (write_length_prefixed p) ≡ length p + 2
unfolding write_length_prefixed
length-write_length_prefixed p = omega arith
