-- ===== src/Json/Strings.antt =====
-- Strings as the device writes them, and the scanner.
use croniot_iot.Prelude.{
  ℕ, ◌≡◌, refl, true, false, ◌||◌, some, [], ◌∷◌, arith, ◌==◌, if◌then◌else◌, Bytes, Bool-cases,
  inl, inr,
}
use croniot_iot.Json.{read_string, with_char}

-- The loop of `quoted` (provision/WifiCredentials.cpp), with what is appended later.
unfoldable pub escaped : Bytes → Bytes → Bytes
escaped [] rest = rest
escaped (c ∷ cs) rest =
    if c == b'"' || c == b'\\' then b'\\' ∷ c ∷ escaped cs rest else c ∷ escaped cs rest

-- `quoted`.
abbrev pub quoted : Bytes → Bytes → Bytes
quoted s rest = b'"' ∷ escaped s (b'"' ∷ rest)

read_string-plain :
    (c : ℕ) (cs : Bytes)
    → (c == b'"') ≡ false
    → (c == b'\\') ≡ false
    → read_string (c ∷ cs) ≡ with_char c (read_string cs)
unfolding read_string
read_string-plain c [] quote escape = rw (quote, read_string) refl
read_string-plain c (d ∷ cs) quote escape = rw (quote, read_string, escape) refl

unescape-special :
    (c : ℕ) (cs : Bytes)
    → (c == b'"' || c == b'\\') ≡ true
    → read_string (b'\\' ∷ c ∷ cs) ≡ with_char c (read_string cs)
unfolding read_string
unescape-special c cs e = ground arith

-- A quoted string is read back as it was.
pub read_string-escaped : (s rest : Bytes) → read_string (escaped s (b'"' ∷ rest)) ≡ some (s, rest)
unfolding escaped
read_string-escaped [] [] = unfold read_string in refl
read_string-escaped [] (c ∷ rest) = unfold read_string in refl
read_string-escaped (c ∷ s) rest = elim (Bool-cases (c == b'"' || c == b'\\')) [
  | inl special ↦
      rw (special, unescape-special c (escaped s (b'"' ∷ rest)) special, read_string-escaped s rest)
        refl
  | inr plain ↦
      rw
        (
          plain,
          read_string-plain c (escaped s (b'"' ∷ rest)) (ground arith) (ground arith),
          read_string-escaped s rest,
        )
        refl
]
