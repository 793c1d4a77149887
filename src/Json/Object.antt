-- ===== src/Json/Object.antt =====
-- The loop over the fields of an object, which components/croniot/src/provision/WifiCredentials.cpp
-- and ota/OtaManifest.cpp share in all but the fields they know.
pub mod Ends
use mathlib.Core.Path.{subst}
use croniot_iot.Prelude.{
  ℕ, zero, suc, ◌≤◌, ◌<◌, ◌≡◌, ◌≢◌, refl, Bool, true, false, Option, none, some, arith, ◌==◌,
  if◌then◌else◌, length, Bytes, Bool-cases, Option-cases, inl, inr,
}
use croniot_iot.Json.{Scanner, scanner_on, consume, peek, parse_string}
use croniot_iot.Json.Progress.{length-trim_front, length-parse_string, length-consume, length-peek}

-- What becomes of a text: a value, or `std::nullopt`. `out_of_fuel` is no result of the code.
pub data Parsed {ℓ} (A : Type ℓ) : Type ℓ where
  out_of_fuel : Parsed A
  refused : Parsed A
  parsed : A → Parsed A

-- How a client reads the value of a field, given its key: `none` is `return std::nullopt`.
pub record FieldReader {ℓ} (F : Type ℓ) : Type ℓ where
  pub read : Bytes → F → Scanner → Option (F × Scanner)
  pub shrinks :
      (key : Bytes) (f : F) (s : Scanner) (f' : F) (s' : Scanner)
      → read key f s ≡ some (f', s')
      → length s'.rest ≤ length s.rest

module _ {F : Type 0} (reader : FieldReader F) where
  -- Behind the key and its colon.
  abbrev pub field_behind : Bytes → F → Bool × Scanner → Option (F × Scanner)
  field_behind key f (false, s) = none
  field_behind key f (true, s) = reader.read key f s

  -- `!scanner.ok()` is tested in front of the colon.
  abbrev pub field_fine : Bytes → F → Scanner → Bool → Option (F × Scanner)
  field_fine key f s false = none
  field_fine key f s true = field_behind key f (consume b':' s)

  abbrev pub field_named : F → Option Bytes × Scanner → Option (F × Scanner)
  field_named f (none, s) = none
  field_named f (some key, s) = field_fine key f s s.ok

  -- One round of the loop: a key, a colon and the field's value.
  unfoldable pub read_field : F → Scanner → Option (F × Scanner)
  read_field f s = field_named f (parse_string s)

  -- The loop. A round consumes a colon at least.
  unfoldable pub read_fields : ℕ → F → Scanner → Parsed (F × Scanner)
  read_fields zero f s = out_of_fuel
  read_fields (suc fuel) f s = elim (read_field f s) [
    | none ↦ refused
    | some (f', s') ↦ elim ((peek s').0 == b',') [
      | true ↦ read_fields fuel f' (consume b',' (peek s').1).1
      | false ↦ parsed (f', (peek s').1)
    ]
  ]

  abbrev pub closed : Parsed (F × Scanner) → Parsed F
  closed out_of_fuel = out_of_fuel
  closed refused = refused
  closed (parsed (f, s)) = if (consume b'}' s).0 then parsed f else refused

  abbrev pub opened : F → Bool × Scanner → Parsed F
  opened f (false, s) = refused
  opened f (true, s) =
      let (c, t) = peek s in
      closed (if c == b'}' then parsed (f, t) else read_fields (suc (length t.rest)) f t)

  -- The object as a whole, from its opening to its closing brace.
  unfoldable pub read_object : F → Bytes → Parsed F
  read_object f json = opened f (consume b'{' (scanner_on json))
