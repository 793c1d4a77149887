-- ===== src/Provision/Credentials.antt =====
-- components/croniot/src/provision/WifiCredentials.{h,cpp}: what is a valid network, and the file
-- that keeps it. The verdict on a connection attempt is in Provision/Verdict.
pub mod RoundTrip
use croniot_iot.Prelude.{
  ℕ, ◌≤◌, ◌≡◌, Bool, true, false, not, ◌&&◌, ◌||◌, Option, none, some, List, [], ◌∷◌, ◌++◌, arith,
  ltb, leb, ◌==◌, if◌then◌else◌, is_empty, length, codes, Bytes, bytes_eq,
}
use croniot_iot.Prelude.Chars.{is_xdigit}
use croniot_iot.Json.{Scanner, parse_string, skip_value}
use croniot_iot.Json.Progress.{length-parse_string, length-skip_value}
use croniot_iot.Json.Object.{Parsed, out_of_fuel, refused, parsed, FieldReader, read_object}
use croniot_iot.Json.Strings.{quoted}

-- `WifiCredentials`.
pub record WifiCredentials : Type 0 where
  pub ssid : Bytes
  pub password : Bytes

abbrev pub max_ssid_len : ℕ
max_ssid_len = 32

abbrev pub min_password_len : ℕ
min_password_len = 8

abbrev pub max_password_len : ℕ
max_password_len = 64

-- `hasControlChars`.
unfoldable pub has_control_chars : Bytes → Bool
has_control_chars [] = false
has_control_chars (c ∷ cs) = (ltb c 0x20 || c == 0x7f) || has_control_chars cs

-- `isHex`.
unfoldable pub is_hex : Bytes → Bool
is_hex [] = true
is_hex (c ∷ cs) = is_xdigit c && is_hex cs

abbrev too_long : Bytes
too_long = codes "A WiFi password has at most 63 characters."

-- `ssidError`.
unfoldable pub ssid_error : Bytes → Option Bytes
ssid_error ssid =
    if is_empty ssid
    then some (codes "The network name can't be empty.")
    else if ltb max_ssid_len (length ssid)
    then some (codes "A network name has at most 32 characters.")
    else if has_control_chars ssid
    then some (codes "The network name has a character that can't be typed.")
    else none

-- `passwordError`.
unfoldable pub password_error : Bytes → Option Bytes
password_error password =
    if is_empty password
    then none
    else if has_control_chars password
    then some (codes "The password has a character that can't be typed.")
    else if ltb (length password) min_password_len
    then some (codes "A WiFi password has at least 8 characters.")
    else if ltb max_password_len (length password)
    then some too_long
    else if (length password == max_password_len) && not (is_hex password)
    then some too_long
    else none

-- The locals of `parseWifiJson`.
pub record Fields : Type 0 where
  pub c : WifiCredentials
  pub has_ssid : Bool

abbrev pub no_fields : Fields
no_fields = record { c = record { ssid = []; password = [] }; has_ssid = false }

abbrev pub set_ssid : Fields → Bytes → Fields
set_ssid f value = record f { c = record f.c { ssid = value }; has_ssid = true }

abbrev pub set_password : Fields → Bytes → Fields
set_password f value = record f { c = record f.c { password = value } }

-- A string value: `!value || !scanner.ok()` refuses it.
abbrev string_value : (Bytes → Fields) → Option Bytes × Scanner → Option (Fields × Scanner)
string_value keep (none, s) = none
string_value keep (some value, s) = if s.ok then some (keep value, s) else none

abbrev skipped : Fields → Scanner → Option (Fields × Scanner)
skipped f s = if s.ok then some (f, s) else none

-- What `parseWifiJson` does with the value of a field.
unfoldable pub read_wifi_field : Bytes → Fields → Scanner → Option (Fields × Scanner)
read_wifi_field key f s =
    if bytes_eq key (codes "ssid")
    then string_value (set_ssid f) (parse_string s)
    else if bytes_eq key (codes "password")
    then string_value (set_password f) (parse_string s)
    else skipped f (skip_value s)

string_value-left :
    (keep : Bytes → Fields) (value : Option Bytes) (s : Scanner) (f' : Fields) (s' : Scanner)
    → string_value keep (value, s) ≡ some (f', s')
    → length s'.rest ≤ length s.rest
string_value-left keep none s f' s' e = absurd (ground arith)
string_value-left keep (some v) s f' s' e = ground arith

pub read_wifi_field-left :
    (key : Bytes) (f : Fields) (s : Scanner) (f' : Fields) (s' : Scanner)
    → read_wifi_field key f s ≡ some (f', s')
    → length s'.rest ≤ length s.rest
unfolding read_wifi_field
read_wifi_field-left key f s f' s' e = ground (
  arith,
  string_value-left (set_ssid f) (parse_string s).0 (parse_string s).1 f' s',
  string_value-left (set_password f) (parse_string s).0 (parse_string s).1 f' s',
  length-parse_string s,
  length-skip_value s,
)

abbrev pub wifi_fields : FieldReader Fields
wifi_fields = record { read = read_wifi_field; shrinks = read_wifi_field-left }

abbrev is_some : {A : Type 0} → Option A → Bool
is_some none = false
is_some (some a) = true

-- The test behind the object.
abbrev pub accept : Parsed Fields → Parsed WifiCredentials
accept out_of_fuel = out_of_fuel
accept refused = refused
accept (parsed f) =
    if not f.has_ssid || (is_some (ssid_error f.c.ssid) || is_some (password_error f.c.password))
    then refused
    else parsed f.c

-- `parseWifiJson`.
unfoldable pub parse_wifi_json : Bytes → Parsed WifiCredentials
unfolding ssid_error password_error
parse_wifi_json json = accept (read_object wifi_fields no_fields json)

-- `encodeWifiJson`.
unfoldable pub encode_wifi_json : WifiCredentials → Bytes
encode_wifi_json c =
    codes "{\"ssid\":" ++ quoted c.ssid (codes ",\"password\":" ++ quoted c.password (codes "}"))

-- `enum class Source`.
pub data Source : Type 0 where
  no_source device firmware : Source

-- `resolve`: the source, and `out`.
unfoldable pub resolve : Option WifiCredentials → WifiCredentials → Source × WifiCredentials
resolve (some stored) compiled_in = (device, stored)
resolve none compiled_in =
    if not (is_empty compiled_in.ssid)
    then (firmware, compiled_in)
    else (no_source, record { ssid = []; password = [] })
