-- ===== src/Provision/Credentials/RoundTrip.antt =====
-- The file of the network (provision/WifiCredentials.cpp), written and read.
use croniot_iot.Prelude.{◌≡◌, ◌≢◌, refl, true, none, some, ◌++◌, arith, codes, Bytes, bytes_eq}
use croniot_iot.Json.{Scanner, read_string, parse_string, consume, peek, trim_front}
use croniot_iot.Json.Object.{
  Parsed, out_of_fuel, refused, parsed, read_object, read_fields, read_field,
}
use croniot_iot.Json.Object.Ends.{read_object-total}
use croniot_iot.Json.Strings.{quoted, read_string-escaped}
use croniot_iot.Provision.Credentials.{
  WifiCredentials, Fields, no_fields, ssid_error, password_error, read_wifi_field, wifi_fields,
  set_ssid, set_password, accept, parse_wifi_json, encode_wifi_json,
}

-- A network that the console accepts.
pub record IsValid (c : WifiCredentials) : Type 0 where
  pub good_ssid : ssid_error c.ssid ≡ none
  pub good_password : password_error c.password ≡ none

abbrev on : Bytes → Scanner
on cs = record { rest = cs; ok = true }

parse_string-quoted : (s rest : Bytes) → parse_string (on (quoted s rest)) ≡ (some s, on rest)
unfolding parse_string trim_front
parse_string-quoted s rest = rw (read_string-escaped s rest)

read_field-ssid :
    (f : Fields) (s rest : Bytes)
    → read_field wifi_fields f (on (codes "\"ssid\":" ++ quoted s rest))
      ≡ some (set_ssid f s, on rest)
unfolding read_field read_wifi_field parse_string read_string consume trim_front bytes_eq
read_field-ssid f s rest = rw (read_string-escaped s rest, read_field)

read_field-password :
    (f : Fields) (s rest : Bytes)
    → read_field wifi_fields f (on (codes "\"password\":" ++ quoted s rest))
      ≡ some (set_password f s, on rest)
unfolding read_field read_wifi_field parse_string read_string consume trim_front bytes_eq
read_field-password f s rest = rw (read_string-escaped s rest, read_field)

read_object-encode :
    (c : WifiCredentials)
    → read_object wifi_fields no_fields (encode_wifi_json c)
      ≡ parsed (record { c = c; has_ssid = true })
unfolding read_object encode_wifi_json consume peek trim_front read_fields
read_object-encode c = rw (
  read_field-ssid no_fields c.ssid (codes ",\"password\":" ++ quoted c.password (codes "}")),
  read_field-password (set_ssid no_fields c.ssid) c.password (codes "}"),
  read_object,
  read_fields,
)

-- A valid network is read back from its file as it was, quotes and backslashes included.
pub parse_wifi_json-encode_wifi_json :
    (c : WifiCredentials) → IsValid c → parse_wifi_json (encode_wifi_json c) ≡ parsed c
unfolding parse_wifi_json
parse_wifi_json-encode_wifi_json c v = rw (read_object-encode c, v.good_ssid, v.good_password) refl

accept-total : (r : Parsed Fields) → r ≢ out_of_fuel → accept r ≢ out_of_fuel
accept-total out_of_fuel h e = h refl
accept-total refused h e = ground arith
accept-total (parsed f) h e = ground arith

-- Whatever the file holds, it is read or refused: the scanner ends.
pub parse_wifi_json-total : (json : Bytes) → parse_wifi_json json ≢ out_of_fuel
unfolding parse_wifi_json
parse_wifi_json-total json =
    accept-total (read_object wifi_fields no_fields json)
      (read_object-total wifi_fields no_fields json)
