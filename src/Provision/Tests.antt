-- ===== src/Provision/Tests.antt =====
-- Runs of the provisioning modules at small inputs, and instances of their theorems.
use croniot_iot.Prelude.{
  ℕ, ◌≤◌, ◌<◌, ◌≡◌, ◌≢◌, ◌↔◌, refl, true, List, [], ◌∷◌, arith, codes, bytes_eq,
}
use croniot_iot.Json.{
  read_string, parse_string, skip_value, skip_nested, drop_plain, consume, peek, trim_front,
}
use croniot_iot.Json.Object.{parsed, read_object, read_fields, read_field}
use croniot_iot.Provision.Credentials.{
  WifiCredentials, ssid_error, password_error, has_control_chars, is_hex, read_wifi_field,
  parse_wifi_json, encode_wifi_json,
}
use croniot_iot.Provision.Credentials.RoundTrip.{IsValid, parse_wifi_json-encode_wifi_json}
use croniot_iot.Provision.Verdict.{
  wrong_password, network_not_found, timeout, result, after_failures, fresh_verdict, on_failure,
  classify_disconnect,
}
use croniot_iot.Provision.Verdict.Counts.{result-after_failures, on_failure-not_final}
use croniot_iot.Provision.Dialog.{
  WifiSetupDialog, connecting, on_line, on_connect_result, line_in, result_in, trim, trim_back,
  lower,
}
use croniot_iot.Provision.Dialog.Saves.{
  Reachable, start, and_then, line, connect_result, step, step-save,
}
use croniot_iot.Provision.Editor.{LineEditor, feed_keys}
use croniot_iot.Provision.Editor.Lines.{keys_of, feed_keys-keys_of}

abbrev home : WifiCredentials
home = record { ssid = codes "My \"net\""; password = codes "back\\slash" }

home-IsValid : IsValid home
unfolding ssid_error password_error has_control_chars is_hex
home-IsValid = record { good_ssid = refl; good_password = refl }

parse_wifi_json-encode_wifi_json_example : parse_wifi_json (encode_wifi_json home) ≡ parsed home
parse_wifi_json-encode_wifi_json_example = parse_wifi_json-encode_wifi_json home home-IsValid

-- A field that is not known is skipped, nested values and all.
parse_wifi_json-more :
    parse_wifi_json (codes "{ \"v\" : {\"a\":[1,\"}\"]}, \"ssid\":\"n\"}")
    ≡ parsed (record { ssid = codes "n"; password = [] })
unfolding parse_wifi_json read_object read_fields read_field read_wifi_field parse_string
    read_string skip_value skip_nested drop_plain consume peek trim_front bytes_eq ssid_error
    password_error has_control_chars
parse_wifi_json-more = refl

result-after_failures_example :
    ((result (after_failures (15 ∷ 205 ∷ 201 ∷ []) fresh_verdict) ≡ wrong_password)
      ↔ ((0 < 1) × (1 ≤ 1)))
    × ((result (after_failures (15 ∷ 205 ∷ 201 ∷ []) fresh_verdict) ≡ network_not_found) ↔ (1 < 1))
    × ((result (after_failures (15 ∷ 205 ∷ 201 ∷ []) fresh_verdict) ≡ timeout)
        ↔ (◌≡◌ {A = List ℕ} (15 ∷ 205 ∷ 201 ∷ []) []))
unfolding classify_disconnect
result-after_failures_example = result-after_failures (15 ∷ 205 ∷ 201 ∷ [])

on_failure-not_final_example :
    (rs : List ℕ) × (result
        (after_failures rs (on_failure 201 (record fresh_verdict { not_found_count = 1 })).1)
      ≢ result (on_failure 201 (record fresh_verdict { not_found_count = 1 })).1)
unfolding on_failure
on_failure-not_final_example =
    on_failure-not_final 201 (record fresh_verdict { not_found_count = 1 }) refl

-- The dialog behind the two answers.
abbrev asked : WifiSetupDialog
asked = record { state = connecting; pending = record { ssid = codes "net"; password = [] } }

asked-Reachable : Reachable asked
unfolding step on_line line_in trim trim_back trim_front lower bytes_eq ssid_error password_error
    has_control_chars
asked-Reachable =
    and_then (and_then (and_then start (line (codes " WiFi "))) (line (codes "net"))) (line [])

step-save_example :
    IsValid asked.pending
    × (parse_wifi_json (encode_wifi_json asked.pending) ≡ parsed asked.pending)
unfolding step on_connect_result result_in
step-save_example = step-save asked-Reachable (connect_result true timeout) refl

abbrev editor : LineEditor
editor = record { line_ = []; masked = true; last_was_cr = true }

feed_keys-keys_of_example :
    (feed_keys (keys_of (codes "wifi" ∷ [] ∷ codes "n" ∷ [])) editor).0
    ≡ codes "wifi" ∷ [] ∷ codes "n" ∷ []
feed_keys-keys_of_example =
    feed_keys-keys_of (codes "wifi" ∷ [] ∷ codes "n" ∷ []) editor refl
      (refl, omega arith, (refl, omega arith, (refl, omega arith, tt)))
