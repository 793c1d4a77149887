-- ===== src/Provision/Dialog/Saves.antt =====
-- What the dialog lets through to the device.
use croniot_iot.Prelude.{◌≡◌, refl, Bool, true, false, none, arith, Bytes}
use croniot_iot.Json.Object.{parsed}
use croniot_iot.Provision.Credentials.{
  WifiCredentials, ssid_error, parse_wifi_json, encode_wifi_json,
}
use croniot_iot.Provision.Credentials.RoundTrip.{IsValid, parse_wifi_json-encode_wifi_json}
use croniot_iot.Provision.Verdict.{ConnectFailure}
use croniot_iot.Provision.Dialog.{
  State, idle, ask_ssid, ask_password, connecting, ask_save_anyway, Reply, WifiSetupDialog,
  fresh_dialog, Action, save, try_connect, on_line, line_in, on_connect_result, result_in,
}

-- What happens to the dialog.
pub data Event : Type 0 where
  line : Bytes → Event
  connect_result : Bool → ConnectFailure → Event

unfoldable pub step : Event → WifiSetupDialog → Reply × WifiSetupDialog
unfolding on_line on_connect_result
step (line raw) d = on_line raw d
step (connect_result connected failure) d = on_connect_result connected failure d

-- The dialogs that a session can come to.
pub data Reachable : WifiSetupDialog → Type 0 where
  start : Reachable fresh_dialog
  and_then : {d : WifiSetupDialog} → Reachable d → (e : Event) → Reachable (step e d).1

-- What was typed so far was checked.
abbrev Checked : State → WifiCredentials → Type 0
Checked idle c = Unit
Checked ask_ssid c = Unit
Checked ask_password c = ssid_error c.ssid ≡ none
Checked connecting c = IsValid c
Checked ask_save_anyway c = IsValid c

line_in-Checked :
    (s : State) (raw : Bytes) (d : WifiSetupDialog)
    → d.state ≡ s
    → Checked s d.pending
    → Checked (line_in s raw d).1.state (line_in s raw d).1.pending
unfolding line_in
line_in-Checked idle raw d e h = ground arith
line_in-Checked ask_ssid raw d e h = ground arith
line_in-Checked ask_password raw d e h = ground arith
line_in-Checked connecting raw d e h = ground arith
line_in-Checked ask_save_anyway raw d e h = ground arith

result_in-Checked :
    (s : State) (connected : Bool) (f : ConnectFailure) (d : WifiSetupDialog)
    → d.state ≡ s
    → Checked s d.pending
    → Checked (result_in s connected f d).1.state (result_in s connected f d).1.pending
unfolding result_in
result_in-Checked connecting true f d e h = ground arith
result_in-Checked connecting false f d e h = ground arith
result_in-Checked _ connected f d e h = rw e h

Reachable-Checked : {d : WifiSetupDialog} → Reachable d → Checked d.state d.pending
unfolding step on_line on_connect_result
Reachable-Checked start = tt
Reachable-Checked (and_then {d} r (line raw)) =
    line_in-Checked d.state raw d refl (Reachable-Checked r)
Reachable-Checked (and_then {d} r (connect_result connected f)) =
    result_in-Checked d.state connected f d refl (Reachable-Checked r)

-- An action that joins or stores the network.
abbrev pub uses_network : Action → Bool
uses_network try_connect = true
uses_network save = true
uses_network _ = false

line_in-uses :
    (s : State) (raw : Bytes) (d : WifiSetupDialog)
    → Checked s d.pending
    → uses_network (line_in s raw d).0.action ≡ true
    → IsValid (line_in s raw d).1.pending
unfolding line_in
line_in-uses idle raw d h e = ground arith
line_in-uses ask_ssid raw d h e = ground arith
line_in-uses ask_password raw d h e = ground arith
line_in-uses connecting raw d h e = ground arith
line_in-uses ask_save_anyway raw d h e = ground arith

result_in-uses :
    (s : State) (connected : Bool) (f : ConnectFailure) (d : WifiSetupDialog)
    → Checked s d.pending
    → uses_network (result_in s connected f d).0.action ≡ true
    → IsValid (result_in s connected f d).1.pending
unfolding result_in
result_in-uses connecting true f d h e = h
result_in-uses connecting false f d h e = absurd (ground arith)
result_in-uses _ connected f d h e = absurd (ground arith)

-- However a session goes, a network that the device is told to join or to store is valid, and what
-- is stored is read back at the next start as it was typed.
pub step-save :
    {d : WifiSetupDialog}
    → Reachable d
    → (e : Event) → uses_network (step e d).0.action ≡ true
    → IsValid (step e d).1.pending
      × (parse_wifi_json (encode_wifi_json (step e d).1.pending) ≡ parsed (step e d).1.pending)
unfolding step on_line on_connect_result
step-save {d} r (line raw) u =
    let v = line_in-uses d.state raw d (Reachable-Checked r) u in
    (v, parse_wifi_json-encode_wifi_json (line_in d.state raw d).1.pending v)
step-save {d} r (connect_result connected f) u =
    let v = result_in-uses d.state connected f d (Reachable-Checked r) u in
    (v, parse_wifi_json-encode_wifi_json (result_in d.state connected f d).1.pending v)
