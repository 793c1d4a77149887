-- ===== src/Provision/Dialog.antt =====
-- components/croniot/src/provision/WifiSetupDialog.{h,cpp}: the conversation that sets the network.
pub mod Saves
use croniot_iot.Prelude.{
  ℕ, Bool, true, false, ◌&&◌, ◌||◌, Option, none, some, List, [], ◌∷◌, ◌++◌, if◌then◌else◌,
  is_empty, codes, Bytes, bytes_eq,
}
use croniot_iot.Prelude.Chars.{is_space, to_lower}
use croniot_iot.Json.{trim_front}
use croniot_iot.Provision.Credentials.{WifiCredentials, ssid_error, password_error}
use croniot_iot.Provision.Verdict.{ConnectFailure, describe}

abbrev pub crlf : Bytes
crlf = 13 ∷ 10 ∷ []

abbrev ask_ssid_text : Bytes
ask_ssid_text = codes "Network name (SSID): "

abbrev ask_password_text : Bytes
ask_password_text = codes "Password (leave empty for an open network): "

abbrev ask_save_text : Bytes
ask_save_text = codes "Save it anyway, to use it once that network is in range? [y/N]: "

-- The second loop of `trim`.
unfoldable pub trim_back : Bytes → Bytes
trim_back [] = []
trim_back (c ∷ cs) = let rest = trim_back cs in if is_space c && is_empty rest then [] else c ∷ rest

-- `trim`.
unfoldable pub trim : Bytes → Bytes
unfolding trim_back
trim s = trim_back (trim_front s)

-- `lower`.
unfoldable pub lower : Bytes → Bytes
lower [] = []
lower (c ∷ cs) = to_lower c ∷ lower cs

-- `State`.
pub data State : Type 0 where
  idle ask_ssid ask_password connecting ask_save_anyway : State

-- `Action`.
pub data Action : Type 0 where
  no_action try_connect save revert clear show_status : Action

-- `Reply`.
pub record Reply : Type 0 where
  pub text : Bytes
  pub action : Action

-- `WifiSetupDialog`.
pub record WifiSetupDialog : Type 0 where
  pub state : State
  pub pending : WifiCredentials

abbrev pub no_network : WifiCredentials
no_network = record { ssid = []; password = [] }

abbrev pub fresh_dialog : WifiSetupDialog
fresh_dialog = record { state = idle; pending = no_network }

-- `usage`.
abbrev usage : Bytes
usage =
    codes "WiFi commands:"
    ++ crlf
    ++ codes "  wifi          set the WiFi network (asks for name and password)"
    ++ crlf
    ++ codes "  wifi status   show the network in use and whether it is connected"
    ++ crlf
    ++ codes "  wifi clear    forget the network stored on this device"
    ++ crlf

abbrev say : Bytes → Reply
say text = record { text = text; action = no_action }

abbrev act : Action → Reply
act a = record { text = []; action = a }

-- The answers that mean yes; "sí" is in UTF-8.
abbrev is_yes : Bytes → Bool
is_yes answer =
    bytes_eq answer (codes "y")
    || (bytes_eq answer (codes "yes")
        || (bytes_eq answer (codes "s")
            || (bytes_eq answer (codes "si") || bytes_eq answer (codes "s" ++ 0xC3 ∷ 0xAD ∷ []))))

abbrev reply_to_command : Bytes → Bytes → WifiSetupDialog → Reply × WifiSetupDialog
reply_to_command raw cmd d =
    if is_empty cmd
    then (say [], d)
    else if bytes_eq cmd (codes "wifi") || bytes_eq cmd (codes "wifi set")
    then (say ask_ssid_text, record { state = ask_ssid; pending = no_network })
    else if bytes_eq cmd (codes "wifi status")
    then (act show_status, d)
    else if bytes_eq cmd (codes "wifi clear")
    then (act clear, d)
    else (say (codes "Unknown command '" ++ trim raw ++ codes "'." ++ crlf ++ usage), d)

abbrev pub take_ssid : Bytes → WifiSetupDialog → Option Bytes → Reply × WifiSetupDialog
take_ssid raw d (some error) = (say (error ++ crlf ++ ask_ssid_text), d)
take_ssid raw d none = (
  say ask_password_text,
  record { state = ask_password; pending = record d.pending { ssid = raw } },
)

abbrev pub take_password : Bytes → WifiSetupDialog → Option Bytes → Reply × WifiSetupDialog
take_password raw d (some error) = (say (error ++ crlf ++ ask_password_text), d)
take_password raw d none = (
  record {
    text = codes "Connecting to '" ++ d.pending.ssid ++ codes "'..." ++ crlf;
    action = try_connect;
  },
  record { state = connecting; pending = record d.pending { password = raw } },
)

-- The `switch` of `onLine`.
unfoldable pub line_in : State → Bytes → WifiSetupDialog → Reply × WifiSetupDialog
unfolding trim lower
line_in idle raw d = reply_to_command raw (lower (trim raw)) d
line_in ask_ssid raw d =
    if is_empty raw
    then (say (codes "Cancelled. Nothing was changed." ++ crlf), record d { state = idle })
    else take_ssid raw d (ssid_error raw)
line_in ask_password raw d = take_password raw d (password_error raw)
line_in connecting raw d = (say [], d)
line_in ask_save_anyway raw d =
    if is_yes (lower (trim raw)) then (act save, record d { state = idle }) else (
      record {
        text =
            codes "Not saved: the device keeps the network it had before. Type 'wifi' to try again."
            ++ crlf;
        action = revert;
      },
      record d { state = idle },
    )

-- `onLine`.
unfoldable pub on_line : Bytes → WifiSetupDialog → Reply × WifiSetupDialog
unfolding line_in
on_line raw d = line_in d.state raw d

-- `onConnectResult`.
unfoldable pub result_in : State → Bool → ConnectFailure → WifiSetupDialog → Reply × WifiSetupDialog
result_in connecting true failure d = (
  record {
    text = codes "OK: connected to '" ++ d.pending.ssid ++ codes "'." ++ crlf;
    action = save;
  },
  record d { state = idle },
)
result_in connecting false failure d = (
  say (
      codes "FAILED: could not connect to '"
      ++ d.pending.ssid
      ++ codes "': "
      ++ describe failure
      ++ crlf
      ++ ask_save_text),
  record d { state = ask_save_anyway },
)
result_in _ connected failure d = (say [], d)

unfoldable pub on_connect_result : Bool → ConnectFailure → WifiSetupDialog → Reply × WifiSetupDialog
unfolding result_in
on_connect_result connected failure d = result_in d.state connected failure d
