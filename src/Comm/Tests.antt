-- ===== src/Comm/Tests.antt =====
-- Runs of the message bus over small sets of channels, and instances of its theorems.
use croniot_iot.Prelude.{◌==◌, Bool, List, ◌≡◌, refl, true, false, [], ◌∷◌, Bytes}
use croniot_iot.Comm.MessageBus.{
  Channel, Result, Method, publish_log_batch, callbacks, callbacks_from, is_some,
  server_auth_channel, prefer_uplink_channel, call_uplink,
}
use croniot_iot.Comm.MessageBus.Routing.{auth_marks, first_marked, any_ready, callbacks-auth}

abbrev ble : Channel
ble = record { number = 0; supports_server_auth = false }

abbrev remote : Channel
remote = record { number = 1; supports_server_auth = true }

callbacks-both : callbacks (ble ∷ remote ∷ []) ≡ false ∷ true ∷ []
unfolding callbacks callbacks_from server_auth_channel
callbacks-both = refl

abbrev accepts : Method → Bytes → Channel → Result
accepts method payload ch = record { success = true; message = [] }

call_uplink-both :
    call_uplink accepts publish_log_batch [] (ble ∷ remote ∷ [])
    ≡ (remote ∷ [], record { success = true; message = [] })
unfolding call_uplink prefer_uplink_channel server_auth_channel
call_uplink-both = refl

-- The first of two channels fails, and the other connects.
abbrev second_only : Channel → Bool
second_only ch = ch.number == 2

abbrev ble_only : List Channel
ble_only = ble ∷ record { number = 2; supports_server_auth = false } ∷ []

callbacks-auth_example :
    (is_some (server_auth_channel ble_only) ≡ true → callbacks ble_only ≡ auth_marks ble_only)
    × (is_some (server_auth_channel ble_only) ≡ false
        → (callbacks ble_only ≡ first_marked ble_only)
          × (any_ready second_only (callbacks ble_only) ble_only ≡ false))
callbacks-auth_example = callbacks-auth second_only ble_only
