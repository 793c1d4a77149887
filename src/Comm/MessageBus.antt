-- ===== src/Comm/MessageBus.antt =====
-- components/croniot/src/comm/MessageBus.{h,cpp}: which channels a call goes to. A channel is its
-- number and whether it supports the server's authentication; what its methods answer is a
-- parameter. The device uuid that the bus adds to a call is left out.
pub mod Routing
use croniot_iot.Prelude.{
  ℕ, Bool, true, false, not, ◌&&◌, ◌||◌, Option, none, some, List, [], ◌∷◌, ◌++◌, if◌then◌else◌,
  codes, Bytes,
}

-- `CommChannel`, as far as the bus can tell.
pub record Channel : Type 0 where
  pub number : ℕ
  pub supports_server_auth : Bool

-- `Result`.
pub record Result : Type 0 where
  pub success : Bool
  pub message : Bytes

-- The methods of a channel that the bus passes a payload to.
pub data Method : Type 0 where
  register_device log_in register_sensor_type register_task_type : Method
  publish_sensor_data publish_task_progress_update : Method
  publish_log_batch publish_device_event publish_sensor_batch publish_status : Method
  subscribe_task_command subscribe_task_state_info_sync subscribe_ack subscribe_log_config
        subscribe_ota :
      Method

-- `addChannel`.
abbrev pub add_channel : Channel → List Channel → List Channel
add_channel ch channels = channels ++ ch ∷ []

-- `serverAuthChannel`, and `hasServerAuthChannel`.
unfoldable pub server_auth_channel : List Channel → Option Channel
server_auth_channel [] = none
server_auth_channel (ch ∷ channels) =
    let rest = server_auth_channel channels in if ch.supports_server_auth then some ch else rest

abbrev first_channel : List Channel → Option Channel
first_channel [] = none
first_channel (ch ∷ channels) = some ch

abbrev or_first : Option Channel → List Channel → Option Channel
or_first none channels = first_channel channels
or_first (some ch) channels = some ch

-- `preferUplinkChannel`.
unfoldable pub prefer_uplink_channel : List Channel → Option Channel
unfolding server_auth_channel
prefer_uplink_channel channels = or_first (server_auth_channel channels) channels

abbrev pub is_some {ℓ} : {A : Type ℓ} → Option A → Bool
is_some none = false
is_some (some a) = true

-- The loop of `startConnection`: whether each channel is started with `onReady`, in order.
unfoldable pub callbacks_from : Bool → Bool → List Channel → List Bool
callbacks_from has_auth assigned [] = []
callbacks_from has_auth assigned (ch ∷ channels) =
    let given = ch.supports_server_auth || (not has_auth && not assigned) in
    given ∷ callbacks_from has_auth (assigned || given) channels

unfoldable pub callbacks : List Channel → List Bool
unfolding callbacks_from
callbacks channels = callbacks_from (is_some (server_auth_channel channels)) false channels

-- What `startConnection` and `startMessaging` return: every channel is started, whatever the others
-- answered.
unfoldable pub any_ok : (Channel → Bool) → List Channel → Bool
any_ok start [] = false
any_ok start (ch ∷ channels) = any_ok start channels || start ch

module _ (answer : Method → Bytes → Channel → Result) where
  -- A call on one channel, or none: the channels that were called, and the result.
  abbrev call_one : Method → Bytes → Bytes → Option Channel → List Channel × Result
  call_one method payload missing none = ([], record { success = false; message = missing })
  call_one method payload missing (some ch) = (ch ∷ [], answer method payload ch)

  -- `registerDevice`, `login`, `registerSensorType` and `registerTaskType`.
  unfoldable pub call_server : Method → Bytes → List Channel → List Channel × Result
  call_server method payload channels =
      call_one method payload (codes "No server-auth channel") (server_auth_channel channels)

  -- `publishLogBatch`, `publishDeviceEvent`, `publishSensorBatch`, `publishStatus`, and the three
  -- subscriptions to the server.
  unfoldable pub call_uplink : Method → Bytes → List Channel → List Channel × Result
  call_uplink method payload channels =
      call_one method payload (codes "No channels") (prefer_uplink_channel channels)

  -- The loop of `publishSensorData`, `publishTaskProgressUpdate` and the subscriptions to tasks.
  unfoldable pub call_all : Method → Bytes → Result → List Channel → List Channel × Result
  call_all method payload last [] = ([], last)
  call_all method payload last (ch ∷ channels) =
      let (called, result) = call_all method payload (answer method payload ch) channels in
      (ch ∷ called, result)

  unfoldable pub publish_all : Method → Bytes → List Channel → List Channel × Result
  unfolding call_all
  publish_all method payload channels =
      call_all method payload (record { success = false; message = codes "No channels" }) channels
