-- ===== src/Provision/Verdict.antt =====
-- components/croniot/src/provision/WifiCredentials.{h,cpp}: what the failures of a connection
-- attempt say. The counters, `int` in the source, are taken not to overflow: an attempt has a
-- timeout of seconds.
pub mod Counts
use croniot_iot.Prelude.{
  ℕ, ◌+◌, Bool, true, false, ◌&&◌, ◌||◌, List, [], ◌∷◌, ltb, leb, ◌==◌, if◌then◌else◌, codes, Bytes,
}

-- `enum class ConnectFailure`.
pub data ConnectFailure : Type 0 where
  wrong_password network_not_found timeout other : ConnectFailure

-- `classifyDisconnect`; a reason is that of `wifi_err_reason_t`, never negative.
unfoldable pub classify_disconnect : ℕ → ConnectFailure
classify_disconnect reason =
    if (reason == 2) || ((reason == 14) || ((reason == 15) || ((reason == 202) || (reason == 204))))
    then wrong_password
    else if (reason == 201) || ((reason == 210) || ((reason == 211) || (reason == 212)))
    then network_not_found
    else other

-- `ConnectVerdict`.
pub record ConnectVerdict : Type 0 where
  pub wrong_password_count : ℕ
  pub not_found_count : ℕ
  pub saw_failure : Bool

abbrev pub fresh_verdict : ConnectVerdict
fresh_verdict = record { wrong_password_count = 0; not_found_count = 0; saw_failure = false }

-- The `switch` of `onFailure`.
abbrev pub count_failure : ConnectFailure → ConnectVerdict → ConnectVerdict
count_failure wrong_password v = record v { wrong_password_count = v.wrong_password_count + 1 }
count_failure network_not_found v = record v { not_found_count = v.not_found_count + 1 }
count_failure _ v = v

-- `onFailure`.
unfoldable pub on_failure : ℕ → ConnectVerdict → Bool × ConnectVerdict
unfolding classify_disconnect
on_failure reason v =
    let v' = count_failure (classify_disconnect reason) (record v { saw_failure = true }) in
    (leb 2 v'.wrong_password_count || leb 2 v'.not_found_count, v')

-- `result`.
unfoldable pub result : ConnectVerdict → ConnectFailure
result v =
    if ltb 0 v.wrong_password_count && leb v.not_found_count v.wrong_password_count
    then wrong_password
    else if ltb 0 v.not_found_count
    then network_not_found
    else if v.saw_failure
    then other
    else timeout

-- The reasons of an attempt, in order.
unfoldable pub after_failures : List ℕ → ConnectVerdict → ConnectVerdict
unfolding on_failure
after_failures [] v = v
after_failures (r ∷ rs) v = after_failures rs (on_failure r v).1

-- `describe`.
unfoldable pub describe : ConnectFailure → Bytes
describe wrong_password =
    codes
      "the network rejected the password. Check it (upper and lower case matter); if it is right, the signal may be too weak where the device is."
describe network_not_found =
    codes
      "no network with that name is in range. Check the name (upper and lower case matter) and that it is a 2.4 GHz network: this chip can't see 5 GHz ones."
describe timeout = codes "the network didn't answer in time."
describe other = codes "the network refused the connection."
