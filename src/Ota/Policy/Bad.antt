-- ===== src/Ota/Policy/Bad.antt =====
-- The releases that the device refuses.
use croniot_iot.Prelude.{◌≤◌, ◌≡◌, true, arith, ◌∷◌, length, length-take, Bytes, bytes_eq_refl}
use croniot_iot.Ota.Policy.{OtaRecord, any_names, is_bad, mark_bad, max_bad_releases}

-- A release that was marked is refused, and no mark makes the list longer than it may be.
pub is_bad-mark_bad :
    (r : OtaRecord) (version request_id : Bytes)
    → length r.bad ≤ max_bad_releases
    → (is_bad (mark_bad r version request_id) version request_id ≡ true)
      × (length (mark_bad r version request_id).bad ≤ max_bad_releases)
unfolding mark_bad any_names
is_bad-mark_bad r version request_id h = ground (
  arith,
  bytes_eq_refl version,
  bytes_eq_refl request_id,
  length-take max_bad_releases (record { version = version; request_id = request_id } ∷ r.bad),
)
