-- ===== src/Ota/Tests.antt =====
-- Runs of the update policy at small inputs, and instances of its theorems.
use croniot_iot.Prelude.{
  ◌≤◌, ℕ, ◌<◌, ◌≡◌, ◌↔◌, ◌≢◌, refl, true, false, [], ◌∷◌, arith, codes, Bytes, bytes_eq,
}
use croniot_iot.Ota.Policy.{
  BadRelease, OtaRecord, empty_record, installed, any_names, ValidationInputs, evaluate_validation,
  wait, install, ignore_bad, decide_manifest, record_probe_result, evaluate_probe,
}
use croniot_iot.Prelude.Chars.{read_digits}
use croniot_iot.Json.{read_string, parse_string, parse_int, drop_digits, consume, peek, trim_front}
use croniot_iot.Json.Object.{parsed, out_of_fuel, read_object, read_fields, read_field}
use croniot_iot.Ota.Manifest.{
  Manifest, no_manifest, has_double_slash, all_printed, all_xdigits, lowered, read_manifest_field,
  parse_manifest,
}
use croniot_iot.Ota.Manifest.Safe.{IsSafe, parse_manifest-IsSafe, parse_manifest-total}
use croniot_iot.Ota.Policy.Validation.{evaluate_validation-wait}
use croniot_iot.Ota.Policy.Cycle.{
  crash, self_test, IsReady, attempts_of, mark_all, probe_after_install,
  attempts_of-decide_manifest, evaluate_probe-decide_manifest,
}
use croniot_iot.Ota.Blob.{encode_record, decode_record}
use croniot_iot.Ota.Blob.Numbers.{lacks}
use croniot_iot.Ota.Blob.RoundTrip.{Fits, decode_record-encode_record}

abbrev release : ℕ → BadRelease
release n = record { version = n ∷ []; request_id = codes "r" }

abbrev full_record : OtaRecord
full_record = record empty_record {
  phase = installed;
  attempts = 2;
  target_version = codes "2.0";
  bad = release 1 ∷ release 2 ∷ release 3 ∷ release 4 ∷ [];
}

abbrev inputs : ValidationInputs
inputs = record {
  uptime_ms = 700000;
  self_tests_passed = false;
  self_tests_failed = false;
  server_reachable = true;
}

evaluate_validation-wait_example :
    (evaluate_validation inputs 60000 600000 ≡ wait)
    ↔ ((true ≡ true) × (false ≡ false) × (false ≡ false))
evaluate_validation-wait_example =
    evaluate_validation-wait inputs 60000 600000 (omega arith) (omega arith)

abbrev manifest : Manifest
manifest = record no_manifest { request_id = codes "q7"; version = codes "2.0" }

empty_record-IsReady : IsReady manifest (codes "1.0") 3 empty_record 0
unfolding any_names bytes_eq
empty_record-IsReady = record {
  is_idle = refl;
  not_bad = refl;
  spent_so_far = refl;
  bounded = omega arith;
}

attempts_of-decide_manifest_example :
    (3 < 3
      → decide_manifest
          (attempts_of manifest (codes "1.0") 3 (crash ∷ self_test ∷ crash ∷ []) empty_record)
          manifest
          (codes "1.0")
          false
          3
        ≡ install)
    × (◌≡◌ {A = ℕ} 3 3
        → decide_manifest
            (mark_all
              (release 8 ∷ release 9 ∷ [])
              (attempts_of manifest (codes "1.0") 3 (crash ∷ self_test ∷ crash ∷ []) empty_record))
            manifest
            (codes "1.0")
            false
            3
          ≡ ignore_bad)
unfolding bytes_eq
attempts_of-decide_manifest_example =
    attempts_of-decide_manifest manifest (codes "1.0") 3 refl refl empty_record
      (crash ∷ self_test ∷ crash ∷ []) (release 8 ∷ release 9 ∷ []) (omega arith) (omega arith)
      (omega arith) empty_record-IsReady

evaluate_probe-decide_manifest_example :
    let probed = probe_after_install manifest (codes "1.0") 3 empty_record in
    let result = record_probe_result (evaluate_probe 900 600) probed 3 in
    (0 < 900 → 900 ≤ 600 → decide_manifest result.1 manifest (codes "1.0") false 3 ≡ ignore_bad)
    × (600 < 900 → decide_manifest result.1 manifest (codes "1.0") false 3 ≡ install)
    × (◌≡◌ {A = ℕ} 900 0 → result.1 ≡ probed)
unfolding bytes_eq
evaluate_probe-decide_manifest_example =
    evaluate_probe-decide_manifest manifest (codes "1.0") 3 refl refl empty_record 0 900 600
      (omega arith) (omega arith) empty_record-IsReady

full_record-Fits : Fits full_record
unfolding lacks
full_record-Fits = record {
  request_line = refl;
  target_line = refl;
  previous_line = refl;
  failure_line = refl;
  attempts_byte = omega arith;
  bad_count = omega arith;
  bad_lines = (refl, refl, refl, (refl, refl, refl, (refl, refl, refl, (refl, refl, refl, tt))));
}

decode_record-encode_record_example : decode_record (encode_record full_record) ≡ full_record
decode_record-encode_record_example = decode_record-encode_record full_record full_record-Fits

abbrev message : Bytes
message =
    codes
      "{\"requestId\":\"q\",\"version\":\"1.4.0\",\"path\":\"/api/iot/firmware/12\",\"size\":1960112,\"sha256\":\"0123456789ABCDEF0123456789abcdef0123456789abcdef0123456789abcdef\"}"

abbrev requested : Manifest
requested = record {
  request_id = codes "q";
  version = codes "1.4.0";
  path = codes "/api/iot/firmware/12";
  port = 0;
  size = 1960112;
  sha256 = codes "0123456789abcdef0123456789abcdef0123456789abcdef0123456789abcdef";
}

parse_manifest-message : parse_manifest message ≡ parsed requested
unfolding parse_manifest read_object read_fields read_field read_manifest_field parse_string
    read_string parse_int drop_digits read_digits consume peek trim_front bytes_eq has_double_slash
    all_printed all_xdigits lowered
parse_manifest-message = refl

parse_manifest-IsSafe_example : IsSafe requested
parse_manifest-IsSafe_example = parse_manifest-IsSafe message requested parse_manifest-message

parse_manifest-total_example : parse_manifest message ≢ out_of_fuel
parse_manifest-total_example = parse_manifest-total message
