-- ===== src/Ota/Policy.antt =====
-- components/croniot/src/ota/OtaPolicy.{h,cpp}: the decisions of the update flow over its persisted
-- record. `encodeRecord` and `decodeRecord` are in Ota/Blob.
pub mod Bad
pub mod Cycle
pub mod Validation
use croniot_iot.Ota.Manifest.{Manifest}
use croniot_iot.Prelude.{
  ℕ, ◌+◌, Bool, true, false, not, ◌&&◌, ◌||◌, List, [], ◌∷◌, ltb, leb, ◌==◌, if◌then◌else◌, length,
  take, is_empty, codes, Bytes, bytes_eq,
}

-- `enum class Phase`.
pub data Phase : Type 0 where
  idle installed probing : Phase

abbrev pub phase_code : Phase → ℕ
phase_code idle = 0
phase_code installed = 1
phase_code probing = 2

-- `phase != Phase::Idle`.
abbrev pub is_busy : Phase → Bool
is_busy idle = false
is_busy _ = true

-- `BadRelease`.
pub record BadRelease : Type 0 where
  pub version : Bytes
  pub request_id : Bytes

-- `OtaRecord`.
pub record OtaRecord : Type 0 where
  pub phase : Phase
  pub request_id : Bytes
  pub target_version : Bytes
  pub previous_version : Bytes
  pub attempts : ℕ
  pub last_failure : Bytes
  pub bad : List BadRelease

-- `OtaRecord{}`.
abbrev pub empty_record : OtaRecord
empty_record = record {
  phase = idle;
  request_id = [];
  target_version = [];
  previous_version = [];
  attempts = 0;
  last_failure = [];
  bad = [];
}

abbrev pub max_bad_releases : ℕ
max_bad_releases = 4

abbrev pub reason_boot : Bytes
reason_boot = codes "boot"

abbrev pub reason_self_test : Bytes
reason_self_test = codes "self_test"

abbrev pub reason_no_connectivity : Bytes
reason_no_connectivity = codes "no_connectivity"

-- `enum class ManifestDecision`.
pub data ManifestDecision : Type 0 where
  install ignore_same_version ignore_busy ignore_bad ignore_attempts_exhausted : ManifestDecision

-- The predicate of `isBad`.
abbrev pub names : Bytes → Bytes → BadRelease → Bool
names version request_id b = bytes_eq b.version version && bytes_eq b.request_id request_id

-- `std::any_of` over the releases.
unfoldable pub any_names : Bytes → Bytes → List BadRelease → Bool
any_names version request_id [] = false
any_names version request_id (b ∷ bs) =
    names version request_id b || any_names version request_id bs

-- `isBad`.
abbrev pub is_bad : OtaRecord → Bytes → Bytes → Bool
is_bad r version request_id = any_names version request_id r.bad

-- `markBad`.
unfoldable pub mark_bad : OtaRecord → Bytes → Bytes → OtaRecord
mark_bad r version request_id =
    let longer = record { version = version; request_id = request_id } ∷ r.bad in
    if is_bad r version request_id then r else record r {
      bad = if ltb max_bad_releases (length longer) then take max_bad_releases longer else longer;
    }

-- `sameRequest`.
abbrev pub same_request : OtaRecord → Manifest → Bool
same_request r m = bytes_eq r.request_id m.request_id && bytes_eq r.target_version m.version

-- `decideManifest`.
unfoldable pub decide_manifest : OtaRecord → Manifest → Bytes → Bool → ℕ → ManifestDecision
decide_manifest r m running_version running_pending_verify max_attempts =
    if bytes_eq m.version running_version
    then ignore_same_version
    else if running_pending_verify || is_busy r.phase
    then ignore_busy
    else if is_bad r m.version m.request_id
    then ignore_bad
    else if same_request r m && leb max_attempts r.attempts
    then ignore_attempts_exhausted
    else install

-- The counter that `recordInstalled` leaves.
abbrev pub next_attempts : OtaRecord → Manifest → ℕ
next_attempts r m =
    let before = if same_request r m then r.attempts else 0 in
    if ltb before 255 then before + 1 else before

-- `recordInstalled`.
unfoldable pub record_installed : OtaRecord → Manifest → Bytes → OtaRecord
record_installed r m running_version = record r {
  attempts = next_attempts r m;
  request_id = m.request_id;
  target_version = m.version;
  previous_version = running_version;
  last_failure = [];
  phase = installed;
}

-- `enum class BootSituation`.
pub data BootSituation : Type 0 where
  normal validating rolled_back probing_boot : BootSituation

-- `BootOutcome`.
pub record BootOutcome : Type 0 where
  pub situation : BootSituation
  pub reason : Bytes
  pub marked_bad : Bool

abbrev outcome : BootSituation → BootOutcome
outcome s = record { situation = s; reason = []; marked_bad = false }

-- The roll-back branch of `onBoot`.
abbrev roll_back : OtaRecord → ℕ → BootOutcome × OtaRecord
roll_back r max_attempts =
    let exhausted = leb max_attempts r.attempts in
    let r' = if exhausted then mark_bad r r.target_version r.request_id else r in
    (
      record {
        situation = rolled_back;
        reason = if is_empty r.last_failure then reason_boot else r.last_failure;
        marked_bad = exhausted;
      },
      record r' { last_failure = []; phase = idle },
    )

-- The `switch` of `onBoot`.
unfoldable pub boot_in : Phase → OtaRecord → Bytes → ℕ → BootOutcome × OtaRecord
boot_in idle r running_version max_attempts = (outcome normal, r)
boot_in installed r running_version max_attempts =
    if bytes_eq running_version r.target_version
    then (outcome validating, r)
    else roll_back r max_attempts
boot_in probing r running_version max_attempts =
    if bytes_eq running_version r.target_version
    then (outcome validating, record r { phase = installed })
    else (outcome probing_boot, r)

-- `onBoot`.
unfoldable pub on_boot : OtaRecord → Bytes → ℕ → BootOutcome × OtaRecord
unfolding boot_in
on_boot r = boot_in r.phase r

-- `ValidationInputs`.
pub record ValidationInputs : Type 0 where
  pub uptime_ms : ℕ
  pub self_tests_passed : Bool
  pub self_tests_failed : Bool
  pub server_reachable : Bool

-- `enum class ValidationVerdict`.
pub data ValidationVerdict : Type 0 where
  wait confirm rollback_self_test rollback_no_connectivity : ValidationVerdict

-- `evaluateValidation`.
unfoldable pub evaluate_validation : ValidationInputs → ℕ → ℕ → ValidationVerdict
evaluate_validation v stable_ms deadline_ms =
    if v.self_tests_failed
    then rollback_self_test
    else if leb stable_ms v.uptime_ms && (v.self_tests_passed && v.server_reachable)
    then confirm
    else if leb deadline_ms v.uptime_ms
    then if v.server_reachable then wait else rollback_no_connectivity
    else wait

-- `recordRollback`.
unfoldable pub record_rollback : ValidationVerdict → OtaRecord → OtaRecord
record_rollback rollback_self_test r = record r {
  last_failure = reason_self_test;
  phase = installed;
}
record_rollback rollback_no_connectivity r = record r {
  last_failure = reason_no_connectivity;
  phase = probing;
}
record_rollback _ r = r

-- `recordConfirmed`.
unfoldable pub record_confirmed : OtaRecord → OtaRecord
record_confirmed r = record r { phase = idle; last_failure = []; attempts = 0 }

-- `enum class ProbeVerdict`.
pub data ProbeVerdict : Type 0 where
  keep_waiting new_version_guilty external_fault : ProbeVerdict

-- `evaluateProbe`.
unfoldable pub evaluate_probe : ℕ → ℕ → ProbeVerdict
evaluate_probe reachable_at_ms deadline_ms =
    if reachable_at_ms == 0
    then keep_waiting
    else if leb reachable_at_ms deadline_ms
    then new_version_guilty
    else external_fault

abbrev is_guilty : ProbeVerdict → Bool
is_guilty new_version_guilty = true
is_guilty _ = false

abbrev settle : OtaRecord → Bool → Bool × OtaRecord
settle r bad =
    let r' = if bad then mark_bad r r.target_version r.request_id else r in
    (bad, record r' { phase = idle; last_failure = [] })

-- `recordProbeResult`.
unfoldable pub record_probe_result : ProbeVerdict → OtaRecord → ℕ → Bool × OtaRecord
record_probe_result keep_waiting r max_attempts = (false, r)
record_probe_result v r max_attempts = settle r (is_guilty v || leb max_attempts r.attempts)
