-- ===== src/Log/Levels.antt =====
-- components/croniot/src/log/LevelResolver.h and IncidentDetector.h: which records are captured, and
-- when a reset is an incident. A `std::map` is an association list.
pub mod Overrides
use croniot_iot.Prelude.{
  ℕ, Bool, true, false, ◌&&◌, ◌||◌, Option, none, some, List, [], ◌∷◌, ltb, if◌then◌else◌, Bytes,
  bytes_eq,
}
use croniot_iot.Log.Record.{Level, info}

-- `TtlEntry`.
pub record TtlEntry : Type 0 where
  pub level : Level
  pub expires_at_ms : ℕ

-- `m[key] = v`.
unfoldable pub assign {ℓ} : {A : Type ℓ} → Bytes → A → List (Bytes × A) → List (Bytes × A)
assign key v [] = (key, v) ∷ []
assign key v ((k, w) ∷ m) =
    let rest = assign key v m in if bytes_eq k key then (k, v) ∷ m else (k, w) ∷ rest

-- `m.find(key)`.
unfoldable pub lookup {ℓ} : {A : Type ℓ} → Bytes → List (Bytes × A) → Option A
lookup key [] = none
lookup key ((k, w) ∷ m) = let rest = lookup key m in if bytes_eq k key then some w else rest

-- `LevelResolver`.
pub record LevelResolver : Type 0 where
  pub kconfig_default : Level
  pub code_default : Option Level
  pub code_tags : List (Bytes × Level)
  pub remote_default : Option Level
  pub remote_tags : List (Bytes × Level)
  pub ttl_default : Option TtlEntry
  pub ttl_tags : List (Bytes × TtlEntry)

abbrev pub fresh_resolver : LevelResolver
fresh_resolver = record {
  kconfig_default = info;
  code_default = none;
  code_tags = [];
  remote_default = none;
  remote_tags = [];
  ttl_default = none;
  ttl_tags = [];
}

-- The setters, in the source's order.
abbrev pub set_kconfig_default : Level → LevelResolver → LevelResolver
set_kconfig_default l r = record r { kconfig_default = l }

abbrev pub set_code_default : Level → LevelResolver → LevelResolver
set_code_default l r = record r { code_default = some l }

abbrev pub set_code_tag_level : Bytes → Level → LevelResolver → LevelResolver
set_code_tag_level tag l r = record r { code_tags = assign tag l r.code_tags }

abbrev pub set_remote_default : Level → LevelResolver → LevelResolver
set_remote_default l r = record r { remote_default = some l }

abbrev pub set_remote_tag_level : Bytes → Level → LevelResolver → LevelResolver
set_remote_tag_level tag l r = record r { remote_tags = assign tag l r.remote_tags }

abbrev pub clear_remote : LevelResolver → LevelResolver
clear_remote r = record r { remote_default = none; remote_tags = [] }

abbrev pub set_ttl_override : Level → ℕ → LevelResolver → LevelResolver
set_ttl_override l expires r = record r {
  ttl_default = some (record { level = l; expires_at_ms = expires });
}

abbrev pub set_ttl_tag_override : Bytes → Level → ℕ → LevelResolver → LevelResolver
set_ttl_tag_override tag l expires r = record r {
  ttl_tags = assign tag (record { level = l; expires_at_ms = expires }) r.ttl_tags;
}

abbrev pub clear_ttl_overrides : LevelResolver → LevelResolver
clear_ttl_overrides r = record r { ttl_default = none; ttl_tags = [] }

-- A value, or what the layers below say.
abbrev or_else : Option Level → Level → Level
or_else none below = below
or_else (some l) below = l

-- An override that is still valid.
abbrev pub unless_expired : ℕ → Option TtlEntry → Level → Level
unless_expired now none below = below
unless_expired now (some e) below = if ltb now e.expires_at_ms then e.level else below

-- The layers under the overrides.
unfoldable pub persisted_level : Bytes → LevelResolver → Level
persisted_level tag r = or_else (lookup tag r.remote_tags) (
    or_else (lookup tag r.code_tags)
      (or_else r.remote_default (or_else r.code_default r.kconfig_default)))

-- `effectiveLevel`.
unfoldable pub effective_level : Bytes → ℕ → LevelResolver → Level
unfolding persisted_level
effective_level tag now r =
    unless_expired now (lookup tag r.ttl_tags)
      (unless_expired now r.ttl_default (persisted_level tag r))

-- `enum class ResetCause`.
pub data ResetCause : Type 0 where
  unknown_cause power_on external_pin software_restart deep_sleep_wake panic interrupt_wdt
        task_wdt :
      ResetCause
  other_wdt brownout sdio_reset other_cause : ResetCause

-- `isCrashLikeReset`.
unfoldable pub is_crash_like_reset : ResetCause → Bool
is_crash_like_reset software_restart = true
is_crash_like_reset panic = true
is_crash_like_reset interrupt_wdt = true
is_crash_like_reset task_wdt = true
is_crash_like_reset other_wdt = true
is_crash_like_reset _ = false

-- `IncidentSummary`.
pub record IncidentSummary : Type 0 where
  pub cause : ResetCause
  pub recovered_ring_records : ℕ
  pub recovered_rtc_records : ℕ
  pub coredump_present : Bool

-- `shouldRaiseIncident`.
unfoldable pub should_raise_incident : IncidentSummary → Bool
should_raise_incident s =
    is_crash_like_reset s.cause
    && (ltb 0 s.recovered_ring_records || (ltb 0 s.recovered_rtc_records || s.coredump_present))
