-- ===== src/Log/Levels/Overrides.antt =====
-- Overrides that come and go.
use croniot_iot.Prelude.{
  ℕ, ◌≤◌, ◌<◌, ◌≡◌, ◌≢◌, refl, sym, ◌∙◌, true, false, Option, none, some, List, [], ◌∷◌, arith,
  lt→ltb, ltb, Bytes, bytes_eq, bytes_eq_refl, bytes_eq_iff, Bool-cases, inl, inr,
}
use croniot_iot.Log.Record.{Level}
use croniot_iot.Log.Levels.{
  TtlEntry, assign, lookup, LevelResolver, set_ttl_tag_override, clear_ttl_overrides,
  unless_expired, persisted_level, effective_level,
}

lookup-assign_self :
    {A : Type 0} (key : Bytes) (v : A) (m : List (Bytes × A)) → lookup key (assign key v m) ≡ some v
unfolding lookup assign
lookup-assign_self key v [] = rw (bytes_eq_refl key)
lookup-assign_self key v ((k, w) ∷ m) =
    ground (arith, bytes_eq_refl key, lookup-assign_self key v m)

bytes_eq-ne : (a b : Bytes) → a ≢ b → bytes_eq a b ≡ false
bytes_eq-ne a b apart = elim (Bool-cases (bytes_eq a b)) [
  | inl e ↦ absurd (apart ((bytes_eq_iff a b).0 e))
  | inr e ↦ e
]

-- A key of a map cannot be both of two that differ.
not_both : (k key other : Bytes) → key ≢ other → bytes_eq k key ≡ true → bytes_eq k other ≡ false
not_both k key other apart e = bytes_eq-ne k other (λ q. apart (sym ((bytes_eq_iff k key).0 e) ∙ q))

lookup-assign_ne :
    {A : Type 0} (key other : Bytes) (v : A) (m : List (Bytes × A))
    → key ≢ other
    → lookup other (assign key v m) ≡ lookup other m
unfolding lookup assign
lookup-assign_ne key other v [] apart = rw (bytes_eq-ne key other apart)
lookup-assign_ne key other v ((k, w) ∷ m) apart =
    ground (arith, not_both k key other apart, lookup-assign_ne key other v m apart)

-- An override for a tag holds for that tag until it expires; from then on the tag has the level that
-- it would have if no tag had an override; and no other tag's level changes.
pub effective_level-set_ttl_tag_override :
    (tag other : Bytes) (l : Level) (expires now : ℕ) (r : LevelResolver)
    → tag ≢ other
    → (now < expires → effective_level tag now (set_ttl_tag_override tag l expires r) ≡ l)
      × (expires ≤ now
          → effective_level tag now (set_ttl_tag_override tag l expires r)
            ≡ effective_level tag now (record r { ttl_tags = [] }))
      × (effective_level other now (set_ttl_tag_override tag l expires r)
          ≡ effective_level other now r)
unfolding effective_level persisted_level
effective_level-set_ttl_tag_override tag other l expires now r apart = (
  λ h.
      rw
        (
          lookup-assign_self tag (record { level = l; expires_at_ms = expires }) r.ttl_tags,
          lt→ltb now expires h,
        )
        refl,
  λ h.
      let gone : ltb now expires ≡ false = ground arith in
      unfold lookup in
      rw (lookup-assign_self tag (record { level = l; expires_at_ms = expires }) r.ttl_tags, gone)
        refl,
  rw (lookup-assign_ne tag other (record { level = l; expires_at_ms = expires }) r.ttl_tags apart)
      refl,
)

-- Every override of the list has expired.
abbrev pub AllExpired : ℕ → List (Bytes × TtlEntry) → Type 0
AllExpired now [] = Unit
AllExpired now ((k, e) ∷ m) = (e.expires_at_ms ≤ now) × AllExpired now m

abbrev pub DefaultExpired : ℕ → Option TtlEntry → Type 0
DefaultExpired now none = Unit
DefaultExpired now (some e) = e.expires_at_ms ≤ now

lookup-expired :
    (tag : Bytes) (now : ℕ) (m : List (Bytes × TtlEntry)) (below : Level)
    → AllExpired now m
    → unless_expired now (lookup tag m) below ≡ below
unfolding lookup
lookup-expired tag now [] below h = refl
lookup-expired tag now ((k, e) ∷ m) below h = ground (arith, lookup-expired tag now m below h.1)

default-expired :
    (now : ℕ) (o : Option TtlEntry) (below : Level)
    → DefaultExpired now o
    → unless_expired now o below ≡ below
default-expired now none below h = refl
default-expired now (some e) below h = ground arith

-- Once all overrides have expired, every tag has the level that it would have without them.
pub effective_level-clear_ttl_overrides :
    (tag : Bytes) (now : ℕ) (r : LevelResolver)
    → AllExpired now r.ttl_tags
    → DefaultExpired now r.ttl_default
    → effective_level tag now r ≡ effective_level tag now (clear_ttl_overrides r)
unfolding effective_level persisted_level
effective_level-clear_ttl_overrides tag now r tags dflt =
    unfold lookup in
    lookup-expired tag now r.ttl_tags (unless_expired now r.ttl_default (persisted_level tag r))
      tags
    ∙ default-expired now r.ttl_default (persisted_level tag r) dflt
