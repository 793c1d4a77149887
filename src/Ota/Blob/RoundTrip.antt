-- ===== src/Ota/Blob/RoundTrip.antt =====
-- A record and its blob (ota/OtaPolicy.cpp).
use croniot_iot.Prelude.{
  ℕ, ◌+◌, ◌%◌, ◌^◌, ◌≤◌, ◌<◌, ◌≡◌, refl, ap, true, false, ◌&&◌, some, List, [], ◌∷◌, ◌++◌, arith,
  leb, ◌==◌, length, codes, Bytes, bytes_eq_refl,
}
use croniot_iot.Ota.Policy.{
  OtaRecord, BadRelease, idle, installed, probing, Phase, phase_code, max_bad_releases,
}
use croniot_iot.Ota.Blob.Numbers.{lacks, atoi-to_string, lacks-to_string}
use croniot_iot.Ota.Blob.Lines.{split_at-append, join, AllLack, split_lines-join, length-join}
use croniot_iot.Ota.Blob.{
  to_string, encode_bad, encode_record, line_then, decode_phase, decode_attempts, decode_bad,
  decode_lines, decode_record,
}

-- "Versions and request ids never contain '\n' or '\t'".
abbrev pub BadFits : List BadRelease → Type 0
BadFits [] = Unit {0}
BadFits (b ∷ bs) =
    (lacks b'\n' b.version ≡ true)
    × (lacks b'\t' b.version ≡ true)
    × (lacks b'\n' b.request_id ≡ true)
    × BadFits bs

-- What a record that the policy built looks like.
pub record Fits (r : OtaRecord) : Type 0 where
  pub request_line : lacks b'\n' r.request_id ≡ true
  pub target_line : lacks b'\n' r.target_version ≡ true
  pub previous_line : lacks b'\n' r.previous_version ≡ true
  pub failure_line : lacks b'\n' r.last_failure ≡ true
  pub attempts_byte : r.attempts < 2 ^ 8
  pub bad_count : length r.bad ≤ max_bad_releases
  pub bad_lines : BadFits r.bad

abbrev bad_line : BadRelease → Bytes
bad_line b = b.version ++ (b'\t' ∷ b.request_id)

abbrev bad_lines_of : List BadRelease → List Bytes
bad_lines_of [] = []
bad_lines_of (b ∷ bs) = bad_line b ∷ bad_lines_of bs

-- The lines of the blob.
lines_of : OtaRecord → List Bytes
lines_of r =
    codes "v1"
    ∷ to_string (phase_code r.phase)
    ∷ r.request_id
    ∷ r.target_version
    ∷ r.previous_version
    ∷ to_string r.attempts
    ∷ r.last_failure
    ∷ to_string (length r.bad)
    ∷ bad_lines_of r.bad

encode_bad-join : (bs : List BadRelease) → encode_bad bs ≡ join (bad_lines_of bs)
unfolding encode_bad
encode_bad-join [] = refl
encode_bad-join (b ∷ bs) = ap (line_then (bad_line b)) (encode_bad-join bs)

lacks-append : (c : ℕ) (a b : Bytes) → lacks c (a ++ b) ≡ (lacks c a && lacks c b)
unfolding lacks
lacks-append c [] b = refl
lacks-append c (x ∷ a) b = ground (arith, lacks-append c a b)

AllLack-bad_lines_of : (bs : List BadRelease) → BadFits bs → AllLack (bad_lines_of bs)
AllLack-bad_lines_of [] h = tt
AllLack-bad_lines_of (b ∷ bs) h = (
  rw (lacks-append b'\n' b.version (b'\t' ∷ b.request_id), h.0) (unfold lacks in h.2),
  AllLack-bad_lines_of bs h.3,
)

length-bad_lines_of : (bs : List BadRelease) → length (bad_lines_of bs) ≡ length bs
length-bad_lines_of [] = refl
length-bad_lines_of (b ∷ bs) = omega (arith, length-bad_lines_of bs)

decode_bad-lines : (bs : List BadRelease) → BadFits bs → decode_bad (bad_lines_of bs) ≡ some bs
unfolding decode_bad
decode_bad-lines [] h = refl
decode_bad-lines (b ∷ bs) h =
    rw (split_at-append b'\t' b.version b.request_id h.1, decode_bad, decode_bad-lines bs h.3)

decode_phase-code :
    (p : Phase) → decode_phase (record { negative = false; magnitude = phase_code p }) ≡ some p
unfolding decode_phase
decode_phase-code idle = refl
decode_phase-code installed = refl
decode_phase-code probing = refl

phase_code-lt : (p : Phase) → phase_code p < 256
phase_code-lt idle = omega arith
phase_code-lt installed = omega arith
phase_code-lt probing = omega arith

decode_attempts-lem :
    (n : ℕ) → n < 2 ^ 8 → decode_attempts (record { negative = false; magnitude = n }) ≡ n
unfolding decode_attempts
decode_attempts-lem n h = ground arith

-- The line that counts the refused releases agrees with their number.
count_agrees :
    (r : OtaRecord)
    → length r.bad ≤ max_bad_releases
    → ((length (bad_lines_of r.bad) + 8 == (8 + length r.bad % 2 ^ 32) % 2 ^ 32)
        && leb (length r.bad % 2 ^ 32) max_bad_releases)
      ≡ true
count_agrees r h = ground (arith, length-bad_lines_of r.bad)

decode_lines-lines_of : (r : OtaRecord) → Fits r → decode_lines (lines_of r) ≡ r
unfolding decode_lines lines_of
decode_lines-lines_of r f = rw (
  atoi-to_string (length r.bad) (omega (arith, f.bad_count)),
  atoi-to_string (phase_code r.phase) (phase_code-lt r.phase),
  atoi-to_string r.attempts f.attempts_byte,
  bytes_eq_refl (codes "v1"),
  count_agrees r f.bad_count,
  decode_phase-code r.phase,
  decode_bad-lines r.bad f.bad_lines,
  decode_attempts-lem r.attempts f.attempts_byte,
)

AllLack-lines_of : (r : OtaRecord) → Fits r → AllLack (lines_of r)
unfolding lines_of
AllLack-lines_of r f = (
  unfold lacks in refl,
  (
    lacks-to_string (phase_code r.phase) (phase_code-lt r.phase),
    (
      f.request_line,
      (
        f.target_line,
        (
          f.previous_line,
          (
            lacks-to_string r.attempts f.attempts_byte,
            (
              f.failure_line,
              (
                lacks-to_string (length r.bad) (omega (arith, f.bad_count)),
                AllLack-bad_lines_of r.bad f.bad_lines,
              ),
            ),
          ),
        ),
      ),
    ),
  ),
)

encode_record-join : (r : OtaRecord) → encode_record r ≡ join (lines_of r)
unfolding encode_record lines_of
encode_record-join r = rw (encode_bad-join r.bad)

-- A record is read back from its blob as it was, if its texts hold no line break and its version
-- strings of refused releases no tab, the attempts fit a byte, and at most four releases are refused.
pub decode_record-encode_record : (r : OtaRecord) → Fits r → decode_record (encode_record r) ≡ r
unfolding decode_record
decode_record-encode_record r f = rw (encode_record-join r) (
    rw
      (
        split_lines-join (length (join (lines_of r))) (lines_of r) (AllLack-lines_of r f)
            (length-join (lines_of r)),
        decode_record,
      )
      (decode_lines-lines_of r f))
