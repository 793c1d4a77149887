-- ===== src/Ota/Policy/Cycle.antt =====
-- A release that keeps failing, through installs, boots and rollbacks.
use croniot_iot.Prelude.{
  ℕ, zero, suc, ◌+◌, ◌≤◌, ◌<◌, ◌≡◌, ◌∙◌, take, take-take, Bool-cases, inl, inr, ltb, true, false,
  arith, leb, ◌==◌, List, [], ◌∷◌, if◌then◌else◌, length, Bytes, bytes_eq, bytes_eq_refl,
}
use croniot_iot.Ota.Manifest.{Manifest}
use croniot_iot.Ota.Policy.{
  OtaRecord, BadRelease, idle, is_bad, mark_bad, any_names, same_request, install, ignore_bad,
  decide_manifest, record_installed, on_boot, record_rollback, rollback_self_test,
  rollback_no_connectivity, new_version_guilty, external_fault, evaluate_probe, record_probe_result,
  max_bad_releases,
}

-- How the new image failed: it crashed or reset, or its self tests failed.
pub data Failure : Type 0 where
  crash self_test : Failure

abbrev fail_with : Failure → OtaRecord → OtaRecord
fail_with crash r = r
fail_with self_test r = record_rollback rollback_self_test r

-- Other releases are marked bad, one after the other.
unfoldable pub mark_all : List BadRelease → OtaRecord → OtaRecord
mark_all [] r = r
mark_all (b ∷ bs) r = mark_all bs (mark_bad r b.version b.request_id)

any_names-take :
    (v q : Bytes) (n : ℕ) (bs : List BadRelease)
    → any_names v q (take n bs) ≡ true
    → any_names v q bs ≡ true
unfolding any_names
any_names-take v q zero bs e = absurd (ground arith)
any_names-take v q (suc n) [] e = absurd (ground arith)
any_names-take v q (suc n) (b ∷ bs) e = ground (arith, any_names-take v q n bs)

any_names-take-suc :
    (v q : Bytes) (n : ℕ) (bs : List BadRelease)
    → any_names v q (take n bs) ≡ true
    → any_names v q (take (suc n) bs) ≡ true
unfolding any_names
any_names-take-suc v q zero bs e = absurd (ground arith)
any_names-take-suc v q (suc n) [] e = absurd (ground arith)
any_names-take-suc v q (suc n) (b ∷ bs) e = ground (arith, any_names-take-suc v q n bs)

-- A mark moves the others down by one place at most.
any_names-mark_bad :
    (v q v' q' : Bytes) (n : ℕ) (r : OtaRecord)
    → n < max_bad_releases
    → any_names v q (take n r.bad) ≡ true
    → any_names v q (take (suc n) (mark_bad r v' q').bad) ≡ true
unfolding mark_bad any_names
any_names-mark_bad v q v' q' n r room e =
    let b : BadRelease = record { version = v'; request_id = q' } in
    let cut = take-take n 3 r.bad (omega arith) in
    elim (Bool-cases (any_names v' q' r.bad)) [
      | inl known ↦ rw known (any_names-take-suc v q n r.bad e)
      | inr new ↦ elim (Bool-cases (ltb max_bad_releases (length (b ∷ r.bad)))) [
        | inl long ↦ rw (new, long, cut) (ground arith)
        | inr short ↦ rw (new, short) (ground arith)
      ]
    ]

mark_bad-phase : (r : OtaRecord) (v q : Bytes) → (mark_bad r v q).phase ≡ r.phase
unfolding mark_bad
mark_bad-phase r v q = ground arith

module _ (m : Manifest) (running : Bytes) (max_attempts : ℕ) where
  -- The image is written, booted, fails, and the device is back on the one that ran before.
  unfoldable pub attempt : Failure → OtaRecord → OtaRecord
  unfolding record_installed on_boot record_rollback
  attempt f r =
      let written = record_installed r m running in
      let booted = (on_boot written m.version max_attempts).1 in
      (on_boot (fail_with f booted) running max_attempts).1

  unfoldable pub attempts_of : List Failure → OtaRecord → OtaRecord
  attempts_of [] r = r
  attempts_of (f ∷ fs) r = attempts_of fs (attempt f r)

  -- The attempts already spent on this request.
  abbrev spent : OtaRecord → ℕ
  spent r = if same_request r m then r.attempts else 0

  -- Ready to try the release for the `k + 1`st time.
  pub record IsReady (r : OtaRecord) (k : ℕ) : Type 0 where
    pub is_idle : r.phase ≡ idle
    pub not_bad : is_bad r m.version m.request_id ≡ false
    pub spent_so_far : spent r ≡ k
    pub bounded : length r.bad ≤ max_bad_releases

  module _ (other : bytes_eq running m.version ≡ false)
      (other' : bytes_eq m.version running ≡ false) where
    -- Among the `n` releases that were marked last.
    record IsRefused (r : OtaRecord) (n : ℕ) : Type 0 where
      is_idle : r.phase ≡ idle
      listed : any_names m.version m.request_id (take n r.bad) ≡ true

    IsRefused-decide_manifest :
        (r : OtaRecord) (n : ℕ)
        → IsRefused r n
        → decide_manifest r m running false max_attempts ≡ ignore_bad
    unfolding decide_manifest
    IsRefused-decide_manifest r n h =
        let bad = any_names-take m.version m.request_id n r.bad h.listed in
        let i = h.is_idle in ground arith

    mark_all-IsRefused :
        (bs : List BadRelease) (r : OtaRecord) (n : ℕ)
        → n + length bs ≤ max_bad_releases
        → IsRefused r n
        → decide_manifest (mark_all bs r) m running false max_attempts ≡ ignore_bad
    unfolding mark_all
    mark_all-IsRefused [] r n room h = IsRefused-decide_manifest r n h
    mark_all-IsRefused (b ∷ bs) r n room h =
        mark_all-IsRefused bs (mark_bad r b.version b.request_id) (suc n) (omega arith) (record {
          is_idle = mark_bad-phase r b.version b.request_id ∙ h.is_idle;
          listed =
              any_names-mark_bad m.version m.request_id b.version b.request_id n r (omega arith)
                h.listed;
        })

    IsReady-install :
        (r : OtaRecord) (k : ℕ)
        → k < max_attempts
        → IsReady r k
        → decide_manifest r m running false max_attempts ≡ install
    unfolding decide_manifest
    IsReady-install r k h v = ground arith

    attempt-IsReady :
        (f : Failure) (r : OtaRecord) (k : ℕ)
        → suc k < max_attempts
        → max_attempts ≤ 255
        → IsReady r k
        → IsReady (attempt f r) (suc k)
    unfolding attempt
    attempt-IsReady crash r k h word v =
        ground (arith, bytes_eq_refl m.version, bytes_eq_refl m.request_id)
    attempt-IsReady self_test r k h word v =
        ground (arith, bytes_eq_refl m.version, bytes_eq_refl m.request_id)

    attempt-IsRefused :
        (f : Failure) (r : OtaRecord) (k : ℕ)
        → suc k ≡ max_attempts
        → max_attempts ≤ 255
        → IsReady r k
        → IsRefused (attempt f r) 1
    unfolding attempt mark_bad any_names
    attempt-IsRefused crash r k h word v =
        ground (arith, bytes_eq_refl m.version, bytes_eq_refl m.request_id)
    attempt-IsRefused self_test r k h word v =
        ground (arith, bytes_eq_refl m.version, bytes_eq_refl m.request_id)

    attempts_of-lem :
        (fs : List Failure) (r : OtaRecord) (k : ℕ)
        → max_attempts ≤ 255
        → k < max_attempts
        → IsReady r k
        → (k + length fs < max_attempts
            → decide_manifest (attempts_of fs r) m running false max_attempts ≡ install)
          × (k + length fs ≡ max_attempts → IsRefused (attempts_of fs r) 1)
    unfolding attempts_of
    attempts_of-lem [] r k word more v =
        (λ h. IsReady-install r k more v, λ h. absurd (omega arith))
    attempts_of-lem (f ∷ []) r k word more v = (
      λ h.
          IsReady-install (attempt f r) (suc k) (omega arith)
            (attempt-IsReady f r k (omega arith) word v),
      λ h. attempt-IsRefused f r k (omega arith) word v,
    )
    attempts_of-lem (f ∷ g ∷ fs) r k word more v = (
      λ h.
          (attempts_of-lem (g ∷ fs) (attempt f r) (suc k) word (omega arith)
              (attempt-IsReady f r k (omega arith) word v)).0
            (omega arith),
      λ h.
          (attempts_of-lem (g ∷ fs) (attempt f r) (suc k) word (omega arith)
              (attempt-IsReady f r k (omega arith) word v)).1
            (omega arith),
    )

    -- A release that crashes or fails its self tests each time is installed again until it has had
    -- all its attempts; then it is refused, and still after up to three other releases have been marked
    -- bad (four are kept). The device is idle and has neither spent an attempt on it nor refused it; at
    -- least one and at most 255 attempts are allowed.
    pub attempts_of-decide_manifest :
        (r : OtaRecord) (fs : List Failure) (later : List BadRelease)
        → 0 < max_attempts
        → max_attempts ≤ 255
        → length later < max_bad_releases
        → IsReady r 0
        → (length fs < max_attempts
            → decide_manifest (attempts_of fs r) m running false max_attempts ≡ install)
          × (length fs ≡ max_attempts
              → decide_manifest (mark_all later (attempts_of fs r)) m running false max_attempts
                ≡ ignore_bad)
    attempts_of-decide_manifest r fs later more word few v =
        let both = attempts_of-lem fs r 0 word more v in
        (
          λ h. both.0 (omega arith),
          λ h. mark_all-IsRefused later (attempts_of fs r) 1 (omega arith) (both.1 (omega arith)),
        )

  -- The new image could not reach the server; the one before it is booted to see if it can.
  unfoldable pub probe_after_install : OtaRecord → OtaRecord
  unfolding record_installed on_boot record_rollback
  probe_after_install r =
      let booted = (on_boot (record_installed r m running) m.version max_attempts).1 in
      (on_boot (record_rollback rollback_no_connectivity booted) running max_attempts).1

  module _ (other : bytes_eq running m.version ≡ false)
      (other' : bytes_eq m.version running ≡ false) where
    record_probe_result-decide_manifest :
        (r : OtaRecord) (k : ℕ)
        → suc k < max_attempts
        → max_attempts ≤ 255
        → IsReady r k
        → let probed = probe_after_install r in
          (decide_manifest
              (record_probe_result new_version_guilty probed max_attempts).1
              m
              running
              false
              max_attempts
            ≡ ignore_bad)
          × (decide_manifest
                (record_probe_result external_fault probed max_attempts).1
                m
                running
                false
                max_attempts
              ≡ install)
    unfolding probe_after_install decide_manifest mark_bad any_names record_probe_result
    record_probe_result-decide_manifest r k h word v = (
      ground (arith, bytes_eq_refl m.version, bytes_eq_refl m.request_id),
      ground (arith, bytes_eq_refl m.version, bytes_eq_refl m.request_id),
    )

    -- If the previous image reaches the server by the deadline, the release is refused after this one
    -- attempt; if it does so only later, the outage was outside, and the release is tried again, since
    -- attempts are left; and as long as it has not reached the server, the record stays as it is.
    pub evaluate_probe-decide_manifest :
        (r : OtaRecord) (k reached deadline : ℕ)
        → suc k < max_attempts
        → max_attempts ≤ 255
        → IsReady r k
        → let probed = probe_after_install r in
          let result = record_probe_result (evaluate_probe reached deadline) probed max_attempts in
          (0 < reached
            → reached ≤ deadline
            → decide_manifest result.1 m running false max_attempts ≡ ignore_bad)
          × (deadline < reached → decide_manifest result.1 m running false max_attempts ≡ install)
          × (reached ≡ 0 → result.1 ≡ probed)
    unfolding evaluate_probe record_probe_result
    evaluate_probe-decide_manifest r k reached deadline h word v =
        let both = record_probe_result-decide_manifest r k h word v in
        (
          λ some_time in_time.
              let e : (reached == 0) ≡ false = ground arith in
              let f : leb reached deadline ≡ true = ground arith in rw (e, f) both.0,
          λ late.
              let e : (reached == 0) ≡ false = ground arith in
              let f : leb reached deadline ≡ false = ground arith in rw (e, f) both.1,
          λ never. rw never,
        )
