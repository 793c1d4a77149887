-- ===== src/Log/Reclaimer/Members.antt =====
-- The segments of a tier (log/SpaceReclaimer.cpp).
use croniot_iot.Prelude.{
  ℕ, ◌==◌, ◌≡◌, sym, ap, ◌∙◌, ◌⊎◌, inl, inr, true, List, [], ◌∷◌, ◌++◌, arith, ltb, Bool-cases,
}
use croniot_iot.Log.Reclaimer.{SegmentInfo, tier_of, insert_by_age, sort_by_age, in_tier, tier}

-- A segment stands in a list.
abbrev pub IsIn : SegmentInfo → List SegmentInfo → Type 0
IsIn g [] = ⊥
IsIn g (h ∷ hs) = (h ≡ g) ⊎ IsIn g hs

pub IsIn-append_left : (g : SegmentInfo) (xs ys : List SegmentInfo) → IsIn g xs → IsIn g (xs ++ ys)
IsIn-append_left g [] ys h = absurd h
IsIn-append_left g (x ∷ xs) ys (inl e) = inl e
IsIn-append_left g (x ∷ xs) ys (inr h) = inr (IsIn-append_left g xs ys h)

pub IsIn-append_right : (g : SegmentInfo) (xs ys : List SegmentInfo) → IsIn g ys → IsIn g (xs ++ ys)
IsIn-append_right g [] ys h = h
IsIn-append_right g (x ∷ xs) ys h = inr (IsIn-append_right g xs ys h)

pub IsIn-append :
    (g : SegmentInfo) (xs ys : List SegmentInfo) → IsIn g (xs ++ ys) → (IsIn g xs) ⊎ (IsIn g ys)
IsIn-append g [] ys h = inr h
IsIn-append g (x ∷ xs) ys (inl e) = inl (inl e)
IsIn-append g (x ∷ xs) ys (inr h) = elim (IsIn-append g xs ys h) [
  | inl l ↦ inl (inr l)
  | inr r ↦ inr r
]

-- Sorting changes no membership.
pub IsIn-insert_by_age :
    (g h : SegmentInfo) (gs : List SegmentInfo)
    → (IsIn g (insert_by_age h gs) → IsIn g (h ∷ gs))
      × (IsIn g (h ∷ gs) → IsIn g (insert_by_age h gs))
unfolding insert_by_age
IsIn-insert_by_age g h [] = (λ i. i, λ i. i)
IsIn-insert_by_age g h (k ∷ gs) =
    let ih = IsIn-insert_by_age g h gs in
    elim (Bool-cases (ltb k.segment_id h.segment_id)) [
      | inr here ↦ rw here (λ i. i, λ i. i)
      | inl later ↦ rw later (
        λ i. elim i [
          | inl e ↦ inr (inl e)
          | inr r ↦ elim (ih.0 r) [ inl e ↦ inl e | inr q ↦ inr (inr q) ]
        ],
        λ i. elim i [
          | inl e ↦ inr (ih.1 (inl e))
          | inr r ↦ elim r [ inl e ↦ inl e | inr q ↦ inr (ih.1 (inr q)) ]
        ],
      )
    ]

pub IsIn-sort_by_age :
    (g : SegmentInfo) (gs : List SegmentInfo)
    → (IsIn g (sort_by_age gs) → IsIn g gs) × (IsIn g gs → IsIn g (sort_by_age gs))
unfolding sort_by_age
IsIn-sort_by_age g [] = (λ i. i, λ i. i)
IsIn-sort_by_age g (h ∷ gs) =
    let ih = IsIn-sort_by_age g gs in
    let step = IsIn-insert_by_age g h (sort_by_age gs) in
    (
      λ i. elim (step.0 i) [ inl e ↦ inl e | inr r ↦ inr (ih.0 r) ],
      λ i. step.1 (elim i [ inl e ↦ inl e | inr r ↦ inr (ih.1 r) ]),
    )

pub in_tier-tier_of :
    (retention n : ℕ) (g : SegmentInfo) (gs : List SegmentInfo)
    → IsIn g (in_tier retention n gs)
    → tier_of retention g ≡ n
unfolding in_tier
in_tier-tier_of retention n g [] i = absurd i
in_tier-tier_of retention n g (h ∷ gs) i = elim (Bool-cases (tier_of retention h == n)) [
  | inr other ↦ in_tier-tier_of retention n g gs (rw other at i)
  | inl same ↦ elim (split_in retention n g h gs same i) [
    | inl e ↦ ap (tier_of retention) (sym e) ∙ (ground arith)
    | inr r ↦ in_tier-tier_of retention n g gs r
  ]
]
  where
    split_in :
        (retention n : ℕ) (g h : SegmentInfo) (gs : List SegmentInfo)
        → (tier_of retention h == n) ≡ true
        → IsIn g (in_tier retention n (h ∷ gs))
        → (h ≡ g) ⊎ IsIn g (in_tier retention n gs)
    split_in retention n g h gs same i = rw same at i

pub IsIn-in_tier :
    (retention n : ℕ) (g : SegmentInfo) (gs : List SegmentInfo)
    → IsIn g gs
    → tier_of retention g ≡ n
    → IsIn g (in_tier retention n gs)
unfolding in_tier
IsIn-in_tier retention n g [] i t = absurd i
IsIn-in_tier retention n g (h ∷ gs) (inl e) t =
    let same : (tier_of retention h == n) ≡ true =
      let t' = ap (tier_of retention) e ∙ t in ground arith in
    rw same (inl e)
IsIn-in_tier retention n g (h ∷ gs) (inr r) t =
    let ih = IsIn-in_tier retention n g gs r t in
    elim (Bool-cases (tier_of retention h == n)) [
      | inl same ↦ rw same (inr ih)
      | inr other ↦ rw other ih
    ]

pub tier-tier_of :
    (retention n : ℕ) (g : SegmentInfo) (gs : List SegmentInfo)
    → IsIn g (tier retention n gs)
    → tier_of retention g ≡ n
tier-tier_of retention n g gs i =
    in_tier-tier_of retention n g gs ((IsIn-sort_by_age g (in_tier retention n gs)).0 i)

pub IsIn-tier :
    (retention n : ℕ) (g : SegmentInfo) (gs : List SegmentInfo)
    → IsIn g gs
    → tier_of retention g ≡ n
    → IsIn g (tier retention n gs)
IsIn-tier retention n g gs i t =
    (IsIn-sort_by_age g (in_tier retention n gs)).1 (IsIn-in_tier retention n g gs i t)
