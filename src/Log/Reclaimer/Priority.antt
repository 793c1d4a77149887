-- ===== src/Log/Reclaimer/Priority.antt =====
-- What a segment's choice by `reclaim` (log/SpaceReclaimer.cpp) implies of the others.
use mathlib.Core.Path.{subst}
use croniot_iot.Prelude.{
  ℕ, zero, suc, ◌+◌, ◌≤◌, ◌<◌, ◌≡◌, ◌≢◌, refl, sym, ◌⊎◌, inl, inr, Bool, true, false, List, [], ◌∷◌,
  ◌++◌, append_assoc, arith, leb, if◌then◌else◌, Bool-cases,
}
use croniot_iot.Prelude.Words.{u64}
use croniot_iot.Log.Cursor.{events, data_stream}
use croniot_iot.Log.Reclaimer.{SegmentInfo, tier_of, tier}
use croniot_iot.Log.Reclaimer.Order.{shortest, plan}
use croniot_iot.Log.Reclaimer.Members.{
  IsIn, IsIn-append, IsIn-append_right, tier-tier_of, IsIn-tier,
}

-- What is chosen stands in the plan.
IsIn-shortest :
    (target freed : ℕ) (g : SegmentInfo) (xs : List SegmentInfo)
    → IsIn g (shortest target freed xs)
    → IsIn g xs
IsIn-shortest target freed g [] i = i
IsIn-shortest target freed g (x ∷ xs) i = elim (Bool-cases (leb target freed)) [
  | inl enough ↦ absurd (let i' = rw enough at i in i')
  | inr short ↦ elim (chosen_front short) [
    | inl e ↦ inl e
    | inr r ↦ inr (IsIn-shortest target (u64 (freed + x.size_bytes)) g xs r)
  ]
]
  where
    chosen_front :
        leb target freed ≡ false
        → (x ≡ g) ⊎ IsIn g (shortest target (u64 (freed + x.size_bytes)) xs)
    chosen_front short = rw short at i

-- If a segment behind a part of the plan is chosen, all of that part is.
chosen_before :
    (target freed : ℕ) (g h : SegmentInfo) (xs ys : List SegmentInfo)
    → IsIn h (shortest target freed (xs ++ ys))
    → (IsIn h xs) ⊎ (IsIn g xs → IsIn g (shortest target freed (xs ++ ys)))
chosen_before target freed g h [] ys i = inr (λ j. absurd j)
chosen_before target freed g h (x ∷ xs) ys i = elim (Bool-cases (leb target freed)) [
  | inl enough ↦ absurd (let i' = rw enough at i in i')
  | inr short ↦ elim (chosen_front short) [
    | inl e ↦ inl (inl e)
    | inr r ↦ elim (chosen_before target (u64 (freed + x.size_bytes)) g h xs ys r) [
      | inl j ↦ inl (inr j)
      | inr all ↦ inr (λ j. rw short (elim j [ inl e ↦ inl e | inr k ↦ inr (all k) ]))
    ]
  ]
]
  where
    chosen_front :
        leb target freed ≡ false
        → (x ≡ h) ⊎ IsIn h (shortest target (u64 (freed + x.size_bytes)) (xs ++ ys))
    chosen_front short = rw short at i

-- The part of the plan up to a tier, and the rest.
record IsCutAt (retention : ℕ) (critical : Bool) (n : ℕ) (gs : List SegmentInfo) : Type 0 where
  front : List SegmentInfo
  rest : List SegmentInfo
  whole : plan retention critical gs ≡ front ++ rest
  whole_tier : (g : SegmentInfo) → IsIn g (tier retention n gs) → IsIn g front
  low : (g : SegmentInfo) → IsIn g front → tier_of retention g ≤ n

module _ (retention : ℕ) (critical : Bool) (gs : List SegmentInfo) where
  abbrev last_tier : List SegmentInfo
  last_tier = if critical then tier retention 4 gs else []

  cut_one : IsCutAt retention critical 1 gs
  cut_one = record {
    front = tier retention 1 gs;
    rest = (tier retention 2 gs ++ tier retention 3 gs) ++ last_tier;
    whole = simp append_assoc;
    whole_tier = λ g i. i;
    low = λ g i. omega (arith, tier-tier_of retention 1 g gs i);
  }

  low_two :
      (g : SegmentInfo)
      → IsIn g (tier retention 1 gs ++ tier retention 2 gs)
      → tier_of retention g ≤ 2
  low_two g i = elim (IsIn-append g (tier retention 1 gs) (tier retention 2 gs) i) [
    | inl a ↦ omega (arith, tier-tier_of retention 1 g gs a)
    | inr b ↦ omega (arith, tier-tier_of retention 2 g gs b)
  ]

  cut_two : IsCutAt retention critical 2 gs
  cut_two = record {
    front = tier retention 1 gs ++ tier retention 2 gs;
    rest = tier retention 3 gs ++ last_tier;
    whole =
        append_assoc (tier retention 1 gs ++ tier retention 2 gs) (tier retention 3 gs) last_tier;
    whole_tier = λ g i. IsIn-append_right g (tier retention 1 gs) (tier retention 2 gs) i;
    low = low_two;
  }

  cut_three : IsCutAt retention critical 3 gs
  cut_three = record {
    front = (tier retention 1 gs ++ tier retention 2 gs) ++ tier retention 3 gs;
    rest = last_tier;
    whole = refl;
    whole_tier = λ g i.
        IsIn-append_right g (tier retention 1 gs ++ tier retention 2 gs) (tier retention 3 gs) i;
    low = λ g i.
        elim (IsIn-append g (tier retention 1 gs ++ tier retention 2 gs) (tier retention 3 gs) i) [
          | inl a ↦ omega (arith, low_two g a)
          | inr b ↦ omega (arith, tier-tier_of retention 3 g gs b)
        ];
  }

  cut_at : (n : ℕ) → 0 < n → n < 4 → IsCutAt retention critical n gs
  cut_at (suc zero) pos low = cut_one
  cut_at (suc (suc zero)) pos low = cut_two
  cut_at (suc (suc (suc zero))) pos low = cut_three
  cut_at zero pos low = absurd (omega arith)
  cut_at (suc (suc (suc (suc n)))) pos low = absurd (omega arith)

tier_of-le : (retention : ℕ) (g : SegmentInfo) → tier_of retention g ≤ 4
unfolding tier_of
tier_of-le retention g = ground arith

-- No segment is chosen to go while one of an earlier tier is kept: what the server has goes first,
-- then Data past its retention, then Logs, then the rest of Data.
pub shortest-plan-tier_of :
    (target free retention : ℕ) (critical : Bool) (gs : List SegmentInfo) (g h : SegmentInfo)
    → IsIn g gs
    → 0 < tier_of retention g
    → tier_of retention g < tier_of retention h
    → IsIn h (shortest target free (plan retention critical gs))
    → IsIn g (shortest target free (plan retention critical gs))
shortest-plan-tier_of target free retention critical gs g h here some_tier earlier chosen =
    let n = tier_of retention g in
    let cut = cut_at retention critical gs n some_tier (omega (arith, tier_of-le retention h)) in
    let i : IsIn h (shortest target free (cut.front ++ cut.rest)) =
      subst (λ xs. IsIn h (shortest target free xs)) cut.whole chosen in
    elim (chosen_before target free g h cut.front cut.rest i) [
      | inl j ↦ absurd (omega (arith, cut.low h j))
      | inr all ↦
          subst (λ xs. IsIn g (shortest target free xs)) (sym cut.whole)
            (all (cut.whole_tier g (IsIn-tier retention n g gs here refl)))
    ]

plan-tier_of :
    (retention : ℕ) (critical : Bool) (gs : List SegmentInfo) (g : SegmentInfo)
    → IsIn g (plan retention critical gs)
    → (0 < tier_of retention g) × ((tier_of retention g ≡ 4) → critical ≡ true)
plan-tier_of retention critical gs g i =
    let t1 = tier retention 1 gs in
    let t2 = tier retention 2 gs in
    let t3 = tier retention 3 gs in
    elim (IsIn-append g ((t1 ++ t2) ++ t3) (last_tier retention critical gs) i) [
      | inr last ↦ in_last critical last
      | inl early ↦ elim (IsIn-append g (t1 ++ t2) t3 early) [
        | inr c ↦ of_tier 2 (tier-tier_of retention 3 g gs c) (omega arith)
        | inl ab ↦ elim (IsIn-append g t1 t2 ab) [
          | inl a ↦ of_tier 0 (tier-tier_of retention 1 g gs a) (omega arith)
          | inr b ↦ of_tier 1 (tier-tier_of retention 2 g gs b) (omega arith)
        ]
      ]
    ]
  where
    of_tier :
        (n : ℕ)
        → tier_of retention g ≡ suc n
        → suc n < 4
        → (0 < tier_of retention g) × (tier_of retention g ≡ 4 → critical ≡ true)
    of_tier n e low = (omega arith, λ f. absurd (omega (arith, f)))

    in_last :
        (critical' : Bool)
        → IsIn g (if critical' then tier retention 4 gs else [])
        → (0 < tier_of retention g) × (tier_of retention g ≡ 4 → critical' ≡ true)
    in_last true j = (omega (arith, tier-tier_of retention 4 g gs j), λ f. refl)
    in_last false j = absurd j

tier_of-events :
    (retention : ℕ) (g : SegmentInfo)
    → g.fully_acked ≡ false
    → g.stream ≡ events
    → tier_of retention g ≡ 0
unfolding tier_of
tier_of-events retention g unacked e = ground arith

tier_of-young :
    (retention : ℕ) (g : SegmentInfo)
    → g.fully_acked ≡ false
    → g.stream ≡ data_stream
    → g.age_seconds ≤ retention
    → tier_of retention g ≡ 4
unfolding tier_of
tier_of-young retention g unacked e young = ground arith

-- A segment is chosen to go only if the server has it, or it holds no events; and one of Data within
-- its retention that the server lacks only where space is critical.
pub shortest-plan-spared :
    (target free retention : ℕ) (critical : Bool) (gs : List SegmentInfo) (g : SegmentInfo)
    → IsIn g (shortest target free (plan retention critical gs))
    → g.fully_acked ≡ false
    → (g.stream ≢ events) × (g.stream ≡ data_stream → g.age_seconds ≤ retention → critical ≡ true)
shortest-plan-spared target free retention critical gs g i unacked =
    let known =
      plan-tier_of retention critical gs g
        (IsIn-shortest target free g (plan retention critical gs) i) in
    (
      λ e. absurd (omega (arith, known.0, tier_of-events retention g unacked e)),
      λ e young. known.1 (tier_of-young retention g unacked e young),
    )
