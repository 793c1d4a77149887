-- ===== src/Log/Reclaimer/Order.antt =====
-- The order in which segments go (log/SpaceReclaimer.cpp).
use croniot_iot.Prelude.{
  ℕ, ◌+◌, ◌≡◌, refl, sym, ap, ◌∙◌, inl, inr, Bool, true, false, not, ◌&&◌, List, [], ◌∷◌, ◌++◌,
  append-nil, append_assoc, arith, ltb, leb, if◌then◌else◌, Bool-cases,
}
use croniot_iot.Prelude.Words.{u64}
use croniot_iot.Log.Reclaimer.{SegmentInfo, tier, Chosen, consume, sacrifice}

-- The shortest front of a list of segments whose sizes, with what was free before, reach the target;
-- all of them, if that is not enough.
abbrev pub shortest : ℕ → ℕ → List SegmentInfo → List SegmentInfo
shortest target freed [] = []
shortest target freed (g ∷ gs) =
    if leb target freed then [] else g ∷ shortest target (u64 (freed + g.size_bytes)) gs

abbrev pub freed_by : ℕ → List SegmentInfo → ℕ
freed_by freed [] = freed
freed_by freed (g ∷ gs) = freed_by (u64 (freed + g.size_bytes)) gs

abbrev pub ids_of : List SegmentInfo → List ℕ
ids_of [] = []
ids_of (g ∷ gs) = g.segment_id ∷ ids_of gs

-- The order of sacrifice: what the server has, then Data past its retention, then Logs, and Data
-- within its retention only where space is critical.
abbrev pub plan : ℕ → Bool → List SegmentInfo → List SegmentInfo
plan retention critical segments =
    ((tier retention 1 segments ++ tier retention 2 segments) ++ tier retention 3 segments)
    ++ (if critical then tier retention 4 segments else [])

consume-enough :
    (target : ℕ) (xs : List SegmentInfo) (c : Chosen)
    → leb target c.freed ≡ true
    → consume target xs c ≡ c
unfolding consume
consume-enough target [] c enough = refl
consume-enough target (x ∷ xs) c enough = ground arith

-- `c` behind the choice of a segment.
abbrev choose : SegmentInfo → Chosen → Chosen
choose g c = record { freed = u64 (c.freed + g.size_bytes); ids = c.ids ++ g.segment_id ∷ [] }

consume-append :
    (target : ℕ) (xs ys : List SegmentInfo) (c : Chosen)
    → consume target (xs ++ ys) c ≡ consume target ys (consume target xs c)
unfolding consume
consume-append target [] ys c = refl
consume-append target (x ∷ xs) ys c = elim (Bool-cases (leb target c.freed)) [
  | inl enough ↦ rw enough (sym (consume-enough target ys c enough))
  | inr short ↦ rw short (consume-append target xs ys (choose x c))
]

consume-shortest :
    (target : ℕ) (xs : List SegmentInfo) (c : Chosen)
    → consume target xs c ≡ record {
      freed = freed_by c.freed (shortest target c.freed xs);
      ids = c.ids ++ ids_of (shortest target c.freed xs);
    }
unfolding consume
consume-shortest target [] c = rw (append-nil c.ids)
consume-shortest target (x ∷ xs) c = elim (Bool-cases (leb target c.freed)) [
  | inl enough ↦ rw (enough, append-nil c.ids)
  | inr short ↦
      let rest = shortest target (u64 (c.freed + x.size_bytes)) xs in
      rw short (
        consume-shortest target xs (choose x c)
        ∙ rw (append_assoc c.ids (x.segment_id ∷ []) (ids_of rest)))
]

last_case :
    (target : ℕ) (critical : Bool) (three : Chosen) (ys : List SegmentInfo)
    → (if ltb three.freed target && critical then consume target ys three else three)
      ≡ consume target (if critical then ys else []) three
unfolding consume
last_case target false three ys = ground arith
last_case target true three ys = elim (Bool-cases (ltb three.freed target)) [
  | inl short ↦ rw short
  | inr enough ↦ rw enough (sym (consume-enough target ys three (ground arith)))
]

-- The tiers one after the other are the plan, and the last is asked for only where it is needed.
last_tier :
    (target : ℕ) (critical : Bool) (retention : ℕ) (segments : List SegmentInfo) (start : Chosen)
    → let three = consume target (tier retention 3 segments) (
        consume target
          (tier retention 2 segments)
          (consume target (tier retention 1 segments) start)) in
      (if ltb three.freed target && critical
        then consume target (tier retention 4 segments) three
        else three)
      ≡ consume target (plan retention critical segments) start
last_tier target critical retention segments start =
    let t1 = tier retention 1 segments in
    let t2 = tier retention 2 segments in
    let t3 = tier retention 3 segments in
    let three = consume target t3 (consume target t2 (consume target t1 start)) in
    let all : consume target ((t1 ++ t2) ++ t3) start ≡ three =
      consume-append target (t1 ++ t2) t3 start
      ∙ ap (consume target t3) (consume-append target t1 t2 start) in
    let joined = λ (ys : List SegmentInfo).
      consume-append target ((t1 ++ t2) ++ t3) ys start ∙ ap (consume target ys) all in
    last_case target critical three (tier retention 4 segments)
    ∙ sym (joined (if critical then tier retention 4 segments else []))

-- `reclaim`, behind its tests, chooses the shortest front of the plan that frees enough, and reports
-- whether it is enough.
pub sacrifice-shortest :
    (target : ℕ) (critical : Bool) (retention free : ℕ) (segments : List SegmentInfo)
    → let r = sacrifice target critical retention free segments in
      let chosen = shortest target free (plan retention critical segments) in
      (r.segment_ids_to_delete ≡ ids_of chosen)
      × (r.reached_low_water_mark ≡ leb target (freed_by free chosen))
      × (r.degraded_to_ram_only ≡ not (leb target (freed_by free chosen)))
unfolding sacrifice
sacrifice-shortest target critical retention free segments =
    let start : Chosen = record { freed = free; ids = [] } in
    let whole = consume-shortest target (plan retention critical segments) start in
    let last = last_tier target critical retention segments start ∙ whole in
    (
      ap (λ (c : Chosen). c.ids) last,
      ap (λ (c : Chosen). leb target c.freed) last,
      ap (λ (c : Chosen). not (leb target c.freed)) last,
    )
