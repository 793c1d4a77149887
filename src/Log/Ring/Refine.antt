-- ===== src/Log/Ring/Refine.antt =====
-- The ring (log/RingBuffer.h) and the queue, with a `size_t` that wraps.
use Prim.Native.Nat.{◌∣◌}
use native.Mathlib.Nat.{mod-mod_of_dvd, mod-lt}
use croniot_iot.Prelude.{
  ℕ, ◌+◌, ◌-◌, ◌%◌, ◌^◌, ◌≤◌, ◌<◌, ◌≡◌, ◌≢◌, refl, ap, ap₂, ◌∙◌, none, some, List, [], ◌∷◌, ◌++◌,
  inl, inr, ltb, if◌then◌else◌, Bool-cases, ltb→lt, ltb→ge, lt→ltb, arith, length, get_elem?, set,
  length-append, length-set, get_elem?-set_self, get_elem?-set_ne,
}
use croniot_iot.Prelude.Words.{u32}
use croniot_iot.Log.Ring.Slots.{slot-ne}
use croniot_iot.Log.Ring.Queue.{Op, put, get, take_front, put_back, lost_by}
use croniot_iot.Log.Ring.Queue
use croniot_iot.Log.Ring.{RingBuffer, push, pop, size, fresh_ring, run}

module _ {ℓ} {A : Type ℓ} (cap : ℕ) where
  -- The items lie in the slots of the positions from `start` on.
  abbrev pub Window : List A → ℕ → List A → Type ℓ
  Window buf start [] = Unit
  Window buf start (x ∷ q) = (get_elem? buf (start % cap) ≡ some x) × Window buf (start + 1) q

  -- The ring holds the items of `q`, the first of which was the `start`th pushed.
  pub record Holds (r : RingBuffer A) (start lost : ℕ) (q : List A) : Type ℓ where
    pub storage : length r.buf ≡ cap
    pub within : length q ≤ cap
    pub read_at : r.read_index ≡ u32 start
    pub write_at : r.write_index ≡ u32 (start + length q)
    pub slots : Window r.buf start q
    pub lost_count : r.dropped ≡ u32 lost

  Window-set :
      (buf : List A) (start p : ℕ) (x : A) (q : List A)
      → start + length q ≤ p
      → p < start + cap
      → Window buf start q
      → Window (set buf (p % cap) x) start q
  Window-set buf start p x [] after near w = w
  Window-set buf start p x (y ∷ q) after near w =
      let d : start + (p - start) ≡ p = omega arith in
      let apart : p % cap ≢ start % cap =
        λ e. slot-ne cap start (p - start) (omega arith) (omega arith) (ap (λ k. k % cap) d ∙ e) in
      (
        get_elem?-set_ne buf x apart ∙ w.0,
        Window-set buf (start + 1) p x q (omega arith) (omega arith) w.1,
      )

  Window-snoc :
      (buf : List A) (start p : ℕ) (x : A) (q : List A)
      → p ≡ start + length q
      → Window buf start q
      → get_elem? buf (p % cap) ≡ some x
      → Window buf start (q ++ x ∷ [])
  Window-snoc buf start p x [] e w h =
      let e' : start ≡ p = omega arith in (ap (λ k. get_elem? buf (k % cap)) e' ∙ h, tt)
  Window-snoc buf start p x (y ∷ q) e w h =
      (w.0, Window-snoc buf (start + 1) p x q (omega arith) w.1 h)

module _ (cap : ℕ) (divides : cap ∣ 2 ^ 32) where
  -- The slot of a wrapped index is that of the index.
  slot_of : (i p : ℕ) → i ≡ u32 p → i % cap ≡ p % cap
  slot_of i p e = rw e (mod-mod_of_dvd cap p divides)

module _ {ℓ} {A : Type ℓ} (cap : ℕ) (pos : 0 < cap) (divides : cap ∣ 2 ^ 32)
    (small : cap ≤ 2 ^ 31) where
  -- The slots after a write at the position behind the last item.
  slots-set :
      (r : RingBuffer A) (start s' : ℕ) (x : A) (q : List A)
      → length r.buf ≡ cap
      → r.write_index ≡ u32 (start + length q)
      → Window cap r.buf start q
      → length q < cap
      → Window cap (set r.buf (r.write_index % cap) x) start (q ++ x ∷ [])
  slots-set r start s' x q storage write w room =
      let p = start + length q in
      rw (slot_of cap divides r.write_index p write) (
        Window-snoc cap (set r.buf (p % cap) x) start p x q refl
          (Window-set cap r.buf start p x q (omega arith) (omega arith) w)
          (get_elem?-set_self r.buf (p % cap) x (omega (arith, mod-lt p pos))))

  push-room :
      (r : RingBuffer A) (start lost : ℕ) (x : A) (q : List A)
      → Holds cap r start lost q
      → length q < cap
      → Holds cap (push cap x r) start lost (q ++ x ∷ [])
  unfolding push
  push-room r start lost x q h room =
      let size : length (q ++ x ∷ []) ≡ length q + 1 = omega (arith, length-append q (x ∷ [])) in
      ground (
        arith,
        size,
        length-set r.buf (r.write_index % cap) x,
        slots-set r start start x q h.storage h.write_at h.slots room,
      )

  push-full :
      (r : RingBuffer A) (start lost : ℕ) (x y : A) (q : List A)
      → Holds cap r start lost (y ∷ q)
      → length (y ∷ q) ≡ cap
      → Holds cap (push cap x r) (start + 1) (lost + 1) (q ++ x ∷ [])
  unfolding push
  push-full r start lost x y q h full =
      let size : length (q ++ x ∷ []) ≡ length q + 1 = omega (arith, length-append q (x ∷ [])) in
      ground (
        arith,
        size,
        length-set r.buf (r.write_index % cap) x,
        slots-set r (start + 1) start x q h.storage (omega (arith, h.write_at)) h.slots.1
            (omega arith),
      )

  -- Where the queue's oldest item is after a `put`.
  abbrev pub moved : ℕ → List A → ℕ
  moved start q = if ltb (length q) cap then start else start + 1

  pub push-Holds :
      (r : RingBuffer A) (start lost : ℕ) (x : A) (q : List A)
      → Holds cap r start lost q
      → Holds cap (push cap x r) (moved start q) (lost + lost_by cap q) (put_back cap x q)
  unfolding put_back
  push-Holds r start lost x [] h =
      let e : lost + 0 ≡ lost = omega arith in
      rw (lt→ltb 0 cap pos, e) (push-room r start lost x [] h pos)
  push-Holds r start lost x (y ∷ q) h = elim (Bool-cases (ltb (length (y ∷ q)) cap)) [
    | inl room ↦ rw room (keep (push-room r start lost x (y ∷ q) h (ltb→lt _ _ room)))
    | inr full ↦
        rw full (
          push-full r start lost x y q h
            (omega (arith, h.within, ltb→ge (length (y ∷ q)) cap full)))
  ]
    where
      keep :
          {t : RingBuffer A} {s : ℕ} {z : List A}
          → Holds cap t s lost z
          → Holds cap t s (lost + 0) z
      keep g = let e : lost + 0 ≡ lost = omega arith in rw e g

  pub pop-Holds :
      (r : RingBuffer A) (start lost : ℕ) (x : A) (q : List A)
      → Holds cap r start lost (x ∷ q)
      → ((pop cap r).0 ≡ some x) × Holds cap (pop cap r).1 (start + 1) lost q
  unfolding pop
  pop-Holds r start lost x q h =
      ground (arith, h.within, slot_of cap divides r.read_index start h.read_at)

  pub pop-Holds_nil :
      (r : RingBuffer A) (start lost : ℕ) → Holds cap r start lost [] → pop cap r ≡ (none, r)
  unfolding pop
  pop-Holds_nil r start lost h = ground (arith, h.read_at, h.write_at)

  -- A `pop` is `take_front`, on any content.
  pop-take_front :
      (r : RingBuffer A) (start lost : ℕ) (q : List A)
      → Holds cap r start lost q
      → (s : ℕ) × ((pop cap r).0 ≡ (take_front q).0)
        × Holds cap (pop cap r).1 s lost (take_front q).1
  unfolding take_front
  pop-take_front r start lost [] h =
      let e = pop-Holds_nil r start lost h in (start, ap (λ t. t.0) e, rw e h)
  pop-take_front r start lost (x ∷ q) h =
      let popped = pop-Holds r start lost x q h in (start + 1, popped.0, popped.1)

  run-Holds :
      (ops : List (Op A)) (r : RingBuffer A) (start lost : ℕ) (q : List A)
      → Holds cap r start lost q
      → ((run cap r ops).0 ≡ (Queue.run cap q lost ops).0)
        × ((run cap r ops).1 ≡ u32 (Queue.run cap q lost ops).1)
  unfolding run Queue.run
  run-Holds [] r start lost q h = (refl, h.lost_count)
  run-Holds (put x ∷ ops) r start lost q h =
      run-Holds ops (push cap x r) (moved start q) (lost + lost_by cap q) (put_back cap x q)
        (push-Holds r start lost x q h)
  run-Holds (get ∷ ops) r start lost q h =
      let (s, out, h') = pop-take_front r start lost q h in
      let rest = run-Holds ops (pop cap r).1 s lost (take_front q).1 h' in
      (ap₂ ◌∷◌ out rest.0, rest.1)

  -- From the constructor on, over an array of `Capacity` items, no sequence of calls tells the ring
  -- from the queue that gives up its oldest item when it is full: every `pop` returns the same, and
  -- `droppedCount` is the number of items given up, modulo 2^32. The capacity divides 2^32 and is at
  -- most 2^31.
  pub run-fresh_ring :
      (buf : List A) (ops : List (Op A))
      → length buf ≡ cap
      → ((run cap (fresh_ring buf) ops).0 ≡ (Queue.run cap [] 0 ops).0)
        × ((run cap (fresh_ring buf) ops).1 ≡ u32 (Queue.run cap [] 0 ops).1)
  run-fresh_ring buf ops e = run-Holds ops (fresh_ring buf) 0 0 [] (record {
    storage = e;
    within = omega arith;
    read_at = refl;
    write_at = refl;
    slots = tt;
    lost_count = refl;
  })

  -- `size` is the number of items, and at most the capacity.
  pub size-Holds :
      (r : RingBuffer A) (start lost : ℕ) (q : List A)
      → Holds cap r start lost q
      → (size r ≡ length q) × (size r ≤ cap)
  unfolding size
  size-Holds r start lost q h = ground (arith, h.read_at, h.write_at, h.within)
