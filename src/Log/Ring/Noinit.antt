-- ===== src/Log/Ring/Noinit.antt =====
-- components/croniot/src/log/NoinitRing.{h,cpp}: the ring that a reset leaves in place. The critical
-- sections make each operation one step. `esp_crc32_le` is the parameter `crc32`, over the bytes of
-- a word; `records[]` is not covered by the header's checksum.
use croniot_iot.Prelude.{
  ℕ, ◌+◌, ◌/◌, ◌%◌, ◌≡◌, refl, Bool, true, ◌&&◌, Option, none, ◌⊎◌, List, [], ◌∷◌, arith, ltb, ◌==◌,
  if◌then◌else◌, get_elem?, set, Bytes, Bool-cases, inl, inr,
}
use croniot_iot.Prelude.Words.{u32, sub_u32}
use croniot_iot.Log.Ring.Queue.{Op, put, get}
use croniot_iot.Log.Ring.{RingBuffer, push, pop, size, fresh_ring}
use croniot_iot.Log.Ring

-- `NoinitRingHeader`.
pub record Header : Type 0 where
  pub magic : ℕ
  pub version : ℕ
  pub crc : ℕ
  pub write_index : ℕ
  pub read_index : ℕ
  pub dropped : ℕ

pub data Event {ℓ} (A : Type ℓ) : Type ℓ where
  call : Op A → Event A
  reset : Event A

-- The calls among them.
abbrev pub calls {ℓ} : {A : Type ℓ} → List (Event A) → List (Op A)
calls [] = []
calls (call op ∷ evs) = op ∷ calls evs
calls (reset ∷ evs) = calls evs

-- `g_header` and `g_records`.
pub record NoinitRing {ℓ} (A : Type ℓ) : Type ℓ where
  pub header : Header
  pub records : List A

-- The ring without its header's seal.
abbrev pub plain {ℓ} : {A : Type ℓ} → NoinitRing A → RingBuffer A
plain r = record {
  buf = r.records;
  write_index = r.header.write_index;
  read_index = r.header.read_index;
  dropped = r.header.dropped;
}

abbrev pub ring_magic : ℕ
ring_magic = 0x474F4C43

abbrev pub ring_version : ℕ
ring_version = 1

-- The eviction in `push`.
abbrev evict_header : ℕ → Header → Header
evict_header cap h =
    if ltb cap (sub_u32 h.write_index h.read_index)
    then record h { read_index = sub_u32 h.write_index cap; dropped = u32 (h.dropped + 1) }
    else h

-- The bytes of a `uint32_t` in memory.
abbrev word_bytes : ℕ → Bytes
word_bytes n = (n % 256) ∷ (n / 256 % 256) ∷ (n / 65536 % 256) ∷ (n / 16777216 % 256) ∷ []

module _ (crc32 : ℕ → Bytes → ℕ) where
  -- `headerCrc`.
  unfoldable pub header_crc : Header → ℕ
  header_crc h =
      let c = crc32 0 (word_bytes h.magic) in
      let c = crc32 c (word_bytes h.version) in
      let c = crc32 c (word_bytes h.write_index) in
      let c = crc32 c (word_bytes h.read_index) in crc32 c (word_bytes h.dropped)

  -- `crc32 = headerCrc(g_header)`, the last step of every change.
  abbrev pub seal : Header → Header
  seal h = record h { crc = header_crc h }

  -- `resetHeaderLocked`.
  abbrev pub reset_header : Header
  reset_header = seal (record {
    magic = ring_magic;
    version = ring_version;
    crc = 0;
    write_index = 0;
    read_index = 0;
    dropped = 0;
  })

  -- `valid` in `init`.
  abbrev pub is_valid : Header → Bool
  is_valid h = h.magic == ring_magic && (h.version == ring_version && h.crc == header_crc h)

  module _ {ℓ} {A : Type ℓ} where
    -- `init`.
    unfoldable pub init : NoinitRing A → NoinitRing A
    init r = if is_valid r.header then r else record r { header = reset_header }

    module _ (cap : ℕ) where
      -- `push`.
      unfoldable pub push_record : A → NoinitRing A → NoinitRing A
      push_record x r = record {
        records = set r.records (r.header.write_index % cap) x;
        header =
            seal
              (evict_header cap (record r.header { write_index = u32 (r.header.write_index + 1) }));
      }

      -- `pop`.
      unfoldable pub pop_record : NoinitRing A → Option A × NoinitRing A
      pop_record r = if r.header.read_index == r.header.write_index then (none, r) else (
        get_elem? r.records (r.header.read_index % cap),
        record r { header = seal (record r.header { read_index = u32 (r.header.read_index + 1) }) },
      )

      -- A client's calls and the resets between them, after each of which `init` runs: what each
      -- `pop` returns, and `droppedCount` at the end.
      unfoldable pub run_events : NoinitRing A → List (Event A) → List (Option A) × ℕ
      unfolding init push_record pop_record
      run_events r [] = ([], r.header.dropped)
      run_events r (reset ∷ evs) = run_events (init r) evs
      run_events r (call (put x) ∷ evs) = run_events (push_record x r) evs
      run_events r (call get ∷ evs) =
          let (out, r') = pop_record r in let (outs, n) = run_events r' evs in (out ∷ outs, n)

  is_valid-reset_header : is_valid reset_header ≡ true
  unfolding header_crc
  is_valid-reset_header = ground arith

  module _ {ℓ} {A : Type ℓ} where
    -- After a reset of any kind `init` leaves a valid header: with the ring as it was, or empty if
    -- the memory did not keep one.
    pub is_valid-init :
        (r : NoinitRing A)
        → (is_valid (init r).header ≡ true)
          × ((init r ≡ r) ⊎ (plain (init r) ≡ fresh_ring r.records))
    unfolding init
    is_valid-init r = elim (Bool-cases (is_valid r.header)) [
      | inl kept ↦ rw kept (kept, inl refl)
      | inr lost ↦ rw lost (is_valid-reset_header, inr refl)
    ]

  module _ {ℓ} {A : Type ℓ} (cap : ℕ) where
    is_valid-push_record :
        (x : A) (r : NoinitRing A)
        → is_valid r.header ≡ true
        → is_valid (push_record cap x r).header ≡ true
    unfolding push_record header_crc
    is_valid-push_record x r h = ground arith

    is_valid-pop_record :
        (r : NoinitRing A) → is_valid r.header ≡ true → is_valid (pop_record cap r).1.header ≡ true
    unfolding pop_record header_crc
    is_valid-pop_record r h = ground arith

    plain-push_record :
        (x : A) (r : NoinitRing A) → plain (push_record cap x r) ≡ push cap x (plain r)
    unfolding push_record push
    plain-push_record x r = ground arith

    plain-pop_record :
        (r : NoinitRing A)
        → ((pop_record cap r).0 ≡ (pop cap (plain r)).0)
          × (plain (pop_record cap r).1 ≡ (pop cap (plain r)).1)
    unfolding pop_record pop
    plain-pop_record r = ground arith

    init-of_valid : (r : NoinitRing A) → is_valid r.header ≡ true → init r ≡ r
    unfolding init
    init-of_valid r h = rw h

    -- Once its header is valid, the ring in `.noinit` memory is the ring buffer: resets between the
    -- calls lose no record, repeat none, and change no result.
    pub run_events-run :
        (evs : List (Event A)) (r : NoinitRing A)
        → is_valid r.header ≡ true
        → run_events cap r evs ≡ Ring.run cap (plain r) (calls evs)
    unfolding run_events Ring.run
    run_events-run [] r h = refl
    run_events-run (reset ∷ evs) r h = rw (init-of_valid r h) (run_events-run evs r h)
    run_events-run (call (put x) ∷ evs) r h = rw (
      run_events-run evs (push_record cap x r) (is_valid-push_record x r h),
      plain-push_record x r,
    )
    run_events-run (call get ∷ evs) r h =
        let popped = plain-pop_record r in
        rw (run_events-run evs (pop_record cap r).1 (is_valid-pop_record r h), popped.0, popped.1)
