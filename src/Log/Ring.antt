-- ===== src/Log/Ring.antt =====
-- components/croniot/src/log/RingBuffer.h and NoinitRing.{h,cpp}: the queue in front of the journal
-- that never blocks, and its twin in memory that survives a reset. `Capacity` is the parameter `cap`.
pub mod Queue
pub mod Noinit
pub mod Slots
pub mod Refine
use croniot_iot.Prelude.{
  ℕ, ◌+◌, ◌%◌, Bool, true, false, Option, none, List, [], ◌∷◌, ltb, ◌==◌, if◌then◌else◌, get_elem?,
  set,
}
use Queue.{Op, put, get}
use croniot_iot.Prelude.Words.{u32, sub_u32}

-- `RingBuffer<T, Capacity>`: `size_t` indices that grow for ever and wrap at 2^32.
pub record RingBuffer {ℓ} (A : Type ℓ) : Type ℓ where
  pub buf : List A
  pub write_index : ℕ
  pub read_index : ℕ
  pub dropped : ℕ

module _ {ℓ} {A : Type ℓ} (cap : ℕ) where
  -- A full ring moves its read cursor past the slot that was just overwritten.
  abbrev evict : RingBuffer A → RingBuffer A
  evict r =
      if ltb cap (sub_u32 r.write_index r.read_index)
      then record r { read_index = sub_u32 r.write_index cap; dropped = u32 (r.dropped + 1) }
      else r

  -- `push`.
  unfoldable pub push : A → RingBuffer A → RingBuffer A
  push x r =
      evict (record r {
        buf = set r.buf (r.write_index % cap) x;
        write_index = u32 (r.write_index + 1);
      })

  -- `pop`; a read out of range of the array gives `none`.
  unfoldable pub pop : RingBuffer A → Option A × RingBuffer A
  pop r =
      if r.read_index == r.write_index
      then (none, r)
      else (get_elem? r.buf (r.read_index % cap), record r { read_index = u32 (r.read_index + 1) })

module _ {ℓ} {A : Type ℓ} where
  -- `empty`.
  unfoldable pub empty : RingBuffer A → Bool
  empty r = r.read_index == r.write_index

  -- `size`.
  unfoldable pub size : RingBuffer A → ℕ
  size r = sub_u32 r.write_index r.read_index

  -- The constructor, over the array of `T`s.
  abbrev pub fresh_ring : List A → RingBuffer A
  fresh_ring buf = record { buf = buf; write_index = 0; read_index = 0; dropped = 0 }

module _ {ℓ} {A : Type ℓ} (cap : ℕ) where
  -- A client's calls in order: what each `pop` returns, and `droppedCount` at the end.
  unfoldable pub run : RingBuffer A → List (Op A) → List (Option A) × ℕ
  run r [] = ([], r.dropped)
  run r (put x ∷ ops) = run (push cap x r) ops
  run r (get ∷ ops) = let (out, r') = pop cap r in let (outs, n) = run r' ops in (out ∷ outs, n)
