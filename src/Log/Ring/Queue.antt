-- ===== src/Log/Ring/Queue.antt =====
-- The specification: a queue of at most `cap` items that gives up its oldest.
use croniot_iot.Prelude.{
  ℕ, ◌+◌, Option, none, some, List, [], ◌∷◌, ◌++◌, ltb, if◌then◌else◌, length, drop,
}

pub data Op {ℓ} (A : Type ℓ) : Type ℓ where
  put : A → Op A
  get : Op A

module _ {ℓ} {A : Type ℓ} where
  unfoldable pub take_front : List A → Option A × List A
  take_front [] = (none, [])
  take_front (x ∷ q) = (some x, q)

  module _ (cap : ℕ) where
    unfoldable pub put_back : A → List A → List A
    put_back x q = if ltb (length q) cap then q ++ x ∷ [] else drop 1 (q ++ x ∷ [])

    -- The items given up by a `put` on `q`.
    abbrev pub lost_by : List A → ℕ
    lost_by q = if ltb (length q) cap then 0 else 1

    -- What each `get` of a client returns, and the number of items given up, on top of `lost`.
    unfoldable pub run : List A → ℕ → List (Op A) → List (Option A) × ℕ
    run q lost [] = ([], lost)
    run q lost (put x ∷ ops) = run (put_back x q) (lost + lost_by q) ops
    run q lost (get ∷ ops) =
        let (out, q') = take_front q in let (outs, n) = run q' lost ops in (out ∷ outs, n)
