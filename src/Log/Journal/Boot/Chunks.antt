-- ===== src/Log/Journal/Boot/Chunks.antt =====
-- A file that is read by `fread` into a buffer, chunk by chunk.
use mathlib.Core.List.{flatten}
use croniot_iot.Prelude.{
  ℕ, zero, suc, ◌≤◌, ◌<◌, ◌≡◌, refl, ap, ◌∙◌, List, [], ◌∷◌, ◌++◌, arith, length, take, drop,
  length-drop, take-append-drop, Bytes,
}

-- `while ((got = fread(chunk, 1, sizeof(chunk), file)) > 0)`: what each round gets. A round for each
-- unit of fuel.
unfoldable pub read_chunks : ℕ → ℕ → Bytes → List Bytes
read_chunks fuel size [] = []
read_chunks zero size (c ∷ cs) = []
read_chunks (suc fuel) size (c ∷ cs) =
    take size (c ∷ cs) ∷ read_chunks fuel size (drop size (c ∷ cs))

pub flatten-read_chunks :
    (fuel size : ℕ) (file : Bytes)
    → 0 < size
    → length file ≤ fuel
    → flatten (read_chunks fuel size file) ≡ file
unfolding read_chunks flatten
flatten-read_chunks zero size [] pos enough = refl
flatten-read_chunks (suc fuel) size [] pos enough = refl
flatten-read_chunks zero size (c ∷ cs) pos enough = absurd (omega arith)
flatten-read_chunks (suc fuel) size (c ∷ cs) pos enough =
    ap (◌++◌ (take size (c ∷ cs))) (
      flatten-read_chunks fuel size (drop size (c ∷ cs)) pos
        (omega (arith, length-drop size (c ∷ cs))))
    ∙ take-append-drop size (c ∷ cs)
