-- ===== src/Ota/Blob/Lines.antt =====
-- The lines and fields of a blob (ota/OtaPolicy.cpp).
use croniot_iot.Prelude.{
  ℕ, zero, suc, ◌≤◌, ◌≡◌, refl, true, some, List, [], ◌∷◌, ◌++◌, arith, length, length-append,
  Bytes,
}
use croniot_iot.Ota.Blob.Numbers.{lacks}
use croniot_iot.Ota.Blob.{line_then, split_at, split_lines}

pub split_at-append :
    (c : ℕ) (front back : Bytes)
    → lacks c front ≡ true
    → split_at c (front ++ (c ∷ back)) ≡ some (front, back)
unfolding split_at lacks
split_at-append c [] back h = ground arith
split_at-append c (x ∷ front) back h = ground (arith, split_at-append c front back)

-- Lines, each with its end.
abbrev pub join : List Bytes → Bytes
join [] = []
join (l ∷ ls) = line_then l (join ls)

abbrev pub AllLack : List Bytes → Type 0
AllLack [] = Unit {0}
AllLack (l ∷ ls) = (lacks b'\n' l ≡ true) × AllLack ls

split_lines-line_then :
    (fuel : ℕ) (l rest : Bytes) {ls : List Bytes}
    → lacks b'\n' l ≡ true
    → split_lines fuel rest ≡ some ls
    → split_lines (suc fuel) (line_then l rest) ≡ some (l ∷ ls)
unfolding split_lines
split_lines-line_then fuel [] rest h e = rw (split_at-append b'\n' [] rest h, split_lines, e)
split_lines-line_then fuel (x ∷ l) rest h e =
    rw (split_at-append b'\n' (x ∷ l) rest h, split_lines, e)

pub split_lines-join :
    (fuel : ℕ) (ls : List Bytes)
    → AllLack ls
    → length ls ≤ fuel
    → split_lines fuel (join ls) ≡ some ls
unfolding split_lines
split_lines-join zero [] h enough = refl
split_lines-join (suc fuel) [] h enough = refl
split_lines-join zero (l ∷ ls) h enough = absurd (omega arith)
split_lines-join (suc fuel) (l ∷ ls) h enough =
    split_lines-line_then fuel l (join ls) h.0 (split_lines-join fuel ls h.1 (omega arith))

pub length-join : (ls : List Bytes) → length ls ≤ length (join ls)
length-join [] = omega arith
length-join (l ∷ ls) = omega (arith, length-append l (b'\n' ∷ join ls), length-join ls)
