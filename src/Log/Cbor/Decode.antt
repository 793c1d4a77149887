-- ===== src/Log/Cbor/Decode.antt =====
-- A decoder by RFC 8949, and what it reads of the writer's bytes.
use croniot_iot.Prelude.{
  ℕ, zero, suc, ◌+◌, ◌*◌, ◌/◌, ◌%◌, ◌^◌, ◌≤◌, ◌<◌, ◌≡◌, refl, ap, sym, ◌∙◌, true, Option, none,
  some, [], ◌∷◌, ◌++◌, append_assoc, append-nil, arith, ltb, leb, ◌==◌, ◌&&◌, if◌then◌else◌, length,
  take, drop, length-append, take-append_self, drop-append_self, Bytes, Bool-cases, inl, inr,
  ltb→lt, leb→le,
}
use croniot_iot.Log.Record.{Level, LogRecord, level_code}
use croniot_iot.Log.Cbor.{append_big_endian, write_type_and_length, write_string, encode_log_record}

-- A number of `n` bytes, the most significant first, on top of `acc`.
unfoldable pub read_be : ℕ → ℕ → Bytes → Option (ℕ × Bytes)
read_be zero acc bs = some (acc, bs)
read_be (suc n) acc [] = none
read_be (suc n) acc (b ∷ bs) = read_be n (acc * 256 + b) bs

abbrev with_major : ℕ → Option (ℕ × Bytes) → Option (ℕ × ℕ × Bytes)
with_major m none = none
with_major m (some (n, bs)) = some (m, n, bs)

abbrev argument : ℕ → Bytes → Option (ℕ × Bytes)
argument info bs =
    if ltb info 24
    then some (info, bs)
    else if info == 24
    then read_be 1 0 bs
    else if info == 25
    then read_be 2 0 bs
    else if info == 26
    then read_be 4 0 bs
    else if info == 27
    then read_be 8 0 bs
    else none

-- The head of a data item: its major type, in the upper three bits, and its argument.
unfoldable pub read_head : Bytes → Option (ℕ × ℕ × Bytes)
unfolding read_be
read_head [] = none
read_head (b ∷ bs) = with_major (b / 32 * 32) (argument (b % 32) bs)

-- Big-endian bytes, without a buffer in front.
be : ℕ → ℕ → Bytes
be value zero = []
be value (suc i) = (value / 2 ^ (8 * i) % 256) ∷ be value i

append_big_endian-be :
    (value i : ℕ) (buf : Bytes) → append_big_endian value i buf ≡ buf ++ be value i
unfolding append_big_endian be
append_big_endian-be value zero buf = sym (append-nil buf)
append_big_endian-be value (suc i) buf = rw (append_big_endian-be value i, append_assoc)

read_two : (v : ℕ) (rest : Bytes) → v < 2 ^ 16 → read_be 2 0 (be v 2 ++ rest) ≡ some (v, rest)
unfolding read_be be
read_two v rest h = ap (λ n. some (n, rest)) (omega arith)

read_four : (v : ℕ) (rest : Bytes) → v < 2 ^ 32 → read_be 4 0 (be v 4 ++ rest) ≡ some (v, rest)
unfolding read_be be
read_four v rest h = ap (λ n. some (n, rest)) (omega arith)

read_eight : (v : ℕ) (rest : Bytes) → v < 2 ^ 64 → read_be 8 0 (be v 8 ++ rest) ≡ some (v, rest)
unfolding read_be be
read_eight v rest h = ap (λ n. some (n, rest)) (omega arith)

read_one : (v : ℕ) (rest : Bytes) → read_be 1 0 (v ∷ rest) ≡ some (v, rest)
unfolding read_be
read_one v rest = ap (λ n. some (n, rest)) (omega arith)

-- A head is appended as it would be written into an empty buffer.
write_type_and_length-append :
    (major n : ℕ) (buf : Bytes)
    → write_type_and_length major n buf ≡ buf ++ write_type_and_length major n []
unfolding write_type_and_length be
write_type_and_length-append major n buf = elim (Bool-cases (ltb n 24)) [
  | inl tiny ↦ rw tiny
  | inr b0 ↦ elim (Bool-cases (leb n 0xFF)) [
    | inl byte ↦ rw (b0, byte)
    | inr b1 ↦ elim (Bool-cases (leb n 0xFFFF)) [
      | inl half ↦ rw (b0, b1, half, append_big_endian-be n 2, append_assoc)
      | inr b2 ↦ elim (Bool-cases (leb n 0xFFFFFFFF)) [
        | inl word ↦ rw (b0, b1, b2, word, append_big_endian-be n 4, append_assoc)
        | inr wide ↦ rw (b0, b1, b2, wide, append_big_endian-be n 8, append_assoc)
      ]
    ]
  ]
]

read_head-cons :
    (major info : ℕ) (bs : Bytes)
    → major % 32 ≡ 0
    → info < 32
    → read_head ((major + info) ∷ bs) ≡ with_major major (argument info bs)
unfolding read_head
read_head-cons major info bs m small =
    let upper : (major + info) / 32 * 32 ≡ major = omega arith in
    let lower : (major + info) % 32 ≡ info = omega arith in rw (upper, lower)

-- A head is read back, whatever stands behind it. `major` is a major type in the upper three bits.
read_head-write :
    (major n : ℕ) (rest : Bytes)
    → major % 32 ≡ 0
    → n < 2 ^ 64
    → read_head (write_type_and_length major n [] ++ rest) ≡ some (major, n, rest)
unfolding write_type_and_length be
read_head-write major n rest m h = elim (Bool-cases (ltb n 24)) [
  | inl tiny ↦
      let arg : argument n rest ≡ some (n, rest) = rw tiny in
      rw tiny (
        read_head-cons major n rest m (omega (arith, ltb→lt n 24 tiny)) ∙ ap (with_major major) arg)
  | inr b0 ↦ elim (Bool-cases (leb n 0xFF)) [
    | inl byte ↦
        rw (b0, byte)
          (read_head-cons major 24 (n ∷ rest) m (omega arith)
            ∙ ap (with_major major) (read_one n rest))
    | inr b1 ↦ elim (Bool-cases (leb n 0xFFFF)) [
      | inl half ↦
          rw (b0, b1, half)
            (read_head-cons major 25 (be n 2 ++ rest) m (omega arith)
              ∙ ap (with_major major) (read_two n rest (omega (arith, leb→le n 0xFFFF half))))
      | inr b2 ↦ elim (Bool-cases (leb n 0xFFFFFFFF)) [
        | inl word ↦
            rw (b0, b1, b2, word)
              (read_head-cons major 26 (be n 4 ++ rest) m (omega arith)
                ∙ ap (with_major major)
                    (read_four n rest (omega (arith, leb→le n 0xFFFFFFFF word))))
        | inr wide ↦
            rw (b0, b1, b2, wide)
              (read_head-cons major 27 (be n 8 ++ rest) m (omega arith)
                ∙ ap (with_major major) (read_eight n rest h))
      ]
    ]
  ]
]

abbrev and_then {ℓ ℓ'} :
    {A : Type ℓ} {B : Type ℓ'} → Option (A × Bytes) → (A → Bytes → Option B) → Option B
and_then none f = none
and_then (some (a, bs)) f = f a bs

abbrev unsigned_of : Option (ℕ × ℕ × Bytes) → Option (ℕ × Bytes)
unsigned_of none = none
unsigned_of (some (major, n, bs)) = if major == 0x00 then some (n, bs) else none

abbrev text_of : Option (ℕ × ℕ × Bytes) → Option (Bytes × Bytes)
text_of none = none
text_of (some (major, n, bs)) =
    if (major == 0x60) && leb n (length bs) then some (take n bs, drop n bs) else none

abbrev array_of : ℕ → Option (ℕ × ℕ × Bytes) → Option (Unit {0} × Bytes)
array_of size none = none
array_of size (some (major, n, bs)) = if (major == 0x80) && (n == size) then some (tt, bs) else none

-- A record by its wire shape, [seq, uptime_ms, level, tag, msg], and what stands behind it.
unfoldable pub decode_log_record : Bytes → Option ((ℕ × ℕ × ℕ × Bytes × Bytes) × Bytes)
unfolding read_head
decode_log_record bs = and_then (array_of 5 (read_head bs)) (λ _ bs.
    and_then (unsigned_of (read_head bs)) (λ seq bs.
      and_then (unsigned_of (read_head bs)) (λ uptime bs.
        and_then (unsigned_of (read_head bs)) (λ level bs.
          and_then (text_of (read_head bs)) (λ tag bs.
            and_then (text_of (read_head bs))
              (λ message bs. some ((seq, uptime, level, tag, message), bs)))))))

abbrev head : ℕ → ℕ → Bytes
head major n = write_type_and_length major n []

write_head-append :
    (major n : ℕ) (buf t : Bytes)
    → write_type_and_length major n buf ++ t ≡ buf ++ (head major n ++ t)
write_head-append major n buf t =
    ap (λ b. b ++ t) (write_type_and_length-append major n buf) ∙ append_assoc buf (head major n) t

write_string-append :
    (v buf t : Bytes) → write_string v buf ++ t ≡ buf ++ (head 0x60 (length v) ++ (v ++ t))
write_string-append v buf t =
    append_assoc (write_type_and_length 0x60 (length v) buf) v t
    ∙ write_head-append 0x60 (length v) buf (v ++ t)

unsigned_of-head :
    (n : ℕ) (t : Bytes) → n < 2 ^ 64 → unsigned_of (read_head (head 0x00 n ++ t)) ≡ some (n, t)
unsigned_of-head n t h = ap unsigned_of (read_head-write 0x00 n t (omega arith) h)

text_of-head :
    (v t : Bytes)
    → length v < 2 ^ 64
    → text_of (read_head (head 0x60 (length v) ++ (v ++ t))) ≡ some (v, t)
text_of-head v t h =
    let fits : leb (length v) (length (v ++ t)) ≡ true = ground (arith, length-append v t) in
    ap text_of (read_head-write 0x60 (length v) (v ++ t) (omega arith) h)
    ∙ rw (fits, take-append_self v t, drop-append_self v t) refl

array_of-head : (t : Bytes) → array_of 5 (read_head (head 0x80 5 ++ t)) ≡ some (tt, t)
array_of-head t = ap (array_of 5) (read_head-write 0x80 5 t (omega arith) (omega arith))

-- The bytes of a record, with what stands behind them.
encode_log_record-append :
    (r : LogRecord) (rest : Bytes)
    → encode_log_record r ++ rest
      ≡ head 0x80 5
        ++ (head 0x00 r.seq
            ++ (head 0x00 r.uptime_ms
                ++ (head 0x00 (level_code r.level)
                    ++ (head 0x60 (length r.tag)
                        ++ (r.tag ++ (head 0x60 (length r.message) ++ (r.message ++ rest)))))))
unfolding encode_log_record
encode_log_record-append r rest =
    write_string-append r.message _ rest
    ∙ write_string-append r.tag _ _
    ∙ write_head-append 0x00 (level_code r.level) _ _
    ∙ write_head-append 0x00 r.uptime_ms _ _
    ∙ write_head-append 0x00 r.seq (head 0x80 5) _

level_code-lt : (l : Level) → level_code l < 2 ^ 64
level_code-lt l = ground arith

-- A log record is read back from its bytes, by a decoder of the standard and whatever stands behind
-- it: the records of a batch need no more between them. Its numbers fit their words, and its texts
-- the arrays.
pub decode_log_record-encode_log_record :
    (r : LogRecord) (rest : Bytes)
    → r.seq < 2 ^ 32
    → r.uptime_ms < 2 ^ 64
    → length r.tag ≤ 15
    → length r.message ≤ 200
    → decode_log_record (encode_log_record r ++ rest)
      ≡ some ((r.seq, r.uptime_ms, level_code r.level, r.tag, r.message), rest)
unfolding decode_log_record
decode_log_record-encode_log_record r rest s u t m =
    let texts = head 0x60 (length r.message) ++ (r.message ++ rest) in
    let after_level = head 0x60 (length r.tag) ++ (r.tag ++ texts) in
    let after_uptime = head 0x00 (level_code r.level) ++ after_level in
    let after_seq = head 0x00 r.uptime_ms ++ after_uptime in
    rw
      (
        encode_log_record-append r rest,
        array_of-head (head 0x00 r.seq ++ after_seq),
        unsigned_of-head r.seq after_seq (omega arith),
        unsigned_of-head r.uptime_ms after_uptime u,
        unsigned_of-head (level_code r.level) after_level (level_code-lt r.level),
        text_of-head r.tag texts (omega arith),
        text_of-head r.message rest (omega arith),
      )
      refl
