-- ===== src/Log/Journal/Files/Names.antt =====
-- `parseSegmentId` (log/SegmentFiles.h) and the names of `Journal::segmentPath`.
use croniot_iot.Prelude.{
  ℕ, zero, suc, ◌+◌, ◌-◌, ◌*◌, ◌/◌, ◌%◌, ◌≤◌, ◌<◌, ◌≡◌, refl, ap, ◌∙◌, ◌⊎◌, inl, inr, Bool, true,
  false, none, some, [], ◌∷◌, ◌++◌, append_assoc, arith, ltb, ◌==◌, if◌then◌else◌, Bool-cases,
  Option-cases, length, length-append, replicate, codes, Bytes, bytes_eq, bytes_eq_iff,
}
use croniot_iot.Prelude.Chars.{is_digit}
use croniot_iot.Log.Journal.Files.{
  decimal_digits, pad_zeros, segment_name, skip_prefix, uint32_max, parse_id, parse_segment_id,
}

abbrev pub AreDigits : Bytes → Type 0
AreDigits [] = Unit {0}
AreDigits (c ∷ cs) = (is_digit c ≡ true) × AreDigits cs

-- The number that digits state, behind one that was read.
abbrev pub value : ℕ → Bytes → ℕ
value acc [] = acc
value acc (c ∷ cs) = value (acc * 10 + (c - b'0')) cs

value-append : (acc : ℕ) (xs ys : Bytes) → value acc (xs ++ ys) ≡ value (value acc xs) ys
value-append acc [] ys = refl
value-append acc (x ∷ xs) ys = value-append (acc * 10 + (x - b'0')) xs ys

pub value-le : (acc : ℕ) (ds : Bytes) → acc ≤ value acc ds
value-le acc [] = omega arith
value-le acc (c ∷ cs) = omega (arith, value-le (acc * 10 + (c - b'0')) cs)

AreDigits-append : (xs ys : Bytes) → AreDigits xs → AreDigits ys → AreDigits (xs ++ ys)
AreDigits-append [] ys a b = b
AreDigits-append (x ∷ xs) ys a b = (a.0, AreDigits-append xs ys a.1 b)

AreDigits-replicate : (n : ℕ) → AreDigits (replicate n b'0')
AreDigits-replicate zero = tt
AreDigits-replicate (suc n) = (refl, AreDigits-replicate n)

value-replicate : (n : ℕ) → value 0 (replicate n b'0') ≡ 0
value-replicate zero = refl
value-replicate (suc n) = value-replicate n

last_digit : (n : ℕ) → is_digit (b'0' + n % 10) ≡ true
last_digit n = ground arith

pub decimal_digits-AreDigits : (fuel n : ℕ) → AreDigits (decimal_digits fuel n)
unfolding decimal_digits
decimal_digits-AreDigits zero n = tt
decimal_digits-AreDigits (suc fuel) n = elim (Bool-cases (ltb n 10)) [
  | inl one ↦ rw one (last_digit n, tt)
  | inr more ↦ rw more (
      AreDigits-append (decimal_digits fuel (n / 10)) _ (decimal_digits-AreDigits fuel (n / 10))
        (last_digit n, tt))
]

pub value-decimal_digits : (fuel n : ℕ) → n < fuel → value 0 (decimal_digits fuel n) ≡ n
unfolding decimal_digits
value-decimal_digits zero n h = absurd (omega arith)
value-decimal_digits (suc fuel) n h = elim (Bool-cases (ltb n 10)) [
  | inl one ↦ rw one (ground arith)
  | inr more ↦
      rw (more, value-append 0 (decimal_digits fuel (n / 10)) ((b'0' + n % 10) ∷ []))
        (rw (value-decimal_digits fuel (n / 10) (ground arith)) (omega arith))
]

pub decimal_digits-suc :
    (fuel n : ℕ) → (c : ℕ) × (cs : Bytes) × (decimal_digits (suc fuel) n ≡ c ∷ cs)
unfolding decimal_digits
decimal_digits-suc fuel n = elim (Bool-cases (ltb n 10)) [
  | inl one ↦ (b'0' + n % 10, [], rw one)
  | inr more ↦ rw more (first_of (decimal_digits fuel (n / 10)) (b'0' + n % 10))
]
  where
    first_of :
        (xs : Bytes) (d : ℕ) → (c : ℕ) × (cs : Bytes) × (◌≡◌ {A = Bytes} (xs ++ d ∷ []) (c ∷ cs))
    first_of [] d = (d, [], refl)
    first_of (x ∷ xs) d = (x, xs ++ d ∷ [], refl)

skip_prefix-append : (prefix rest : Bytes) → skip_prefix prefix (prefix ++ b'_' ∷ rest) ≡ some rest
unfolding skip_prefix
skip_prefix-append [] rest = refl
skip_prefix-append (p ∷ prefix) rest =
    let same : (p == p) ≡ true = ground arith in
    rw (same, skip_prefix) (skip_prefix-append prefix rest)

skip_prefix-eq-some :
    (prefix name rest : Bytes) → skip_prefix prefix name ≡ some rest → name ≡ prefix ++ b'_' ∷ rest
unfolding skip_prefix
skip_prefix-eq-some [] [] rest e = cc
skip_prefix-eq-some [] (c ∷ name) rest e = ground arith
skip_prefix-eq-some (p ∷ prefix) [] rest e = cc
skip_prefix-eq-some (p ∷ prefix) (c ∷ name) rest e =
    ground (arith, skip_prefix-eq-some prefix name rest)

-- Digits, with one read before or among them, and the extension.
parse_id-digits :
    (acc : ℕ) (seen : Bool) (ds : Bytes)
    → AreDigits ds
    → (seen ≡ true) ⊎ (0 < length ds)
    → value acc ds ≤ uint32_max
    → parse_id acc seen (ds ++ codes ".cbor") ≡ some (value acc ds)
unfolding parse_id bytes_eq
parse_id-digits acc seen [] a (inl old) le = rw old
parse_id-digits acc seen [] a (inr some_digit) le = absurd (omega arith)
parse_id-digits acc seen (c ∷ cs) a s le =
    let grows = value-le (acc * 10 + (c - b'0')) cs in
    let fits : ltb uint32_max (acc * 10 + (c - b'0')) ≡ false = ground arith in
    rw (a.0, parse_id)
      (rw (fits, parse_id) (parse_id-digits (acc * 10 + (c - b'0')) true cs a.1 (inl refl) le))

-- What a name has to be for its number to be `id`.
pub record IsSegmentName (prefix name : Bytes) (id : ℕ) : Type 0 where
  pub digits : Bytes
  pub form : name ≡ prefix ++ b'_' ∷ (digits ++ codes ".cbor")
  pub some_digit : 0 < length digits
  pub all_digits : AreDigits digits
  pub states : value 0 digits ≡ id
  pub fits : id ≤ uint32_max

record IsParsed (acc : ℕ) (seen : Bool) (rest : Bytes) (id : ℕ) : Type 0 where
  digits : Bytes
  form : rest ≡ digits ++ codes ".cbor"
  some_digit : (seen ≡ true) ⊎ (0 < length digits)
  all_digits : AreDigits digits
  states : value acc digits ≡ id
  fits : id ≤ uint32_max

IsParsed-digit :
    (acc c : ℕ) (seen : Bool) {cs : Bytes} {id : ℕ}
    → is_digit c ≡ true
    → IsParsed (acc * 10 + (c - b'0')) true cs id
    → IsParsed acc seen (c ∷ cs) id
IsParsed-digit acc c seen d h = record {
  digits = c ∷ h.digits;
  form = ap (◌∷◌ c) h.form;
  some_digit = inr (omega arith);
  all_digits = (d, h.all_digits);
  states = h.states;
  fits = h.fits;
}

parse_end :
    (acc c : ℕ) (seen : Bool) (cs : Bytes) {id : ℕ}
    → acc ≤ uint32_max
    → (if seen then (if bytes_eq (c ∷ cs) (codes ".cbor") then some acc else none) else none)
      ≡ some id
    → IsParsed acc seen (c ∷ cs) id
parse_end acc c false cs small e = cc
parse_end acc c true cs {id} small e = elim (Bool-cases (bytes_eq (c ∷ cs) (codes ".cbor"))) [
  | inr other ↦ let e' = rw other at e in cc e'
  | inl extension ↦
      let e' = rw extension at e in
      record {
        digits = [];
        form = (bytes_eq_iff (c ∷ cs) (codes ".cbor")).0 extension;
        some_digit = inl refl;
        all_digits = tt;
        states = cc e';
        fits = let same : acc ≡ id = cc e' in omega arith;
      }
]

parse_id-eq-some :
    (acc : ℕ) (seen : Bool) (rest : Bytes) {id : ℕ}
    → acc ≤ uint32_max
    → parse_id acc seen rest ≡ some id
    → IsParsed acc seen rest id
unfolding parse_id
parse_id-eq-some acc seen [] small e = cc
parse_id-eq-some acc seen (c ∷ cs) small e = elim (Bool-cases (is_digit c)) [
  | inr other ↦ parse_end acc c seen cs small (rw (other, parse_id) at e)
  | inl d ↦ elim (Bool-cases (ltb uint32_max (acc * 10 + (c - b'0')))) [
    | inl large ↦ let e' = rw (d, large, parse_id) at e in cc e'
    | inr fits ↦ IsParsed-digit acc c seen d (
        parse_id-eq-some (acc * 10 + (c - b'0')) true cs (ground arith)
          (rw (d, fits, parse_id) at e))
  ]
]

-- A name is taken for the segment `id` of the stream exactly when it is the stream's prefix, an
-- underscore, digits that state `id`, at least one and at most 2^32 - 1 in all, and `.cbor`; every
-- other name is refused.
pub parse_segment_id_iff :
    (name prefix : Bytes) (id : ℕ)
    → ((parse_segment_id name prefix ≡ some id) → IsSegmentName prefix name id)
      × (IsSegmentName prefix name id → parse_segment_id name prefix ≡ some id)
unfolding parse_segment_id
parse_segment_id_iff name prefix id = (
  λ e. elim (Option-cases (skip_prefix prefix name)) [
    | inl other ↦ let e' = rw (other, parse_segment_id) at e in cc e'
    | inr (rest, behind) ↦
        let p = parse_id-eq-some 0 false rest (omega arith) (rw (behind, parse_segment_id) at e) in
        record {
          digits = p.digits;
          form =
              skip_prefix-eq-some prefix name rest behind
              ∙ ap (λ (r : Bytes). prefix ++ b'_' ∷ r) p.form;
          some_digit = ground (arith, p.some_digit);
          all_digits = p.all_digits;
          states = p.states;
          fits = p.fits;
        }
  ],
  λ h.
      rw (h.form, skip_prefix-append prefix (h.digits ++ codes ".cbor"))
        (parse_id-digits 0 false h.digits h.all_digits (inr h.some_digit)
            (omega (arith, h.states, h.fits))
          ∙ ap some h.states),
)

-- The file that `segmentPath` names for a segment is recognised as that segment's.
pub parse_segment_id-segment_name :
    (prefix : Bytes) (id : ℕ)
    → id ≤ uint32_max
    → parse_segment_id (segment_name prefix id) prefix ≡ some id
unfolding segment_name
parse_segment_id-segment_name prefix id fits =
    let digits = decimal_digits (suc id) id in
    (parse_segment_id_iff (segment_name prefix id) prefix id).1 (record {
      digits = pad_zeros digits;
      form = simp append_assoc;
      some_digit =
          let (c, cs, e) = decimal_digits-suc id id in
          omega (arith, length-append (replicate (5 - length digits) b'0') digits, ap length e);
      all_digits =
          AreDigits-append (replicate (5 - length digits) b'0') digits
            (AreDigits-replicate (5 - length digits)) (decimal_digits-AreDigits (suc id) id);
      states =
          value-append 0 (replicate (5 - length digits) b'0') digits
          ∙ rw (value-replicate (5 - length digits))
              (value-decimal_digits (suc id) id (omega arith));
      fits = fits;
    })
