-- ===== src/Json/Object/Ends.antt =====
-- The loop over the fields of an object: its end, and what its rounds keep.
use mathlib.Core.Path.{subst}
use croniot_iot.Prelude.{
  ℕ, zero, suc, ◌≤◌, ◌<◌, ◌≡◌, ◌≢◌, refl, Bool, true, false, Option, none, some, arith, ◌==◌,
  length, Bytes, Bool-cases, Option-cases, inl, inr,
}
use croniot_iot.Json.{Scanner, scanner_on, consume, peek, parse_string}
use croniot_iot.Json.Progress.{length-trim_front, length-parse_string, length-consume, length-peek}
use croniot_iot.Json.Object.{
  Parsed, out_of_fuel, refused, parsed, FieldReader, field_behind, field_fine, field_named,
  read_field, read_fields, closed, opened, read_object,
}

module _ {F : Type 0} (reader : FieldReader F) where
  length-consumed : (c : ℕ) (s : Scanner) → length (consume c s).1.rest ≤ length s.rest
  unfolding consume
  length-consumed c s = ground (arith, length-trim_front s.rest)

  field_behind-left :
      (key : Bytes) (f : F) (n : ℕ) (f' : F) (s' : Scanner) (found : Bool) (s : Scanner)
      → (found ≡ true → length s.rest < n)
      → field_behind reader key f (found, s) ≡ some (f', s')
      → length s'.rest < n
  field_behind-left key f n f' s' true s h e = omega (arith, reader.shrinks key f s f' s' e, h refl)
  field_behind-left key f n f' s' false s h e = ground arith

  field_fine-left :
      (key : Bytes) (f f' : F) (s' s : Scanner) (ok : Bool)
      → field_fine reader key f s ok ≡ some (f', s')
      → length s'.rest < length s.rest
  field_fine-left key f f' s' s true e =
      field_behind-left key f (length s.rest) f' s' (consume b':' s).0 (consume b':' s).1
        (length-consume b':' s) e
  field_fine-left key f f' s' s false e = absurd (ground arith)

  field_named-left :
      (f : F) (n : ℕ) (f' : F) (s' : Scanner) (key : Option Bytes) (s : Scanner)
      → length s.rest ≤ n
      → field_named reader f (key, s) ≡ some (f', s')
      → length s'.rest < n
  field_named-left f n f' s' none s h e = absurd (ground arith)
  field_named-left f n f' s' (some key) s h e = omega (arith, field_fine-left key f f' s' s s.ok e)

  length-read_field :
      (f : F) (s : Scanner) (f' : F) (s' : Scanner)
      → read_field reader f s ≡ some (f', s')
      → length s'.rest < length s.rest
  unfolding read_field
  length-read_field f s f' s' e =
      field_named-left f (length s.rest) f' s' (parse_string s).0 (parse_string s).1
        (length-parse_string s) e

  read_fields-total :
      (fuel : ℕ) (f : F) (s : Scanner)
      → length s.rest < fuel
      → read_fields reader fuel f s ≢ out_of_fuel
  unfolding read_fields
  read_fields-total zero f s h = absurd (omega arith)
  read_fields-total (suc fuel) f s h = elim (Option-cases (read_field reader f s)) [
    | inl e ↦ rw (e, read_fields) (λ q. ground arith)
    | inr ((f', s'), e) ↦
        let next = (consume b',' (peek s').1).1 in
        let less = length-read_field f s f' s' e in
        elim (Bool-cases ((peek s').0 == b',')) [
          | inl more ↦
              rw (e, read_fields, more)
                (read_fields-total fuel f' next
                  (omega (arith, less, length-consumed b',' (peek s').1, length-peek s')))
          | inr last ↦ rw (e, read_fields, last) (λ q. ground arith)
        ]
  ]

  closed-total : (r : Parsed (F × Scanner)) → r ≢ out_of_fuel → closed reader r ≢ out_of_fuel
  closed-total out_of_fuel h = λ e. h refl
  closed-total refused h = λ e. ground arith
  closed-total (parsed (f, s)) h = λ e. ground arith

  opened-total : (f : F) (found : Bool) (s : Scanner) → opened reader f (found, s) ≢ out_of_fuel
  opened-total f false s = λ e. ground arith
  opened-total f true s = elim (Bool-cases ((peek s).0 == b'}')) [
    | inl empty ↦ rw empty (closed-total (parsed (f, (peek s).1)) (λ e. ground arith))
    | inr more ↦ rw more (
        closed-total (read_fields reader (suc (length (peek s).1.rest)) f (peek s).1)
          (read_fields-total (suc (length (peek s).1.rest)) f (peek s).1 (omega arith)))
  ]

  -- Every text is read or refused: the loop ends.
  pub read_object-total : (f : F) (json : Bytes) → read_object reader f json ≢ out_of_fuel
  unfolding read_object
  read_object-total f json =
      opened-total f (consume b'{' (scanner_on json)).0 (consume b'{' (scanner_on json)).1

  module _ (P : F → Type 0)
      (keeps : (key : Bytes) (f : F) (s : Scanner) (f' : F) (s' : Scanner)
        → reader.read key f s ≡ some (f', s')
        → P f
        → P f') where
    field_behind-keeps :
        (key : Bytes) (f f' : F) (s' : Scanner) (found : Bool) (s : Scanner)
        → field_behind reader key f (found, s) ≡ some (f', s')
        → P f
        → P f'
    field_behind-keeps key f f' s' true s e p = keeps key f s f' s' e p
    field_behind-keeps key f f' s' false s e p = absurd (ground arith)

    field_fine-keeps :
        (key : Bytes) (f f' : F) (s' s : Scanner) (ok : Bool)
        → field_fine reader key f s ok ≡ some (f', s')
        → P f
        → P f'
    field_fine-keeps key f f' s' s true e p =
        field_behind-keeps key f f' s' (consume b':' s).0 (consume b':' s).1 e p
    field_fine-keeps key f f' s' s false e p = absurd (ground arith)

    field_named-keeps :
        (f f' : F) (s' : Scanner) (key : Option Bytes) (s : Scanner)
        → field_named reader f (key, s) ≡ some (f', s')
        → P f
        → P f'
    field_named-keeps f f' s' none s e p = absurd (ground arith)
    field_named-keeps f f' s' (some key) s e p = field_fine-keeps key f f' s' s s.ok e p

    read_field-keeps :
        (f : F) (s : Scanner) (f' : F) (s' : Scanner)
        → read_field reader f s ≡ some (f', s')
        → P f
        → P f'
    unfolding read_field
    read_field-keeps f s f' s' e p =
        field_named-keeps f f' s' (parse_string s).0 (parse_string s).1 e p

    read_fields-keeps :
        (fuel : ℕ) (f : F) (s : Scanner) (f' : F) (s' : Scanner)
        → read_fields reader fuel f s ≡ parsed (f', s')
        → P f
        → P f'
    unfolding read_fields
    read_fields-keeps zero f s f' s' e p = absurd (ground arith)
    read_fields-keeps (suc fuel) f s f' s' e p = elim (Option-cases (read_field reader f s)) [
      | inl none' ↦ absurd (let q = rw (none', read_fields) at e in ground arith)
      | inr ((g, t), e') ↦
          let p' = read_field-keeps f s g t e' p in
          elim (Bool-cases ((peek t).0 == b',')) [
            | inl more ↦
                read_fields-keeps fuel g (consume b',' (peek t).1).1 f' s'
                  (rw (e', read_fields, more) at e) p'
            | inr last ↦
                let q = rw (e', read_fields, last) at e in
                let same : g ≡ f' = ground arith in subst P same p'
          ]
    ]

    closed-keeps :
        (r : Parsed (F × Scanner)) (f' : F)
        → ((g : F) (t : Scanner) → r ≡ parsed (g, t) → P g)
        → closed reader r ≡ parsed f'
        → P f'
    closed-keeps out_of_fuel f' h e = absurd (ground arith)
    closed-keeps refused f' h e = absurd (ground arith)
    closed-keeps (parsed (g, t)) f' h e =
        let same : g ≡ f' = ground arith in subst P same (h g t refl)

    opened-keeps :
        (f f' : F) (found : Bool) (s : Scanner)
        → opened reader f (found, s) ≡ parsed f'
        → P f
        → P f'
    opened-keeps f f' false s e p = absurd (ground arith)
    opened-keeps f f' true s e p = elim (Bool-cases ((peek s).0 == b'}')) [
      | inl empty ↦
          closed-keeps (parsed (f, (peek s).1)) f'
            (λ g t q. let same : f ≡ g = ground arith in subst P same p) (rw empty at e)
      | inr more ↦
          let t = (peek s).1 in
          closed-keeps (read_fields reader (suc (length t.rest)) f t) f'
            (λ g u q. read_fields-keeps (suc (length t.rest)) f t g u q p) (rw more at e)
    ]

    -- What the reading of every field keeps, the reading of the object keeps.
    pub read_object-keeps :
        (f : F) (json : Bytes) (f' : F) → read_object reader f json ≡ parsed f' → P f → P f'
    unfolding read_object
    read_object-keeps f json f' e p =
        opened-keeps f f' (consume b'{' (scanner_on json)).0 (consume b'{' (scanner_on json)).1 e p
