-- ===== src/Log/Journal/Read/Fronts.antt =====
-- Fronts of a segment file, as `readFrom` (log/Journal.cpp) has them in its buffer.
use mathlib.Core.Path.{subst}
use croniot_iot.Prelude.{
  ℕ, zero, suc, ◌==◌, ◌≡◌, refl, sym, ap, ◌∙◌, ◌⊎◌, inl, inr, false, List, [], ◌∷◌, ◌++◌,
  append-nil, append_assoc, arith, length, take, drop, length-append, Bytes,
}
use croniot_iot.Log.Frames.Format.{segment, write_length_prefixed, Fits, AllFit, IsCutShort}

-- Bytes from a segment's front are whole frames and the beginning of the next one.
pub record IsFront (ps : List Bytes) (buf rest : Bytes) : Type 0 where
  pub whole : List Bytes
  pub later : List Bytes
  pub tail : Bytes
  pub frames : ps ≡ whole ++ later
  pub form : buf ≡ segment whole ++ tail
  pub cut : IsCutShort tail
  pub follows : tail ++ rest ≡ segment later

-- A proper front of a frame is cut short.
pub front_of_frame :
    (p buf more : Bytes)
    → Fits p
    → write_length_prefixed p ≡ buf ++ more
    → (IsCutShort buf) ⊎ (more ≡ [])
unfolding write_length_prefixed
front_of_frame p [] more fits e = inl tt
front_of_frame p (a ∷ []) more fits e = inl tt
front_of_frame p (a ∷ b ∷ rest) [] fits e = inr refl
front_of_frame p (a ∷ b ∷ rest) (m ∷ more) fits e =
    let size = ap length e in inl (ground (arith, e, length-append rest (m ∷ more)))

-- Two ways to cut the same list.
pub append-split :
    (xs ys us vs : Bytes)
    → xs ++ ys ≡ us ++ vs
    → ((m : Bytes) × (xs ≡ us ++ m) × (m ++ ys ≡ vs))
      ⊎ ((m : Bytes) × (us ≡ xs ++ m) × (ys ≡ m ++ vs))
append-split xs ys [] vs e = inl (xs, refl, e)
append-split [] ys (u ∷ us) vs e = inr (u ∷ us, refl, e)
append-split (x ∷ xs) ys (u ∷ us) vs e = elim (append-split xs ys us vs (cc e)) [
  | inl (m, l, r) ↦ inl (m, (let h : x ≡ u = cc e in rw (h, l)), r)
  | inr (m, l, r) ↦ inr (m, (let h : x ≡ u = cc e in rw (h, l)), r)
]

pub IsFront-skip :
    (p : Bytes) (ps : List Bytes) (buf rest : Bytes)
    → IsFront ps buf rest
    → IsFront (p ∷ ps) (write_length_prefixed p ++ buf) rest
IsFront-skip p ps buf rest f = record {
  whole = p ∷ f.whole;
  later = f.later;
  tail = f.tail;
  frames = ap (◌∷◌ p) f.frames;
  form =
      ap (◌++◌ (write_length_prefixed p)) f.form
      ∙ sym (append_assoc (write_length_prefixed p) (segment f.whole) f.tail);
  cut = f.cut;
  follows = f.follows;
}

pub whole_front : (xs buf : Bytes) → xs ≡ buf ++ [] → buf ≡ (xs ++ []) ++ []
whole_front xs buf e =
    sym (append-nil buf) ∙ sym e ∙ sym (append-nil xs) ∙ sym (append-nil (xs ++ []))

pub front :
    (ps : List Bytes) (buf rest : Bytes)
    → AllFit ps
    → buf ++ rest ≡ segment ps
    → IsFront ps buf rest
front [] [] rest fit e = record {
  whole = [];
  later = [];
  tail = [];
  frames = refl;
  form = refl;
  cut = tt;
  follows = e;
}
front [] (b ∷ buf) rest fit e = cc e
front (p ∷ ps) buf rest fit e =
    elim (append-split buf rest (write_length_prefixed p) (segment ps) e) [
      | inl (m, l, r) ↦ rw l (IsFront-skip p ps m rest (front ps m rest fit.1 r))
      | inr (m, l, r) ↦ elim (front_of_frame p buf m fit.0 l) [
        | inl cut ↦ record {
          whole = [];
          later = p ∷ ps;
          tail = buf;
          frames = refl;
          form = refl;
          cut = cut;
          follows = e;
        }
        | inr none_left ↦ record {
          whole = p ∷ [];
          later = ps;
          tail = [];
          frames = refl;
          form = whole_front (write_length_prefixed p) buf (l ∙ ap (◌++◌ buf) none_left);
          cut = tt;
          follows = r ∙ ap (λ xs. xs ++ segment ps) none_left;
        }
      ]
    ]

pub ap_AllFit : {ps qs : List Bytes} → ps ≡ qs → AllFit ps → AllFit qs
ap_AllFit e fit = subst AllFit e fit

pub AllFit-front : (ps qs : List Bytes) → AllFit (ps ++ qs) → AllFit ps
AllFit-front [] qs fit = tt
AllFit-front (p ∷ ps) qs fit = (fit.0, AllFit-front ps qs fit.1)

pub AllFit-back : (ps qs : List Bytes) → AllFit (ps ++ qs) → AllFit qs
AllFit-back [] qs fit = fit
AllFit-back (p ∷ ps) qs fit = AllFit-back ps qs fit.1

-- A whole frame is not cut short.
pub segment-cut_short : (ps : List Bytes) → AllFit ps → IsCutShort (segment ps) → ps ≡ []
unfolding write_length_prefixed
segment-cut_short [] fit cut = refl
segment-cut_short (p ∷ ps) fit cut =
    absurd (omega (arith, fit.0, cut, length-append p (segment ps)))

pub short_chunk : (n : ℕ) (rest : Bytes) → (length (take n rest) == n) ≡ false → drop n rest ≡ []
short_chunk zero rest short = cc short
short_chunk (suc n) [] short = refl
short_chunk (suc n) (x ∷ xs) short = short_chunk n xs (ground arith)

pub all_read :
    (later : List Bytes) (tail rest : Bytes)
    → AllFit later
    → IsCutShort tail
    → tail ++ rest ≡ segment later
    → rest ≡ []
    → later ≡ []
all_read later tail rest fit cut follows ended =
    let same : tail ≡ segment later =
      sym (append-nil tail) ∙ ap (◌++◌ tail) (sym ended) ∙ follows in
    segment-cut_short later fit (subst IsCutShort same cut)
