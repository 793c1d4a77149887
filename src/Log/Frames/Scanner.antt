-- ===== src/Log/Frames/Scanner.antt =====
-- `FrameScanner` (log/FrameCodec.h): the chunks that a file is fed in, and the counts.
pub mod Recover
use mathlib.Core.List.{foldl, flatten}
use croniot_iot.Prelude.{
  ℕ, zero, suc, ◌+◌, ◌-◌, ◌*◌, ◌/◌, ◌%◌, ◌^◌, ◌≤◌, ◌<◌, ◌==◌, ◌≡◌, refl, ap, sym, ◌∙◌, Bool, true,
  false, Option, none, some, List, [], ◌∷◌, ◌++◌, append_assoc, arith, ltb, if◌then◌else◌,
  Bool-cases, inl, inr, length, take, drop, take-append-drop, length-append, length-take,
  length-drop, Bytes,
}
use croniot_iot.Prelude.Words.{u16, u32}
use croniot_iot.Log.Frames.Format.{
  write_length_prefixed, segment, Fits, AllFit, IsCutShort, length-write_length_prefixed,
}
use croniot_iot.Log.Frames.{
  FrameScanner, fresh_scanner, complete_frame, feed_payload, feed_prefix, feed_take, feed_loop,
  feed,
}

-- The scanner as a machine that reads one byte at a time.
abbrev pub scan_byte : FrameScanner → ℕ → FrameScanner
scan_byte s b = if ltb 0 s.payload_remaining then feed_payload s 1 else feed_prefix s b

pub scan : FrameScanner → Bytes → FrameScanner
scan s [] = s
scan s (b ∷ xs) = scan (scan_byte s b) xs

pub scan-append : (xs ys : Bytes) (s : FrameScanner) → scan s (xs ++ ys) ≡ scan (scan s xs) ys
unfolding scan
scan-append [] ys s = refl
scan-append (x ∷ xs) ys s = scan-append xs ys (scan_byte s x)

feed_payload-suc :
    (s : FrameScanner) (n : ℕ)
    → 0 < n
    → suc n ≤ s.payload_remaining
    → feed_payload (feed_payload s 1) n ≡ feed_payload s (suc n)
unfolding feed_payload
feed_payload-suc s n pos fits = ground arith

payload_remaining-feed_payload :
    (s : FrameScanner) (n : ℕ) → (feed_payload s n).payload_remaining ≡ s.payload_remaining - n
unfolding feed_payload
payload_remaining-feed_payload s n = ground arith

-- A piece of a payload, taken at once or byte by byte.
scan-feed_payload :
    (x : ℕ) (xs : Bytes) (s : FrameScanner)
    → suc (length xs) ≤ s.payload_remaining
    → scan s (x ∷ xs) ≡ feed_payload s (suc (length xs))
unfolding scan
scan-feed_payload x [] s fits = ground arith
scan-feed_payload x (y ∷ xs) s fits = ground (
  arith,
  scan-feed_payload y xs (feed_payload s 1),
  payload_remaining-feed_payload s 1,
  feed_payload-suc s (suc (length xs)),
)

pub scan-piece :
    (ys : Bytes) (s : FrameScanner)
    → 0 < length ys
    → length ys ≤ s.payload_remaining
    → scan s ys ≡ feed_payload s (length ys)
scan-piece [] s pos fits = absurd (omega arith)
scan-piece (y ∷ ys) s pos fits = scan-feed_payload y ys s fits

feed_take-bounds :
    (s : FrameScanner) (b : ℕ) (xs : Bytes)
    → ltb 0 s.payload_remaining ≡ true
    → (0 < feed_take s (b ∷ xs))
      × (feed_take s (b ∷ xs) ≤ s.payload_remaining)
      × (feed_take s (b ∷ xs) ≤ suc (length xs))
feed_take-bounds s b xs h = ground arith

scan-feed_prefix :
    (s : FrameScanner) (b : ℕ) (xs : Bytes)
    → ltb 0 s.payload_remaining ≡ false
    → scan s (b ∷ xs) ≡ scan (feed_prefix s b) xs
unfolding scan
scan-feed_prefix s b xs h = rw h

feed_loop-scan :
    (fuel : ℕ) (xs : Bytes) (s : FrameScanner)
    → length xs ≤ fuel
    → feed_loop fuel s xs ≡ some (scan s xs)
unfolding feed_loop
feed_loop-scan zero [] s h = unfold scan in refl
feed_loop-scan (suc fuel) [] s h = unfold scan in refl
feed_loop-scan zero (b ∷ xs) s h = absurd (omega arith)
feed_loop-scan (suc fuel) (b ∷ xs) s h = elim (Bool-cases (ltb 0 s.payload_remaining)) [
  | inr prefix ↦
      rw (prefix, feed_loop)
        (feed_loop-scan fuel xs (feed_prefix s b) (omega arith)
          ∙ ap some (sym (scan-feed_prefix s b xs prefix)))
  | inl payload ↦
      let k = feed_take s (b ∷ xs) in
      let bounds = feed_take-bounds s b xs payload in
      let size : length (take k (b ∷ xs)) ≡ k = omega (arith, length-take k (b ∷ xs)) in
      let piece : scan s (take k (b ∷ xs)) ≡ feed_payload s k =
        scan-piece (take k (b ∷ xs)) s (omega arith) (omega arith) ∙ ap (feed_payload s) size in
      rw (payload, feed_loop)
        (feed_loop-scan fuel (drop k (b ∷ xs)) (feed_payload s k)
            (omega (arith, length-drop k (b ∷ xs)))
          ∙ ap some (
              ap (λ t. scan t (drop k (b ∷ xs))) (sym piece)
              ∙ sym (scan-append (take k (b ∷ xs)) (drop k (b ∷ xs)) s)
              ∙ ap (scan s) (take-append-drop k (b ∷ xs))))
]

feed-scan : (s : FrameScanner) (xs : Bytes) → feed s xs ≡ some (scan s xs)
unfolding feed
feed-scan s xs = feed_loop-scan (length xs) xs s (omega arith)

-- The reading loop of `Journal::recoverOpenSegment`: one chunk after the other.
unfoldable pub feed_all : FrameScanner → List Bytes → Option FrameScanner
unfolding feed
feed_all s [] = some s
feed_all s (chunk ∷ chunks) = elim (feed s chunk) [ none ↦ none | some t ↦ feed_all t chunks ]

pub feed_all-scan :
    (chunks : List Bytes) (s : FrameScanner) → feed_all s chunks ≡ some (scan s (flatten chunks))
unfolding feed_all flatten
feed_all-scan [] s = unfold scan in refl
feed_all-scan (c ∷ cs) s =
    rw (feed-scan s c, feed_all)
      (feed_all-scan cs (scan s c) ∙ ap some (sym (scan-append c (flatten cs) s)))

-- How a file is cut into chunks does not change what the scanner ends with.
pub feed_all-rechunk :
    (s : FrameScanner) (xss yss : List Bytes)
    → flatten xss ≡ flatten yss
    → feed_all s xss ≡ feed_all s yss
feed_all-rechunk s xss yss e =
    feed_all-scan xss s ∙ ap (λ xs. some (scan s xs)) e ∙ sym (feed_all-scan yss s)
