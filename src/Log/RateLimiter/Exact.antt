-- ===== src/Log/RateLimiter/Exact.antt =====
-- The records that the rate limiter (log/RateLimiter.h) pushes, and the lines fed.
use mathlib.Core.Path.{subst}
use croniot_iot.Prelude.{
  ℕ, zero, suc, ◌+◌, ◌-◌, ◌^◌, ◌≤◌, ◌<◌, ◌≡◌, refl, ap, ◌∙◌, sym, true, false, inl, inr, Bool-cases,
  none, List, [], ◌∷◌, ◌++◌, append_assoc, append-nil, arith, ltb, ltb→ge, ◌==◌, if◌then◌else◌,
  length, replicate, Bytes, Bool, ◌&&◌, bytes_eq, bytes_eq_iff,
}
use croniot_iot.Prelude.Words.{u16}
use croniot_iot.Log.Record.{
  Level, LogRecord, level_eq, level_eq_iff, max_tag_len, max_message_len, copy_truncated-of_le,
}
use croniot_iot.Log.RateLimiter.{
  RateLimiter, FeedResult, make_flush_record, is_repeat, feed, flush_pending, Input, line, flush,
  pushed, route,
}

-- What a reader sees of a line.
pub record Content : Type 0 where
  pub level : Level
  pub tag : Bytes
  pub message : Bytes

abbrev pub content : LogRecord → Content
content r = record { level = r.level; tag = r.tag; message = r.message }

-- A record pushed as it came is one line; a summary is as many as it counts.
unfoldable pub run_of : LogRecord → List Content
run_of r = replicate (if r.repeat_count == 0 then 1 else r.repeat_count) (content r)

abbrev pub expand : List LogRecord → List Content
expand [] = []
expand (r ∷ rs) = run_of r ++ expand rs

abbrev pub lines_of : List Input → List Content
lines_of [] = []
lines_of (line r ∷ ins) = content r ∷ lines_of ins
lines_of (flush ∷ ins) = lines_of ins

-- A line as the router builds it: no count, and texts that fit their arrays.
abbrev pub IsLine : LogRecord → Type 0
IsLine r =
    (r.repeat_count ≡ 0) × (length r.tag ≤ max_tag_len) × (length r.message ≤ max_message_len)

abbrev pub AllLines : List Input → Type 0
AllLines [] = Unit {0}
AllLines (line r ∷ ins) = IsLine r × AllLines ins
AllLines (flush ∷ ins) = AllLines ins

abbrev pub last_content : RateLimiter → Content
last_content l = record { level = l.last_level; tag = l.last_tag; message = l.last_message }

-- The lines that were absorbed and not yet reported.
abbrev pub absorbed : RateLimiter → List Content
absorbed l = replicate l.repeat_count (last_content l)

abbrev pub FitsArrays : RateLimiter → Type 0
FitsArrays l = (length l.last_tag ≤ max_tag_len) × (length l.last_message ≤ max_message_len)

expand-append : (xs ys : List LogRecord) → expand (xs ++ ys) ≡ expand xs ++ expand ys
expand-append [] ys = refl
expand-append (x ∷ xs) ys =
    ap (◌++◌ (run_of x)) (expand-append xs ys)
    ∙ sym (append_assoc (run_of x) (expand xs) (expand ys))

content-make_flush_record :
    (l : RateLimiter) → FitsArrays l → content (make_flush_record l) ≡ last_content l
unfolding make_flush_record
content-make_flush_record l h = rw (
  copy_truncated-of_le max_tag_len l.last_tag h.0,
  copy_truncated-of_le max_message_len l.last_message h.1,
)

-- A summary, if there is something to report.
run_of-summary :
    (l : RateLimiter)
    → FitsArrays l
    → ltb 0 l.repeat_count ≡ true
    → run_of (make_flush_record l) ≡ absorbed l
unfolding make_flush_record run_of
run_of-summary l h pos =
    let count : (if l.repeat_count == 0 then 1 else l.repeat_count) ≡ l.repeat_count =
      ground arith in
    rw count (ap (replicate l.repeat_count) (content-make_flush_record l h))

run_of-line : (r : LogRecord) → IsLine r → run_of r ≡ content r ∷ []
unfolding run_of
run_of-line r h = rw h.0

absorbed-nil : (l : RateLimiter) → l.repeat_count ≡ 0 → absorbed l ≡ []
absorbed-nil l e = rw e

replicate-append_cons {ℓ} :
    {A : Type ℓ} (n : ℕ) (a : A) (ys : List A)
    → replicate n a ++ (a ∷ ys) ≡ replicate (suc n) a ++ ys
replicate-append_cons zero a ys = refl
replicate-append_cons (suc n) a ys = ap (◌∷◌ a) (replicate-append_cons n a ys)

-- One step: what it pushes and what it leaves absorbed, before any later lines `rest`.
record Step (l l' : RateLimiter) (out : List LogRecord) (seen : List Content) : Type 0 where
  exact : (rest : List Content) → expand out ++ (absorbed l' ++ rest) ≡ absorbed l ++ (seen ++ rest)
  fits : FitsArrays l'
  grows : l'.repeat_count ≤ l.repeat_count + 1

abbrev out_of : LogRecord → FeedResult → List LogRecord
out_of r f = pushed f.pending_flush ++ (if f.emit_now then r ∷ [] else [])

is_repeat-content :
    (l : RateLimiter) (r : LogRecord) → is_repeat l r ≡ true → last_content l ≡ content r
is_repeat-content l r h = ground (
  arith,
  bytes_eq_iff l.last_tag r.tag,
  bytes_eq_iff l.last_message r.message,
  level_eq_iff l.last_level r.level,
)

feed-repeat :
    (l : RateLimiter) (r : LogRecord)
    → is_repeat l r ≡ true
    → l.repeat_count + 1 < 2 ^ 16
    → FitsArrays l
    → Step l (feed r l).1 (out_of r (feed r l).0) (content r ∷ [])
unfolding feed
feed-repeat l r same room fits =
    let count : u16 (l.repeat_count + 1) ≡ suc l.repeat_count = omega arith in
    rw (same, count)
      (record {
        exact = λ rest.
            rw (is_repeat-content l r same)
              (sym (replicate-append_cons l.repeat_count (content r) rest));
        fits = fits;
        grows = omega arith;
      })

feed-new :
    (l : RateLimiter) (r : LogRecord)
    → is_repeat l r ≡ false
    → IsLine r
    → FitsArrays l
    → Step l (feed r l).1 (out_of r (feed r l).0) (content r ∷ [])
unfolding feed
feed-new l r new is_line fits = elim (Bool-cases (ltb 0 l.repeat_count)) [
  | inl pos ↦
      rw (new, pos)
        (record {
          exact = λ rest.
              rw (run_of-summary l fits pos, run_of-line r is_line)
                (append_assoc (absorbed l) (content r ∷ []) rest);
          fits = (is_line.1, is_line.2);
          grows = omega arith;
        })
  | inr none_yet ↦
      let zero_count : l.repeat_count ≡ 0 = omega (arith, ltb→ge 0 l.repeat_count none_yet) in
      rw (new, none_yet)
        (record {
          exact = λ rest. rw (run_of-line r is_line, zero_count);
          fits = (is_line.1, is_line.2);
          grows = omega arith;
        })
]

flush_pending-Step :
    (l : RateLimiter) → FitsArrays l → Step l (flush_pending l).1 (pushed (flush_pending l).0) []
unfolding flush_pending
flush_pending-Step l fits = elim (Bool-cases (l.repeat_count == 0)) [
  | inl nothing ↦ rw nothing (record { exact = λ rest. refl; fits = fits; grows = omega arith })
  | inr some_absorbed ↦ rw some_absorbed (record {
    exact = λ rest. rw (run_of-summary l fits (ground arith), append-nil);
    fits = fits;
    grows = omega arith;
  })
]

feed-Step :
    (l : RateLimiter) (r : LogRecord)
    → IsLine r
    → l.repeat_count + 1 < 2 ^ 16
    → FitsArrays l
    → Step l (feed r l).1 (out_of r (feed r l).0) (content r ∷ [])
feed-Step l r is_line room fits = elim (Bool-cases (is_repeat l r)) [
  | inl same ↦ feed-repeat l r same room fits
  | inr new ↦ feed-new l r new is_line fits
]

-- A step in front of later output.
Step-then :
    {l l' : RateLimiter} {out : List LogRecord} {seen : List Content}
    → Step l l' out seen
    → (later : List LogRecord) (lines tail : List Content)
    → expand later ++ tail ≡ absorbed l' ++ lines
    → expand (out ++ later) ++ tail ≡ absorbed l ++ (seen ++ lines)
Step-then {out} s later lines tail e = rw (expand-append out later, append_assoc, e) (s.exact lines)

abbrev pub is_same : Content → Content → Bool
is_same c d = bytes_eq c.tag d.tag && (bytes_eq c.message d.message && level_eq c.level d.level)

is_same-eq : (c d : Content) → is_same c d ≡ true → c ≡ d
is_same-eq c d h = ground (
  arith,
  bytes_eq_iff c.tag d.tag,
  bytes_eq_iff c.message d.message,
  level_eq_iff c.level d.level,
)

-- No run of equal lines, with no flush among them, has more repeats than the counter holds; `n` lines
-- have repeated `c` already.
abbrev pub RunsFit : ℕ → Content → List Input → Type 0
RunsFit n c [] = Unit {0}
RunsFit n c (line r ∷ ins) = elim (is_same c (content r)) [
  | true ↦ (n + 1 < 2 ^ 16) × RunsFit (n + 1) c ins
  | false ↦ RunsFit 0 (content r) ins
]
RunsFit n c (flush ∷ ins) = RunsFit 0 c ins

-- Which line the limiter has seen last.
feed-last_same :
    (l : RateLimiter) (r : LogRecord)
    → is_same (last_content l) (content r) ≡ true
    → last_content (feed r l).1 ≡ last_content l
unfolding feed
feed-last_same l r same = elim (Bool-cases (is_repeat l r)) [
  | inl repeats ↦ rw repeats
  | inr new ↦ rw new (sym (is_same-eq (last_content l) (content r) same))
]

is_repeat-other :
    (l : RateLimiter) (r : LogRecord)
    → is_same (last_content l) (content r) ≡ false
    → is_repeat l r ≡ false
is_repeat-other l r other = ground arith

flush_pending-last :
    (l : RateLimiter)
    → (last_content (flush_pending l).1 ≡ last_content l) × ((flush_pending l).1.repeat_count ≡ 0)
unfolding flush_pending
flush_pending-last l = elim (Bool-cases (l.repeat_count == 0)) [
  | inl nothing ↦ rw nothing (refl, ground arith)
  | inr absorbing ↦ rw absorbing (refl, refl)
]

feed-last_other :
    (l : RateLimiter) (r : LogRecord)
    → is_repeat l r ≡ false
    → (last_content (feed r l).1 ≡ content r) × ((feed r l).1.repeat_count ≡ 0)
unfolding feed
feed-last_other l r new = rw new (refl, refl)

route-exact_from :
    (ins : List Input) (l : RateLimiter) (n : ℕ)
    → AllLines ins
    → FitsArrays l
    → l.repeat_count ≤ n
    → RunsFit n (last_content l) ins
    → expand (route l ins).0 ++ absorbed (route l ins).1 ≡ absorbed l ++ lines_of ins
unfolding route bytes_eq
route-exact_from [] l n lines fits count runs = sym (append-nil (absorbed l))
route-exact_from (line r ∷ ins) l n lines fits count runs =
    rw
      (sym (
        append_assoc (pushed (feed r l).0.pending_flush)
          (if (feed r l).0.emit_now then r ∷ [] else []) (route (feed r l).1 ins).0))
      (elim (Bool-cases (is_same (last_content l) (content r))) [
        | inl same ↦
            let runs' : (n + 1 < 2 ^ 16) × RunsFit (n + 1) (last_content l) ins = rw same at runs in
            let s = feed-Step l r lines.0 (omega (arith, runs'.0)) fits in
            Step-then s (route (feed r l).1 ins).0 (lines_of ins)
              (absorbed (route (feed r l).1 ins).1)
              (route-exact_from ins (feed r l).1 (n + 1) lines.1 s.fits (omega (arith, s.grows))
                (subst (λ c. RunsFit (n + 1) c ins) (sym (feed-last_same l r same)) runs'.1))
        | inr other ↦
            let runs' : RunsFit 0 (content r) ins = rw other at runs in
            let new = is_repeat-other l r other in
            let s = feed-new l r new lines.0 fits in
            let last = feed-last_other l r new in
            Step-then s (route (feed r l).1 ins).0 (lines_of ins)
              (absorbed (route (feed r l).1 ins).1)
              (route-exact_from ins (feed r l).1 0 lines.1 s.fits (omega (arith, last.1))
                (subst (λ c. RunsFit 0 c ins) (sym last.0) runs'))
      ])
route-exact_from (flush ∷ ins) l n lines fits count runs =
    let s = flush_pending-Step l fits in
    let last = flush_pending-last l in
    Step-then s (route (flush_pending l).1 ins).0 (lines_of ins)
      (absorbed (route (flush_pending l).1 ins).1)
      (route-exact_from ins (flush_pending l).1 0 lines s.fits (omega (arith, last.1))
        (subst (λ c. RunsFit 0 c ins) (sym last.0) runs))

-- The records pushed, each summary counted as often as it says, are the lines that were absorbed
-- and fed, in order and with none lost or added; what is still absorbed at the end stands behind
-- them. The lines are as the router builds them, and no line repeats 2^16 times or more in a row
-- without a flush; there may be any number of lines.
pub route-exact :
    (ins : List Input) (l : RateLimiter)
    → AllLines ins
    → FitsArrays l
    → RunsFit l.repeat_count (last_content l) ins
    → expand (route l ins).0 ++ absorbed (route l ins).1 ≡ absorbed l ++ lines_of ins
route-exact ins l lines fits runs =
    route-exact_from ins l l.repeat_count lines fits (omega arith) runs

-- The counter has 16 bits: after 2^16 repeats of a line with no flush between them it is 0 again,
-- and nothing is reported of them when another line comes.
pub feed-wrapped :
    (l : RateLimiter) (same other : LogRecord)
    → l.repeat_count ≡ 2 ^ 16 - 1
    → is_repeat l same ≡ true
    → is_repeat l other ≡ false
    → (feed other (feed same l).1).0.pending_flush ≡ none
unfolding feed
feed-wrapped l same other full e new = rw (e, full, new)
