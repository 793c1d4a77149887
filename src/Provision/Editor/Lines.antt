-- ===== src/Provision/Editor/Lines.antt =====
-- Lines typed and taken back.
use croniot_iot.Prelude.{
  ℕ, ◌+◌, ◌≤◌, ◌<◌, ◌≡◌, ◌⊎◌, refl, ap, Bool, true, false, not, ◌&&◌, List, [], ◌∷◌, ◌++◌, arith,
  leb, ◌==◌, is_empty, length, length-append, append_assoc, append-nil, Bytes,
}
use croniot_iot.Provision.Dialog.{crlf}
use croniot_iot.Provision.Editor.{LineEditor, erase, feed_key, feed, feed_keys}

-- A character that a key types: no control character, and not the erase key.
abbrev pub is_typed : ℕ → Bool
is_typed c = leb 0x20 c && not (c == 0x7f)

abbrev pub all_typed : Bytes → Bool
all_typed [] = true
all_typed (c ∷ cs) = is_typed c && all_typed cs

-- A line that the editor can hold.
abbrev pub AllFit : List Bytes → Type 0
AllFit [] = Unit {0}
AllFit (l ∷ ls) = (all_typed l ≡ true) × (length l ≤ 128) × AllFit ls

abbrev pub keys_of : List Bytes → Bytes
keys_of [] = []
keys_of (l ∷ ls) = l ++ (13 ∷ 10 ∷ keys_of ls)

typed_key :
    (c : ℕ) (cs : Bytes) (e : LineEditor)
    → is_typed c ≡ true
    → length e.line_ < 128
    → feed_keys (c ∷ cs) e
      ≡ feed_keys cs (record e { line_ = e.line_ ++ c ∷ []; last_was_cr = false })
unfolding feed_keys feed feed_key
typed_key c cs e h room = ground arith

typed_keys :
    (l rest : Bytes) (e : LineEditor)
    → all_typed l ≡ true
    → length e.line_ + length l ≤ 128
    → feed_keys (l ++ 13 ∷ rest) e
      ≡ feed_keys (13 ∷ rest) (record e { line_ = e.line_ ++ l; last_was_cr = false })
typed_keys [] rest e h room = unfold feed_keys feed in rw (append-nil e.line_)
typed_keys (c ∷ l) rest e h room =
    rw (typed_key c (l ++ 13 ∷ rest) e (ground arith) (omega arith)) (
      rw (
        typed_keys l rest (record e { line_ = e.line_ ++ c ∷ []; last_was_cr = false })
            (ground arith) (omega (arith, length-append e.line_ (c ∷ []))),
        append_assoc,
      ))

-- The lines that a monitor sends come out as they were typed, one for each, whatever the state of
-- the mask: an Enter key that sends CR and LF ends one line.
pub feed_keys-keys_of :
    (ls : List Bytes) (e : LineEditor)
    → e.line_ ≡ []
    → AllFit ls
    → (feed_keys (keys_of ls) e).0 ≡ ls
unfolding feed_keys feed
feed_keys-keys_of [] e empty fit = refl
feed_keys-keys_of (l ∷ ls) e empty fit =
    let rest = 10 ∷ keys_of ls in
    let typed = typed_keys l rest e fit.0 (rw empty (omega (arith, fit.1))) in
    rw (typed, empty)
      (ap (λ t. l ∷ t)
        (feed_keys-keys_of ls (record e { line_ = []; last_was_cr = false }) refl fit.2))

-- While a password is typed, no key shows what it is: the echo is empty, a star, a new line or the
-- erasure of a character.
pub feed-masked :
    (c : ℕ) (e : LineEditor)
    → e.masked ≡ true
    → (is_empty (feed c e).1 ≡ true)
      ⊎ (((feed c e).1 ≡ b'*' ∷ []) ⊎ (((feed c e).1 ≡ crlf) ⊎ ((feed c e).1 ≡ 8 ∷ 32 ∷ 8 ∷ [])))
unfolding feed feed_key erase
feed-masked c e hidden = ground arith
