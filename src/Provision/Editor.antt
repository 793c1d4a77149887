-- ===== src/Provision/Editor.antt =====
-- components/croniot/src/provision/WifiSetupDialog.{h,cpp}: `LineEditor`, from keys to lines. A
-- `char` is its byte.
pub mod Lines
use croniot_iot.Prelude.{
  ℕ, ◌+◌, ◌≤◌, Bool, true, false, not, ◌&&◌, ◌||◌, Option, none, some, List, [], ◌∷◌, ◌++◌, ltb,
  leb, ◌==◌, if◌then◌else◌, is_empty, length, Bytes,
}
use croniot_iot.Provision.Dialog.{crlf}

-- `LineEditor`.
pub record LineEditor : Type 0 where
  pub line_ : Bytes
  pub masked : Bool
  pub last_was_cr : Bool

-- `setMasked` and `reset`.
abbrev pub set_masked : Bool → LineEditor → LineEditor
set_masked m e = record e { masked = m }

abbrev pub reset_line : LineEditor → LineEditor
reset_line e = record e { line_ = []; last_was_cr = false }

-- `(c & 0xC0) == 0x80`.
abbrev pub is_continuation : ℕ → Bool
is_continuation c = leb 0x80 c && ltb c 0xC0

-- The loop that drops the continuation bytes at the end.
unfoldable pub drop_continuations : Bytes → Bytes
drop_continuations [] = []
drop_continuations (c ∷ cs) =
    let rest = drop_continuations cs in if is_continuation c && is_empty rest then [] else c ∷ rest

-- `pop_back`, on a string that is not empty.
unfoldable pub pop_back : Bytes → Bytes
pop_back [] = []
pop_back (c ∷ cs) = let rest = pop_back cs in if is_empty cs then [] else c ∷ rest

-- The backspace key.
unfoldable pub erase : LineEditor → Bytes × LineEditor
unfolding drop_continuations pop_back
erase e =
    if is_empty e.line_
    then ([], e)
    else (8 ∷ 32 ∷ 8 ∷ [], record e { line_ = pop_back (drop_continuations e.line_) })

-- What a key that joins the line shows.
abbrev echo_of : Bool → ℕ → Bytes
echo_of masked c = if masked then (if is_continuation c then [] else b'*' ∷ []) else c ∷ []

-- The keys behind the Enter keys; `last_was_cr` is set.
unfoldable pub feed_key : ℕ → LineEditor → Bytes × LineEditor
unfolding erase
feed_key c e =
    if (c == 0x08) || (c == 0x7f)
    then erase e
    else if ltb c 0x20
    then ([], e)
    else if leb 128 (length e.line_)
    then ([], e)
    else (echo_of e.masked c, record e { line_ = e.line_ ++ c ∷ [] })

-- `feed`: the finished line if there is one, `echo`, and the editor.
unfoldable pub feed : ℕ → LineEditor → Option Bytes × Bytes × LineEditor
unfolding feed_key
feed c e =
    let next = record e { last_was_cr = c == 13 } in
    if (c == 13) || (c == 10)
    then if (c == 10) && e.last_was_cr
      then (none, [], next)
      else (some e.line_, crlf, record next { line_ = [] })
    else let (echo, e') = feed_key c next in (none, echo, e')

abbrev with_line : Option Bytes → List Bytes → List Bytes
with_line none ls = ls
with_line (some l) ls = l ∷ ls

-- A stream of keys: the lines that it makes, and the editor.
unfoldable pub feed_keys : Bytes → LineEditor → List Bytes × LineEditor
unfolding feed
feed_keys [] e = ([], e)
feed_keys (c ∷ cs) e =
    let (out, _, e') = feed c e in let (ls, e'') = feed_keys cs e' in (with_line out ls, e'')
