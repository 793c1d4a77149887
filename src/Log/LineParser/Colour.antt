-- ===== src/Log/LineParser/Colour.antt =====
-- components/croniot/src/log/LineParser.cpp: the colours and the line ends of a line.
use croniot_iot.Prelude.{
  ℕ, suc, ◌+◌, ◌-◌, ◌≡◌, refl, ap, ◌∙◌, true, false, [], ◌∷◌, ◌++◌, arith, ltb, leb, ◌==◌, length,
  get_or, take, drop, Bytes, length-append, get_or-append, take-append_self, drop-append_self,
  drop-append, bytes_eq_refl,
}
use croniot_iot.Log.LineParser.{
  is_line_end, escape, ansi_reset, trim_end, trim_reset, find_m, leading_ansi_length, without_end,
  without_reset, without_colour, bare_line,
}
use croniot_iot.Log.LineParser.Loops.{
  IsWithout, AreEnds, get_or-front, without_at, end_at, trim_end-ends, trim_end-stops, find_m-stops,
}

-- A line in colours, as `CONFIG_LOG_COLORS=y` prints it, with its line end.
abbrev pub in_colour : Bytes → Bytes → Bytes → Bytes
in_colour colour line ends = ((escape ∷ b'[' ∷ (colour ++ b'm' ∷ line)) ++ ansi_reset) ++ ends

module _ (colour line ends : Bytes) (plain : IsWithout b'm' colour) (over : AreEnds ends) where
  abbrev coloured : Bytes
  coloured = escape ∷ b'[' ∷ (colour ++ b'm' ∷ line)

  abbrev reset : Bytes
  reset = coloured ++ ansi_reset

  ends_off : without_end (reset ++ ends) ≡ reset
  ends_off =
      let n = length-append coloured ansi_reset in
      let m : length reset ≡ suc (length coloured + 3) = omega arith in
      let last : get_or (reset ++ ends) (length coloured + 3) 0 ≡ b'm' =
        get_or-front reset ends (length coloured + 3) (omega arith)
        ∙ get_or-append coloured ansi_reset (length coloured + 3) 3 0 refl in
      let stops : trim_end (reset ++ ends) (length reset) ≡ length reset =
        rw m (trim_end-stops (reset ++ ends) (length coloured + 3) (ap is_line_end last)) in
      let drops = trim_end-ends (reset ++ ends) (length reset) (length ends) (λ j h.
        ap is_line_end (get_or-append reset ends (length reset + j) j 0 refl)
        ∙ end_at ends over j h) in
      ap (λ k. take (trim_end (reset ++ ends) k) (reset ++ ends)) (length-append reset ends)
      ∙ (ap (λ k. take k (reset ++ ends)) (drops ∙ stops) ∙ take-append_self reset ends)

  reset_short : trim_reset reset (length reset) ≡ length coloured
  unfolding trim_reset
  reset_short =
      let n = length-append coloured ansi_reset in
      let long : leb 4 (length reset) ≡ true = ground arith in
      let at : length reset - 4 ≡ length coloured = omega arith in
      let t : take 4 (drop (length reset - 4) reset) ≡ ansi_reset =
        rw (at, drop-append_self coloured ansi_reset) in
      rw (long, t, bytes_eq_refl ansi_reset) at

  reset_off : without_reset reset ≡ coloured
  reset_off = ap (λ k. take k reset) reset_short ∙ take-append_self coloured ansi_reset

  coloured_size : length coloured ≡ 3 + length colour + length line
  coloured_size = omega (arith, length-append colour (b'm' ∷ line))

  found : find_m coloured 2 (length coloured - 2) ≡ 2 + length colour
  found =
      let n = coloured_size in
      let e : length coloured - 2 ≡ length colour + suc (length line) = omega arith in
      let at : (i k : ℕ) → i ≡ 2 + k → get_or coloured i 0 ≡ get_or (colour ++ b'm' ∷ line) k 0 =
        λ i k h. get_or-append (escape ∷ b'[' ∷ []) (colour ++ b'm' ∷ line) i k 0 h in
      let last =
        at (2 + length colour) (length colour) refl
        ∙ get_or-append colour (b'm' ∷ line) (length colour) 0 0 (omega arith) in
      rw e (
        find_m-stops coloured 2 (length colour) (length line)
          (λ j h.
            ap (λ x. x == b'm') (at (2 + j) j refl ∙ get_or-front colour (b'm' ∷ line) j h)
            ∙ without_at b'm' colour plain j h)
          (ap (λ x. x == b'm') last))

  colour_length : leading_ansi_length coloured (length coloured) ≡ length colour + 3
  unfolding leading_ansi_length
  colour_length =
      let n = coloured_size in
      let f = found in
      let long : ltb (length coloured) 3 ≡ false = ground arith in
      let inside : leb (length coloured) (2 + length colour) ≡ false = ground arith in
      let e : 2 + length colour + 1 ≡ length colour + 3 = omega arith in rw (f, long, inside) e

  colour_off : without_colour coloured ≡ line
  colour_off =
      ap (λ k. drop k coloured) colour_length
      ∙ drop-append (escape ∷ b'[' ∷ colour) (b'm' ∷ line) (length colour + 3) 1 (omega arith)

  pub bare_line-in_colour : bare_line (in_colour colour line ends) ≡ line
  bare_line-in_colour =
      ap (λ l. without_colour (without_reset l)) ends_off
      ∙ (ap without_colour reset_off ∙ colour_off)
