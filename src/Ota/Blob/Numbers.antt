-- ===== src/Ota/Blob/Numbers.antt =====
-- `atoi` on what `to_string` prints, for the numbers that a record holds (ota/OtaPolicy.cpp).
use croniot_iot.Prelude.{
  ℕ, zero, suc, ◌<◌, ◌≡◌, refl, Bool, true, false, not, ◌&&◌, [], ◌∷◌, arith, ◌==◌, if◌then◌else◌,
  Bytes,
}
use croniot_iot.Ota.Blob.{to_string, atoi}

-- A test that is run on every number under a bound.
passes : (ℕ → Bool) → ℕ → Bool
passes test zero = true
passes test (suc bound) = let below = passes test bound in if test bound then below else false

passes-elim : (test : ℕ → Bool) (bound n : ℕ) → n < bound → passes test bound ≡ true → test n ≡ true
unfolding passes
passes-elim test zero n under all = absurd (omega arith)
passes-elim test (suc bound) n under all = ground (arith, passes-elim test bound n)

-- No character of the text is `c`.
unfoldable pub lacks : ℕ → Bytes → Bool
lacks c [] = true
lacks c (x ∷ xs) = not (x == c) && lacks c xs

reads_back : ℕ → Bool
reads_back n =
    (not (atoi (to_string n)).negative && (atoi (to_string n)).magnitude == n)
    && lacks b'\n' (to_string n)

table : passes reads_back 256 ≡ true
unfolding passes reads_back atoi to_string lacks
table = refl

pub atoi-to_string :
    (n : ℕ) → n < 256 → atoi (to_string n) ≡ record { negative = false; magnitude = n }
unfolding reads_back
atoi-to_string n h =
    let e : reads_back n ≡ true = passes-elim reads_back 256 n h table in ground (arith, e)

pub lacks-to_string : (n : ℕ) → n < 256 → lacks b'\n' (to_string n) ≡ true
unfolding reads_back
lacks-to_string n h =
    let e : reads_back n ≡ true = passes-elim reads_back 256 n h table in ground (arith, e)
