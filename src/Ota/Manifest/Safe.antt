-- ===== src/Ota/Manifest/Safe.antt =====
-- What a manifest that is accepted can ask for.
use mathlib.Core.Path.{subst}
use croniot_iot.Prelude.{
  ◌≤◌, ◌<◌, ◌≡◌, ◌≢◌, refl, Bool, true, false, ◌&&◌, ◌||◌, Option, none, some, [], ◌∷◌, arith, leb,
  if◌then◌else◌, length, codes, Bytes, bytes_eq,
}
use croniot_iot.Prelude.Chars.{is_digit}
use croniot_iot.Json.{Scanner, ℤ, pos, negsuc, starts_with, parse_string, parse_int, skip_value}
use croniot_iot.Json.Object.{Parsed, out_of_fuel, refused, parsed, read_object}
use croniot_iot.Json.Object.Ends.{read_object-total, read_object-keeps}
use croniot_iot.Ota.Manifest.{
  Manifest, Fields, no_fields, max_version_len, max_image_size, has_double_slash, all_printed,
  all_xdigits, lowered, read_manifest_field, manifest_fields, value_read, skipped, set_request_id,
  set_version, set_path, set_sha256, set_size, set_port, is_complete, accept, parse_manifest,
}

abbrev pub all_lower_hex : Bytes → Bool
all_lower_hex [] = true
all_lower_hex (c ∷ cs) = (is_digit c || (leb b'a' c && leb c b'f')) && all_lower_hex cs

-- A request that stays on the configured server, for an image that can fit, with a digest to check
-- it against.
pub record IsSafe (m : Manifest) : Type 0 where
  pub on_server : starts_with b'/' m.path ≡ true
  pub no_host : has_double_slash m.path ≡ false
  pub path_printed : all_printed m.path ≡ true
  pub some_size : 0 < m.size
  pub fits : m.size ≤ max_image_size
  pub port_word : m.port ≤ 65535
  pub request_len : (0 < length m.request_id) × (length m.request_id ≤ 64)
  pub version_len : (0 < length m.version) × (length m.version ≤ max_version_len)
  pub digest_len : length m.sha256 ≡ 64
  pub digest_hex : all_lower_hex m.sha256 ≡ true

abbrev InBounds : Fields → Type 0
InBounds f = (f.has_size ≡ true → (0 < f.m.size) × (f.m.size ≤ max_image_size)) × (f.m.port ≤ 65535)

if-elim {ℓ} :
    {A : Type ℓ} (P : Type 0) (b : Bool) {x y r : A}
    → (x ≡ r → P)
    → (y ≡ r → P)
    → (if b then x else y) ≡ r
    → P
if-elim P true f g e = f e
if-elim P false f g e = g e

value_read-InBounds :
    {A : Type 0} (keep : A → Option Fields) (v : Option A) (s : Scanner) (f' : Fields)
    (s' : Scanner)
    → ((a : A) (g : Fields) → keep a ≡ some g → InBounds g)
    → value_read keep (v, s) ≡ some (f', s')
    → InBounds f'
value_read-InBounds keep none s f' s' h e = absurd (ground arith)
value_read-InBounds keep (some a) s f' s' h e = let q : keep a ≡ some f' = ground arith in h a f' q

kept-InBounds : (f g : Fields) → InBounds f → some f ≡ some g → InBounds g
kept-InBounds f g h e = let same : f ≡ g = ground arith in subst InBounds same h

set_size-InBounds :
    (f : Fields) → InBounds f → (v : ℤ) (g : Fields) → set_size f v ≡ some g → InBounds g
set_size-InBounds f h (negsuc n) g e = absurd (ground arith)
set_size-InBounds f h (pos n) g e = ground arith

set_port-InBounds :
    (f : Fields) → InBounds f → (v : ℤ) (g : Fields) → set_port f v ≡ some g → InBounds g
set_port-InBounds f h (negsuc n) g e = absurd (ground arith)
set_port-InBounds f h (pos n) g e = ground arith

skipped-InBounds :
    (f : Fields) (s : Scanner) (f' : Fields) (s' : Scanner)
    → InBounds f
    → skipped f s ≡ some (f', s')
    → InBounds f'
skipped-InBounds f s f' s' h e = ground arith

read_manifest_field-InBounds :
    (key : Bytes) (f : Fields) (s : Scanner) (f' : Fields) (s' : Scanner)
    → read_manifest_field key f s ≡ some (f', s')
    → InBounds f
    → InBounds f'
unfolding read_manifest_field
read_manifest_field-InBounds key f s f' s' e h =
    let text = parse_string s in
    let number = parse_int s in
    let P = InBounds f' in
    let keeps = λ (keep : Bytes → Fields) (k : (v : Bytes) → InBounds (keep v)).
      value_read-InBounds (λ v. some (keep v)) text.0 text.1 f' s'
        (λ v g. kept-InBounds (keep v) g (k v)) in
    if-elim P (bytes_eq key (codes "requestId")) (keeps (set_request_id f) (λ v. h))
      (if-elim P (bytes_eq key (codes "version")) (keeps (set_version f) (λ v. h)) (
        if-elim P (bytes_eq key (codes "path")) (keeps (set_path f) (λ v. h)) (
          if-elim P (bytes_eq key (codes "sha256")) (keeps (set_sha256 f) (λ v. h)) (
            if-elim P (bytes_eq key (codes "size"))
              (value_read-InBounds (set_size f) number.0 number.1 f' s' (set_size-InBounds f h))
              (if-elim P (bytes_eq key (codes "port"))
                (value_read-InBounds (set_port f) number.0 number.1 f' s' (set_port-InBounds f h))
                (skipped-InBounds f (skip_value s) f' s' h))))))
      e

length-lowered : (cs : Bytes) → length (lowered cs) ≡ length cs
unfolding lowered
length-lowered [] = refl
length-lowered (c ∷ cs) = omega (arith, length-lowered cs)

lowered-hex : (cs : Bytes) → all_xdigits cs ≡ true → all_lower_hex (lowered cs) ≡ true
unfolding lowered all_xdigits
lowered-hex [] h = refl
lowered-hex (c ∷ cs) h = ground (arith, lowered-hex cs)

accept-IsSafe :
    (r : Parsed Fields) (m : Manifest)
    → ((f : Fields) → r ≡ parsed f → InBounds f)
    → accept r ≡ parsed m
    → IsSafe m
accept-IsSafe out_of_fuel m h e = absurd (ground arith)
accept-IsSafe refused m h e = absurd (ground arith)
accept-IsSafe (parsed f) m h e =
    let bounds = h f refl in
    let complete : is_complete f ≡ true = ground arith in
    let same : record f.m { sha256 = lowered f.m.sha256 } ≡ m = ground arith in
    subst IsSafe same (record {
      on_server = ground arith;
      no_host = ground arith;
      path_printed = ground arith;
      some_size = ground arith;
      fits = ground arith;
      port_word = bounds.1;
      request_len = ground arith;
      version_len = ground arith;
      digest_len = ground (arith, length-lowered f.m.sha256);
      digest_hex = ground (arith, lowered-hex f.m.sha256);
    })

-- Whatever the server's topic brings, a manifest that is accepted names a path on the configured
-- server and no host, an image of a size that fits the flash, a version that fits an image's
-- descriptor, and a digest of 64 lower-case hexadecimal digits.
pub parse_manifest-IsSafe :
    (json : Bytes) (m : Manifest) → parse_manifest json ≡ parsed m → IsSafe m
unfolding parse_manifest
parse_manifest-IsSafe json m e =
    accept-IsSafe (read_object manifest_fields no_fields json) m
      (λ f q.
        read_object-keeps manifest_fields InBounds read_manifest_field-InBounds no_fields json f q
          (ground arith))
      e

accept-total : (r : Parsed Fields) → r ≢ out_of_fuel → accept r ≢ out_of_fuel
accept-total out_of_fuel h e = h refl
accept-total refused h e = ground arith
accept-total (parsed f) h e = ground arith

-- Every text is read as a manifest or refused: the scanner ends.
pub parse_manifest-total : (json : Bytes) → parse_manifest json ≢ out_of_fuel
unfolding parse_manifest
parse_manifest-total json =
    accept-total (read_object manifest_fields no_fields json)
      (read_object-total manifest_fields no_fields json)
