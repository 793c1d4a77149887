-- ===== src/Ota/Manifest.antt =====
-- components/croniot/src/ota/OtaManifest.{h,cpp}: the message that asks for an update. `char` is
-- unsigned, as on the device.
pub mod Safe
use croniot_iot.Prelude.{
  ℕ, ◌+◌, ◌*◌, ◌≤◌, ◌≡◌, Bool, true, false, not, ◌&&◌, ◌||◌, Option, none, some, List, [], ◌∷◌,
  arith, ltb, leb, ◌==◌, if◌then◌else◌, is_empty, length, codes, Bytes, bytes_eq,
}
use croniot_iot.Prelude.Chars.{is_xdigit, to_lower}
use croniot_iot.Json.{Scanner, ℤ, pos, negsuc, parse_string, parse_int, skip_value, starts_with}
use croniot_iot.Json.Progress.{length-parse_string, length-parse_int, length-skip_value}
use croniot_iot.Json.Object.{Parsed, out_of_fuel, refused, parsed, FieldReader, read_object}

-- `Manifest`.
pub record Manifest : Type 0 where
  pub request_id : Bytes
  pub version : Bytes
  pub path : Bytes
  pub port : ℕ
  pub size : ℕ
  pub sha256 : Bytes

abbrev pub no_manifest : Manifest
no_manifest = record { request_id = []; version = []; path = []; port = 0; size = 0; sha256 = [] }

abbrev pub max_version_len : ℕ
max_version_len = 31

abbrev pub max_image_size : ℕ
max_image_size = 16777216

unfoldable pub all_xdigits : Bytes → Bool
all_xdigits [] = true
all_xdigits (c ∷ cs) = is_xdigit c && all_xdigits cs

unfoldable pub lowered : Bytes → Bytes
lowered [] = []
lowered (c ∷ cs) = to_lower c ∷ lowered cs

-- `isValidSha256`; the text that it leaves in `hex` is `lowered`.
abbrev pub is_valid_sha256 : Bytes → Bool
is_valid_sha256 hex = (length hex == 64) && all_xdigits hex

-- `path.find("//") != npos`.
unfoldable pub has_double_slash : Bytes → Bool
has_double_slash [] = false
has_double_slash (c ∷ []) = false
has_double_slash (c ∷ d ∷ cs) = ((c == b'/') && (d == b'/')) || has_double_slash (d ∷ cs)

-- The loop of `isValidPath`.
unfoldable pub all_printed : Bytes → Bool
all_printed [] = true
all_printed (c ∷ cs) = not (leb c b' ' || (c == 0x7f)) && all_printed cs

-- `isValidPath`.
abbrev pub is_valid_path : Bytes → Bool
is_valid_path path =
    starts_with b'/' path
    && (leb (length path) 200 && (not (has_double_slash path) && all_printed path))

-- The locals of `parseManifest`.
pub record Fields : Type 0 where
  pub m : Manifest
  pub has_size : Bool

abbrev pub no_fields : Fields
no_fields = record { m = no_manifest; has_size = false }

abbrev pub set_request_id : Fields → Bytes → Fields
set_request_id f v = record f { m = record f.m { request_id = v } }

abbrev pub set_version : Fields → Bytes → Fields
set_version f v = record f { m = record f.m { version = v } }

abbrev pub set_path : Fields → Bytes → Fields
set_path f v = record f { m = record f.m { path = v } }

abbrev pub set_sha256 : Fields → Bytes → Fields
set_sha256 f v = record f { m = record f.m { sha256 = v } }

abbrev pub set_size : Fields → ℤ → Option Fields
set_size f (negsuc n) = none
set_size f (pos n) =
    if (n == 0) || ltb max_image_size n
    then none
    else some (record f { m = record f.m { size = n }; has_size = true })

abbrev pub set_port : Fields → ℤ → Option Fields
set_port f (negsuc n) = none
set_port f (pos n) = if ltb 65535 n then none else some (record f { m = record f.m { port = n } })

abbrev with_scanner : Scanner → Option Fields → Option (Fields × Scanner)
with_scanner s none = none
with_scanner s (some f) = some (f, s)

-- A value that was read is kept, if the scanner has not failed.
abbrev pub value_read :
    {A : Type 0} → (A → Option Fields) → Option A × Scanner → Option (Fields × Scanner)
value_read keep (none, s) = none
value_read keep (some v, s) = if s.ok then with_scanner s (keep v) else none

abbrev pub skipped : Fields → Scanner → Option (Fields × Scanner)
skipped f s = if s.ok then some (f, s) else none

-- What `parseManifest` does with the value of a field.
unfoldable pub read_manifest_field : Bytes → Fields → Scanner → Option (Fields × Scanner)
read_manifest_field key f s =
    if bytes_eq key (codes "requestId")
    then value_read (λ v. some (set_request_id f v)) (parse_string s)
    else if bytes_eq key (codes "version")
    then value_read (λ v. some (set_version f v)) (parse_string s)
    else if bytes_eq key (codes "path")
    then value_read (λ v. some (set_path f v)) (parse_string s)
    else if bytes_eq key (codes "sha256")
    then value_read (λ v. some (set_sha256 f v)) (parse_string s)
    else if bytes_eq key (codes "size")
    then value_read (set_size f) (parse_int s)
    else if bytes_eq key (codes "port")
    then value_read (set_port f) (parse_int s)
    else skipped f (skip_value s)

pub value_read-left :
    {A : Type 0} (keep : A → Option Fields) (v : Option A) (s : Scanner) (f' : Fields)
    (s' : Scanner)
    → value_read keep (v, s) ≡ some (f', s')
    → length s'.rest ≤ length s.rest
value_read-left keep none s f' s' e = absurd (ground arith)
value_read-left keep (some v) s f' s' e = ground arith

pub read_manifest_field-left :
    (key : Bytes) (f : Fields) (s : Scanner) (f' : Fields) (s' : Scanner)
    → read_manifest_field key f s ≡ some (f', s')
    → length s'.rest ≤ length s.rest
unfolding read_manifest_field
read_manifest_field-left key f s f' s' e = ground (
  arith,
  value_read-left (λ v. some (set_request_id f v)) (parse_string s).0 (parse_string s).1 f' s',
  value_read-left (λ v. some (set_version f v)) (parse_string s).0 (parse_string s).1 f' s',
  value_read-left (λ v. some (set_path f v)) (parse_string s).0 (parse_string s).1 f' s',
  value_read-left (λ v. some (set_sha256 f v)) (parse_string s).0 (parse_string s).1 f' s',
  value_read-left (set_size f) (parse_int s).0 (parse_int s).1 f' s',
  value_read-left (set_port f) (parse_int s).0 (parse_int s).1 f' s',
  length-parse_string s,
  length-parse_int s,
  length-skip_value s,
)

abbrev pub manifest_fields : FieldReader Fields
manifest_fields = record { read = read_manifest_field; shrinks = read_manifest_field-left }

-- The tests behind the object.
abbrev pub is_complete : Fields → Bool
is_complete f =
    not (is_empty f.m.request_id)
    && (leb (length f.m.request_id) 64
        && (not (is_empty f.m.version)
            && (leb (length f.m.version) max_version_len
                && (is_valid_path f.m.path && (f.has_size && is_valid_sha256 f.m.sha256)))))

abbrev pub accept : Parsed Fields → Parsed Manifest
accept out_of_fuel = out_of_fuel
accept refused = refused
accept (parsed f) =
    if is_complete f then parsed (record f.m { sha256 = lowered f.m.sha256 }) else refused

-- `parseManifest`.
unfoldable pub parse_manifest : Bytes → Parsed Manifest
unfolding read_manifest_field all_xdigits lowered has_double_slash all_printed
parse_manifest json = accept (read_object manifest_fields no_fields json)
