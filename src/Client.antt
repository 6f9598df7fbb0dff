-- ===== src/Client.antt =====
-- The update client: `ResponseParser` (src/client/response_parser.cpp).
pub mod Updates
pub mod Order
pub mod Manager
pub mod Delivery
pub mod Tests
use embedded_linux_ota.Prelude.{
  ℕ, Bool, true, false, not, ◌&&◌, ◌||◌, [], ◌∷◌, ◌++◌, Option, none, some, ◌>>=◌, ◌==◌, ltb, leb,
  if◌then◌else◌, get_or,
}
use embedded_linux_ota.Text.{
  Text, codes, text_eq, is_empty, find_after, after_char, before_char, skip_spaces, take_until,
  is_digit,
}
use embedded_linux_ota.Text.Decimal.Stream.{stoll, skip_digits}
use embedded_linux_ota.Json.{search_key}

-- A size is the 64-bit pattern of an `int64_t`.
pub record UpdateMetadata : Type 0 where
  pub update_available : Bool
  pub version : Text
  pub hardware_version : Text
  pub image_path : Text
  pub image_size : ℕ
  pub sha256 : Text
  pub release_type : Text
  pub timestamp : Text
  pub current_version : Text

abbrev pub new_metadata : UpdateMetadata
new_metadata = record {
  update_available = false;
  version = [];
  hardware_version = [];
  image_path = [];
  image_size = 0;
  sha256 = [];
  release_type = [];
  timestamp = [];
  current_version = [];
}

abbrev ends_field : ℕ → Bool
ends_field c = c == b',' || c == b'}' || c == b'\n'

-- The value behind the colon and the blanks; an empty text stands for `npos`.
unfoldable pub field_value : Text → Option Text
unfolding before_char take_until
field_value [] = none
field_value (c ∷ s) = if c == b'"' then before_char b'"' s else some (take_until ends_field (c ∷ s))

unfoldable pub parse_json_field : Text → Text → Option Text
unfolding find_after after_char skip_spaces field_value
parse_json_field json key = do
  r ← find_after (search_key key) json
  v ← after_char b':' r
  field_value (skip_spaces v)

abbrev pub bool_of : Text → Option Bool
bool_of str =
    if text_eq str (codes "true") || text_eq str (codes "1")
    then some true
    else if text_eq str (codes "false") || text_eq str (codes "0")
    then some false
    else none

unfoldable pub parse_json_bool : Text → Text → Option Bool
unfolding parse_json_field text_eq
parse_json_bool json key = parse_json_field json key >>= bool_of

unfoldable pub parse_json_int64 : Text → Text → Option ℕ
unfolding parse_json_field stoll
parse_json_int64 json key = parse_json_field json key >>= stoll

-- The part of `parse_update_response` for an update that is offered.
unfoldable pub parse_offer : Text → Option UpdateMetadata
unfolding parse_json_int64
parse_offer json = do
  version ← parse_json_field json (codes "version")
  hardware_version ← parse_json_field json (codes "hardware_version")
  image ← parse_json_field json (codes "image")
  size ← parse_json_int64 json (codes "size")
  sha256 ← parse_json_field json (codes "sha256")
  some (record {
    update_available = true;
    version = version;
    hardware_version = hardware_version;
    image_path = image;
    image_size = size;
    sha256 = sha256;
    release_type = get_or [] (parse_json_field json (codes "release_type"));
    timestamp = get_or [] (parse_json_field json (codes "timestamp"));
    current_version = [];
  })

-- `parse_update_response` into new metadata; `none` stands for its failure.
unfoldable pub parse_update_response : Text → Option UpdateMetadata
unfolding parse_json_bool parse_offer
parse_update_response json =
    if is_empty json
    then none
    else (parse_json_bool json (codes "update_available") >>= λ available.
        if available
        then parse_offer json
        else some (record new_metadata {
          current_version = get_or [] (parse_json_field json (codes "current_version"));
          hardware_version = get_or [] (parse_json_field json (codes "hardware_version"));
        }))

-- `0|[1-9]\d*` at the head of a text: what follows it.
unfoldable pub semver_number : Text → Option Text
unfolding skip_digits
semver_number [] = none
semver_number (c ∷ s) =
    if c == b'0' then some s else if is_digit c then some (skip_digits s) else none

unfoldable pub dot : Text → Option Text
dot [] = none
dot (c ∷ s) = if c == b'.' then some s else none

-- The regular expression of a version, on the whole text.
unfoldable pub is_semver : Text → Bool
unfolding semver_number dot
is_semver version = get_or false (do
  r1 ← semver_number version
  d1 ← dot r1
  r2 ← semver_number d1
  d2 ← dot r2
  r3 ← semver_number d2
  some (is_empty r3))

-- `image_size <= 0`.
abbrev pub not_positive : ℕ → Bool
not_positive n = n == 0 || not (ltb n 9223372036854775808)

unfoldable pub get_validation_error : UpdateMetadata → Text
unfolding is_semver
get_validation_error m =
    if not m.update_available
    then []
    else if is_empty m.version
    then codes "Missing version"
    else if is_empty m.hardware_version
    then codes "Missing hardware_version"
    else if is_empty m.image_path
    then codes "Missing image path"
    else if is_empty m.sha256
    then codes "Missing sha256"
    else if not_positive m.image_size
    then codes "Invalid image size"
    else if not (is_semver m.version)
    then codes "Invalid version format"
    else []
