-- ===== src/Client/Order.antt =====
-- Which updates are taken.
use embedded_linux_ota.Prelude.{
  ℕ, ◌<◌, Bool, true, false, ◌&&◌, ◌||◌, [], ◌∷◌, ◌++◌, Option, some, ◌>>=◌, ◌≡◌, refl, sym, arith,
  ap, ◌∙◌, ltb, Option-cases, Bool-cases, ◌↔◌, inl, inr, ◌==◌, append-nil,
}
use embedded_linux_ota.Text.{Text, text_eq, text_eq_iff, is_empty}
use embedded_linux_ota.Text.Decimal.{int_limit, int_to_string}
use embedded_linux_ota.Text.Decimal.Stream.{read_int, skip_char, read_int-int_to_string}
use embedded_linux_ota.Http.{HttpResponse}
use embedded_linux_ota.Client.{
  UpdateMetadata, not_positive, is_semver, get_validation_error, parse_update_response,
}
use embedded_linux_ota.Client.Updates.{
  update_available, DeviceConfig, Version, next_int, parse_version, int_ltb, version_ltb,
  compare_versions, judge, request_path, check_for_update,
}

version_asym : (v w : Version) → version_ltb v w ≡ true → version_ltb w v ≡ false
version_asym v w h = ground arith

-- Two versions are not each newer than the other, whatever their texts are.
pub compare_versions_asym :
    (v w : Text) → compare_versions v w ≡ true → compare_versions w v ≡ false
unfolding compare_versions
compare_versions_asym v w h = version_asym (parse_version v) (parse_version w) h

version_trans :
    (u v w : Version) → version_ltb u v ≡ true → version_ltb v w ≡ true → version_ltb u w ≡ true
version_trans u v w h k = ground arith

pub compare_versions_trans :
    (u v w : Text)
    → compare_versions u v ≡ true
    → compare_versions v w ≡ true
    → compare_versions u w ≡ true
unfolding compare_versions
compare_versions_trans u v w h k =
    version_trans (parse_version u) (parse_version v) (parse_version w) h k

-- A version as it is printed.
abbrev pub version_to_string : Version → Text
version_to_string v =
    int_to_string v.major ++ (b'.' ∷ (int_to_string v.minor ++ (b'.' ∷ int_to_string v.patch)))

pub record IsSmall (v : Version) : Type 0 where
  pub major : v.major < int_limit
  pub minor : v.minor < int_limit
  pub patch : v.patch < int_limit

after_dot : (r : Text) → skip_char (b'.' ∷ r) ≡ some r
unfolding skip_char
after_dot r = refl

parse_steps :
    (s : Text) (a b c : ℕ) (r1 r2 : Text) (r3 : Option Text)
    → read_int s ≡ (a, some (b'.' ∷ r1))
    → read_int r1 ≡ (b, some (b'.' ∷ r2))
    → read_int r2 ≡ (c, r3)
    → parse_version s ≡ record { major = a; minor = b; patch = c }
unfolding parse_version
parse_steps s a b c r1 r2 r3 e1 e2 e3 =
    ap
      (λ (x : ℕ × Option Text).
        let (minor, r) = next_int (x.1 >>= skip_char) in
        record { major = x.0; minor = minor; patch = (next_int (r >>= skip_char)).0 })
      e1
    ∙ ap
        (λ (x : ℕ × Option Text). record {
          major = a;
          minor = x.0;
          patch = (next_int (x.1 >>= skip_char)).0;
        })
        (ap next_int (after_dot r1) ∙ e2)
    ∙ ap (λ (x : ℕ × Option Text). record { major = a; minor = b; patch = x.0 })
        (ap next_int (after_dot r2) ∙ e3)

-- The three numbers of a printed version, none of them negative, are read back.
pub parse_version-version_to_string :
    (v : Version) → IsSmall v → parse_version (version_to_string v) ≡ v
parse_version-version_to_string v small =
    parse_steps (version_to_string v) v.major v.minor v.patch
      (int_to_string v.minor ++ (b'.' ∷ int_to_string v.patch)) (int_to_string v.patch) (some [])
      (read_int-int_to_string v.major _ small.major refl)
      (read_int-int_to_string v.minor _ small.minor refl)
      (ap read_int (sym (append-nil (int_to_string v.patch)))
        ∙ read_int-int_to_string v.patch [] small.patch tt)

-- Numbers below the limit are compared as they are.
small_ltb : (a b : ℕ) → a < int_limit → b < int_limit → int_ltb a b ≡ ltb a b
small_ltb a b h k = ground arith

-- The order of versions: the first number that differs decides.
infix 40 ◌≺◌
pub data ◌≺◌ : Version → Version → Type 0 where
  by_major : {v w : Version} → v.major < w.major → v ≺ w
  by_minor : {v w : Version} → v.major ≡ w.major → v.minor < w.minor → v ≺ w
  by_patch : {v w : Version} → v.major ≡ w.major → v.minor ≡ w.minor → v.patch < w.patch → v ≺ w

printed_ltb :
    (v w : Version)
    → IsSmall v
    → IsSmall w
    → version_ltb v w ≡ (
        ltb v.major w.major
        || ((v.major == w.major)
            && (ltb v.minor w.minor || ((v.minor == w.minor) && ltb v.patch w.patch))))
printed_ltb v w sv sw = ground (
  arith,
  small_ltb v.major w.major sv.major sw.major,
  small_ltb w.major v.major sw.major sv.major,
  small_ltb v.minor w.minor sv.minor sw.minor,
  small_ltb w.minor v.minor sw.minor sv.minor,
  small_ltb v.patch w.patch sv.patch sw.patch,
)

abbrev newer : Version → Version → Bool
newer v w =
    ltb v.major w.major
    || ((v.major == w.major)
        && (ltb v.minor w.minor || ((v.minor == w.minor) && ltb v.patch w.patch)))

to_order : (v w : Version) → newer v w ≡ true → v ≺ w
to_order v w h = elim (Bool-cases (ltb v.major w.major)) [
  | inl e ↦ by_major (ground arith)
  | inr e ↦ elim (Bool-cases (ltb v.minor w.minor)) [
    | inl f ↦ by_minor (ground arith) (ground arith)
    | inr f ↦ by_patch (ground arith) (ground arith) (ground arith)
  ]
]

of_order : {v w : Version} → v ≺ w → newer v w ≡ true
of_order (by_major h) = ground arith
of_order (by_minor e h) = ground arith
of_order (by_patch e f h) = ground arith

-- On printed versions whose numbers are not negative, the comparison is the order of versions,
-- where the first number that differs decides.
pub compare_versions_iff :
    (v w : Version)
    → IsSmall v
    → IsSmall w
    → (compare_versions (version_to_string v) (version_to_string w) ≡ true) ↔ (v ≺ w)
unfolding compare_versions
compare_versions_iff v w sv sw =
    let read =
      (λ i.
        version_ltb (parse_version-version_to_string v sv i)
          (parse_version-version_to_string w sw i))
      ∙ printed_ltb v w sv sw in
    (λ h. to_order v w (sym read ∙ h), λ o. read ∙ of_order o)

no_error_lem :
    (m : UpdateMetadata)
    → m.update_available ≡ true
    → is_empty (get_validation_error m) ≡ true
    → (is_empty m.sha256 ≡ false)
      × (not_positive m.image_size ≡ false)
      × (is_semver m.version ≡ true)
unfolding get_validation_error
no_error_lem m h k = ground arith

-- What is true of an update that is offered to the device.
pub record IsOffer (device : DeviceConfig) (m : UpdateMetadata) : Type 0 where
  pub offered : m.update_available ≡ true
  pub hardware : device.hardware_version ≡ m.hardware_version
  pub newer_version : compare_versions device.software_version m.version ≡ true
  pub well_formed : is_semver m.version ≡ true
  pub hashed : is_empty m.sha256 ≡ false
  pub sized : not_positive m.image_size ≡ false

judged :
    (device : DeviceConfig) (m : UpdateMetadata)
    → (judge device m).result ≡ update_available
    → (m.update_available ≡ true)
      × (is_empty (get_validation_error m) ≡ true)
      × (text_eq device.hardware_version m.hardware_version ≡ true)
      × (compare_versions device.software_version m.version ≡ true)
      × ((judge device m).metadata ≡ m)
unfolding judge
judged device m h = ground arith

judge-IsOffer :
    (device : DeviceConfig) (m : UpdateMetadata)
    → (judge device m).result ≡ update_available
    → IsOffer device m × ((judge device m).metadata ≡ m)
judge-IsOffer device m h =
    let (offered, no_error, same, newer_version, kept) = judged device m h in
    let (hashed, sized, well_formed) = no_error_lem m offered no_error in
    (
      record {
        offered = offered;
        hardware = (text_eq_iff device.hardware_version m.hardware_version).0 same;
        newer_version = newer_version;
        well_formed = well_formed;
        hashed = hashed;
        sized = sized;
      },
      kept,
    )

asked :
    (get : Text → HttpResponse) (server_url : Text) (device : DeviceConfig)
    → (check_for_update get server_url device).result ≡ update_available
    → (m : UpdateMetadata) × (parse_update_response (get (request_path device)).body ≡ some m)
      × (check_for_update get server_url device ≡ judge device m)
unfolding check_for_update
asked get server_url device h =
    elim (Option-cases (parse_update_response (get (request_path device)).body)) [
      | inl e ↦ absurd (ground arith)
      | inr (m, e) ↦ (m, e, ground arith)
    ]

-- An update is offered only where the answer of the server parses as it, it is for the hardware
-- of the device, has a version of three numbers that is newer than that of the device, a hash
-- and a positive size.
pub check_for_update-IsOffer :
    (get : Text → HttpResponse) (server_url : Text) (device : DeviceConfig)
    → (check_for_update get server_url device).result ≡ update_available
    → (parse_update_response (get (request_path device)).body
        ≡ some (check_for_update get server_url device).metadata)
      × IsOffer device (check_for_update get server_url device).metadata
check_for_update-IsOffer get server_url device h =
    let (m, parsed, same) = asked get server_url device h in
    let (offer, kept) = judge-IsOffer device m (ap (λ u. u.result) (sym same) ∙ h) in
    let there = ap (λ u. u.metadata) same ∙ kept in (parsed ∙ ap some (sym there), rw there offer)
