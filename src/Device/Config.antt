-- ===== src/Device/Config.antt =====
-- What a configuration file and its verdict say.
use embedded_linux_ota.Prelude.{
  ℕ, Bool, true, false, List, [], ◌∷◌, ◌++◌, none, some, ◌≡◌, refl, ap, ◌∙◌, ◌⊎◌, inl, inr, arith,
  ◌==◌, all, Bool-cases, if◌then◌else◌, Option-cases, ◌||◌,
}
use embedded_linux_ota.Text.{Text, codes, text_eq, text_eq_iff, is_empty, is_digit}
use embedded_linux_ota.Text.Search.{lacks, before_char-append, after_char-append}
use embedded_linux_ota.Text.Lines.{
  lines, lines-cons, trim, no_space, drop_trailing, drop_trailing-append, trim-drop_trailing,
  trim-no_space, trim-prefix,
}
use embedded_linux_ota.Text.Decimal.Stream.{skip_digits}
use embedded_linux_ota.Client.{is_semver, semver_number, dot}
use embedded_linux_ota.Client.Updates.{DeviceConfig}
use embedded_linux_ota.Device.{
  is_skipped, setting, read_lines, is_no_slot, validate_config, config_error_message,
}

-- A line `key=value` as it is written.
abbrev pub line_of : Text → Text → Text
line_of key value = key ++ (b'=' ∷ value)

-- A key: not empty, no comment, without blanks and `=`.
abbrev pub is_key : Text → Bool
is_key [] = false
is_key (c ∷ s) = if c == b'#' then false else if no_space (c ∷ s) then lacks b'=' (c ∷ s) else false

is_key-facts :
    (c : ℕ) (s : Text)
    → is_key (c ∷ s) ≡ true
    → ((c == b'#') ≡ false) × (no_space (c ∷ s) ≡ true) × (lacks b'=' (c ∷ s) ≡ true)
is_key-facts c s h = elim (Bool-cases (no_space (c ∷ s))) [
  | inl e ↦ elim (Bool-cases (lacks b'=' (c ∷ s))) [
    | inl f ↦ (ground arith, e, f)
    | inr f ↦ absurd (ground arith)
  ]
  | inr e ↦ absurd (ground arith)
]

setting_parts :
    (line l k v : Text)
    → trim line ≡ l
    → is_skipped l ≡ false
    → l ≡ k ++ (b'=' ∷ v)
    → lacks b'=' k ≡ true
    → setting line ≡ some (trim k, trim v)
unfolding setting
setting_parts line l k v e h f g =
    let before = before_char-append b'=' k v g in
    let after = after_char-append b'=' k v g in rw (e, h, f, before, after) refl

-- A line is read as its key and its value, blanks at both ends of the value removed.
pub setting-line_of :
    (key value : Text) → is_key key ≡ true → setting (line_of key value) ≡ some (key, trim value)
setting-line_of [] value h = absurd (ground arith)
setting-line_of (c ∷ k) value h =
    let (plain, spaceless, lacking) = is_key-facts c k h in
    setting_parts (line_of (c ∷ k) value) (line_of (c ∷ k) (drop_trailing value)) (c ∷ k)
      (drop_trailing value)
      (trim-prefix c k (b'=' ∷ value) spaceless ∙ ap (λ t. (c ∷ k) ++ t) (drop_equals value)) plain
      refl lacking
    ∙ λ i. some (trim-no_space (c ∷ k) spaceless i, trim-drop_trailing value i)
  where
    drop_equals : (v : Text) → drop_trailing (b'=' ∷ v) ≡ b'=' ∷ drop_trailing v
    drop_equals v = drop_trailing-append (b'=' ∷ []) v refl

-- The settings of a file, each with a newline.
abbrev pub file_of : List (Text × Text) → Text
file_of [] = []
file_of ((key, value) ∷ rest) = line_of key value ++ (b'\n' ∷ file_of rest)

-- Every key is one, and no key or value holds a newline.
abbrev pub are_settings : List (Text × Text) → Bool
are_settings [] = true
are_settings ((key, value) ∷ rest) =
    if is_key key
    then if lacks b'\n' (line_of key value) then are_settings rest else false
    else false

module _ {ℓ} {S : Type ℓ} (assign : S → Text → Text → S) where
  -- The assignments that the loop makes for them.
  abbrev pub assign_all : S → List (Text × Text) → S
  assign_all s [] = s
  assign_all s ((key, value) ∷ rest) = assign_all (assign s key (trim value)) rest

  pub read_lines-file_of :
      (s : S) (settings : List (Text × Text))
      → are_settings settings ≡ true
      → read_lines assign s (lines (file_of settings)) ≡ assign_all s settings
  unfolding read_lines lines
  read_lines-file_of s [] h = refl
  read_lines-file_of s ((key, value) ∷ rest) h =
      let named : is_key key ≡ true = ground arith in
      let clean : lacks b'\n' (line_of key value) ≡ true = ground arith in
      let more : are_settings rest ≡ true = ground arith in
      ap (read_lines assign s) (lines-cons (line_of key value) (file_of rest) clean)
      ∙ ap
          (λ o.
            read_lines assign (elim o [ none ↦ s | some (k, v) ↦ assign s k v ])
              (lines (file_of rest)))
          (setting-line_of key value named)
      ∙ read_lines-file_of (assign s key (trim value)) rest more

-- The error message is empty on exactly the configurations that are valid.
pub validate_config-config_error_message :
    (config : DeviceConfig) → validate_config config ≡ is_empty (config_error_message config)
unfolding validate_config config_error_message
validate_config-config_error_message config = ground arith

-- What a valid configuration is.
pub record IsValidConfig (config : DeviceConfig) : Type 0 where
  pub named : is_empty config.device_id ≡ false
  pub hardware : is_empty config.hardware_version ≡ false
  pub version : is_semver config.software_version ≡ true
  pub slot : (config.active_slot ≡ codes "A") ⊎ (config.active_slot ≡ codes "B")

slot_lem : (slot : Text) → is_no_slot slot ≡ false → (slot ≡ codes "A") ⊎ (slot ≡ codes "B")
slot_lem slot h = elim (Bool-cases (text_eq slot (codes "A"))) [
  | inl e ↦ inl ((text_eq_iff slot (codes "A")).0 e)
  | inr e ↦ elim (Bool-cases (text_eq slot (codes "B"))) [
    | inl f ↦ inr ((text_eq_iff slot (codes "B")).0 f)
    | inr f ↦ absurd (ground arith)
  ]
]

pub validate_config-IsValidConfig :
    (config : DeviceConfig) → validate_config config ≡ true → IsValidConfig config
unfolding validate_config
validate_config-IsValidConfig config h =
    let free : is_no_slot config.active_slot ≡ false = ground arith in
    record {
      named = ground arith;
      hardware = ground arith;
      version = ground arith;
      slot = slot_lem config.active_slot free;
    }

abbrev is_version_char : ℕ → Bool
is_version_char c = is_digit c || c == b'.'

skip_digits-chars :
    (s : Text) → all is_version_char (skip_digits s) ≡ true → all is_version_char s ≡ true
unfolding skip_digits
skip_digits-chars [] h = refl
skip_digits-chars (c ∷ s) h = ground (arith, skip_digits-chars s)

number_chars :
    (s r : Text)
    → semver_number s ≡ some r
    → all is_version_char r ≡ true
    → all is_version_char s ≡ true
unfolding semver_number
number_chars [] r e h = absurd (cc)
number_chars (c ∷ s) r e h = ground (arith, skip_digits-chars s)

dot_chars :
    (s r : Text) → dot s ≡ some r → all is_version_char r ≡ true → all is_version_char s ≡ true
unfolding dot
dot_chars [] r e h = absurd (cc)
dot_chars (c ∷ s) r e h = ground arith

all_empty : (r : Text) → is_empty r ≡ true → all is_version_char r ≡ true
all_empty [] h = refl
all_empty (c ∷ r) h = absurd (cc)

-- A version of three numbers is digits and dots.
pub is_semver-chars : (v : Text) → is_semver v ≡ true → all is_version_char v ≡ true
unfolding is_semver
is_semver-chars v h = elim (Option-cases (semver_number v)) [
  | inl e ↦ absurd (ground arith)
  | inr (r1, e1) ↦ number_chars v r1 e1 (elim (Option-cases (dot r1)) [
    | inl e ↦ absurd (ground arith)
    | inr (d1, e2) ↦ dot_chars r1 d1 e2 (elim (Option-cases (semver_number d1)) [
      | inl e ↦ absurd (ground arith)
      | inr (r2, e3) ↦ number_chars d1 r2 e3 (elim (Option-cases (dot r2)) [
        | inl e ↦ absurd (ground arith)
        | inr (d2, e4) ↦ dot_chars r2 d2 e4 (elim (Option-cases (semver_number d2)) [
          | inl e ↦ absurd (ground arith)
          | inr (r3, e5) ↦ number_chars d2 r3 e5 (all_empty r3 (ground arith))
        ])
      ])
    ])
  ])
]

chars_clean :
    (v : Text) → all is_version_char v ≡ true → (no_space v ≡ true) × (lacks b'\n' v ≡ true)
chars_clean [] h = (refl, refl)
chars_clean (c ∷ v) h = ground (arith, chars_clean v)

pub semver_clean : (v : Text) → is_semver v ≡ true → (trim v ≡ v) × (lacks b'\n' v ≡ true)
semver_clean v h =
    let (spaceless, one_line) = chars_clean v (is_semver-chars v h) in
    (trim-no_space v spaceless, one_line)

pub slot_clean :
    (v : Text) → (v ≡ codes "A") ⊎ (v ≡ codes "B") → (trim v ≡ v) × (lacks b'\n' v ≡ true)
unfolding trim
slot_clean v (inl e) = rw e (refl, refl)
slot_clean v (inr e) = rw e (refl, refl)
