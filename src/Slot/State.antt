-- ===== src/Slot/State.antt =====
-- `SlotId`, `SlotState` and `SlotInfo`.
use embedded_linux_ota.Prelude.{ℕ, Bool, not, ◌&&◌, ◌||◌, ◌≡◌, refl, ◌==◌, if◌then◌else◌, all}
use embedded_linux_ota.Text.{Text, codes, text_eq, is_empty, is_digit}

pub data SlotId : Type 0 where
  slot_a slot_b : SlotId

pub data SlotState : Type 0 where
  empty active inactive prepared bootable invalid : SlotState

-- The enumerators' values, by which C++ compares them.
abbrev slot_code : SlotId → ℕ
slot_code slot_a = 0
slot_code slot_b = 1

abbrev pub slot_eq : SlotId → SlotId → Bool
slot_eq a b = slot_code a == slot_code b

abbrev state_code : SlotState → ℕ
state_code empty = 0
state_code active = 1
state_code inactive = 2
state_code prepared = 3
state_code bootable = 4
state_code invalid = 5

abbrev pub slot_state_eq : SlotState → SlotState → Bool
slot_state_eq a b = state_code a == state_code b

abbrev pub slot_id_to_string : SlotId → Text
slot_id_to_string slot_a = codes "A"
slot_id_to_string slot_b = codes "B"

unfoldable pub string_to_slot_id : Text → SlotId
unfolding text_eq
string_to_slot_id str =
    if text_eq str (codes "A") || text_eq str (codes "a")
    then slot_a
    else if text_eq str (codes "B") || text_eq str (codes "b")
    then slot_b
    else slot_a

abbrev pub slot_state_to_string : SlotState → Text
slot_state_to_string empty = codes "EMPTY"
slot_state_to_string active = codes "ACTIVE"
slot_state_to_string inactive = codes "INACTIVE"
slot_state_to_string prepared = codes "PREPARED"
slot_state_to_string bootable = codes "BOOTABLE"
slot_state_to_string invalid = codes "INVALID"

unfoldable pub string_to_slot_state : Text → SlotState
unfolding text_eq
string_to_slot_state str =
    if text_eq str (codes "EMPTY")
    then empty
    else if text_eq str (codes "ACTIVE")
    then active
    else if text_eq str (codes "INACTIVE")
    then inactive
    else if text_eq str (codes "PREPARED")
    then prepared
    else if text_eq str (codes "BOOTABLE")
    then bootable
    else if text_eq str (codes "INVALID")
    then invalid
    else empty

pub record SlotInfo : Type 0 where
  pub slot_id : SlotId
  pub version : Text
  pub hardware_version : Text
  pub state : SlotState
  pub sha256 : Text
  pub installed_at : Text

abbrev pub is_valid : SlotInfo → Bool
is_valid info =
    not (is_empty info.version)
    && not (slot_state_eq info.state invalid)
    && not (slot_state_eq info.state empty)

-- The loop over a version that is not empty: digits and dots only.
abbrev pub is_version_text : Text → Bool
is_version_text version = all (λ c. is_digit c || c == b'.') version

pub string_to_slot_id-to_string : (s : SlotId) → string_to_slot_id (slot_id_to_string s) ≡ s
unfolding string_to_slot_id
string_to_slot_id-to_string slot_a = refl
string_to_slot_id-to_string slot_b = refl

pub string_to_slot_state-to_string :
    (s : SlotState) → string_to_slot_state (slot_state_to_string s) ≡ s
unfolding string_to_slot_state
string_to_slot_state-to_string empty = refl
string_to_slot_state-to_string _ = refl
