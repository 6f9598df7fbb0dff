-- ===== src/Boot/Bootloader/Document.antt =====
-- The bootloader's file is read back as it was written.
use embedded_linux_ota.Prelude.{
  ℕ, ◌<◌, Bool, true, false, [], ◌++◌, Option, some, ◌>>=◌, ◌≡◌, refl, arith, ap, ◌∙◌, get_or,
}
use embedded_linux_ota.Text.{
  Text, codes, text_eq, is_empty, find_after, strip_prefix, after_char, skip_spaces, take_until,
}
use embedded_linux_ota.Text.Search.{find_after-skip, lacks}
use embedded_linux_ota.Text.Decimal.{
  int_limit, int_to_string, stoi-int_to_string, int_to_string_digits, IsBreak,
}
use embedded_linux_ota.Json.{extract_with, extract_flat_value, value_at}
use embedded_linux_ota.Json.Number.{value_at-int, lacks_quote-int}
use embedded_linux_ota.Slot.State.{
  SlotId, slot_a, slot_b, slot_id_to_string, string_to_slot_id-to_string,
}
use embedded_linux_ota.Boot.Bootloader.{
  SimulatedBootloader, Session, no_error, bool_text, head_to_json, tail_to_json, state_to_json,
  read_attempts, read_slot, read_set, read_head, read_counters, state_from_json,
}

read_current :
    (current next : SlotId) (set : Bool) (rest : Text)
    → extract_flat_value (head_to_json current next set rest) (codes "current_slot")
      ≡ slot_id_to_string current
unfolding extract_flat_value
read_current slot_a next set rest = refl
read_current slot_b next set rest = refl

read_next :
    (current next : SlotId) (set : Bool) (rest : Text)
    → extract_flat_value (head_to_json current next set rest) (codes "next_boot_slot")
      ≡ slot_id_to_string next
unfolding extract_flat_value
read_next slot_a slot_a set rest = refl
read_next slot_a slot_b set rest = refl
read_next slot_b slot_a set rest = refl
read_next slot_b slot_b set rest = refl

read_flag :
    (current next : SlotId) (set : Bool) (rest : Text)
    → extract_flat_value (head_to_json current next set rest) (codes "next_boot_slot_set")
      ≡ bool_text set
unfolding extract_flat_value
read_flag slot_a slot_a true rest = refl
read_flag slot_a slot_a false rest = refl
read_flag slot_a slot_b true rest = refl
read_flag slot_a slot_b false rest = refl
read_flag slot_b slot_a true rest = refl
read_flag slot_b slot_a false rest = refl
read_flag slot_b slot_b true rest = refl
read_flag slot_b slot_b false rest = refl

module _ (read : Text → Text) where
  read_a :
      (current next : SlotId) (set : Bool) (rest : Text)
      → extract_with read (head_to_json current next set rest) (codes "boot_attempts_a")
        ≡ value_at read (skip_spaces rest)
  unfolding extract_with
  read_a slot_a slot_a true rest = refl
  read_a slot_a slot_a false rest = refl
  read_a slot_a slot_b true rest = refl
  read_a slot_a slot_b false rest = refl
  read_a slot_b slot_a true rest = refl
  read_a slot_b slot_a false rest = refl
  read_a slot_b slot_b true rest = refl
  read_a slot_b slot_b false rest = refl

  -- What stands behind the key, where there is one.
  abbrev pub behind : Option Text → Text
  behind found =
      get_or [] (do r ← found; v ← after_char b':' r; some (value_at read (skip_spaces v)))

  -- The key of the second counter is not found before the first counter's value.
  find_b :
      (current next : SlotId) (set : Bool) (rest : Text)
      → extract_with read (head_to_json current next set rest) (codes "boot_attempts_b")
        ≡ behind (find_after (codes "\"boot_attempts_b\"") rest)
  unfolding extract_with
  find_b slot_a slot_a true rest = refl
  find_b slot_a slot_a false rest = refl
  find_b slot_a slot_b true rest = refl
  find_b slot_a slot_b false rest = refl
  find_b slot_b slot_a true rest = refl
  find_b slot_b slot_a false rest = refl
  find_b slot_b slot_b true rest = refl
  find_b slot_b slot_b false rest = refl

  read_b :
      (current next : SlotId) (set : Bool) (p rest : Text)
      → lacks b'"' p ≡ true
      → extract_with read
          (head_to_json current next set (p ++ (codes ",\n  \"boot_attempts_b\": " ++ rest)))
          (codes "boot_attempts_b")
        ≡ value_at read (skip_spaces rest)
  unfolding find_after strip_prefix after_char skip_spaces
  read_b current next set p rest h =
      find_b current next set (p ++ (codes ",\n  \"boot_attempts_b\": " ++ rest))
      ∙ ap behind (
          find_after-skip b'"' (codes "boot_attempts_b\"") p
            (codes ",\n  \"boot_attempts_b\": " ++ rest) h)

slot_name_full : (s : SlotId) → is_empty (slot_id_to_string s) ≡ false
slot_name_full slot_a = refl
slot_name_full slot_b = refl

pub read_slot-name : (s old : SlotId) → read_slot (slot_id_to_string s) old ≡ s
read_slot-name s old = rw (slot_name_full s) (string_to_slot_id-to_string s)

pub read_set-name : (b old : Bool) → read_set (bool_text b) old ≡ b
unfolding text_eq
read_set-name true old = refl
read_set-name false old = refl

-- A counter's text with what follows it up to a comma or a brace.
read_attempts-int :
    (n old : ℕ) (rest : Text)
    → n < int_limit
    → IsBreak rest
    → read_attempts (int_to_string n ++ rest) old ≡ some n
read_attempts-int n old rest h b =
    let (c, t, e, d) = int_to_string_digits n h in
    let parsed = stoi-int_to_string n rest h b in ground (arith, ap (λ x. is_empty (x ++ rest)) e)

module _ (bl : SimulatedBootloader) (small_a : bl.boot_attempts_a < int_limit)
    (small_b : bl.boot_attempts_b < int_limit) where
  attempts_a :
      (old : ℕ)
      → read_attempts (extract_flat_value (state_to_json bl) (codes "boot_attempts_a")) old
        ≡ some bl.boot_attempts_a
  unfolding extract_flat_value take_until
  attempts_a old =
      ap (λ t. read_attempts t old)
        (read_a _ bl.current_slot bl.next_boot_slot bl.next_boot_slot_set _
          ∙ value_at-int _ bl.boot_attempts_a _ small_a)
      ∙ read_attempts-int bl.boot_attempts_a old [] small_a tt

  attempts_b :
      (old : ℕ)
      → read_attempts (extract_flat_value (state_to_json bl) (codes "boot_attempts_b")) old
        ≡ some bl.boot_attempts_b
  unfolding extract_flat_value take_until
  attempts_b old =
      ap (λ t. read_attempts t old)
        (read_b _ bl.current_slot bl.next_boot_slot bl.next_boot_slot_set
            (int_to_string bl.boot_attempts_a) _ (lacks_quote-int bl.boot_attempts_a small_a)
          ∙ value_at-int _ bl.boot_attempts_b _ small_b)
      ∙ read_attempts-int bl.boot_attempts_b old (codes "\n") small_b refl

-- What a bootloader keeps from another one's file: all but the place of its own file.
abbrev pub restored : SimulatedBootloader → SimulatedBootloader → SimulatedBootloader
restored bl old = record bl {
  state_dir = old.state_dir;
  state_file = old.state_file;
  last_error = no_error;
}

head_read :
    (bl old : SimulatedBootloader)
    → read_head (state_to_json bl) old ≡ record old {
      current_slot = bl.current_slot;
      next_boot_slot = bl.next_boot_slot;
      next_boot_slot_set = bl.next_boot_slot_set;
    }
head_read bl old = λ i. record old {
  current_slot =
      (ap (λ t. read_slot t old.current_slot)
            (read_current bl.current_slot bl.next_boot_slot bl.next_boot_slot_set
              (tail_to_json bl.boot_attempts_a bl.boot_attempts_b))
          ∙ read_slot-name bl.current_slot old.current_slot)
        i;
  next_boot_slot =
      (ap (λ t. read_slot t old.next_boot_slot)
            (read_next bl.current_slot bl.next_boot_slot bl.next_boot_slot_set
              (tail_to_json bl.boot_attempts_a bl.boot_attempts_b))
          ∙ read_slot-name bl.next_boot_slot old.next_boot_slot)
        i;
  next_boot_slot_set =
      (ap (λ t. read_set t old.next_boot_slot_set)
            (read_flag bl.current_slot bl.next_boot_slot bl.next_boot_slot_set
              (tail_to_json bl.boot_attempts_a bl.boot_attempts_b))
          ∙ read_set-name bl.next_boot_slot_set old.next_boot_slot_set)
        i;
}

counters_read :
    (json : Text) (a b : ℕ) (s : Session)
    → read_attempts (extract_flat_value json (codes "boot_attempts_a")) s.bl.boot_attempts_a
      ≡ some a
    → read_attempts (extract_flat_value json (codes "boot_attempts_b")) s.bl.boot_attempts_b
      ≡ some b
    → read_counters json s ≡ (
      record s {
        bl = record s.bl { boot_attempts_a = a; boot_attempts_b = b; last_error = no_error };
      },
      true,
    )
unfolding read_counters
counters_read json a b s ea eb = rw (ea, read_counters) (rw eb refl)

-- Reading what a bootloader wrote gives back its slots, its pending boot and both counters.
pub state_from_json-state_to_json :
    (bl : SimulatedBootloader) (s : Session)
    → bl.boot_attempts_a < int_limit
    → bl.boot_attempts_b < int_limit
    → state_from_json (state_to_json bl) s ≡ (record s { bl = restored bl s.bl }, true)
unfolding state_from_json
state_from_json-state_to_json bl s small_a small_b =
    ap (λ b. read_counters (state_to_json bl) (record s { bl = b })) (head_read bl s.bl)
    ∙ counters_read (state_to_json bl) bl.boot_attempts_a bl.boot_attempts_b
        (record s {
          bl = record s.bl {
            current_slot = bl.current_slot;
            next_boot_slot = bl.next_boot_slot;
            next_boot_slot_set = bl.next_boot_slot_set;
          };
        })
        (attempts_a bl small_a small_b s.bl.boot_attempts_a)
        (attempts_b bl small_a small_b s.bl.boot_attempts_b)
