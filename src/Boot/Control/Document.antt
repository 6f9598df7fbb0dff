-- ===== src/Boot/Control/Document.antt =====
-- The boot control's file is read back as it was written.
use embedded_linux_ota.Prelude.{
  ℕ, ◌<◌, Bool, true, false, [], ◌∷◌, ◌++◌, Option, some, ◌>>=◌, ◌≡◌, refl, arith, ap, ◌∙◌, sym,
  append_assoc, all, all-append, not, ◌==◌,
}
use embedded_linux_ota.Text.{
  Text, codes, is_empty, find_after, strip_prefix, after_char, before_char, skip_spaces, take_until,
  is_digit,
}
use embedded_linux_ota.Text.Search.{find_after-skip, lacks, before_char-append}
use embedded_linux_ota.Text.Decimal.{
  int_limit, int_to_string, stoi-int_to_string, int_to_string_digits, IsBreak,
}
use embedded_linux_ota.Json.{extract_with, extract_flat_value, value_at}
use embedded_linux_ota.Json.Number.{value_at-int, lacks_quote-int}
use embedded_linux_ota.Slot.State.{SlotId, slot_a, slot_b, slot_id_to_string}
use embedded_linux_ota.Boot.Bootloader.{bool_text, read_slot, read_set}
use embedded_linux_ota.Boot.Bootloader.Document.{behind, read_slot-name, read_set-name}
use embedded_linux_ota.Boot.Control.{
  SimulatedBootControl, Session, boot_head_to_json, boot_tail_to_json, boot_state_to_json,
  attempts_object, read_count, read_counts, read_boot_head, boot_state_from_json,
}

read_current :
    (current : SlotId) (set : Bool) (next : SlotId) (rest : Text)
    → extract_flat_value (boot_head_to_json current set next rest) (codes "current_slot")
      ≡ slot_id_to_string current
unfolding extract_flat_value
read_current slot_a set next rest = refl
read_current slot_b set next rest = refl

read_flag :
    (current : SlotId) (set : Bool) (next : SlotId) (rest : Text)
    → extract_flat_value (boot_head_to_json current set next rest) (codes "next_slot_set")
      ≡ bool_text set
unfolding extract_flat_value
read_flag slot_a true next rest = refl
read_flag slot_a false next rest = refl
read_flag slot_b true next rest = refl
read_flag slot_b false next rest = refl

read_next :
    (current : SlotId) (set : Bool) (next : SlotId) (rest : Text)
    → extract_flat_value (boot_head_to_json current set next rest) (codes "next_slot")
      ≡ slot_id_to_string next
unfolding extract_flat_value
read_next slot_a true slot_a rest = refl
read_next slot_a true slot_b rest = refl
read_next slot_a false slot_a rest = refl
read_next slot_a false slot_b rest = refl
read_next slot_b true slot_a rest = refl
read_next slot_b true slot_b rest = refl
read_next slot_b false slot_a rest = refl
read_next slot_b false slot_b rest = refl

-- The text between the braces of the counters' object, with `rest` behind the second counter.
abbrev counts : ℕ → ℕ → Text → Text
counts a b rest =
    codes "\n    \"A\": "
    ++ (int_to_string a ++ (codes ",\n    \"B\": " ++ (int_to_string b ++ rest)))

lacks_brace-digits : (d : Text) → all is_digit d ≡ true → lacks b'}' d ≡ true
lacks_brace-digits [] h = refl
lacks_brace-digits (c ∷ d) h = ground (arith, lacks_brace-digits d)

lacks_brace-int : (n : ℕ) → n < int_limit → lacks b'}' (int_to_string n) ≡ true
lacks_brace-int n h =
    let (c, t, e, d) = int_to_string_digits n h in rw e (lacks_brace-digits (c ∷ t) d)

counts-append : (a b : ℕ) (x y : Text) → counts a b x ++ y ≡ counts a b (x ++ y)
counts-append a b x y =
    ap (λ t. codes "\n    \"A\": " ++ t)
      (append_assoc (int_to_string a) (codes ",\n    \"B\": " ++ (int_to_string b ++ x)) y
        ∙ ap (λ t. int_to_string a ++ (codes ",\n    \"B\": " ++ t))
            (append_assoc (int_to_string b) x y))

behind_name :
    (current : SlotId) (set : Bool) (next : SlotId) (rest : Text)
    → attempts_object (boot_head_to_json current set next rest)
      ≡ (do v ← before_char b'}' (codes "\n    \"A\": " ++ rest); some (b'{' ∷ (v ++ codes "}")))
unfolding attempts_object strip_prefix
behind_name slot_a true slot_a rest = refl
behind_name slot_a true slot_b rest = refl
behind_name slot_a false slot_a rest = refl
behind_name slot_a false slot_b rest = refl
behind_name slot_b true slot_a rest = refl
behind_name slot_b true slot_b rest = refl
behind_name slot_b false slot_a rest = refl
behind_name slot_b false slot_b rest = refl

lacks_brace-counts :
    (a b : ℕ) → a < int_limit → b < int_limit → lacks b'}' (counts a b (codes "\n  ")) ≡ true
lacks_brace-counts a b ha hb =
    rw
      (all-append (λ c. not (c == b'}')) (int_to_string a)
        (codes ",\n    \"B\": " ++ (int_to_string b ++ codes "\n  ")))
      (rw (lacks_brace-int a ha) (
        rw (all-append (λ c. not (c == b'}')) (int_to_string b) (codes "\n  "))
          (rw (lacks_brace-int b hb) refl)))

-- The object of the counters is cut out whole.
object_read :
    (current : SlotId) (set : Bool) (next : SlotId) (a b : ℕ)
    → a < int_limit
    → b < int_limit
    → attempts_object (boot_head_to_json current set next (boot_tail_to_json a b))
      ≡ some (b'{' ∷ counts a b (codes "\n  }"))
unfolding before_char
object_read current set next a b ha hb =
    behind_name current set next (boot_tail_to_json a b)
    ∙ ap close (
        ap (before_char b'}') (sym (counts-append a b (codes "\n  ") (codes "}\n}")))
        ∙ before_char-append b'}' (counts a b (codes "\n  ")) (codes "\n}")
            (lacks_brace-counts a b ha hb))
    ∙ ap (λ t. some (b'{' ∷ t)) (counts-append a b (codes "\n  ") (codes "}"))
  where
    close : Option Text → Option Text
    close found = do v ← found; some (b'{' ∷ (v ++ codes "}"))

read_count-int :
    (n old : ℕ) (rest : Text)
    → n < int_limit
    → IsBreak rest
    → read_count (int_to_string n ++ rest) old ≡ n
read_count-int n old rest h b =
    let (c, t, e, d) = int_to_string_digits n h in
    let parsed = stoi-int_to_string n rest h b in ground (arith, ap (λ x. is_empty (x ++ rest)) e)

count_a :
    (a b old : ℕ)
    → a < int_limit
    → read_count (extract_flat_value (b'{' ∷ counts a b (codes "\n  }")) (codes "A")) old ≡ a
unfolding extract_flat_value take_until skip_spaces
count_a a b old h =
    ap (λ t. read_count t old)
      (value_at-int _ a (codes ",\n    \"B\": " ++ (int_to_string b ++ codes "\n  }")) h)
    ∙ read_count-int a old [] h tt

find_b :
    (read : Text → Text) (rest : Text)
    → extract_with read (b'{' ∷ (codes "\n    \"A\": " ++ rest)) (codes "B")
      ≡ behind read (find_after (codes "\"B\"") rest)
unfolding extract_with strip_prefix find_after
find_b read rest = refl

read_b :
    (read : Text → Text) (p rest : Text)
    → lacks b'"' p ≡ true
    → extract_with read
        (b'{' ∷ (codes "\n    \"A\": " ++ (p ++ (codes ",\n    \"B\": " ++ rest))))
        (codes "B")
      ≡ value_at read (skip_spaces rest)
unfolding find_after strip_prefix after_char skip_spaces
read_b read p rest h =
    find_b read (p ++ (codes ",\n    \"B\": " ++ rest))
    ∙ ap (behind read) (find_after-skip b'"' (codes "B\"") p (codes ",\n    \"B\": " ++ rest) h)

count_b :
    (a b old : ℕ)
    → a < int_limit
    → b < int_limit
    → read_count (extract_flat_value (b'{' ∷ counts a b (codes "\n  }")) (codes "B")) old ≡ b
unfolding extract_flat_value take_until
count_b a b old ha hb =
    ap (λ t. read_count t old)
      (read_b _ (int_to_string a) (int_to_string b ++ codes "\n  }") (lacks_quote-int a ha)
        ∙ value_at-int _ b (codes "\n  }") hb)
    ∙ read_count-int b old (codes "\n  ") hb refl

module _ {B : Type 0} where
  head_read :
      (bc old : SimulatedBootControl B)
      → read_boot_head (boot_state_to_json bc) old ≡ record old {
        current_slot = bc.current_slot;
        next_slot_set = bc.next_slot_set;
        next_slot = bc.next_slot;
      }
  head_read bc old =
      let tail = boot_tail_to_json bc.boot_attempts_a bc.boot_attempts_b in
      λ i. record old {
        current_slot =
            (ap (λ t. read_slot t old.current_slot)
                  (read_current bc.current_slot bc.next_slot_set bc.next_slot tail)
                ∙ read_slot-name bc.current_slot old.current_slot)
              i;
        next_slot_set =
            (ap (λ t. read_set t old.next_slot_set)
                  (read_flag bc.current_slot bc.next_slot_set bc.next_slot tail)
                ∙ read_set-name bc.next_slot_set old.next_slot_set)
              i;
        next_slot =
            (ap (λ t. read_slot t old.next_slot)
                  (read_next bc.current_slot bc.next_slot_set bc.next_slot tail)
                ∙ read_slot-name bc.next_slot old.next_slot)
              i;
      }

  counts_from :
      (json obj : Text) (old : SimulatedBootControl B)
      → attempts_object json ≡ some obj
      → read_counts json old ≡ record old {
        boot_attempts_a = read_count (extract_flat_value obj (codes "A")) old.boot_attempts_a;
        boot_attempts_b = read_count (extract_flat_value obj (codes "B")) old.boot_attempts_b;
      }
  unfolding read_counts
  counts_from json obj old h = rw (h, read_counts) refl

  -- The state of a boot control is read back from its file: both slots, the pending boot and the
  -- counters, which are not negative.
  pub boot_state_from_json-boot_state_to_json :
      (bc : SimulatedBootControl B) (s : Session B)
      → bc.boot_attempts_a < int_limit
      → bc.boot_attempts_b < int_limit
      → boot_state_from_json (boot_state_to_json bc) s ≡ (
        record s {
          bc = record bc {
            boot_state_dir = s.bc.boot_state_dir;
            boot_state_file = s.bc.boot_state_file;
            bootloader = s.bc.bootloader;
          };
        },
        true,
      )
  unfolding boot_state_from_json
  boot_state_from_json-boot_state_to_json bc s ha hb =
      let json = boot_state_to_json bc in
      let a = bc.boot_attempts_a in
      let b = bc.boot_attempts_b in
      let headed = record s.bc {
        current_slot = bc.current_slot;
        next_slot_set = bc.next_slot_set;
        next_slot = bc.next_slot;
      } in
      ap (λ x. (record s { bc = read_counts json x }, true)) (head_read bc s.bc)
      ∙ ap (λ x. (record s { bc = x }, true))
          (counts_from json _ headed
              (object_read bc.current_slot bc.next_slot_set bc.next_slot a b ha hb)
            ∙ (λ i. record headed {
              boot_attempts_a = count_a a b s.bc.boot_attempts_a ha i;
              boot_attempts_b = count_b a b s.bc.boot_attempts_b ha hb i;
            }))
