-- ===== src/Text/Tests.antt =====
-- Numbers and escapes on concrete values.
use embedded_linux_ota.Prelude.{some, ◌≡◌, refl, arith, ◌++◌}
use embedded_linux_ota.Text.{codes}
use embedded_linux_ota.Text.Decimal.{int_to_string, stoi, stoi-int_to_string}

number_read_back : stoi (int_to_string 4242 ++ codes "\n}") ≡ some 4242
number_read_back = stoi-int_to_string 4242 (codes "\n}") (omega arith) refl
