-- ===== src/Json/Tests.antt =====
-- Escapes on concrete values.
use embedded_linux_ota.Prelude.{◌≡◌}
use embedded_linux_ota.Text.{codes}
use embedded_linux_ota.Json.{escape_json_string, unescape_json_string}
use embedded_linux_ota.Json.Escape.{unescape-escape}

unescape-escape_instance :
    unescape_json_string (escape_json_string (codes "a\\n\"b\"\n")) ≡ codes "a\\n\"b\"\n"
unescape-escape_instance = unescape-escape (codes "a\\n\"b\"\n")
