-- ===== src/Watch/Chars.antt =====
-- `isdigit`, `isalpha`, `isalnum`, `isxdigit` of the C locale, `scstrtoul` on hexadecimal digits.
use squirrel_debug_server.Base.{
  ℕ, ◌+◌, ◌-◌, ◌*◌, Bool, ◌&&◌, ◌||◌, [], ◌∷◌, Text, leb, if◌then◌else◌,
}

abbrev pub is_digit : ℕ → Bool
is_digit c = leb b'0' c && leb c b'9'

abbrev pub is_alpha : ℕ → Bool
is_alpha c = (leb b'a' c && leb c b'z') || (leb b'A' c && leb c b'Z')

abbrev pub is_alnum : ℕ → Bool
is_alnum c = is_alpha c || is_digit c

abbrev pub is_xdigit : ℕ → Bool
is_xdigit c = is_digit c || (leb b'a' c && leb c b'f') || (leb b'A' c && leb c b'F')

abbrev pub hex_digit_value : ℕ → ℕ
hex_digit_value c =
    if is_digit c then c - b'0' else (if leb b'a' c then c - b'a' + 10 else c - b'A' + 10)

-- The number that hexadecimal digits spell, after `n`.
unfoldable pub hex_value : ℕ → Text → ℕ
hex_value n [] = n
hex_value n (c ∷ cs) = hex_value (n * 16 + hex_digit_value c) cs
