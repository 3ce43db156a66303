-- ===== src/Watch/Escapes.antt =====
-- What `ReadString` does with hexadecimal escapes and with a string that is not closed.
use squirrel_debug_server.Base.{
  ℕ, suc, ◌+◌, ◌*◌, ◌%◌, ◌<◌, ◌≡◌, ap, true, false, [], ◌∷◌, ◌++◌, Text, length, arith, Bool-cases,
  inl, inr,
}
use squirrel_debug_server.Watch.{parsed, crash}
use squirrel_debug_server.Watch.Chars.{is_xdigit, hex_digit_value, hex_value}
use squirrel_debug_server.Watch.Strings.{
  string_loop, read_string, read_escape, read_hex, put, escaped_byte,
}
use squirrel_debug_server.Watch.Print.{escape}
use squirrel_debug_server.Watch.StringTrip.{string_loop-unclosed}

-- A `\x` escape of two digits gives their byte and then loses the next character, whatever it is: a
-- closing quote too.
pub hex_escape_skips :
    (f enclosing : ℕ) (output : Text) (h₁ h₂ c : ℕ) (t : Text)
    → is_xdigit h₁ ≡ true
    → is_xdigit h₂ ≡ true
    → string_loop (suc f) enclosing output (b'\\' ∷ b'x' ∷ h₁ ∷ h₂ ∷ c ∷ t)
      ≡ string_loop f enclosing (output ++ escaped_byte (h₁ ∷ h₂ ∷ []) ∷ []) t
unfolding string_loop read_escape read_hex put
hex_escape_skips f enclosing output h₁ h₂ c t p q =
    rw (p, q) (elim (Bool-cases (is_xdigit c)) [ inl e ↦ rw e | inr e ↦ rw e ])

one_digit_byte : (v : ℕ) → ((0 * 16 + v) * 16 + 0) % 256 ≡ (v * 16) % 256
one_digit_byte v = omega arith

-- A `\x` escape of one hexadecimal digit, before a character that is none, gives sixteen times the
-- digit's value, and that character is lost.
pub hex_escape_one_digit :
    (f enclosing : ℕ) (output : Text) (h c : ℕ) (t : Text)
    → is_xdigit h ≡ true
    → is_xdigit c ≡ false
    → string_loop (suc f) enclosing output (b'\\' ∷ b'x' ∷ h ∷ c ∷ t)
      ≡ string_loop f enclosing (output ++ (hex_digit_value h * 16) % 256 ∷ []) t
unfolding string_loop read_escape read_hex put hex_value
hex_escape_one_digit f enclosing output h c t p q =
    rw (p, q)
      (ap (λ n. string_loop f enclosing (output ++ n ∷ []) t) (one_digit_byte (hex_digit_value h)))

-- A `\u` escape of five hexadecimal digits writes behind the end of its buffer.
pub unicode_escape_overflows :
    (f enclosing : ℕ) (output : Text) (h₁ h₂ h₃ h₄ h₅ : ℕ) (t : Text)
    → is_xdigit h₁ ≡ true
    → is_xdigit h₂ ≡ true
    → is_xdigit h₃ ≡ true
    → is_xdigit h₄ ≡ true
    → is_xdigit h₅ ≡ true
    → string_loop (suc f) enclosing output (b'\\' ∷ b'u' ∷ h₁ ∷ h₂ ∷ h₃ ∷ h₄ ∷ h₅ ∷ t) ≡ crash
unfolding string_loop read_escape read_hex put
unicode_escape_overflows f enclosing output h₁ h₂ h₃ h₄ h₅ t p q r s u = rw (p, q, r, s, u)

-- A string that is never closed is read to the end of the text without an error.
pub unclosed_string :
    (f : ℕ) (s : Text) → length s < f → read_string f (b'"' ∷ escape s) ≡ parsed s []
unfolding read_string
unclosed_string f s h = string_loop-unclosed f [] s h
