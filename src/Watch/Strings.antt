-- ===== src/Watch/Strings.antt =====
-- `ReadString`, `ReadNumber` and `ReadIdentifier`. An iterator is the text from it to the end.
use squirrel_debug_server.Base.{
  ℕ, zero, suc, ◌%◌, Bool, ◌&&◌, ◌||◌, [], ◌∷◌, ◌++◌, Text, length, ltb, ◌==◌, if◌then◌else◌,
}
use squirrel_debug_server.Watch.{
  eof_in_string, hex_expected, unknown_escape, newline_in_string, Outcome, parsed, failed, crash,
  out_of_fuel, and_parse,
}
use squirrel_debug_server.Watch.Chars.{is_digit, is_alnum, is_xdigit, hex_value}

-- `dest[n] = c`.
unfoldable pub put : ℕ → ℕ → Text → Text
put n c [] = []
put zero c (x ∷ dest) = c ∷ dest
put (suc n) c (x ∷ dest) = x ∷ put n c dest

-- The loop of `processStringEscape`: digits are written to `dest` from its front, `n` so far, at most
-- `max_digits`. A write behind the end of `dest` is undefined.
unfoldable pub hex_loop : ℕ → ℕ → Text → Text → Outcome Text
hex_loop n max_digits dest [] = failed eof_in_string []
hex_loop n max_digits dest (c ∷ t) =
    let rest = hex_loop (suc n) max_digits (put n c dest) t in
    if is_xdigit c && ltb n max_digits
    then (if ltb n (length dest) then rest else crash)
    else parsed dest (c ∷ t)

-- `processStringEscape`, from the escape's letter on.
unfoldable pub process_string_escape : ℕ → Text → Text → Outcome Text
unfolding hex_loop
process_string_escape max_digits dest [] = failed eof_in_string []
process_string_escape max_digits dest (c ∷ t) =
    if is_xdigit c then hex_loop 0 max_digits dest (c ∷ t) else failed hex_expected (c ∷ t)

abbrev zeros : ℕ → Text
zeros zero = []
zeros (suc n) = b'0' ∷ zeros n

-- The character that hexadecimal digits name, cut to a byte: `static_cast<SQChar>`.
abbrev pub escaped_byte : Text → ℕ
escaped_byte digits = hex_value 0 digits % 256

-- A loop step ends in `++pos`, which skips one character of what is left.
abbrev pub skip : Text → Text
skip [] = []
skip (c ∷ t) = t

-- `\x`, `\u`, `\U`: the buffer's size, and the number of digits that the reader allows. For `\u` the
-- buffer has four and the reader allows eight.
unfoldable pub read_hex : ℕ → ℕ → Text → Outcome ℕ
unfolding process_string_escape
read_hex size max_digits t =
    and_parse (process_string_escape max_digits (zeros size) t)
      (λ digits rest. parsed (escaped_byte digits) (skip rest))

-- The escape at a letter: the byte it stands for, and the text behind it.
unfoldable pub read_escape : Text → Outcome ℕ
read_escape [] = failed eof_in_string []
read_escape (c ∷ t) =
    if c == b't'
    then parsed 9 t
    else (if c == b'a'
        then parsed 7 t
        else (if c == b'b'
            then parsed 8 t
            else (if c == b'n'
                then parsed 10 t
                else (if c == b'r'
                    then parsed 13 t
                    else (if c == b'v'
                        then parsed 11 t
                        else (if c == b'f'
                            then parsed 12 t
                            else (if c == b'0'
                                then parsed 0 t
                                else (if c == b'\\' || c == b'"' || c == b'\''
                                    then parsed c t
                                    else (if c == b'x'
                                        then read_hex 2 2 t
                                        else (if c == b'u'
                                            then read_hex 4 8 t
                                            else (if c == b'U'
                                                then read_hex 8 8 t
                                                else failed unknown_escape (c ∷ t))))))))))))

-- The loop of `ReadString`, with the output so far. At the end of the text it returns what it has.
unfoldable pub string_loop : ℕ → ℕ → Text → Text → Outcome Text
string_loop zero enclosing output t = out_of_fuel
string_loop (suc f) enclosing output [] = parsed output []
string_loop (suc f) enclosing output (c ∷ t) =
    let escaped =
      and_parse (read_escape t) (λ byte rest. string_loop f enclosing (output ++ byte ∷ []) rest) in
    let plain = string_loop f enclosing (output ++ c ∷ []) t in
    if c == b'\\'
    then escaped
    else (if c == b'"' || c == b'\''
        then (if c == enclosing then parsed output t else plain)
        else (if c == b'\n' then failed newline_in_string (c ∷ t) else plain))

-- From the opening quote on.
unfoldable pub read_string : ℕ → Text → Outcome Text
unfolding string_loop
read_string f [] = parsed [] []
read_string f (enclosing ∷ t) = string_loop f enclosing [] t

-- The longest prefix of accepted characters, and the rest.
unfoldable pub span : (ℕ → Bool) → Text → Text × Text
span accept [] = ([], [])
span accept (c ∷ t) = if accept c then (c ∷ (span accept t).0, (span accept t).1) else ([], c ∷ t)

unfoldable pub read_number : Text → Text × Text
unfolding span
read_number = span is_digit

abbrev pub is_word : ℕ → Bool
is_word c = is_alnum c || c == b'_'

unfoldable pub read_identifier : Text → Text × Text
unfolding span
read_identifier = span is_word
