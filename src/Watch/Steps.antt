-- ===== src/Watch/Steps.antt =====
-- One step of `ParseExpression`'s loop for each kind of thing that an expression is made of.
use squirrel_debug_server.Base.{
  ℕ, suc, ◌<◌, ◌≡◌, refl, ◌∙◌, true, false, ◌||◌, List, [], ◌∷◌, ◌++◌, Text, length, arith, ◌==◌,
}
use squirrel_debug_server.Watch.{
  ExpressionNode, node_type, Accessor, undefined, identifier, string, parsed, and_parse,
}
use squirrel_debug_server.Watch.Chars.{is_digit, is_alpha}
use squirrel_debug_server.Watch.Strings.{read_string, read_number, read_identifier, is_word}
use squirrel_debug_server.Watch.Parser.{
  Current, fresh, root, read_dot, read_word, read_accessor, parse_loop, is_type,
}
use squirrel_debug_server.Watch.Print.{
  Watch, Suffixes, named, quoted, quoted_index, numeral, stop, field, index, IsName, IsNumeral,
  escape, print, print_suffixes, to_node, name_node, string_node, number_node, index_node,
}
use squirrel_debug_server.Watch.StringTrip.{string_loop-escape, Stops, span-append}

-- What ends an expression: the end of the text, or a closing bracket with what follows it.
pub data Terminator : Type 0 where
  at_end : Terminator
  at_bracket : Text → Terminator

abbrev pub ending : Terminator → Text
ending at_end = []
ending (at_bracket r) = b']' ∷ r

abbrev pub remainder : Terminator → Text
remainder at_end = []
remainder (at_bracket r) = r

-- One step of the loop, by the character at hand.
pub loop_dot :
    (f : ℕ) (before : List Current) (value : Text) (a : Accessor) (t : Text)
    → let c : Current = record { value = value; accessor_expression = a; type = identifier } in
      parse_loop (suc f) before c (b'.' ∷ t)
      ≡ and_parse (read_dot t) (λ n rest. parse_loop f (c ∷ before) n rest)
unfolding parse_loop
loop_dot f before value a t = refl

pub loop_bracket :
    (f : ℕ) (before : List Current) (c : Current) (t : Text)
    → (is_type c.type string || is_type c.type identifier) ≡ true
    → parse_loop (suc f) before c (b'[' ∷ t)
      ≡ and_parse (parse_loop f [] fresh t) (λ e rest.
        and_parse (read_accessor e rest) (λ n rest'. parse_loop f (c ∷ before) n rest'))
unfolding parse_loop
loop_bracket f before c t h = rw h

pub loop_end :
    (f : ℕ) (before : List Current) (c : Current) (z : Terminator)
    → is_type c.type undefined ≡ false
    → parse_loop (suc f) before c (ending z) ≡ parsed (root before c) (remainder z)
unfolding parse_loop
loop_end f before c at_end h = refl
loop_end f before c (at_bracket r) h = rw h

pub loop_quote :
    (f : ℕ) (before : List Current) (t : Text)
    → parse_loop (suc f) before fresh (b'"' ∷ t)
      ≡ and_parse
          (read_string (suc f) (b'"' ∷ t))
          (λ s rest. parse_loop f before (string_node s) rest)
unfolding parse_loop
loop_quote f before t = refl

-- A word, at a character that starts one.
pub loop_word :
    (f : ℕ) (before : List Current) (x : ℕ) (t : Text)
    → (is_alpha x || x == b'_' || is_digit x) ≡ true
    → parse_loop (suc f) before fresh (x ∷ t)
      ≡ and_parse
          (read_word x (x ∷ t))
          (λ w rest. parse_loop f before (record fresh { value = w.value; type = w.type }) rest)
unfolding parse_loop
loop_word f before x t h = ground arith

pub suffixes-Stop : (s : Suffixes) (z : Terminator) → Stops is_word (print_suffixes s ++ ending z)
unfolding print
suffixes-Stop stop at_end = tt
suffixes-Stop stop (at_bracket r) = refl
suffixes-Stop (field n s) z = refl
suffixes-Stop (index e s) z = refl

pub ending-Stops : (z : Terminator) → Stops is_digit (ending z)
ending-Stops at_end = tt
ending-Stops (at_bracket r) = refl

pub read_word-name :
    (x : ℕ) (n r : Text)
    → IsName (x ∷ n)
    → Stops is_word r
    → read_word x (x ∷ n ++ r) ≡ parsed (name_node (x ∷ n)) r
unfolding read_word read_identifier
read_word-name x n r (h, hs) stops =
    rw (span-append is_word (x ∷ n) r (ground arith, hs) stops) (ground arith)

-- A name, after which something else follows.
pub loop_name :
    (f : ℕ) (before : List Current) (n r : Text)
    → IsName n
    → Stops is_word r
    → parse_loop (suc f) before fresh (n ++ r) ≡ parse_loop f before (name_node n) r
loop_name f before [] r h stops = absurd h
loop_name f before (x ∷ n) r h stops =
    loop_word f before x (n ++ r) (ground (arith, h.0)) ∙ rw (read_word-name x n r h stops)

pub loop_numeral :
    (f : ℕ) (before : List Current) (n r : Text)
    → IsNumeral n
    → Stops is_digit r
    → parse_loop (suc f) before fresh (n ++ r) ≡ parse_loop f before (number_node n) r
unfolding read_word read_number
loop_numeral f before [] r h stops = absurd h
loop_numeral f before (x ∷ n) r h stops =
    loop_word f before x (n ++ r) (ground (arith, h.0))
    ∙ rw (h.0, span-append is_digit n r h.1 stops)

pub loop_string :
    (f : ℕ) (before : List Current) (s r : Text)
    → length s < suc f
    → parse_loop (suc f) before fresh (b'"' ∷ (escape s ++ b'"' ∷ r))
      ≡ parse_loop f before (string_node s) r
unfolding read_string
loop_string f before s r h =
    loop_quote f before (escape s ++ b'"' ∷ r) ∙ rw (string_loop-escape (suc f) [] s r h)

pub read_dot-name : (n r : Text) → IsName n → read_dot (n ++ r) ≡ parsed fresh (n ++ r)
unfolding read_dot
read_dot-name [] r h = absurd h
read_dot-name (x ∷ n) r h = rw h.0

-- `.` and a name.
pub loop_field :
    (f : ℕ) (before : List Current) (value : Text) (a : Accessor) (n r : Text)
    → IsName n
    → Stops is_word r
    → let c : Current = record { value = value; accessor_expression = a; type = identifier } in
      parse_loop (suc (suc f)) before c (b'.' ∷ (n ++ r))
      ≡ parse_loop f (c ∷ before) (name_node n) r
loop_field f before value a n r h stops =
    let c : Current = record { value = value; accessor_expression = a; type = identifier } in
    loop_dot (suc f) before value a (n ++ r)
    ∙ rw (read_dot-name n r h) (loop_name f (c ∷ before) n r h stops)

-- `[`, an expression and `]`.
pub loop_index :
    (f : ℕ) (before : List Current) (c : Current) (t r : Text) (e : ExpressionNode)
    → (is_type c.type string || is_type c.type identifier) ≡ true
    → is_type (node_type e) undefined ≡ false
    → parse_loop f [] fresh t ≡ parsed e r
    → parse_loop (suc f) before c (b'[' ∷ t) ≡ parse_loop f (c ∷ before) (index_node e) r
unfolding read_accessor
loop_index f before c t r e h typed inner = loop_bracket f before c t h ∙ rw inner (rw typed refl)

pub to_node-typed : (e : Watch) → is_type (node_type (to_node e)) undefined ≡ false
unfolding to_node
to_node-typed (named n stop) = refl
to_node-typed (named n (field m s)) = refl
to_node-typed (named n (index e s)) = refl
to_node-typed (quoted t) = refl
to_node-typed (quoted_index t e s) = refl
to_node-typed (numeral t) = refl

pub name-cons : (n : Text) → IsName n → 0 < length n
name-cons [] h = absurd h
name-cons (x ∷ n) h = omega arith

pub numeral-cons : (n : Text) → IsNumeral n → 0 < length n
numeral-cons [] h = absurd h
numeral-cons (x ∷ n) h = omega arith
