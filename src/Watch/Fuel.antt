-- ===== src/Watch/Fuel.antt =====
-- The readers end: fuel above the length of the text is enough, and what is left is no longer.
use squirrel_debug_server.Base.{
  ℕ, zero, suc, ◌≤◌, ◌<◌, ◌≡◌, ◌≢◌, refl, Bool, true, false, ◌&&◌, ◌||◌, List, [], ◌∷◌, ◌++◌, Text,
  length, arith, ltb, ◌==◌, if◌then◌else◌,
}
use squirrel_debug_server.Watch.{
  Message, ExpressionNode, node_type, Outcome, parsed, failed, crash, out_of_fuel, and_parse,
  identifier, string, undefined,
}
use squirrel_debug_server.Watch.Chars.{is_digit, is_alpha, is_xdigit}
use squirrel_debug_server.Watch.Strings.{
  hex_loop, process_string_escape, read_hex, read_escape, string_loop, read_string, span,
  read_number, read_identifier, put, skip, is_word,
}
use squirrel_debug_server.Watch.Parser.{
  Current, fresh, read_dot, read_word, read_accessor, parse_loop, parse_watch, is_type, whole,
}

-- The fuel was enough, and at most `n` characters are left.
pub data Within {A : Type 0} (n : ℕ) : Outcome A → Type 0 where
  left : {a : A} {rest : Text} → length rest ≤ n → Within n (parsed a rest)
  threw : {e : Message} {at : Text} → Within n (failed e at)
  crashed : Within n crash

Within-and_parse :
    {A B : Type 0} {n m : ℕ} {r : Outcome A} {f : A → Text → Outcome B}
    → Within n r
    → ((a : A) (rest : Text) → length rest ≤ n → Within m (f a rest))
    → Within m (and_parse r f)
Within-and_parse (left {a} {rest} w) k = k a rest w
Within-and_parse threw k = threw
Within-and_parse crashed k = crashed

Within-if :
    {A : Type 0} {n : ℕ} (b : Bool) {x y : Outcome A}
    → (b ≡ true → Within n x)
    → (b ≡ false → Within n y)
    → Within n (if b then x else y)
Within-if true hx hy = hx refl
Within-if false hx hy = hy refl

Within-mono : {A : Type 0} {n m : ℕ} {r : Outcome A} → Within n r → n ≤ m → Within m r
Within-mono (left w) h = left (omega arith)
Within-mono threw h = threw
Within-mono crashed h = crashed

skip-le : (t : Text) (n : ℕ) → length t ≤ n → length (skip t) ≤ n
skip-le [] n h = h
skip-le (c ∷ t) n h = omega arith

hex_loop-Within : (n max : ℕ) (dest t : Text) → Within (length t) (hex_loop n max dest t)
unfolding hex_loop
hex_loop-Within n max dest [] = threw
hex_loop-Within n max dest (c ∷ t) =
    Within-if (is_xdigit c && ltb n max)
      (λ _.
        Within-if (ltb n (length dest))
          (λ _. Within-mono (hex_loop-Within (suc n) max (put n c dest) t) (omega arith))
          (λ _. crashed))
      (λ _. left (omega arith))

process-Within : (max : ℕ) (dest t : Text) → Within (length t) (process_string_escape max dest t)
unfolding process_string_escape
process-Within max dest [] = threw
process-Within max dest (c ∷ t) =
    Within-if (is_xdigit c) (λ _. hex_loop-Within 0 max dest (c ∷ t)) (λ _. threw)

read_hex-Within : (size max : ℕ) (t : Text) → Within (length t) (read_hex size max t)
unfolding read_hex
read_hex-Within size max t =
    Within-and_parse (process-Within max _ t) λ digits rest h. left (skip-le rest (length t) h)

-- An escape of one letter, or the ones after it.
one_letter :
    (t : Text) (byte : ℕ) (b : Bool) {y : Outcome ℕ}
    → Within (length t) y
    → Within (length t) (if b then parsed byte t else y)
one_letter t byte b w = Within-if b (λ _. left (omega arith)) (λ _. w)

read_escape-Within : (c : ℕ) (t : Text) → Within (length t) (read_escape (c ∷ t))
unfolding read_escape
read_escape-Within c t = one_letter t 9 (c == b't') (
    one_letter t 7 (c == b'a') (
      one_letter t 8 (c == b'b') (
        one_letter t 10 (c == b'n') (
          one_letter t 13 (c == b'r') (
            one_letter t 11 (c == b'v') (
              one_letter t 12 (c == b'f') (
                one_letter t 0 (c == b'0') (
                  one_letter t c (c == b'\\' || c == b'"' || c == b'\'') (
                    Within-if (c == b'x') (λ _. read_hex-Within 2 2 t)
                      (λ _.
                        Within-if (c == b'u') (λ _. read_hex-Within 4 8 t)
                          (λ _.
                            Within-if (c == b'U') (λ _. read_hex-Within 8 8 t)
                              (λ _. threw))))))))))))

read_escape-shorter : (t : Text) (n : ℕ) → length t ≤ suc n → Within n (read_escape t)
read_escape-shorter [] n h = unfold read_escape in threw
read_escape-shorter (c ∷ t) n h = Within-mono (read_escape-Within c t) (omega arith)

string_loop-Within :
    (f enclosing : ℕ) (output t : Text)
    → length t < f
    → Within (length t) (string_loop f enclosing output t)
unfolding string_loop
string_loop-Within zero enclosing output t h = absurd (omega arith)
string_loop-Within (suc f) enclosing output [] h = left (omega arith)
string_loop-Within (suc f) enclosing output (c ∷ t) h =
    let plain : Within (suc (length t)) (string_loop f enclosing (output ++ c ∷ []) t) =
      Within-mono (string_loop-Within f enclosing (output ++ c ∷ []) t (omega arith))
        (omega arith) in
    Within-if (c == b'\\')
      (λ _. Within-and_parse (read_escape-shorter t (length t) (omega arith)) λ byte rest short.
        Within-mono (string_loop-Within f enclosing (output ++ byte ∷ []) rest (omega arith))
          (omega arith))
      (λ _.
        Within-if (c == b'"' || c == b'\'')
          (λ _. Within-if (c == enclosing) (λ _. left (omega arith)) (λ _. plain))
          (λ _. Within-if (c == b'\n') (λ _. threw) (λ _. plain)))

-- A string takes its opening quote at least.
pub read_string-Within :
    (f c : ℕ) (t : Text) → length t < f → Within (length t) (read_string f (c ∷ t))
unfolding read_string
read_string-Within f c t h = string_loop-Within f c [] t h

span-le : (accept : ℕ → Bool) (t : Text) → length (span accept t).1 ≤ length t
unfolding span
span-le accept [] = omega arith
span-le accept (c ∷ t) = ground (arith, span-le accept t)

span-lt :
    (accept : ℕ → Bool) (c : ℕ) (t : Text)
    → accept c ≡ true
    → length (span accept (c ∷ t)).1 ≤ length t
unfolding span
span-lt accept c t h = ground (arith, span-le accept t)

read_word-Within : (x : ℕ) (t : Text) → Within (length t) (read_word x (x ∷ t))
unfolding read_word read_number read_identifier
read_word-Within x t =
    Within-if (is_digit x) (λ d. left (span-lt is_digit x t d))
      (λ _.
        Within-if (is_alpha x || x == b'_') (λ w. left (span-lt is_word x t (ground arith)))
          (λ _. threw))

read_dot-Within : (t : Text) → Within (length t) (read_dot t)
unfolding read_dot
read_dot-Within [] = threw
read_dot-Within (c ∷ t) = Within-if (is_alpha c || c == b'_') (λ _. left (omega arith)) (λ _. threw)

read_accessor-Within : (e : ExpressionNode) (t : Text) → Within (length t) (read_accessor e t)
unfolding read_accessor
read_accessor-Within e t =
    Within-if (is_type (node_type e) undefined) (λ _. threw) (λ _. left (omega arith))

parse_loop-Within :
    (f : ℕ) (before : List Current) (c : Current) (t : Text)
    → length t < f
    → Within (length t) (parse_loop f before c t)
unfolding parse_loop
parse_loop-Within zero before c t h = absurd (omega arith)
parse_loop-Within (suc f) before c [] h = left (omega arith)
parse_loop-Within (suc f) before c (x ∷ t) h =
    let again : (b : List Current) (n : Current) (rest : Text)
        → length rest ≤ length t
        → Within (suc (length t)) (parse_loop f b n rest) =
      λ b n rest short. Within-mono (parse_loop-Within f b n rest (omega arith)) (omega arith) in
    Within-if (x == b' ') (λ _. again before c t (omega arith))
      (λ _.
        Within-if (x == b'.')
          (λ _.
            Within-if (is_type c.type identifier)
              (λ _.
                Within-and_parse (read_dot-Within t)
                  λ n rest short. again (c ∷ before) n rest short)
              (λ _. threw))
          (λ _.
            Within-if (x == b'[')
              (λ _.
                Within-if (is_type c.type string || is_type c.type identifier)
                  (λ _.
                    Within-and_parse (parse_loop-Within f [] fresh t (omega arith)) λ e rest short.
                      Within-and_parse (Within-mono (read_accessor-Within e rest) short)
                        λ n rest' short'. again (c ∷ before) n rest' short')
                  (λ _. threw))
              (λ _.
                Within-if (x == b']')
                  (λ _. Within-if (is_type c.type undefined) (λ _. threw) (λ _. left (omega arith)))
                  (λ _.
                    Within-if (x == b'"' || x == b'\'')
                      (λ _.
                        Within-if (is_type c.type undefined)
                          (λ _.
                            Within-and_parse (read_string-Within (suc f) x t (omega arith))
                              λ s rest short. again before _ rest short)
                          (λ _. threw))
                      (λ _.
                        Within-if (is_type c.type undefined)
                          (λ _.
                            Within-and_parse (read_word-Within x t)
                              λ w rest short. again before _ rest short)
                          (λ _. threw))))))

Within-ne-out_of_fuel : {A : Type 0} {n : ℕ} {r : Outcome A} → Within n r → r ≢ out_of_fuel
Within-ne-out_of_fuel (left w) = cc
Within-ne-out_of_fuel threw = cc
Within-ne-out_of_fuel crashed = cc

whole-Within : (e : ExpressionNode) (t : Text) → Within (length t) (whole e t)
whole-Within e [] = left (omega arith)
whole-Within e (c ∷ t) = threw

-- `ParseExpression` ends on every text: the fuel of one more than the text's length is enough.
pub parse_watch-ne-out_of_fuel : (t : Text) → parse_watch t ≢ out_of_fuel
unfolding parse_watch
parse_watch-ne-out_of_fuel t = Within-ne-out_of_fuel (
    Within-and_parse (parse_loop-Within (suc (length t)) [] fresh t (omega arith))
      λ e rest h. Within-mono (whole-Within e rest) h)
