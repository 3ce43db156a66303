-- ===== src/Watch/StringTrip.antt =====
-- Escaped text reads back, and so do names and numerals in front of what may follow them.
use squirrel_debug_server.Base.{
  ℕ, zero, suc, ◌≤◌, ◌<◌, ◌≡◌, refl, sym, ◌∙◌, ap, Bool, true, false, ◌||◌, [], ◌∷◌, ◌++◌,
  append_assoc, append-nil, Text, length, arith, ◌==◌, ==_iff, Bool-cases, inl, inr,
}
use squirrel_debug_server.Watch.{parsed, and_parse}
use squirrel_debug_server.Watch.Strings.{read_escape, string_loop, span}
use squirrel_debug_server.Watch.Print.{All, escape}

pub length-escape : (s : Text) → length s ≤ length (escape s)
unfolding escape
length-escape [] = omega arith
length-escape (c ∷ s) = ground (arith, length-escape s)

escape-special :
    (c : ℕ) (s : Text) → (c == b'\\' || c == b'"') ≡ true → escape (c ∷ s) ≡ b'\\' ∷ c ∷ escape s
unfolding escape
escape-special c s special = rw special

escape-newline :
    (c : ℕ) (s : Text)
    → (c == b'\\' || c == b'"') ≡ false
    → (c == b'\n') ≡ true
    → escape (c ∷ s) ≡ b'\\' ∷ b'n' ∷ escape s
unfolding escape
escape-newline c s other newline = rw (other, newline)

escape-plain :
    (c : ℕ) (s : Text)
    → (c == b'\\' || c == b'"') ≡ false
    → (c == b'\n') ≡ false
    → escape (c ∷ s) ≡ c ∷ escape s
unfolding escape
escape-plain c s other ordinary = rw (other, ordinary)

read_escape-special :
    (c : ℕ) (t : Text) → (c == b'\\' || c == b'"') ≡ true → read_escape (c ∷ t) ≡ parsed c t
unfolding read_escape
read_escape-special c t special = elim (Bool-cases (c == b'\\')) [
  | inl backslash ↦ let e : c ≡ b'\\' = ground arith in rw e
  | inr other ↦ let e : c ≡ b'"' = ground arith in rw e
]

loop_escape :
    (f enclosing : ℕ) (output t : Text)
    → string_loop (suc f) enclosing output (b'\\' ∷ t)
      ≡ and_parse (read_escape t) (λ byte rest. string_loop f enclosing (output ++ byte ∷ []) rest)
unfolding string_loop
loop_escape f enclosing output t = refl

loop_plain :
    (f c : ℕ) (output t : Text)
    → (c == b'\\' || c == b'"') ≡ false
    → (c == b'\n') ≡ false
    → string_loop (suc f) b'"' output (c ∷ t) ≡ string_loop f b'"' (output ++ c ∷ []) t
unfolding string_loop
loop_plain f c output t other ordinary = ground arith

-- Inside double quotes an escaped text reads as itself, up to the closing quote.
pub string_loop-escape :
    (f : ℕ) (output s r : Text)
    → length s < f
    → string_loop f b'"' output (escape s ++ b'"' ∷ r) ≡ parsed (output ++ s) r
unfolding string_loop read_escape
string_loop-escape zero output s r h = absurd (omega arith)
string_loop-escape (suc f) output [] r h = unfold string_loop escape in rw (append-nil output)
string_loop-escape (suc f) output (c ∷ s) r h =
    let tail_read = string_loop-escape f (output ++ c ∷ []) s r (omega arith) in
    let grown : (output ++ c ∷ []) ++ s ≡ output ++ c ∷ s = append_assoc output (c ∷ []) s in
    elim (Bool-cases (c == b'\\' || c == b'"')) [
      | inl special ↦
          ap (λ e. string_loop (suc f) b'"' output (e ++ b'"' ∷ r)) (escape-special c s special)
          ∙ loop_escape f b'"' output (c ∷ (escape s ++ b'"' ∷ r))
          ∙ rw (read_escape-special c (escape s ++ b'"' ∷ r) special) tail_read
          ∙ ap (λ o. parsed o r) grown
      | inr other ↦ elim (Bool-cases (c == b'\n')) [
        | inl newline ↦
            ap (λ e. string_loop (suc f) b'"' output (e ++ b'"' ∷ r))
              (escape-newline c s other newline)
            ∙ loop_escape f b'"' output (b'n' ∷ (escape s ++ b'"' ∷ r))
            ∙ ap (λ x. string_loop f b'"' (output ++ x ∷ []) (escape s ++ b'"' ∷ r))
                (sym ((==_iff c b'\n').0 newline))
            ∙ tail_read
            ∙ ap (λ o. parsed o r) grown
        | inr ordinary ↦
            ap (λ e. string_loop (suc f) b'"' output (e ++ b'"' ∷ r))
              (escape-plain c s other ordinary)
            ∙ loop_plain f c output (escape s ++ b'"' ∷ r) other ordinary
            ∙ tail_read
            ∙ ap (λ o. parsed o r) grown
      ]
    ]

-- Without the closing quote it reads up to the end of the text.
pub string_loop-unclosed :
    (f : ℕ) (output s : Text)
    → length s < f
    → string_loop f b'"' output (escape s) ≡ parsed (output ++ s) []
unfolding string_loop read_escape
string_loop-unclosed zero output s h = absurd (omega arith)
string_loop-unclosed (suc f) output [] h = unfold string_loop escape in rw (append-nil output)
string_loop-unclosed (suc f) output (c ∷ s) h =
    let tail_read = string_loop-unclosed f (output ++ c ∷ []) s (omega arith) in
    let grown : (output ++ c ∷ []) ++ s ≡ output ++ c ∷ s = append_assoc output (c ∷ []) s in
    elim (Bool-cases (c == b'\\' || c == b'"')) [
      | inl special ↦
          ap (λ e. string_loop (suc f) b'"' output e) (escape-special c s special)
          ∙ loop_escape f b'"' output (c ∷ (escape s))
          ∙ rw (read_escape-special c (escape s) special) tail_read
          ∙ ap (λ o. parsed o []) grown
      | inr other ↦ elim (Bool-cases (c == b'\n')) [
        | inl newline ↦
            ap (λ e. string_loop (suc f) b'"' output e) (escape-newline c s other newline)
            ∙ loop_escape f b'"' output (b'n' ∷ (escape s))
            ∙ ap (λ x. string_loop f b'"' (output ++ x ∷ []) (escape s))
                (sym ((==_iff c b'\n').0 newline))
            ∙ tail_read
            ∙ ap (λ o. parsed o []) grown
        | inr ordinary ↦
            ap (λ e. string_loop (suc f) b'"' output e) (escape-plain c s other ordinary)
            ∙ loop_plain f c output (escape s) other ordinary
            ∙ tail_read
            ∙ ap (λ o. parsed o []) grown
      ]
    ]

-- What follows does not go on with the word.
abbrev pub Stops : (ℕ → Bool) → Text → Type 0
Stops accept [] = Unit
Stops accept (c ∷ t) = accept c ≡ false

span-stop : (accept : ℕ → Bool) (r : Text) → Stops accept r → span accept r ≡ ([], r)
unfolding span
span-stop accept [] h = refl
span-stop accept (c ∷ t) h = rw h

pub span-append :
    (accept : ℕ → Bool) (w r : Text) → All accept w → Stops accept r → span accept (w ++ r) ≡ (w, r)
unfolding span
span-append accept [] r h stops = span-stop accept r stops
span-append accept (c ∷ w) r (h, hs) stops = rw (h, span-append accept w r hs stops)
