-- ===== src/Watch/RoundTrip.antt =====
-- `ParseExpression` reads back what was printed: a round trip over every expression that can be
-- written, and one over the closing bracket that it takes for the end.
use squirrel_debug_server.Base.{
  ℕ, zero, suc, ◌<◌, ◌≡◌, refl, ◌∙◌, ap, List, [], ◌∷◌, ◌++◌, append_assoc, append-nil, Text,
  length, length-append, arith,
}
use squirrel_debug_server.Watch.{Accessor, no_accessor, accessor, identifier, parsed}
use squirrel_debug_server.Watch.Parser.{Current, fresh, link, parse_loop, parse_watch}
use squirrel_debug_server.Watch.Print.{
  Watch, Suffixes, named, quoted, quoted_index, numeral, stop, field, index, IsWritten, AreWritten,
  escape, print, print_suffixes, to_node, attach, string_node, number_node,
}
use squirrel_debug_server.Watch.StringTrip.{length-escape}
use squirrel_debug_server.Watch.Steps.{
  Terminator, at_end, at_bracket, ending, remainder, loop_end, suffixes-Stop, ending-Stops,
  loop_name, loop_numeral, loop_string, loop_field, loop_index, to_node-typed, name-cons,
  numeral-cons,
}

regroup_field : (n ps e : Text) → b'.' ∷ (n ++ ps) ++ e ≡ b'.' ∷ (n ++ (ps ++ e))
regroup_field n ps e = ap (◌∷◌ b'.') (append_assoc n ps e)

regroup_index : (p ps e : Text) → b'[' ∷ (p ++ b']' ∷ ps) ++ e ≡ b'[' ∷ (p ++ b']' ∷ (ps ++ e))
regroup_index p ps e = ap (◌∷◌ b'[') (append_assoc p (b']' ∷ ps) e)

regroup_quoted :
    (t ps e : Text) → b'"' ∷ (escape t ++ b'"' ∷ ps) ++ e ≡ b'"' ∷ (escape t ++ b'"' ∷ (ps ++ e))
regroup_quoted t ps e = ap (◌∷◌ b'"') (append_assoc (escape t) (b'"' ∷ ps) e)

mutual
  unfolding print to_node link

  suffixes-read :
      (s : Suffixes) (f : ℕ) (before : List Current) (value : Text) (a : Accessor) (z : Terminator)
      → AreWritten s
      → length (print_suffixes s ++ ending z) < f
      → parse_loop f before
          (record { value = value; accessor_expression = a; type = identifier })
          (print_suffixes s ++ ending z)
        ≡ parsed (link before (attach value a identifier s)) (remainder z)
  suffixes-read s zero before value a z w h = absurd (omega arith)
  suffixes-read stop (suc f) before value a z w h =
      loop_end f before (record { value = value; accessor_expression = a; type = identifier }) z
        refl
  suffixes-read (field n s) (suc zero) before value a z w h = absurd (omega arith)
  suffixes-read (field n s) (suc (suc f)) before value a z (w, ws) h =
      let c : Current = record { value = value; accessor_expression = a; type = identifier } in
      let lengths = ap length (regroup_field n (print_suffixes s) (ending z)) in
      let size = length-append n (print_suffixes s ++ ending z) in
      ap (parse_loop (suc (suc f)) before c) (regroup_field n (print_suffixes s) (ending z))
      ∙ loop_field f before value a n (print_suffixes s ++ ending z) w (suffixes-Stop s z)
      ∙ suffixes-read s f (c ∷ before) n no_accessor z ws (omega (arith, name-cons n w))
  suffixes-read (index e s) (suc f) before value a z (w, ws) h =
      let c : Current = record { value = value; accessor_expression = a; type = identifier } in
      let lengths = ap length (regroup_index (print e) (print_suffixes s) (ending z)) in
      let size = length-append (print e) (b']' ∷ (print_suffixes s ++ ending z)) in
      ap (parse_loop (suc f) before c) (regroup_index (print e) (print_suffixes s) (ending z))
      ∙ loop_index f before c _ (print_suffixes s ++ ending z) (to_node e) refl (to_node-typed e)
          (watch-read e f [] (at_bracket (print_suffixes s ++ ending z)) w (omega arith))
      ∙ suffixes-read s f (c ∷ before) [] (accessor (to_node e)) z ws (omega arith)

  watch-read :
      (e : Watch) (f : ℕ) (before : List Current) (z : Terminator)
      → IsWritten e
      → length (print e ++ ending z) < f
      → parse_loop f before fresh (print e ++ ending z)
        ≡ parsed (link before (to_node e)) (remainder z)
  watch-read e zero before z w h = absurd (omega arith)
  watch-read (named n s) (suc f) before z (w, ws) h =
      let size = length-append n (print_suffixes s ++ ending z) in
      let lengths = ap length (append_assoc n (print_suffixes s) (ending z)) in
      ap (parse_loop (suc f) before fresh) (append_assoc n (print_suffixes s) (ending z))
      ∙ loop_name f before n (print_suffixes s ++ ending z) w (suffixes-Stop s z)
      ∙ suffixes-read s f before n no_accessor z ws (omega (arith, name-cons n w))
  watch-read (numeral n) (suc zero) before z w h =
      absurd (omega (arith, numeral-cons n w, length-append n (ending z)))
  watch-read (numeral n) (suc (suc f)) before z w h =
      loop_numeral (suc f) before n (ending z) w (ending-Stops z)
      ∙ loop_end f before (number_node n) z refl
  watch-read (quoted t) (suc zero) before z w h = absurd (omega arith)
  watch-read (quoted t) (suc (suc f)) before z w h =
      let size = length-append (escape t) (b'"' ∷ ending z) in
      let lengths = ap length (regroup_quoted t [] (ending z)) in
      ap (parse_loop (suc (suc f)) before fresh) (regroup_quoted t [] (ending z))
      ∙ loop_string (suc f) before t (ending z) (omega (arith, length-escape t))
      ∙ loop_end f before (string_node t) z refl
  watch-read (quoted_index t e s) (suc zero) before z (w, ws) h = absurd (omega arith)
  watch-read (quoted_index t e s) (suc (suc f)) before z (w, ws) h =
      let tail = b'[' ∷ (print e ++ b']' ∷ print_suffixes s) in
      let inner = print e ++ b']' ∷ (print_suffixes s ++ ending z) in
      let regrouped =
        regroup_quoted t tail (ending z)
        ∙ ap (λ x. b'"' ∷ (escape t ++ b'"' ∷ x))
            (regroup_index (print e) (print_suffixes s) (ending z)) in
      let lengths = ap length regrouped in
      let size = length-append (escape t) (b'"' ∷ b'[' ∷ inner) in
      let size' = length-append (print e) (b']' ∷ (print_suffixes s ++ ending z)) in
      ap (parse_loop (suc (suc f)) before fresh) regrouped
      ∙ loop_string (suc f) before t (b'[' ∷ inner) (omega (arith, length-escape t))
      ∙ loop_index f before (string_node t) inner (print_suffixes s ++ ending z) (to_node e) refl
          (to_node-typed e)
          (watch-read e f [] (at_bracket (print_suffixes s ++ ending z)) w (omega arith))
      ∙ suffixes-read s f (string_node t ∷ before) [] (accessor (to_node e)) z ws (omega arith)

-- The text of an expression that can be written parses to its nodes, and nothing is left.
pub parse_watch-print : (e : Watch) → IsWritten e → parse_watch (print e) ≡ parsed (to_node e) []
unfolding parse_watch link
parse_watch-print e w =
    let size = ap length (append-nil (print e)) in
    let read = watch-read e (suc (length (print e))) [] at_end w (omega arith) in
    rw (rw append-nil at read)

-- One closing bracket too many at the end goes unnoticed: the text parses to the same nodes.
pub parse_watch-stray_bracket :
    (e : Watch) → IsWritten e → parse_watch (print e ++ b']' ∷ []) ≡ parsed (to_node e) []
unfolding parse_watch link
parse_watch-stray_bracket e w =
    let read =
      watch-read e (suc (length (print e ++ b']' ∷ []))) [] (at_bracket []) w (omega arith) in
    rw read refl
