-- ===== src/Watch/Tests.antt =====
-- Runs of the watch reader, and its theorems at concrete inputs.
use squirrel_debug_server.Base.{◌≡◌, ◌≢◌, refl, [], ◌∷◌, ◌++◌, codes}
use squirrel_debug_server.Watch.{
  node, no_accessor, accessor, no_next, next, identifier, number, parsed, failed, out_of_fuel,
  field_of_non_identifier, trailing_content, word_follows,
}
use squirrel_debug_server.Watch.Strings.{read_number, read_identifier}
use squirrel_debug_server.Watch.Parser.{parse_watch, read_dot, read_word, read_accessor, link}
use squirrel_debug_server.Watch.Fuel.{parse_watch-ne-out_of_fuel}
use squirrel_debug_server.Watch.Print.{
  Watch, named, quoted, numeral, stop, field, index, print, to_node, IsWritten, escape,
}
use squirrel_debug_server.Watch.RoundTrip.{parse_watch-print, parse_watch-stray_bracket}

a_and_b :
    parse_watch (codes "a .b1")
    ≡ parsed
        (node
          (codes "a")
          no_accessor
          identifier
          (next (node (codes "b1") no_accessor identifier no_next)))
        []
unfolding parse_watch read_dot read_word read_identifier link
a_and_b = refl

number_index :
    parse_watch (codes "xs[12]")
    ≡ parsed
        (node (codes "xs") no_accessor identifier (
          next
            (node [] (accessor (node (codes "12") no_accessor number no_next)) identifier no_next)))
        []
unfolding parse_watch read_word read_identifier read_number read_accessor link
number_index = refl

two_words : parse_watch (codes "a b") ≡ failed word_follows (codes "b")
unfolding parse_watch read_word read_identifier
two_words = refl

field_of_number : parse_watch (codes "1.x") ≡ failed field_of_non_identifier (codes ".x")
unfolding parse_watch read_word read_number
field_of_number = refl

after_bracket : parse_watch (codes "a]b") ≡ failed trailing_content (codes "b")
unfolding parse_watch read_word read_identifier link
after_bracket = refl

-- An index that is not closed is accepted.
open_index :
    parse_watch (codes "a[b")
    ≡ parsed
        (node (codes "a") no_accessor identifier (
          next (
            node []
              (accessor (node (codes "b") no_accessor identifier no_next))
              identifier
              no_next)))
        []
unfolding parse_watch read_word read_identifier read_accessor link
open_index = refl

-- a.b["k\"ey"][c[0]].d
abbrev a_watch : Watch
a_watch = named (codes "a") (
    field (codes "b") (
      index (quoted (codes "k\"ey"))
        (index (named (codes "c") (index (numeral (codes "0")) stop)) (field (codes "d") stop))))

a_watch-text : print a_watch ≡ codes "a.b[\"k\\\"ey\"][c[0]].d"
unfolding print escape
a_watch-text = refl

parse_watch-ne-out_of_fuel_example : parse_watch (codes "a[\"x") ≢ out_of_fuel
parse_watch-ne-out_of_fuel_example = parse_watch-ne-out_of_fuel (codes "a[\"x")

a_watch-IsWritten : IsWritten a_watch
a_watch-IsWritten =
    ((refl, tt), ((refl, tt), (tt, (((refl, tt), ((refl, tt), tt)), ((refl, tt), tt)))))

parse_watch-print_example : parse_watch (print a_watch) ≡ parsed (to_node a_watch) []
parse_watch-print_example = parse_watch-print a_watch a_watch-IsWritten

parse_watch-stray_bracket_example :
    parse_watch (print a_watch ++ b']' ∷ []) ≡ parsed (to_node a_watch) []
parse_watch-stray_bracket_example = parse_watch-stray_bracket a_watch a_watch-IsWritten
