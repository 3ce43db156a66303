-- ===== src/Breakpoints/Tests.antt =====
-- Runs of the breakpoint map, and its theorems at concrete inputs.
use squirrel_debug_server.Base.{
  ℕ, ◌+◌, ◌≡◌, refl, true, some, [], ◌∷◌, Text, codes, leb, ◌&&◌, map, if◌then◌else◌,
}
use squirrel_debug_server.Base.Assoc.{lookup, insert}
use squirrel_debug_server.Breakpoints.{
  Breakpoint, BreakpointMap, empty_map, find_file_name_handle, replace_file, read_breakpoint,
  find_name, clear, add_all, add_lines,
}
use squirrel_debug_server.Breakpoints.Lines.{IsKnown, breakpoint_at}
use squirrel_debug_server.Breakpoints.Refinement.{
  table, table-replace_file, replace_file-IsKnown, read-table,
}

-- `_strlwr_s` in the C locale.
abbrev ascii_lower : Text → Text
ascii_lower = map (λ c. if leb b'A' c && leb c b'Z' then c + 32 else c)

abbrev bp : ℕ → ℕ → Breakpoint
bp id line = record { id = id; line = line }

-- `Test.nut` with two breakpoints on line 58 and one on 60.
abbrev test_map : BreakpointMap
test_map = replace_file ascii_lower (codes "Test.nut") (bp 1 58 ∷ bp 2 60 ∷ bp 3 58 ∷ []) empty_map

empty_map-IsKnown : IsKnown empty_map
unfolding breakpoint_at lookup
empty_map-IsKnown h line past = refl

last_wins : table ascii_lower test_map (codes "tEST.nut") 58 ≡ some (bp 3 58)
unfolding table replace_file find_file_name_handle find_name clear add_all add_lines lookup insert
    breakpoint_at
last_wins = refl

test_map-IsKnown : IsKnown test_map
test_map-IsKnown = replace_file-IsKnown ascii_lower empty_map _ _ empty_map-IsKnown

table-replace_file_example :
    table ascii_lower
      (replace_file ascii_lower (codes "b.nut") (bp 9 7 ∷ []) test_map)
      (codes "TEST.nut")
      60
    ≡ table ascii_lower test_map (codes "TEST.nut") 60
table-replace_file_example =
    table-replace_file ascii_lower test_map (codes "b.nut") (codes "TEST.nut") (bp 9 7 ∷ []) 60

replace_file-IsKnown_example : IsKnown test_map
replace_file-IsKnown_example =
    replace_file-IsKnown ascii_lower empty_map (codes "Test.nut") (bp 1 58 ∷ bp 2 60 ∷ bp 3 58 ∷ [])
      empty_map-IsKnown

read-table_example :
    read_breakpoint
      (find_file_name_handle ascii_lower (codes "TEST.nut") test_map)
      58
      (bp 0 0)
      test_map
    ≡ (true, bp 3 58)
unfolding table replace_file find_file_name_handle find_name clear add_all add_lines lookup insert
    breakpoint_at
read-table_example = read-table ascii_lower test_map (codes "TEST.nut") 58 (bp 0 0)
