-- ===== src/Breakpoints.antt =====
-- squirrel_debugger/BreakpointMap.h and BreakpointMap.cpp. A `FileNameHandle` is a shared pointer to
-- a name in `fileNames_`, compared by address: here it is that name's position, and `none` is null.
-- `StrToLower` calls the C runtime with the current locale, so it is a parameter.
pub mod Handles
pub mod Lines
pub mod Refinement
pub mod Tests
use squirrel_debug_server.Base.{
  ℕ, zero, suc, ◌≡◌, Bool, true, false, Option, none, some, List, [], ◌∷◌, ◌++◌, Text, text_eq,
  length, if◌then◌else◌,
}
use squirrel_debug_server.Base.Assoc.{lookup, insert}
use mathlib.Core.Option

pub record Breakpoint : Type 0 where
  pub id : ℕ
  pub line : ℕ

abbrev pub FileNameHandle : Type 0
FileNameHandle = Option ℕ

-- The breakpoints of one file, by line.
abbrev pub LineMap : Type 0
LineMap = List (ℕ × Breakpoint)

pub record BreakpointMap : Type 0 where
  pub file_names : List Text
  pub breakpoints : List (ℕ × LineMap)

abbrev pub empty_map : BreakpointMap
empty_map = record { file_names = []; breakpoints = [] }

-- `std::find_if` over `fileNames_`: the position of the first name equal to `name`.
unfoldable pub find_name : Text → List Text → FileNameHandle
find_name name [] = none
find_name name (f ∷ fs) = if text_eq f name then some 0 else Option.map suc (find_name name fs)

-- A null handle is logged and ignored.
unfoldable pub clear : FileNameHandle → BreakpointMap → BreakpointMap
clear none m = m
clear (some h) m = elim (lookup h m.breakpoints) [
  | none ↦ m
  | some t ↦ record m { breakpoints = insert h [] m.breakpoints }
]

-- `lineToBpMap[bp.line] = bp` for each.
unfoldable pub add_lines : List Breakpoint → LineMap → LineMap
add_lines [] t = t
add_lines (bp ∷ bps) t = add_lines bps (insert bp.line bp t)

-- `breakpoints_[handle]` is made empty where it is missing.
abbrev lines_or_new : Option LineMap → LineMap
lines_or_new none = []
lines_or_new (some t) = t

unfoldable pub add_all : FileNameHandle → List Breakpoint → BreakpointMap → BreakpointMap
add_all none bps m = m
add_all (some h) bps m = record m {
  breakpoints = insert h (add_lines bps (lines_or_new (lookup h m.breakpoints))) m.breakpoints;
}

-- The result, and the final value of the reference parameter `bp`.
unfoldable pub read_breakpoint : FileNameHandle → ℕ → Breakpoint → BreakpointMap → Bool × Breakpoint
read_breakpoint none line bp m = (false, bp)
read_breakpoint (some h) line bp m = elim (lookup h m.breakpoints) [
  | none ↦ (false, bp)
  | some t ↦ elim (lookup line t) [ none ↦ (false, bp) | some found ↦ (true, found) ]
]

module _ (str_to_lower : Text → Text) where
  unfoldable pub find_file_name_handle : Text → BreakpointMap → FileNameHandle
  find_file_name_handle file_name m = find_name (str_to_lower file_name) m.file_names

  unfoldable pub ensure_file_name_handle : Text → BreakpointMap → FileNameHandle × BreakpointMap
  unfolding find_file_name_handle
  ensure_file_name_handle file_name m = elim (find_file_name_handle file_name m) [
    | some h ↦ (some h, m)
    | none ↦ (
      some (length m.file_names),
      record m { file_names = m.file_names ++ str_to_lower file_name ∷ [] },
    )
  ]

  -- What `SetFileBreakpoints` does under the lock, once the request is validated.
  unfoldable pub replace_file : Text → List Breakpoint → BreakpointMap → BreakpointMap
  unfolding ensure_file_name_handle
  replace_file file bps m =
      let (handle, m') = ensure_file_name_handle file m in add_all handle bps (clear handle m')
