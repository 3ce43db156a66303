-- ===== src/Breakpoints/Lines.antt =====
-- The breakpoints by handle and line: what `Clear`, `AddAll` and `ReadBreakpoint` do to them.
use squirrel_debug_server.Base.{
  ℕ, ◌≤◌, ◌≡◌, refl, ◌∙◌, ap, inl, inr, true, false, Option, none, some, List, [], ◌∷◌, ◌==◌,
  length, arith, if◌then◌else◌, Option-cases,
}
use squirrel_debug_server.Base.Assoc.{lookup, insert, lookup-insert}
use squirrel_debug_server.Breakpoints.{
  Breakpoint, LineMap, BreakpointMap, clear, add_lines, add_all, read_breakpoint, lines_or_new,
}

abbrev at_line : Option LineMap → ℕ → Option Breakpoint
at_line none line = none
at_line (some t) line = lookup line t

-- The breakpoint of a file on a line.
unfoldable pub breakpoint_at : BreakpointMap → ℕ → ℕ → Option Breakpoint
breakpoint_at m h line = at_line (lookup h m.breakpoints) line

-- The last breakpoint of a list on a line, or else `old`.
unfoldable pub last_on_line : List Breakpoint → ℕ → Option Breakpoint → Option Breakpoint
last_on_line [] line old = old
last_on_line (bp ∷ bps) line old = last_on_line bps line (if bp.line == line then some bp else old)

lookup-add_lines :
    (bps : List Breakpoint) (t : LineMap) (line : ℕ)
    → lookup line (add_lines bps t) ≡ last_on_line bps line (lookup line t)
unfolding add_lines last_on_line
lookup-add_lines [] t line = refl
lookup-add_lines (bp ∷ bps) t line =
    lookup-add_lines bps (insert bp.line bp t) line
    ∙ ap (last_on_line bps line) (lookup-insert bp.line line bp t)

pub breakpoint_at-clear :
    (m : BreakpointMap) (h j line : ℕ)
    → breakpoint_at (clear (some h) m) j line ≡ (if h == j then none else breakpoint_at m j line)
unfolding breakpoint_at clear lookup
breakpoint_at-clear m h j line = elim (Option-cases (lookup h m.breakpoints)) [
  | inl missing ↦ ground (arith, missing)
  | inr (t, found) ↦ ground (arith, found, lookup-insert {V = LineMap} h j [] m.breakpoints)
]

at_line-lines_or_new :
    (o : Option LineMap) (line : ℕ) → lookup line (lines_or_new o) ≡ at_line o line
unfolding lookup
at_line-lines_or_new none line = refl
at_line-lines_or_new (some t) line = refl

pub breakpoint_at-add_all :
    (m : BreakpointMap) (bps : List Breakpoint) (h j line : ℕ)
    → breakpoint_at (add_all (some h) bps m) j line
      ≡ (if h == j then last_on_line bps line (breakpoint_at m h line) else breakpoint_at m j line)
unfolding breakpoint_at add_all
breakpoint_at-add_all m bps h j line = ground (
  arith,
  lookup-insert {V = LineMap} h j (add_lines bps (lines_or_new (lookup h m.breakpoints)))
      m.breakpoints,
  lookup-add_lines bps (lines_or_new (lookup h m.breakpoints)) line,
  at_line-lines_or_new (lookup h m.breakpoints) line,
)

-- `ReadBreakpoint` reports the breakpoint on the line, and leaves its reference parameter alone
-- where there is none.
pub read_breakpoint_lem :
    (m : BreakpointMap) (h line : ℕ) (bp : Breakpoint)
    → read_breakpoint (some h) line bp m
      ≡ elim (breakpoint_at m h line) [ none ↦ (false, bp) | some found ↦ (true, found) ]
unfolding read_breakpoint breakpoint_at
read_breakpoint_lem m h line bp = ground arith

-- Every handle with breakpoints stands for a name: past the last name there are none.
abbrev pub IsKnown : BreakpointMap → Type 0
IsKnown m = (h line : ℕ) → length m.file_names ≤ h → breakpoint_at m h line ≡ none
