-- ===== src/Debugger/FileBreakpoints.antt =====
-- `SetFileBreakpoints`: which requests it accepts, what it answers, and what the hook finds afterwards.
use squirrel_debug_server.Base.{
  ℕ, ◌≡◌, refl, Bool, true, false, not, ◌&&◌, none, List, [], ◌∷◌, ◌++◌, map, append_assoc,
  append-nil, Text, text_eq, arith, ◌==◌, if◌then◌else◌,
}
use squirrel_debug_server.Data.{
  ReturnCode, success, invalid_parameter, CreateBreakpoint, ResolvedBreakpoint,
}
use squirrel_debug_server.Breakpoints.{Breakpoint}
use squirrel_debug_server.Breakpoints.Lines.{last_on_line}
use squirrel_debug_server.Breakpoints.Refinement.{table, table-replace_file}
use squirrel_debug_server.Debugger.{Debugger}
use squirrel_debug_server.Debugger.Commands.{set_file_breakpoints, resolve}

-- An entry needs an id and a line, both positive.
abbrev pub is_well_formed : CreateBreakpoint → Bool
is_well_formed c = not (c.id == 0) && not (c.line == 0)

abbrev pub all_well_formed : List CreateBreakpoint → Bool
all_well_formed [] = true
all_well_formed (c ∷ cs) = is_well_formed c && all_well_formed cs

-- The entries before the first that is not well formed.
unfoldable pub accepted : List CreateBreakpoint → List CreateBreakpoint
accepted [] = []
accepted (c ∷ cs) = if is_well_formed c then c ∷ accepted cs else []

abbrev pub to_breakpoint : CreateBreakpoint → Breakpoint
to_breakpoint c = record { id = c.id; line = c.line }

abbrev pub to_resolved : CreateBreakpoint → ResolvedBreakpoint
to_resolved c = record { id = c.id; line = c.line; verified = true }

abbrev outcome : Bool → ReturnCode
outcome true = success
outcome false = invalid_parameter

resolve_lem :
    (cs : List CreateBreakpoint) (bps : List Breakpoint) (rs : List ResolvedBreakpoint)
    → resolve cs bps rs ≡ (
      outcome (all_well_formed cs),
      bps ++ map to_breakpoint (accepted cs),
      rs ++ map to_resolved (accepted cs),
    )
unfolding resolve accepted
resolve_lem [] bps rs = rw (append-nil bps, append-nil rs)
resolve_lem (c ∷ cs) bps rs = ground (
  arith,
  resolve_lem cs (bps ++ to_breakpoint c ∷ []) (rs ++ to_resolved c ∷ []),
  append_assoc bps (to_breakpoint c ∷ []) (map to_breakpoint (accepted cs)),
  append_assoc rs (to_resolved c ∷ []) (map to_resolved (accepted cs)),
  append-nil bps,
  append-nil rs,
)

accepted-all : (cs : List CreateBreakpoint) → all_well_formed cs ≡ true → accepted cs ≡ cs
unfolding accepted
accepted-all [] good = refl
accepted-all (c ∷ cs) good = ground (arith, accepted-all cs)

resolve_good :
    (cs : List CreateBreakpoint)
    → all_well_formed cs ≡ true
    → resolve cs [] [] ≡ (success, map to_breakpoint cs, map to_resolved cs)
resolve_good cs good = rw (resolve_lem cs [] [], good, accepted-all cs good)

-- A request of well-formed entries succeeds: each is answered as verified, the file's lines then read
-- the request, the last entry of a line winning, other files' lines read as before, and nothing else
-- of the debugger changes.
pub set_file_breakpoints-success :
    (lower : Text → Text) (file : Text) (cs : List CreateBreakpoint) (d : Debugger)
    → all_well_formed cs ≡ true
    → let r = set_file_breakpoints lower file cs d in
      (r.0 ≡ success)
      × (r.1 ≡ map to_resolved cs)
      × ((g : Text) (line : ℕ)
          → table lower r.2.breakpoints g line ≡ (
              if text_eq (lower file) (lower g)
              then last_on_line (map to_breakpoint cs) line none
              else table lower d.breakpoints g line))
      × (record r.2 {
        pause_mutex_data = record r.2.pause_mutex_data { breakpoints = d.breakpoints };
      }
          ≡ d)
unfolding set_file_breakpoints
set_file_breakpoints-success lower file cs d good =
    let e = resolve_good cs good in
    (
      ground (arith, e),
      ground (arith, e),
      (λ g line. rw e (table-replace_file lower d.breakpoints file g (map to_breakpoint cs) line)),
      ground (arith, e),
    )

-- A request with an entry that is not well formed is refused and changes nothing of the debugger; the
-- answer holds the entries before the first such one.
pub set_file_breakpoints-refused :
    (lower : Text → Text) (file : Text) (cs : List CreateBreakpoint) (d : Debugger)
    → all_well_formed cs ≡ false
    → set_file_breakpoints lower file cs d ≡ (invalid_parameter, map to_resolved (accepted cs), d)
unfolding set_file_breakpoints
set_file_breakpoints-refused lower file cs d bad = ground (arith, resolve_lem cs [] [], bad)
