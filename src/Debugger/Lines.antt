-- ===== src/Debugger/Lines.antt =====
-- The line hook on every branch: when it pauses, and what it stores and sends.
use squirrel_debug_server.Base.{
  ℕ, ℤ, pos, negsuc, ◌≡◌, refl, Bool, true, false, ◌&&◌, ◌||◌, Option, none, some, List, ◌∷◌, Text,
  arith, ltb,
}
use squirrel_debug_server.Data.{Status, paused}
use squirrel_debug_server.Breakpoints.{Breakpoint, FileNameHandle, BreakpointMap}
use squirrel_debug_server.Breakpoints.Lines.{breakpoint_at, read_breakpoint_lem}
use squirrel_debug_server.Debugger.{Debugger, StackInfo, is_requested, status_changed, emit}
use squirrel_debug_server.Debugger.Hook.{
  SqStackInfo, native_debug_hook, at_line, populate_stack, no_more_returns, read_line, pause_if_due,
  int32_max, no_breakpoint, set_stack, request_at_breakpoint,
}

-- The breakpoint that a script's line has, if `hook_line` looks for one: the line must be below
-- INT32_MAX and not negative, and the script must have a handle.
abbrev pub hit : FileNameHandle → ℤ → BreakpointMap → Option Breakpoint
hit none n m = none
hit (some h) (negsuc n) m = none
hit (some h) (pos n) m = elim (ltb n int32_max) [ true ↦ breakpoint_at m h n | false ↦ none ]

abbrev pub breakpoint_id : Option Breakpoint → ℕ
breakpoint_id none = 0
breakpoint_id (some bp) = bp.id

abbrev pub is_hit : Option Breakpoint → Bool
is_hit none = false
is_hit (some bp) = true

-- A pause is due at a line with a breakpoint, and where one is requested and no return is awaited.
abbrev pub is_due : Option Breakpoint → Debugger → Bool
is_due bp d = is_hit bp || (is_requested d.pause_requested && no_more_returns d.returns_required)

read_line-hit :
    (handle : FileNameHandle) (n : ℤ) (m : BreakpointMap)
    → ((read_line handle n m).0 ≡ is_hit (hit handle n m))
      × ((read_line handle n m).1.id ≡ breakpoint_id (hit handle n m))
unfolding read_line
read_line-hit none (pos n) m = (refl, refl)
read_line-hit none (negsuc n) m = (refl, refl)
read_line-hit (some h) (negsuc n) m = (refl, refl)
read_line-hit (some h) (pos n) m = ground (arith, read_breakpoint_lem m h n no_breakpoint)

-- The status that a pause stores and sends.
abbrev pub pause_status : Option Breakpoint → List SqStackInfo → Status
pause_status bp frames = record {
  run_state = paused;
  stack = populate_stack frames;
  paused_at_breakpoint_id = breakpoint_id bp;
}

-- What the hook leaves behind at a line, with or without a pause.
pub record AtLine (bp : Option Breakpoint) (frames : List SqStackInfo) (due : Bool)
    (d d' : Debugger) : Type 0 where
  pub waits : d'.waiting ≡ due
  pub pauses : due ≡ true → d'.is_paused ≡ true
  pub requests : due ≡ true → is_requested d'.pause_requested ≡ true
  pub reports : due ≡ true → d'.status ≡ pause_status bp frames
  pub sends : due ≡ true → d'.events ≡ (emit (status_changed (pause_status bp frames)) d).events
  pub silent : due ≡ false → d'.events ≡ d.events
  pub keeps :
      due ≡ false
      → (d'.pause_requested ≡ d.pause_requested)
        × (d'.returns_required ≡ d.returns_required)
        × (d'.is_paused ≡ d.is_paused)
        × (d'.status ≡ d.status)

pause_if_due-AtLine :
    (hits : Bool) (bp : Breakpoint) (o : Option Breakpoint) (frames : List SqStackInfo)
    (stack : List StackInfo) (d : Debugger)
    → hits ≡ is_hit o
    → bp.id ≡ breakpoint_id o
    → d.waiting ≡ false
    → AtLine o frames
        (is_due o d)
        d
        (pause_if_due bp frames (request_at_breakpoint hits (set_stack stack d)))
unfolding pause_if_due
pause_if_due-AtLine hits bp none frames stack d e id awake = ground arith
pause_if_due-AtLine hits bp (some x) frames stack d e id awake = ground arith

-- While a VM is attached and a function runs, the line hook succeeds. It blocks the VM thread exactly
-- when the line has a breakpoint or a pause is requested that awaits no more returns. It then reports
-- itself paused, with the VM's stack and the breakpoint's id (0 if there is none), and sends that
-- status; otherwise it sends nothing and leaves the pause state alone.
pub hook-AtLine :
    (lower : Text → Text) (n : ℤ) (frames : List SqStackInfo) (v : ℕ) (s : StackInfo)
    (below : List StackInfo) (d : Debugger)
    → d.vm ≡ some v
    → d.waiting ≡ false
    → d.current_stack ≡ s ∷ below
    → (d' : Debugger) × (native_debug_hook lower (at_line n frames) d ≡ some d')
      × AtLine
          (hit s.file_name_handle n d.breakpoints)
          frames
          (is_due (hit s.file_name_handle n d.breakpoints) d)
          d
          d'
unfolding native_debug_hook
hook-AtLine lower n frames v s below d attached awake stack =
    let (hits, bp) = read_line s.file_name_handle n d.breakpoints in
    let (found, id) = read_line-hit s.file_name_handle n d.breakpoints in
    let frames' = record s { line = n } ∷ below in
    (
      pause_if_due bp frames (request_at_breakpoint hits (set_stack frames' d)),
      ground (arith, attached, stack),
      pause_if_due-AtLine hits bp (hit s.file_name_handle n d.breakpoints) frames frames' d found id
          awake,
    )
