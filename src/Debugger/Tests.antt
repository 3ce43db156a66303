-- ===== src/Debugger/Tests.antt =====
-- Runs of the debugger, and its theorems at concrete inputs.
use mathlib.Core.Option
use squirrel_debug_server.Base.{
  ℕ, pos, negsuc, ◌≤◌, ◌≡◌, ◌⊎◌, refl, true, false, none, some, List, [], ◌∷◌, ◌++◌, Text, codes,
  arith,
}
use squirrel_debug_server.Base.Assoc.{lookup, insert}
use squirrel_debug_server.Data.{success, invalid_parameter, CreateBreakpoint, paused}
use squirrel_debug_server.Breakpoints.{
  BreakpointMap, ensure_file_name_handle, find_name, read_breakpoint,
}
use squirrel_debug_server.Breakpoints.Lines.{breakpoint_at}
use squirrel_debug_server.Debugger.{
  Debugger, StackInfo, not_requested, step_in, initial_status, status_changed,
}
use squirrel_debug_server.Debugger.Commands.{
  add_vm, set_event_interface, pause_execution, continue_execution, step_over_command,
  step_out_command, step_in_command, set_file_breakpoints, with_stack_frame, with_globals,
}
use squirrel_debug_server.Debugger.Hook.{
  HookEvent, called, returned, at_line, SqStackInfo, native_debug_hook, resume, populate_stack,
  script_handle,
}
use squirrel_debug_server.Debugger.Threads.{
  attached, Reach, here, next, hook, command, after_command, pausing as asks_pause,
}
use squirrel_debug_server.Debugger.Safety.{
  Reach-Inv, access-waits, blocked-released, Inv, attached-Inv,
}
use squirrel_debug_server.Debugger.Traces.{run, advance, Body, done, line, call, trace, height}
use squirrel_debug_server.Debugger.Lines.{hook-AtLine, AtLine}
use squirrel_debug_server.Debugger.Running.{IsClear}
use squirrel_debug_server.Debugger.Stepping.{
  CallTree, step_over-pauses, step_out-pauses, PausedIn, PausesAfter, trace_calls, height_calls,
}
use squirrel_debug_server.Debugger.Requests.{
  pause_execution-pauses, step_in-pauses, PausesAtNextLine,
}
use squirrel_debug_server.Debugger.FileBreakpoints.{set_file_breakpoints-refused, accepted}

abbrev same_case : Text → Text
same_case t = t

abbrev main_frame : StackInfo
main_frame = record { file_name_handle = some 0; line = pos 12 }

abbrev inner_frame : StackInfo
inner_frame = record { file_name_handle = some 0; line = pos 3 }

-- `main.nut` has a breakpoint on line 40.
abbrev main_map : BreakpointMap
main_map = record {
  file_names = codes "main.nut" ∷ [];
  breakpoints = (0, (40, record { id = 5; line = 40 }) ∷ []) ∷ [];
}

-- A VM that runs in a function called from the script, nothing requested.
abbrev running_debugger : Debugger
running_debugger = record {
  pause_requested = not_requested;
  pause_mutex_data = record {
    is_paused = false;
    returns_required = pos 0;
    status = initial_status;
    breakpoints = main_map;
  };
  vm_data = record {
    vm = some 7;
    current_stack = inner_frame ∷ main_frame ∷ [];
    file_name_handles = [];
  };
  has_events = true;
  events = [];
  waiting = false;
  notified = false;
}

-- The same, paused.
abbrev paused_debugger : Debugger
paused_debugger = record running_debugger {
  pause_requested = step_in;
  pause_mutex_data = record running_debugger.pause_mutex_data { is_paused = true };
  waiting = true;
}

abbrev frames_now : List SqStackInfo
frames_now = record { source = codes "main.nut"; line = pos 4; func_name = codes "f" } ∷ []

-- The script calls a function, whose body has a line and another call.
abbrev a_body : Body
a_body =
    line (pos 20) frames_now
      (call 101 (codes "lib.nut") (pos 1) (line (pos 2) frames_now done) done)

abbrev a_call : CallTree
a_call = record { address = 100; name = codes "main.nut"; line = pos 19; body = a_body }

-- A breakpoint stops the script, and its id is reported.
stops_at_breakpoint :
    Option.map
      (λ (d : Debugger). d.status.paused_at_breakpoint_id)
      (native_debug_hook same_case (at_line (pos 40) frames_now) running_debugger)
    ≡ some 5
unfolding native_debug_hook read_breakpoint lookup populate_stack
stops_at_breakpoint = refl

hook-AtLine_example :
    (d' : Debugger) × (native_debug_hook same_case (at_line (pos 40) frames_now) running_debugger
      ≡ some d')
    × AtLine (some (record { id = 5; line = 40 })) frames_now true running_debugger d'
unfolding breakpoint_at lookup
hook-AtLine_example =
    hook-AtLine same_case (pos 40) frames_now 7 inner_frame (main_frame ∷ []) running_debugger refl
      refl refl

misses_line : (n h : ℕ) → (n ≡ 40 → ⊥) → breakpoint_at main_map h n ≡ none
unfolding breakpoint_at lookup
misses_line n h e = ground arith

a_body-IsClear : IsClear main_map a_body
a_body-IsClear =
    ((λ h. misses_line 20 h (omega arith)), (((λ h. misses_line 2 h (omega arith)), tt), tt))

paused_debugger-PausedIn : PausedIn 7 inner_frame (main_frame ∷ []) paused_debugger
paused_debugger-PausedIn = record { attached_vm = refl; paused_now = refl; stack = refl }

step_over-pauses_example :
    ((step_over_command paused_debugger).0 ≡ success)
    × PausesAfter same_case
        (trace_calls (a_call ∷ a_call ∷ []))
        (pos 4)
        frames_now
        (resume (step_over_command paused_debugger).1)
        2
unfolding height_calls height
step_over-pauses_example =
    step_over-pauses same_case 7 inner_frame (main_frame ∷ []) (a_call ∷ a_call ∷ []) (pos 4)
      frames_now paused_debugger paused_debugger-PausedIn (a_body-IsClear, (a_body-IsClear, tt))
      (omega arith)

step_out-pauses_example :
    ((step_out_command paused_debugger).0 ≡ success)
    × PausesAfter same_case
        (trace a_body ++ returned ∷ trace_calls (a_call ∷ []))
        (pos 13)
        frames_now
        (resume (step_out_command paused_debugger).1)
        1
unfolding height_calls height
step_out-pauses_example =
    step_out-pauses same_case 7 inner_frame main_frame [] a_body (a_call ∷ []) (pos 13) frames_now
      paused_debugger paused_debugger-PausedIn a_body-IsClear (a_body-IsClear, tt) (omega arith)
      (omega arith)

-- After a call and its return.
abbrev called_and_back : List HookEvent
called_and_back = called 100 (codes "main.nut") (pos 19) ∷ returned ∷ []

abbrev after_pause_request : Debugger
after_pause_request = record running_debugger {
  pause_requested = step_in;
  pause_mutex_data = record running_debugger.pause_mutex_data { returns_required = negsuc 1 };
  vm_data = record running_debugger.vm_data { file_name_handles = (100, some 0) ∷ [] };
}

pause_execution-pauses_example :
    ((pause_execution running_debugger).0 ≡ success)
    × PausesAtNextLine same_case running_debugger after_pause_request (pos 4) frames_now
unfolding run advance native_debug_hook script_handle pause_execution lookup insert
    ensure_file_name_handle find_name
pause_execution-pauses_example =
    pause_execution-pauses same_case 7 called_and_back inner_frame (main_frame ∷ []) (pos 4)
      frames_now running_debugger after_pause_request refl refl refl tt refl refl

step_in-pauses_example :
    ((step_in_command paused_debugger).0 ≡ success)
    × PausesAtNextLine same_case paused_debugger after_pause_request (pos 4) frames_now
unfolding run advance native_debug_hook script_handle step_in_command resume lookup insert
    ensure_file_name_handle find_name
step_in-pauses_example =
    step_in-pauses same_case 7 called_and_back inner_frame (main_frame ∷ []) (pos 4) frames_now
      paused_debugger after_pause_request refl refl tt refl refl

-- A script that runs to its first line after a pause request waits there.
abbrev at_first_line : Debugger
at_first_line = record (attached 7) {
  pause_requested = step_in;
  pause_mutex_data = record {
    is_paused = true;
    returns_required = negsuc 0;
    status = record {
      run_state = paused;
      stack = populate_stack frames_now;
      paused_at_breakpoint_id = 0;
    };
    breakpoints = record { file_names = codes "main.nut" ∷ []; breakpoints = [] };
  };
  vm_data = record {
    vm = some 7;
    current_stack = record { file_name_handle = some 0; line = pos 4 } ∷ [];
    file_name_handles = (100, some 0) ∷ [];
  };
  has_events = true;
  events =
      status_changed (record {
        run_state = paused;
        stack = populate_stack frames_now;
        paused_at_breakpoint_id = 0;
      })
      ∷ [];
  waiting = true;
}

abbrev in_main : Debugger
in_main = record (attached 7) {
  pause_requested = step_in;
  pause_mutex_data = record {
    is_paused = false;
    returns_required = negsuc 0;
    status = initial_status;
    breakpoints = record { file_names = codes "main.nut" ∷ []; breakpoints = [] };
  };
  vm_data = record {
    vm = some 7;
    current_stack = record { file_name_handle = some 0; line = pos 1 } ∷ [];
    file_name_handles = (100, some 0) ∷ [];
  };
}

at_first_line-Reach : Reach same_case (attached 7) at_first_line
unfolding after_command native_debug_hook script_handle add_vm set_event_interface pause_execution
    lookup insert ensure_file_name_handle find_name read_breakpoint populate_stack
at_first_line-Reach =
    next {t = in_main}
      (next {t = after_command same_case asks_pause (attached 7)}
        (next here (command asks_pause refl))
        (hook (called 100 (codes "main.nut") (pos 1)) refl refl))
      (hook (at_line (pos 4) frames_now) refl refl)

Reach-Inv_example : Inv at_first_line
Reach-Inv_example = Reach-Inv at_first_line-Reach (attached-Inv 7)

access-waits_example :
    (with_stack_frame 1 (λ rc. false) true at_first_line ≡ true
      → (at_first_line.waiting ≡ true) × (1 ≤ 1))
    × (with_globals (λ rc. false) true at_first_line ≡ true → at_first_line.waiting ≡ true)
access-waits_example = access-waits same_case 7 1 at_first_line at_first_line-Reach

blocked-released_example :
    ((at_first_line.notified ≡ true)
      ⊎ (((continue_execution at_first_line).0 ≡ success)
          × ((continue_execution at_first_line).1.notified ≡ true)))
    × ((resume at_first_line).waiting ≡ false)
    × ((resume at_first_line).is_paused ≡ false)
blocked-released_example = blocked-released same_case 7 at_first_line at_first_line-Reach refl

abbrev request : List CreateBreakpoint
request = record { id = 1; line = 58 } ∷ record { id = 2; line = 60 } ∷ []

set_file_breakpoints-refused_example :
    set_file_breakpoints same_case
      (codes "main.nut")
      (record { id = 1; line = 58 } ∷ record { id = 0; line = 60 } ∷ [])
      running_debugger
    ≡ (invalid_parameter, record { id = 1; line = 58; verified = true } ∷ [], running_debugger)
unfolding accepted
set_file_breakpoints-refused_example =
    set_file_breakpoints-refused same_case (codes "main.nut")
      (record { id = 1; line = 58 } ∷ record { id = 0; line = 60 } ∷ []) running_debugger refl
