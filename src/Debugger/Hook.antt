-- ===== src/Debugger/Hook.antt =====
-- SquirrelDebugger.cpp: the debug hook and the print callback, which the VM thread calls. `none`
-- stands for a failed assertion, or for reading the back of an empty vector.
use squirrel_debug_server.Base.{
  ℕ, zero, suc, ℤ, pos, negsuc, inc, dec, is_nonneg, Bool, true, false, ◌&&◌, Option, none, some,
  List, [], ◌∷◌, Text, length, ltb, map, get_elem?, if◌then◌else◌,
}
use squirrel_debug_server.Base.Assoc.{lookup, insert}
use squirrel_debug_server.Data.{StackEntry, Status, paused}
use squirrel_debug_server.Breakpoints.{
  Breakpoint, FileNameHandle, BreakpointMap, ensure_file_name_handle, read_breakpoint,
}
use squirrel_debug_server.Debugger.{
  pause, is_requested, StackInfo, Debugger, status_changed, output_line, emit,
}

abbrev pub default_stack_size : ℕ
default_stack_size = 1024

abbrev pub int32_max : ℕ
int32_max = 2147483647

-- What `sq_stackinfos` reports of one level of the VM's stack.
pub record SqStackInfo : Type 0 where
  pub source : Text
  pub line : ℤ
  pub func_name : Text

-- `line > 0 && line <= INT32_MAX ? line : 0`
unfoldable pub reported_line : ℤ → ℕ
reported_line (pos n) = if ltb int32_max n then 0 else n
reported_line (negsuc n) = 0

-- The levels that `sq_stackinfos` answers for, 0 first, are `frames`.
unfoldable pub populate_stack : List SqStackInfo → List StackEntry
unfolding reported_line
populate_stack =
    map (λ si. record { file = si.source; line = reported_line si.line; function = si.func_name })

-- The handle of a script, by the address of its name: looked up, or made and remembered.
unfoldable pub script_handle : (Text → Text) → ℕ → Text → Debugger → FileNameHandle × Debugger
script_handle lower address name d = elim (lookup address d.file_name_handles) [
  | some handle ↦ (handle, d)
  | none ↦
      let (handle, m) = ensure_file_name_handle lower name d.breakpoints in
      (
        handle,
        record d {
          pause_mutex_data = record d.pause_mutex_data { breakpoints = m };
          vm_data = record d.vm_data {
            file_name_handles = insert address handle d.file_name_handles;
          };
        },
      )
]

-- `++returnsRequired` if a pause is requested and it is not negative: one step, and a number without a
-- bound. The code reads and increments an `int` without the lock.
abbrev pub count_call : Debugger → Debugger
count_call d =
    if is_requested d.pause_requested && is_nonneg d.returns_required
    then record d {
      pause_mutex_data = record d.pause_mutex_data { returns_required = inc d.returns_required };
    }
    else d

-- `--returnsRequired` if a pause is requested.
abbrev pub count_return : Debugger → Debugger
count_return d =
    if is_requested d.pause_requested
    then record d {
      pause_mutex_data = record d.pause_mutex_data { returns_required = dec d.returns_required };
    }
    else d

abbrev pub set_stack : List StackInfo → Debugger → Debugger
set_stack stack d = record d { vm_data = record d.vm_data { current_stack = stack } }

-- type 'c'
unfoldable pub hook_call : (Text → Text) → ℕ → Text → ℤ → Debugger → Option Debugger
hook_call lower address name line d =
    let (handle, d') = script_handle lower address name d in
    if ltb (length d'.current_stack) default_stack_size
    then some (
        count_call
          (set_stack (record { file_name_handle = handle; line = line } ∷ d'.current_stack) d'))
    else none

-- type 'r'
unfoldable pub hook_return : Debugger → Option Debugger
hook_return d = elim d.current_stack [
  | [] ↦ none
  | s ∷ stack ↦ some (count_return (set_stack stack d))
]

abbrev pub no_breakpoint : Breakpoint
no_breakpoint = record { id = 0; line = 0 }

-- Whether the line has a breakpoint, and the variable `bp` after the test.
unfoldable pub read_line : FileNameHandle → ℤ → BreakpointMap → Bool × Breakpoint
read_line handle (negsuc n) m = (false, no_breakpoint)
read_line none (pos n) m = (false, no_breakpoint)
read_line (some h) (pos n) m =
    if ltb n int32_max then read_breakpoint (some h) n no_breakpoint m else (false, no_breakpoint)

-- A breakpoint requests a pause that needs no more returns.
abbrev pub request_at_breakpoint : Bool → Debugger → Debugger
request_at_breakpoint hit d =
    if hit
    then record d {
      pause_requested = pause;
      pause_mutex_data = record d.pause_mutex_data { returns_required = pos 0 };
    }
    else d

-- `returnsRequired <= 0`
abbrev pub no_more_returns : ℤ → Bool
no_more_returns (pos zero) = true
no_more_returns (pos (suc n)) = false
no_more_returns (negsuc n) = true

-- The status is stored and sent, and the thread waits: the lock is free until it is woken.
abbrev enter_pause : Breakpoint → List SqStackInfo → Debugger → Debugger
enter_pause bp frames d =
    let status : Status = record {
      run_state = paused;
      stack = populate_stack frames;
      paused_at_breakpoint_id = bp.id;
    } in
    record (emit (status_changed status) d) {
      pause_mutex_data = record d.pause_mutex_data { is_paused = true; status = status };
      waiting = true;
      notified = false;
    }

unfoldable pub pause_if_due : Breakpoint → List SqStackInfo → Debugger → Debugger
pause_if_due bp frames d =
    if is_requested d.pause_requested && no_more_returns d.returns_required
    then enter_pause bp frames d
    else d

-- type 'l', up to the wait
unfoldable pub hook_line : ℤ → List SqStackInfo → Debugger → Option Debugger
unfolding read_line pause_if_due
hook_line line frames d = elim d.current_stack [
  | [] ↦ none
  | s ∷ stack ↦
      let d' = set_stack (record s { line = line } ∷ stack) d in
      let (hit, bp) = read_line s.file_name_handle line d.breakpoints in
      some (pause_if_due bp frames (request_at_breakpoint hit d'))
]

-- What follows the wait.
unfoldable pub resume : Debugger → Debugger
resume d = record d {
  pause_mutex_data = record d.pause_mutex_data { is_paused = false };
  waiting = false;
  notified = false;
}

-- A call of the hook, by its type; other types are ignored.
pub data HookEvent : Type 0 where
  called : ℕ → Text → ℤ → HookEvent
  returned : HookEvent
  at_line : ℤ → List SqStackInfo → HookEvent

unfoldable pub dispatch : (Text → Text) → HookEvent → Debugger → Option Debugger
unfolding hook_call hook_return hook_line
dispatch lower (called address name line) d = hook_call lower address name line d
dispatch lower returned d = hook_return d
dispatch lower (at_line line frames) d = hook_line line frames d

-- The hook does nothing while no VM is attached.
unfoldable pub native_debug_hook : (Text → Text) → HookEvent → Debugger → Option Debugger
unfolding dispatch
native_debug_hook lower e d = elim d.vm [ none ↦ some d | some v ↦ dispatch lower e d ]

-- The name behind a handle.
abbrev handle_name : FileNameHandle → BreakpointMap → Option Text
handle_name none m = none
handle_name (some h) m = get_elem? m.file_names h

abbrev print_line : Text → Bool → StackInfo → Debugger → Option Text → Option Debugger
print_line output is_err s d none = none
print_line output is_err s d (some name) = some (
    emit
      (output_line (record {
        output = output;
        is_err = is_err;
        file_name = name;
        line = reported_line s.line;
      }))
      d)

unfoldable pub print_callback : Bool → Text → Debugger → Option Debugger
unfolding reported_line
print_callback is_err output d = elim d.vm [
  | none ↦ some d
  | some v ↦ elim d.current_stack [
    | [] ↦ none
    | s ∷ stack ↦ print_line output is_err s d (handle_name s.file_name_handle d.breakpoints)
  ]
]
