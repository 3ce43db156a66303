-- ===== src/Debugger.antt =====
-- squirrel_debugger/include/sdb/SquirrelDebugger.h and SquirrelDebugger.cpp: the state of the
-- debugger, which the VM thread (the hooks) and the server's threads (the commands) share. The
-- children hold the operations and what is proved of them.
pub mod Commands
pub mod Hook
pub mod Threads
pub mod Safety
pub mod Traces
pub mod Lines
pub mod Running
pub mod Stepping
pub mod Requests
pub mod FileBreakpoints
pub mod Tests
use squirrel_debug_server.Base.{
  ℕ, ℤ, pos, Bool, true, false, Option, none, some, List, [], ◌∷◌, ◌++◌, Text,
}
use squirrel_debug_server.Data.{RunState, Status, OutputLine, paused}
use squirrel_debug_server.Breakpoints.{FileNameHandle, BreakpointMap, empty_map}

-- `None` is `not_requested`. The enumerator `Pause` has the value of `StepIn`: they are one.
pub data PauseType : Type 0 where
  not_requested step_out step_over step_in : PauseType

abbrev pub pause : PauseType
pause = step_in

pub record PauseMutexData : Type 0 where
  pub is_paused : Bool
  pub returns_required : ℤ
  pub status : Status
  pub breakpoints : BreakpointMap

pub record StackInfo : Type 0 where
  pub file_name_handle : FileNameHandle
  pub line : ℤ

-- The back of the vector `currentStack` is the head of the list. `vm` and the keys of
-- `fileNameHandles` are pointers.
pub record SquirrelVmData : Type 0 where
  pub vm : Option ℕ
  pub current_stack : List StackInfo
  pub file_name_handles : List (ℕ × FileNameHandle)

-- What the event interface is called with.
pub data Event : Type 0 where
  status_changed : Status → Event
  output_line : OutputLine → Event

-- `waiting`: the VM thread is blocked in `pauseCv_.wait`; `notified`: the condition variable has been
-- notified since. `events` are the calls of the event interface, the latest first; `has_events` says
-- that the pointer to it is not null.
pub record Debugger : Type 0 where
  pub pause_requested : PauseType
  pub pause_mutex_data : PauseMutexData
  pub open pause_mutex_data use *
  pub vm_data : SquirrelVmData
  pub open vm_data use *
  pub has_events : Bool
  pub events : List Event
  pub waiting : Bool
  pub notified : Bool

abbrev pub is_requested : PauseType → Bool
is_requested not_requested = false
is_requested step_out = true
is_requested step_over = true
is_requested step_in = true

abbrev pub initial_status : Status
initial_status = record { run_state = paused; stack = []; paused_at_breakpoint_id = 0 }

-- The state that the constructor builds.
abbrev pub new_debugger : Debugger
new_debugger = record {
  pause_requested = not_requested;
  pause_mutex_data = record {
    is_paused = false;
    returns_required = pos 0;
    status = initial_status;
    breakpoints = empty_map;
  };
  vm_data = record { vm = none; current_stack = []; file_name_handles = [] };
  has_events = false;
  events = [];
  waiting = false;
  notified = false;
}

-- `if (eventInterface_) eventInterface_->…`
abbrev pub emit : Event → Debugger → Debugger
emit e d = record d { events = elim d.has_events [ true ↦ e ∷ d.events | false ↦ d.events ] }
