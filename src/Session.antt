-- ===== src/Session.antt =====
-- squirrel_debugger/include/sdb/SquirrelDebugger.h: `SquirrelDebugger` as the commands that the
-- controller calls, as sample_app/main.cpp connects them, on the state of the debugger and of the VM.
pub mod Answers
pub mod Counts
pub mod Tests
use squirrel_debug_server.Base.{ℕ, ℤ, Option, none, some, List, [], Text}
use squirrel_debug_server.Data.{
  ReturnCode, PaginationInfo, Variable, ImmediateValue, CreateBreakpoint, ResolvedBreakpoint,
  VariableType, local,
}
use squirrel_debug_server.Debugger.{Debugger}
use squirrel_debug_server.Debugger.Commands.{
  pause_execution, continue_execution, step_out_command, step_over_command, step_in_command,
  send_status, set_file_breakpoints,
}
use squirrel_debug_server.Variables.Machine.{SquirrelApi, Machine}
use squirrel_debug_server.Variables.Types.{Platform}
use squirrel_debug_server.Variables.Children.{new_variable}
use squirrel_debug_server.Variables.Frames.{
  get_stack_variables, get_global_variables, set_stack_variable_value,
}
use squirrel_debug_server.Immediate.Loop.{get_immediate_value}
use squirrel_debug_server.Server.Controller.{MessageCommandInterface}

abbrev pub Session : Type 0 → Type 0 → Type 0
Session Object Heap = Debugger × Machine Object Heap

-- A command that does not look at the VM.
abbrev pub on_debugger :
    {Object Heap : Type 0}
    → (Debugger → ReturnCode × Debugger)
    → Session Object Heap
    → Option (ReturnCode × Session Object Heap)
on_debugger command (d, m) = let r = command d in some (r.0, (r.1, m))

-- A command that changes nothing of the debugger; `value` is what it writes.
abbrev pub on_machine :
    {Object Heap A B : Type 0}
    → (A → B)
    → Debugger
    → Option (A × Machine Object Heap)
    → Option (B × Session Object Heap)
on_machine value d none = none
on_machine value d (some (a, m)) = some (value a, (d, m))

-- The value that the controller has made before the call, unless the command writes another.
abbrev pub or_new_variable : Option Variable → Variable
or_new_variable none = new_variable
or_new_variable (some v) = v

abbrev pub new_immediate_value : ImmediateValue
new_immediate_value = record { variable = new_variable; scope = local; iterator_path = [] }

abbrev pub or_new_immediate_value : Option ImmediateValue → ImmediateValue
or_new_immediate_value none = new_immediate_value
or_new_immediate_value (some v) = v

module _ {Object Heap : Type 0} (lower : Text → Text) (platform : Platform)
    (bit_index : VariableType → ℕ) (api : SquirrelApi Object Heap) (f : ℕ) where
  abbrev pub debugger_commands : MessageCommandInterface (Session Object Heap)
  debugger_commands = record {
    pause_execution = on_debugger pause_execution;
    continue_execution = on_debugger continue_execution;
    step_out = on_debugger step_out_command;
    step_over = on_debugger step_over_command;
    step_in = on_debugger step_in_command;
    send_status = on_debugger send_status;
    get_stack_variables = λ frame path page s.
        on_machine (λ r. r) s.0
          (get_stack_variables platform bit_index api f frame path page s.0 s.1);
    get_global_variables = λ path page s.
        on_machine (λ r. r) s.0 (get_global_variables platform bit_index api f path page s.0 s.1);
    set_stack_variable_value = λ frame path value s.
        on_machine (λ r. (r.0, or_new_variable r.1)) s.0
          (set_stack_variable_value platform bit_index api f frame path value s.0 s.1);
    get_immediate_value = λ frame watch page s.
        on_machine (λ r. (r.0, or_new_immediate_value r.1)) s.0
          (get_immediate_value platform bit_index api f frame watch s.0 s.1);
    set_file_breakpoints = λ file bps s.
        let r = set_file_breakpoints lower file bps s.0 in some ((r.0, r.1), (r.2, s.1));
  }
