-- ===== src/Debugger/Threads.antt =====
-- The interleavings of the VM thread and the server's threads, as a step relation. `pauseMutex_` makes
-- each command one step, and each hook call one step up to its wait. `AddVm` and `SetEventInterface`
-- come before the threads start, so they make the first state.
use squirrel_debug_server.Base.{ℕ, ◌≡◌, Bool, true, false, some, List, Text}
use squirrel_debug_server.Data.{CreateBreakpoint}
use squirrel_debug_server.Debugger.{Debugger, new_debugger}
use squirrel_debug_server.Debugger.Commands.{
  detach_vm, pause_execution, continue_execution, step_out_command, step_over_command,
  step_in_command, send_status, set_file_breakpoints, add_vm, set_event_interface,
}
use squirrel_debug_server.Debugger.Hook.{HookEvent, native_debug_hook, print_callback, resume}

pub data Command : Type 0 where
  detach pausing continuing stepping_out stepping_over stepping_in sending_status : Command
  setting_breakpoints : Text → List CreateBreakpoint → Command

unfoldable pub after_command : (Text → Text) → Command → Debugger → Debugger
unfolding detach_vm pause_execution continue_execution step_out_command step_over_command
    step_in_command send_status set_file_breakpoints
after_command lower detach d = detach_vm d
after_command lower pausing d = (pause_execution d).1
after_command lower continuing d = (continue_execution d).1
after_command lower stepping_out d = (step_out_command d).1
after_command lower stepping_over d = (step_over_command d).1
after_command lower stepping_in d = (step_in_command d).1
after_command lower sending_status d = (send_status d).1
after_command lower (setting_breakpoints file cs) d = (set_file_breakpoints lower file cs d).2

-- The VM calls a hook only while it runs. A thread that waits may be woken at any time: by
-- `notify_all`, or spuriously.
pub data Step (lower : Text → Text) (d : Debugger) (d' : Debugger) : Type 0 where
  hook :
      (e : HookEvent) → d.waiting ≡ false → native_debug_hook lower e d ≡ some d' → Step lower d d'
  print :
      (is_err : Bool) (output : Text)
      → d.waiting ≡ false
      → print_callback is_err output d ≡ some d'
      → Step lower d d'
  wake : d.waiting ≡ true → d' ≡ resume d → Step lower d d'
  command : (c : Command) → d' ≡ after_command lower c d → Step lower d d'

-- The debugger as `SampleApp` sets it up, with a VM.
abbrev pub attached : ℕ → Debugger
attached v = add_vm v (set_event_interface new_debugger)

pub data Reach (lower : Text → Text) (s : Debugger) : Debugger → Type 0 where
  here : Reach lower s s
  next : {t u : Debugger} → Reach lower s t → Step lower t u → Reach lower s u
