-- ===== src/Debugger/Safety.antt =====
-- What holds in every reachable state: VM data is read only while the VM thread waits, and a waiting
-- thread can always be let go.
use squirrel_debug_server.Base.{
  ℕ, ℤ, ◌≡◌, ◌≤◌, ◌⊎◌, inl, inr, refl, sym, subst, length, Bool-cases, Bool, true, false, some,
  List, Text, arith,
}
use squirrel_debug_server.Data.{success}
use squirrel_debug_server.Breakpoints.{Breakpoint}
use squirrel_debug_server.Debugger.{Debugger, is_requested}
use squirrel_debug_server.Debugger.Commands.{
  continue_execution, with_stack_frame, with_globals, add_vm, set_event_interface,
}
use squirrel_debug_server.Debugger.Hook.{
  HookEvent, called, returned, at_line, SqStackInfo, native_debug_hook, print_callback, resume,
  hook_call, hook_return, hook_line, script_handle, pause_if_due,
}
use squirrel_debug_server.Debugger.Threads.{
  Command, detach, pausing, continuing, stepping_out, stepping_over, stepping_in, sending_status,
  setting_breakpoints, after_command, Step, hook, print, wake, command, attached, Reach, here, next,
}

-- A paused debugger has the VM thread waiting; only a waiting thread counts as notified; and a thread
-- that waits without a notification has a pause request that `ContinueExecution` can take back.
pub record Inv (d : Debugger) : Type 0 where
  pub paused_waits : d.is_paused ≡ true → d.waiting ≡ true
  pub notified_waits : d.notified ≡ true → d.waiting ≡ true
  pub blocked_requested :
      d.waiting ≡ true → d.notified ≡ false → is_requested d.pause_requested ≡ true

pub attached-Inv : (v : ℕ) → Inv (attached v)
unfolding add_vm set_event_interface
attached-Inv v = record {
  paused_waits = λ e. cc;
  notified_waits = λ e. cc;
  blocked_requested = λ e. cc;
}

command-Inv :
    (lower : Text → Text) (c : Command) (d : Debugger) → Inv d → Inv (after_command lower c d)
unfolding after_command
command-Inv lower detach d i = ground arith
command-Inv lower pausing d i = ground arith
command-Inv lower continuing d i = ground arith
command-Inv lower stepping_out d i = ground arith
command-Inv lower stepping_over d i = ground arith
command-Inv lower stepping_in d i = ground arith
command-Inv lower sending_status d i = ground arith
command-Inv lower (setting_breakpoints file cs) d i = ground arith

resume-Inv : (d : Debugger) → Inv (resume d)
unfolding resume
resume-Inv d = record {
  paused_waits = λ e. cc;
  notified_waits = λ e. cc;
  blocked_requested = λ e. cc;
}

hook_call-Inv :
    (lower : Text → Text) (address : ℕ) (name : Text) (line : ℤ) (d d' : Debugger)
    → hook_call lower address name line d ≡ some d'
    → d.waiting ≡ false
    → Inv d
    → Inv d'
unfolding hook_call script_handle
hook_call-Inv lower address name line d d' e w i = ground arith

hook_return-Inv : (d d' : Debugger) → hook_return d ≡ some d' → Inv d → Inv d'
unfolding hook_return
hook_return-Inv d d' e i = ground arith

pause_if_due-Inv :
    (bp : Breakpoint) (frames : List SqStackInfo) (d : Debugger)
    → Inv d
    → Inv (pause_if_due bp frames d)
unfolding pause_if_due
pause_if_due-Inv bp frames d i = ground arith

hook_line-Inv :
    (line : ℤ) (frames : List SqStackInfo) (d d' : Debugger)
    → hook_line line frames d ≡ some d'
    → Inv d
    → Inv d'
unfolding hook_line
hook_line-Inv line frames d d' e i = ground arith

hook-Inv :
    (lower : Text → Text) (e : HookEvent) (d d' : Debugger)
    → native_debug_hook lower e d ≡ some d'
    → d.waiting ≡ false
    → Inv d
    → Inv d'
unfolding native_debug_hook
hook-Inv lower (called address name line) d d' e w i =
    ground (arith, hook_call-Inv lower address name line d d')
hook-Inv lower returned d d' e w i = ground (arith, hook_return-Inv d d')
hook-Inv lower (at_line line frames) d d' e w i = ground (arith, hook_line-Inv line frames d d')

print-Inv :
    (is_err : Bool) (output : Text) (d d' : Debugger)
    → print_callback is_err output d ≡ some d'
    → Inv d
    → Inv d'
unfolding print_callback
print-Inv is_err output d d' e i = ground arith

Step-Inv : (lower : Text → Text) (d d' : Debugger) → Step lower d d' → Inv d → Inv d'
Step-Inv lower d d' (hook e w h) i = hook-Inv lower e d d' h w i
Step-Inv lower d d' (print is_err output w h) i = print-Inv is_err output d d' h i
Step-Inv lower d d' (wake w e) i = subst Inv (sym e) (resume-Inv d)
Step-Inv lower d d' (command c e) i = subst Inv (sym e) (command-Inv lower c d i)

-- After any interleaving of hooks, commands and wake-ups from a state with the invariant: a paused
-- debugger has the VM thread waiting, only a waiting thread counts as notified, and a thread that
-- waits without a notification has a pause request.
pub Reach-Inv : {lower : Text → Text} {s d : Debugger} → Reach lower s d → Inv s → Inv d
Reach-Inv here i = i
Reach-Inv {lower} (next {t} {u} r st) i = Step-Inv lower t u st (Reach-Inv r i)

-- In every state that the attached debugger reaches, `GetStackVariables`, `SetStackVariableValue` and
-- `GetGlobalVariables` go on to the VM only while the VM thread is blocked in the pause, and with a
-- stack frame at most the number of frames.
pub access-waits :
    (lower : Text → Text) (v stack_frame : ℕ) (d : Debugger)
    → Reach lower (attached v) d
    → (with_stack_frame stack_frame (λ rc. false) true d ≡ true
        → (d.waiting ≡ true) × (stack_frame ≤ length d.current_stack))
      × (with_globals (λ rc. false) true d ≡ true → d.waiting ≡ true)
unfolding with_stack_frame with_globals
access-waits lower v stack_frame d r =
    let i = Reach-Inv r (attached-Inv v) in
    ((λ h. (ground arith, ground arith)), (λ h. ground arith))

-- In every reachable state where the VM thread is blocked, either a wake-up is on its way or
-- `ContinueExecution` succeeds and sends one; and the wake-up lets the thread run unpaused.
pub blocked-released :
    (lower : Text → Text) (v : ℕ) (d : Debugger)
    → Reach lower (attached v) d
    → d.waiting ≡ true
    → ((d.notified ≡ true)
        ⊎ (((continue_execution d).0 ≡ success) × ((continue_execution d).1.notified ≡ true)))
      × ((resume d).waiting ≡ false)
      × ((resume d).is_paused ≡ false)
unfolding continue_execution resume
blocked-released lower v d r w =
    let i = Reach-Inv r (attached-Inv v) in
    (
      elim (Bool-cases d.notified) [
        | inl sent ↦ inl sent
        | inr unsent ↦
            let requested = i.blocked_requested w unsent in inr (ground arith, ground arith)
      ],
      refl,
      refl,
    )
