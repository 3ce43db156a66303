-- ===== src/Debugger/Commands.antt =====
-- SquirrelDebugger.cpp: the operations that any thread may call. Each holds `pauseMutex_` while it
-- changes anything, so each is one step. The out parameters are part of the result.
use squirrel_debug_server.Base.{
  ℕ, ℤ, pos, negsuc, true, false, none, some, List, [], ◌∷◌, ◌++◌, ◌==◌, Text, length, ltb,
  if◌then◌else◌,
}
use squirrel_debug_server.Data.{
  ReturnCode, success, invalid_not_paused, invalid_parameter, running, pausing, paused, stepping,
  Status, CreateBreakpoint, ResolvedBreakpoint,
}
use squirrel_debug_server.Breakpoints.{Breakpoint, replace_file}
use squirrel_debug_server.Debugger.{
  PauseType, not_requested, step_out, step_over, step_in, pause, is_requested, Debugger,
  initial_status, emit, status_changed,
}

abbrev set_returns : ℤ → Debugger → Debugger
set_returns n d = record d { pause_mutex_data = record d.pause_mutex_data { returns_required = n } }

-- `pauseCv_.notify_all()`: only a thread that waits is woken.
abbrev pub notify_all : Debugger → Debugger
notify_all d = record d { notified = d.waiting }

unfoldable pub set_event_interface : Debugger → Debugger
set_event_interface d = record d { has_events = true }

unfoldable pub add_vm : ℕ → Debugger → Debugger
add_vm v d = record d { vm_data = record d.vm_data { vm = some v } }

abbrev detach_attached : Debugger → Debugger
detach_attached d =
    let unpaused = record d {
      pause_mutex_data = record d.pause_mutex_data { is_paused = false };
    } in
    let resumed =
      if is_requested d.pause_requested
      then notify_all (record unpaused { pause_requested = not_requested })
      else unpaused in
    record resumed { vm_data = record { vm = none; current_stack = []; file_name_handles = [] } }

unfoldable pub detach_vm : Debugger → Debugger
detach_vm d = elim d.vm [ none ↦ d | some v ↦ detach_attached d ]

unfoldable pub pause_execution : Debugger → ReturnCode × Debugger
pause_execution d =
    if is_requested d.pause_requested
    then (success, d)
    else (success, set_returns (negsuc 0) (record d { pause_requested = pause }))

unfoldable pub continue_execution : Debugger → ReturnCode × Debugger
continue_execution d =
    if is_requested d.pause_requested
    then (success, notify_all (record d { pause_requested = not_requested }))
    else (invalid_not_paused, d)

unfoldable pub step : PauseType → ℤ → Debugger → ReturnCode × Debugger
step pause_type returns_required d =
    if d.is_paused
    then (
      success,
      notify_all (record (set_returns returns_required d) { pause_requested = pause_type }),
    )
    else (invalid_not_paused, d)

-- The public operations, by their `PauseType` and `returnsRequired`.
unfoldable pub step_out_command : Debugger → ReturnCode × Debugger
unfolding step
step_out_command = step step_out (pos 1)

unfoldable pub step_over_command : Debugger → ReturnCode × Debugger
unfolding step
step_over_command = step step_over (pos 0)

unfoldable pub step_in_command : Debugger → ReturnCode × Debugger
unfolding step
step_in_command = step step_in (negsuc 0)

-- The status that `SendStatus` reports.
unfoldable pub reported_status : Debugger → Status
reported_status d =
    if is_requested d.pause_requested
    then (if d.is_paused then record d.status { run_state = paused } else (elim d.pause_requested [
      | step_in ↦ record initial_status { run_state = pausing }
      | _ ↦ record initial_status { run_state = stepping }
    ]))
    else record initial_status { run_state = running }

unfoldable pub send_status : Debugger → ReturnCode × Debugger
unfolding reported_status
send_status d = (success, emit (status_changed (reported_status d)) d)

-- The loop over the request: the breakpoints so far, the resolved ones so far, and the return code.
-- The first entry with a zero id or line stops it.
unfoldable pub resolve :
    List CreateBreakpoint
    → List Breakpoint
    → List ResolvedBreakpoint
    → ReturnCode × List Breakpoint × List ResolvedBreakpoint
resolve [] bps resolved = (success, bps, resolved)
resolve (c ∷ cs) bps resolved =
    let rest =
      resolve cs (bps ++ record { id = c.id; line = c.line } ∷ [])
        (resolved ++ record { id = c.id; line = c.line; verified = true } ∷ []) in
    if c.id == 0
    then (invalid_parameter, bps, resolved)
    else (if c.line == 0 then (invalid_parameter, bps, resolved) else rest)

abbrev pub SetResult : Type 0
SetResult = ReturnCode × List ResolvedBreakpoint × Debugger

abbrev store_resolved :
    (Text → Text)
    → Text
    → Debugger
    → ReturnCode × List Breakpoint × List ResolvedBreakpoint
    → SetResult
store_resolved lower file d (success, bps, resolved) = (
  success,
  resolved,
  record d {
    pause_mutex_data = record d.pause_mutex_data {
      breakpoints = replace_file lower file bps d.breakpoints;
    };
  },
)
store_resolved lower file d (rc, bps, resolved) = (rc, resolved, d)

unfoldable pub set_file_breakpoints :
    (Text → Text) → Text → List CreateBreakpoint → Debugger → SetResult
unfolding resolve
set_file_breakpoints lower file cs d = store_resolved lower file d (resolve cs [] [])

-- The guards that `GetStackVariables` and `SetStackVariableValue` share; `access` is what they then
-- do to the VM.
unfoldable pub with_stack_frame {ℓ} : {A : Type ℓ} → ℕ → (ReturnCode → A) → A → Debugger → A
with_stack_frame stack_frame refuse access d =
    if d.is_paused
    then (if ltb (length d.current_stack) stack_frame then refuse invalid_parameter else access)
    else refuse invalid_not_paused

-- The guard of `GetGlobalVariables`.
unfoldable pub with_globals {ℓ} : {A : Type ℓ} → (ReturnCode → A) → A → Debugger → A
with_globals refuse access d = if d.is_paused then access else refuse invalid_not_paused
