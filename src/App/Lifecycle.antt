-- ===== src/App/Lifecycle.antt =====
-- embedded_server/EmbeddedServer.cpp (`EndpointImpl`) and sample_app/main.cpp: what is created, started
-- and stopped, and when.
use squirrel_debug_server.Base.{
  ℕ, Bool, true, false, ◌&&◌, Option, none, some, List, [], ◌∷◌, ◌++◌, if◌then◌else◌,
}
use squirrel_debug_server.Debugger.{Debugger, new_debugger}
use squirrel_debug_server.Debugger.Commands.{add_vm, set_event_interface, pause_execution}
use squirrel_debug_server.App.Vms.{VmInfo, add_running, remove_running}

-- What a function does to a state: it returns, it throws, or it ends the process by `std::terminate`.
pub data Progress (S : Type 0) : Type 0 where
  returned thrown : S → Progress S
  terminated : Progress S

abbrev pub and_go : {S T : Type 0} → (S → T) → Progress S → (S → Progress T) → Progress T
and_go with_state (returned s) next = next s
and_go with_state (thrown s) next = thrown (with_state s)
and_go with_state terminated next = terminated

-- `worker_`: a `std::thread`.
pub data Worker : Type 0 where
  not_started joinable joined : Worker

pub data Controller : Type 0 where
  debug_command_controller static_controller websocket_controller : Controller

pub record Endpoint : Type 0 where
  pub controllers : List Controller
  pub has_event_interface : Bool
  pub stopping : Bool
  pub worker : Worker

abbrev pub new_endpoint : Endpoint
new_endpoint = record {
  controllers = [];
  has_event_interface = false;
  stopping = false;
  worker = not_started;
}

unfoldable pub set_command_interface : Endpoint → Endpoint
set_command_interface e = record e {
  controllers =
      e.controllers ++ debug_command_controller ∷ static_controller ∷ websocket_controller ∷ [];
  has_event_interface = true;
}

-- A thread that runs is not assigned to.
unfoldable pub start_server : Endpoint → Progress Endpoint
start_server e = elim e.worker [
  | joinable ↦ terminated
  | _ ↦ returned (record e { worker = joinable })
]

-- `join` of a thread that does not run throws.
unfoldable pub stop_server : Bool → Endpoint → Progress Endpoint
stop_server false e = returned (record e { stopping = true })
stop_server true e = elim e.worker [
  | joinable ↦ returned (record e { stopping = true; worker = joined })
  | _ ↦ thrown (record e { stopping = true })
]

-- The destructor, or that of a null pointer: a thread that runs is not destroyed.
unfoldable pub destroy : {S : Type 0} → Option Endpoint → S → Progress S
destroy none s = returned s
destroy (some e) s = elim e.worker [ joinable ↦ terminated | _ ↦ returned s ]

-- The pointer of `debugger_`, in an entry of the list.
pub data DebuggerPointer : Type 0 where
  debugger_pointer : DebuggerPointer

-- `SampleApp`. Each entry of the list has the application's debugger, or none.
pub record SampleApp : Type 0 where
  pub ep : Option Endpoint
  pub debugger : Option Debugger
  pub running_vms : List (VmInfo DebuggerPointer)

abbrev pub new_app : SampleApp
new_app = record { ep = none; debugger = none; running_vms = [] }

-- What the libraries, the file system and the VM do: whether each call comes back, and what the script
-- does to its debugger until it ends or throws.
pub record Outside : Type 0 where
  pub logger : Bool
  pub arguments : Bool
  pub environment : Bool
  pub port : Bool
  pub script : Option Debugger → Bool × Option Debugger
  pub shutdown : Bool

abbrev connected : Endpoint → Debugger → Debugger
connected e d = if e.has_event_interface then set_event_interface d else d

-- `Create` takes the port.
unfoldable pub initialize : Outside → SampleApp → Progress SampleApp
unfolding destroy set_command_interface start_server
initialize o app =
    if o.environment && o.port
    then and_go (λ (a : SampleApp). a) (destroy app.ep app)
        (λ app₁.
          let e = set_command_interface new_endpoint in
          let app₂ = record app₁ { ep = some e; debugger = some (connected e new_debugger) } in
          and_go (λ (e₁ : Endpoint). record app₂ { ep = some e₁ }) (start_server e)
            (λ e₁. returned (record app₂ { ep = some e₁ })))
    else thrown app

-- `AddVm`, and `PauseExecution` where the script is to stop at its first line.
unfoldable pub attach : ℕ → Bool → Debugger → Debugger
unfolding add_vm pause_execution
attach v false d = add_vm v d
attach v true d = (pause_execution (add_vm v d)).1

abbrev pub attach_if : ℕ → Bool → Option Debugger → Option Debugger
attach_if v break_on_start none = none
attach_if v break_on_start (some d) = some (attach v break_on_start d)

abbrev pub entry_debugger : Option Debugger → Option DebuggerPointer
entry_debugger none = none
entry_debugger (some d) = some debugger_pointer

-- An exception leaves the VM in the list.
abbrev pub after_script : ℕ → SampleApp → Bool × Option Debugger → Progress SampleApp
after_script v app (false, d) = thrown (record app { debugger = d })
after_script v app (true, d) = elim (remove_running v app.running_vms) [
  | none ↦ terminated
  | some rest ↦ returned (record app { debugger = d; running_vms = rest })
]

unfoldable pub run_app : Outside → ℕ → Bool → SampleApp → Progress SampleApp
unfolding add_running attach remove_running
run_app o v break_on_start app =
    let app₁ = record app {
      running_vms = add_running v (entry_debugger app.debugger) app.running_vms;
    } in
    after_script v app₁ (o.script (attach_if v break_on_start app.debugger))

abbrev shut_down : Outside → SampleApp → Progress SampleApp
shut_down o app = if o.shutdown then returned app else thrown app

unfoldable pub teardown : Outside → SampleApp → Progress SampleApp
unfolding stop_server destroy
teardown o app = elim app.ep [
  | none ↦ shut_down o app
  | some e ↦
      and_go (λ (e₁ : Endpoint). record app { ep = some e₁ }) (stop_server true e)
        (λ e₁.
          and_go (λ (a : SampleApp). a) (destroy (some e₁) (record app { ep = none }))
            (λ app₁. shut_down o app₁))
]

-- `ioShouldContinue` with the state, unless the process has ended.
abbrev pub Main : Type 0 → Type 0
Main S = Option (Bool × S)

abbrev pub continue_with : {S : Type 0} → Progress S → Main S
continue_with (returned s) = some (true, s)
continue_with (thrown s) = some (false, s)
continue_with terminated = none

unfoldable pub wrap_with_tries : {S : Type 0} → (S → Progress S) → Main S → Main S
wrap_with_tries fn none = none
wrap_with_tries fn (some (false, s)) = some (false, s)
wrap_with_tries fn (some (true, s)) = continue_with (fn s)

abbrev pub comes_back : {S : Type 0} → Bool → S → Progress S
comes_back true s = returned s
comes_back false s = thrown s

pub data Exit : Type 0 where
  exit_code : ℕ → Exit
  by_terminate : Exit

-- The return from `main`, and the destructor of the application's static instance.
unfoldable pub leave_main : Main SampleApp → Exit
unfolding destroy
leave_main none = by_terminate
leave_main (some (should_continue, app)) = elim (destroy app.ep app) [
  | terminated ↦ by_terminate
  | _ ↦ exit_code (if should_continue then 0 else 1)
]

unfoldable pub main : Outside → ℕ → Bool → Exit
unfolding wrap_with_tries initialize run_app teardown leave_main
main o v break_on_start = leave_main (
    wrap_with_tries (teardown o) (
      wrap_with_tries (run_app o v break_on_start) (
        wrap_with_tries (initialize o) (
          wrap_with_tries (comes_back o.arguments)
            (wrap_with_tries (comes_back o.logger) (some (true, new_app)))))))
