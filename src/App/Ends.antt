-- ===== src/App/Ends.antt =====
-- How the program ends.
use squirrel_debug_server.Base.{ℕ, ◌≡◌, Option, [], Bool, ◌&&◌, some, if◌then◌else◌, arith, ==_refl}
use squirrel_debug_server.Debugger.{Debugger, new_debugger}
use squirrel_debug_server.Debugger.Commands.{set_event_interface}
use squirrel_debug_server.App.Vms.{add_running, find_vm, swap, write_at, pop_back, remove_running}
use squirrel_debug_server.App.Lifecycle.{
  Outside, Exit, debugger_pointer, exit_code, by_terminate, attach, initialize, run_app, teardown,
  start_server, stop_server, destroy, set_command_interface, wrap_with_tries, leave_main, main,
}

-- The script's debugger: attached to the VM, with an event interface, and with a request to pause if
-- the script is to stop at its first line.
abbrev pub script_debugger : ℕ → Bool → Debugger
script_debugger v break_on_start = attach v break_on_start (set_event_interface new_debugger)

-- What the program's end depends on.
unfoldable pub expected_exit : Outside → ℕ → Bool → Exit
expected_exit o v break_on_start =
    if o.logger && (o.arguments && (o.environment && o.port))
    then (if (o.script (some (script_debugger v break_on_start))).0
        then exit_code (if o.shutdown then 0 else 1)
        else by_terminate)
    else exit_code 1

remove_one : {D : Type 0} (v : ℕ) (d : Option D) → remove_running v (add_running v d []) ≡ some []
unfolding remove_running add_running find_vm swap write_at pop_back
remove_one v d = ground (arith, ==_refl v)

-- The program exits with 0 if every part of it comes back, and with 1 if the start or the last part of
-- the end throws; if the script's run throws, the server's thread is still running, and the process
-- ends by `std::terminate`. The script runs with a debugger that is attached to its VM and has an
-- event interface.
pub main-expected_exit :
    (o : Outside) (v : ℕ) (break_on_start : Bool)
    → main o v break_on_start ≡ expected_exit o v break_on_start
unfolding main expected_exit wrap_with_tries initialize run_app teardown leave_main start_server
    stop_server destroy set_command_interface
main-expected_exit o v break_on_start = ground (arith, remove_one v (some debugger_pointer))
