-- ===== src/App/Tests.antt =====
-- Three running VMs, runs of the program, and the theorems at concrete inputs.
use squirrel_debug_server.Base.{◌+◌, ◌≡◌, refl, Bool, true, false, none, some, List, [], ◌∷◌}
use squirrel_debug_server.App.Vms.{VmInfo, find_vm, remove_running, debugger_for_vm}
use squirrel_debug_server.App.Removal.{tally, one_if, remove_running-tally}
use squirrel_debug_server.App.Lifecycle.{Outside, exit_code, by_terminate, main}
use squirrel_debug_server.App.Ends.{expected_exit, main-expected_exit}

abbrev three_vms : List (VmInfo Bool)
three_vms = (7, some true) ∷ (8, none) ∷ (9, some false) ∷ []

-- The last entry takes the place of the one that is removed.
first_removed : remove_running 7 three_vms ≡ some ((9, some false) ∷ (8, none) ∷ [])
unfolding remove_running
first_removed = refl

last_removed : remove_running 9 three_vms ≡ some ((7, some true) ∷ (8, none) ∷ [])
unfolding remove_running
last_removed = refl

found_debugger : debugger_for_vm 9 three_vms ≡ some false
unfolding debugger_for_vm
found_debugger = refl

remove_running-tally_example :
    (info : VmInfo Bool) × (rest : List (VmInfo Bool)) × (info.0 ≡ 7)
    × (remove_running 7 three_vms ≡ some rest)
    × ((test : VmInfo Bool → Bool)
        → tally test rest + one_if test (test info) ≡ tally test three_vms)
unfolding find_vm
remove_running-tally_example = remove_running-tally 7 three_vms 0 refl

-- Everything comes back, except the script where `ends` is false.
abbrev outside : Bool → Outside
outside ends = record {
  logger = true;
  arguments = true;
  environment = true;
  port = true;
  script = λ d. (ends, d);
  shutdown = true;
}

script_ends : main (outside true) 7 true ≡ exit_code 0
unfolding main
script_ends = refl

script_throws : main (outside false) 7 true ≡ by_terminate
unfolding main
script_throws = refl

main-expected_exit_example : main (outside false) 7 true ≡ by_terminate
unfolding expected_exit
main-expected_exit_example = main-expected_exit (outside false) 7 true
