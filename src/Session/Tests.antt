-- ===== src/Session/Tests.antt =====
-- Requests on a small VM, and the theorems at concrete inputs.
use squirrel_debug_server.Base.{
  ℕ, ◌≡◌, ◌≤◌, refl, pos, Option, none, some, List, [], ◌∷◌, Text, codes, text_eq, map,
  if◌then◌else◌,
}
use squirrel_debug_server.Data.{invalid_not_paused, invalid_parameter, CreateBreakpoint}
use squirrel_debug_server.Debugger.{Debugger, new_debugger}
use squirrel_debug_server.Debugger.FileBreakpoints.{to_resolved, to_breakpoint}
use squirrel_debug_server.Breakpoints.Refinement.{table}
use squirrel_debug_server.Breakpoints.Lines.{last_on_line}
use squirrel_debug_server.Watch.{node, no_accessor, identifier, no_next}
use squirrel_debug_server.Watch.Parser.{parse_watch, read_word, link}
use squirrel_debug_server.Watch.Strings.{read_identifier}
use squirrel_debug_server.Variables.Types.{msvc, position}
use squirrel_debug_server.Immediate.SmallVm.{Object, Heap, small_vm, machine₀, paused_debugger}
use squirrel_debug_server.Server.Parameters.{QueryParams, pagination, c_str}
use squirrel_debug_server.Server.Responses.{
  Response, breakpoints, create_resolved_breakpoint, create_return_code_response, success_response,
}
use squirrel_debug_server.Server.Controller.{
  MessageCommandInterface, get_local, get_global, put_local, put_immediate, put_file_breakpoints,
  handle,
}
use squirrel_debug_server.Variables.Frames.{get_global_variables}
use squirrel_debug_server.Variables.Show.{show_integer}
use squirrel_debug_server.Session.{Session, debugger_commands}
use squirrel_debug_server.Session.Counts.{listing, count_of, size_of_page, handle-count_of}
use squirrel_debug_server.Session.Answers.{handle-not_paused, handle-breakpoints}

abbrev commands : MessageCommandInterface (Session Object Heap)
commands = debugger_commands (λ s. s) msvc position small_vm 20

abbrev no_params : QueryParams
no_params name = none

-- The globals of the small VM, one variable.
abbrev globals_answer : Option (Response × Session Object Heap)
globals_answer = handle commands (listing none [] no_params) (paused_debugger, machine₀)

abbrev response_of : Option (Response × Session Object Heap) → Response
response_of none = create_return_code_response invalid_parameter
response_of (some (r, s)) = r

lists_one : count_of (response_of globals_answer).body ≡ 1
unfolding handle create_return_code_response get_global_variables pagination position show_integer
lists_one = refl

handle-count_of_example :
    (count_of (response_of globals_answer).body ≤ size_of_page (pagination no_params))
    × (count_of (response_of globals_answer).body ≤ 1000)
unfolding handle create_return_code_response get_global_variables pagination position show_integer
handle-count_of_example =
    handle-count_of (λ s. s) msvc position small_vm 20 none [] no_params (paused_debugger, machine₀)
      (paused_debugger, machine₀) (response_of globals_answer) refl

abbrev not_paused : Option (Response × Session Object Heap)
not_paused = some (create_return_code_response invalid_not_paused, (new_debugger, machine₀))

handle-not_paused_example :
    (handle commands (get_local 0 [] no_params) (new_debugger, machine₀) ≡ not_paused)
    × (handle commands (get_global [] no_params) (new_debugger, machine₀) ≡ not_paused)
    × (handle commands (put_local 0 [] (codes "1")) (new_debugger, machine₀) ≡ not_paused)
    × (handle commands (put_immediate (pos 0) no_params (codes "q" ∷ [])) (new_debugger, machine₀)
        ≡ not_paused)
unfolding read_word read_identifier link pagination parse_watch
handle-not_paused_example =
    handle-not_paused (λ s. s) msvc position small_vm 20 new_debugger machine₀ no_params
      (record { begin_iterator = 0; count = 100 }) 0 (pos 0) [] (codes "1") (codes "q") []
      (node (codes "q") no_accessor identifier no_next) [] refl refl refl

abbrev two_breakpoints : List CreateBreakpoint
two_breakpoints = record { id = 1; line = 4 } ∷ record { id = 2; line = 9 } ∷ []

handle-breakpoints_example :
    (d' : Debugger) × (handle commands
        (put_file_breakpoints (codes "a.nut") two_breakpoints)
        (new_debugger, machine₀)
      ≡ some (
        success_response
            (breakpoints (map create_resolved_breakpoint (map to_resolved two_breakpoints))),
        (d', machine₀),
      ))
    × ((g : Text) (line : ℕ)
        → table (λ s. s) d'.breakpoints g line ≡ (
            if text_eq (c_str (codes "a.nut")) g
            then last_on_line (map to_breakpoint two_breakpoints) line none
            else table (λ s. s) new_debugger.breakpoints g line))
handle-breakpoints_example =
    handle-breakpoints (λ s. s) msvc position small_vm 20 (codes "a.nut") two_breakpoints
      new_debugger machine₀ refl
