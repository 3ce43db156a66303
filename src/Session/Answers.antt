-- ===== src/Session/Answers.antt =====
-- What the endpoints answer for the debugger: while the program runs, and for breakpoints.
use squirrel_debug_server.Base.{
  ℕ, ◌≡◌, refl, ℤ, true, false, Option, none, some, List, ◌∷◌, Text, text_eq, map, if◌then◌else◌,
  arith,
}
use squirrel_debug_server.Data.{invalid_not_paused, PaginationInfo, CreateBreakpoint, VariableType}
use squirrel_debug_server.Debugger.{Debugger}
use squirrel_debug_server.Debugger.Commands.{with_stack_frame, with_globals, set_file_breakpoints}
use squirrel_debug_server.Debugger.FileBreakpoints.{
  all_well_formed, to_resolved, to_breakpoint, set_file_breakpoints-success,
}
use squirrel_debug_server.Breakpoints.Refinement.{table}
use squirrel_debug_server.Breakpoints.Lines.{last_on_line}
use squirrel_debug_server.Watch.{ExpressionNode, parsed}
use squirrel_debug_server.Watch.Parser.{parse_watch}
use squirrel_debug_server.Variables.Machine.{SquirrelApi, Machine}
use squirrel_debug_server.Variables.Types.{Platform}
use squirrel_debug_server.Variables.Frames.{
  get_stack_variables, get_global_variables, set_stack_variable_value,
}
use squirrel_debug_server.Immediate.Loop.{get_immediate_value, evaluate_parsed}
use squirrel_debug_server.Server.Parameters.{QueryParams, pagination, c_str}
use squirrel_debug_server.Server.Responses.{
  Response, breakpoints, create_resolved_breakpoint, create_return_code_response, success_response,
}
use squirrel_debug_server.Server.Controller.{
  get_local, put_local, get_global, put_immediate, put_file_breakpoints, result_answer,
  with_pagination, immediate_values, handle,
}
use squirrel_debug_server.Session.{Session, debugger_commands}

module _ {Object Heap : Type 0} (lower : Text → Text) (platform : Platform)
    (bit_index : VariableType → ℕ) (api : SquirrelApi Object Heap) (f : ℕ) where
  get_immediate_value-not_paused :
      (d : Debugger) (m : Machine Object Heap) (level : ℤ) (watch : Text) (e : ExpressionNode)
      (rest : Text)
      → d.is_paused ≡ false
      → parse_watch watch ≡ parsed e rest
      → get_immediate_value platform bit_index api f level watch d m
        ≡ some ((invalid_not_paused, none), m)
  unfolding get_immediate_value evaluate_parsed
  get_immediate_value-not_paused d m level watch e rest running reads =
      rw (evaluate_parsed, reads) (rw running refl)

  put_immediate-not_paused :
      (d : Debugger) (m : Machine Object Heap) (params : QueryParams) (page : PaginationInfo)
      (level : ℤ) (watch : Text) (watches : List Text) (e : ExpressionNode) (rest : Text)
      → d.is_paused ≡ false
      → pagination params ≡ some page
      → parse_watch watch ≡ parsed e rest
      → handle
          (debugger_commands lower platform bit_index api f)
          (put_immediate level params (watch ∷ watches))
          (d, m)
        ≡ some (create_return_code_response invalid_not_paused, (d, m))
  unfolding handle with_pagination result_answer immediate_values
  put_immediate-not_paused d m params page level watch watches e rest running valid reads =
      ground (arith, valid, get_immediate_value-not_paused d m level watch e rest running reads)

  -- While the program is not paused, the endpoints that read and set variables and that evaluate
  -- expressions, of which the first can be read, answer with `InvalidNotPaused` and change nothing.
  pub handle-not_paused :
      (d : Debugger) (m : Machine Object Heap) (params : QueryParams) (page : PaginationInfo)
      (frame : ℕ) (level : ℤ) (path value watch : Text) (watches : List Text) (e : ExpressionNode)
      (rest : Text)
      → d.is_paused ≡ false
      → pagination params ≡ some page
      → parse_watch watch ≡ parsed e rest
      → let refused : Option (Response × Session Object Heap) =
          some (create_return_code_response invalid_not_paused, (d, m)) in
        let answer = handle (debugger_commands lower platform bit_index api f) in
        (answer (get_local frame path params) (d, m) ≡ refused)
        × (answer (get_global path params) (d, m) ≡ refused)
        × (answer (put_local frame path value) (d, m) ≡ refused)
        × (answer (put_immediate level params (watch ∷ watches)) (d, m) ≡ refused)
  unfolding handle with_pagination result_answer get_stack_variables get_global_variables
      set_stack_variable_value with_stack_frame with_globals
  handle-not_paused d m params page frame level path value watch watches e rest running valid
        reads =
      (
        ground (arith, running, valid),
        ground (arith, running, valid),
        ground (arith, running),
        put_immediate-not_paused d m params page level watch watches e rest running valid reads,
      )

  -- A request to set breakpoints, all of them well formed, is answered with status 200 and with each of
  -- them, verified; the file's lines then have these breakpoints, the last of a line winning, other
  -- files' lines have theirs, and nothing of the VM changes.
  pub handle-breakpoints :
      (file : Text) (cs : List CreateBreakpoint) (d : Debugger) (m : Machine Object Heap)
      → all_well_formed cs ≡ true
      → (d' : Debugger) × (handle
            (debugger_commands lower platform bit_index api f)
            (put_file_breakpoints file cs)
            (d, m)
          ≡ some (
            success_response (breakpoints (map create_resolved_breakpoint (map to_resolved cs))),
            (d', m),
          ))
        × ((g : Text) (line : ℕ)
            → table lower d'.breakpoints g line ≡ (
                if text_eq (lower (c_str file)) (lower g)
                then last_on_line (map to_breakpoint cs) line none
                else table lower d.breakpoints g line))
  unfolding handle result_answer
  handle-breakpoints file cs d m good =
      let (rc, resolved, tabled, others) =
        set_file_breakpoints-success lower (c_str file) cs d good in
      ((set_file_breakpoints lower (c_str file) cs d).2, rw (rc, resolved) refl, tabled)
