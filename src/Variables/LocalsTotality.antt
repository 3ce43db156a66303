-- ===== src/Variables/LocalsTotality.antt =====
-- `GetStackVariables` of SquirrelDebugger.cpp comes back with the children of a local.
use squirrel_debug_server.Base.{
  ℕ, ◌≡◌, ◌≤◌, refl, true, false, some, List, [], ◌∷◌, Text, length, ltb, arith,
}
use squirrel_debug_server.Data.{PaginationInfo, Variable, VariableType, success}
use squirrel_debug_server.Debugger.{Debugger}
use squirrel_debug_server.Debugger.Commands.{with_stack_frame}
use squirrel_debug_server.Variables.Machine.{SquirrelApi}
use squirrel_debug_server.Variables.Types.{Platform, to_variable_type}
use squirrel_debug_server.Variables.Path.{path_parts}
use squirrel_debug_server.Variables.Walk.{with_variable_at_path}
use squirrel_debug_server.Variables.Returns.{machine, Returns}
use squirrel_debug_server.Variables.ListingTotality.{
  HoldsShallow, IsListable, create_child_variables-Returns,
}
use squirrel_debug_server.Variables.Frames.{
  at_local, with_stack_variables, succeed, children_from_path, populate_stack_variables,
  get_stack_variables,
}

-- In a pause, the children of a local are listed with `Success`, and the stack and the heap are as they
-- were, where the path is the index of the local; for every page of an array, and for the first page,
-- whatever its size, of a table with less than `n` entries. All keys and values in it are shallow for the
-- fuel `n`: no class or instance, no anonymous function, and tables that are nested less than `n` deep and
-- have less entries than their depth leaves. Every type is reported, as it is with Microsoft's compiler.
pub get_stack_variables-answers :
    {Object Heap : Type 0} (platform : Platform) (bit_index : VariableType → ℕ)
    (api : SquirrelApi Object Heap) (heap : Heap) (n : ℕ) (stack_frame c p : ℕ) (cs name : Text)
    (o : Object) (page : PaginationInfo) (d : Debugger) (below : List Object)
    (reports : (t : VariableType) → to_variable_type platform bit_index t ≡ some t)
    → d.pause_mutex_data.is_paused ≡ true
    → stack_frame ≤ length d.current_stack
    → path_parts (c ∷ cs) ≡ some (p ∷ [])
    → api.local heap stack_frame p ≡ some (name, o)
    → IsListable platform bit_index api heap reports n page.begin_iterator o
    → HoldsShallow platform bit_index api heap reports n o
    → (vs : List Variable) × (get_stack_variables platform bit_index api n stack_frame
          (c ∷ cs)
          page
          d
          (machine heap below)
        ≡ some ((success, vs), machine heap below))
unfolding get_stack_variables with_stack_frame populate_stack_variables with_stack_variables
    at_local children_from_path succeed with_variable_at_path Returns
get_stack_variables-answers platform bit_index api heap n stack_frame c p cs name o page d below
      reports paused in_range parts is_local listable holds =
    let listed =
      create_child_variables-Returns platform bit_index api heap reports n page.begin_iterator
        page.count o below listable holds in
    let inside : ltb (length d.current_stack) stack_frame ≡ false = ground (arith, in_range) in
    (
      listed.0,
      rw (paused, inside, parts)
          (rw (at_local, is_local) (rw (children_from_path, succeed, listed.1) refl)),
    )
