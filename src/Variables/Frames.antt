-- ===== src/Variables/Frames.antt =====
-- SquirrelDebugger.cpp: the methods of `SquirrelVmDataImpl` that list and change the variables of
-- stack frames and of the root table, and the three commands that call them behind their guards.
use squirrel_debug_server.Base.{
  ℕ, zero, suc, ◌+◌, ◌-◌, ◌%◌, false, Option, none, some, List, [], ◌∷◌, Text,
}
use squirrel_debug_server.Data.{
  ReturnCode, success, invalid_parameter, error_internal, PaginationInfo, Variable, VariableType,
}
use squirrel_debug_server.Debugger.{Debugger}
use squirrel_debug_server.Debugger.Commands.{with_stack_frame, with_globals}
use squirrel_debug_server.Variables.Machine.{SquirrelApi, Machine, Run, push, pop, then_run}
use squirrel_debug_server.Variables.Types.{Platform}
use squirrel_debug_server.Variables.Path.{path_parts}
use squirrel_debug_server.Variables.Walk.{with_variable_at_path}
use squirrel_debug_server.Variables.Children.{
  new_variable, create_child_variable, create_child_variables,
}
use squirrel_debug_server.Variables.Update.{set_value}

module _ {Object Heap A : Type 0} (api : SquirrelApi Object Heap) (refuse : ReturnCode → A) where
  -- With the local that the first part names on top of the stack. A path has at least one part.
  unfoldable pub at_local : ℕ → List ℕ → (List ℕ → Run Object Heap A) → Run Object Heap A
  at_local stack_frame [] fn m = none
  at_local stack_frame (p ∷ ps) fn m = elim (api.local m.heap stack_frame p) [
    | none ↦ some (refuse invalid_parameter, m)
    | some (name, o) ↦
        then_run (fn (p ∷ ps) (push o m)) (λ (r : A × Machine Object Heap). some (r.0, pop 1 r.1))
  ]

  unfoldable pub with_stack_variables : ℕ → Text → (List ℕ → Run Object Heap A) → Run Object Heap A
  unfolding at_local path_parts
  with_stack_variables stack_frame [] fn m = some (refuse error_internal, m)
  with_stack_variables stack_frame (c ∷ cs) fn m =
      then_run (path_parts (c ∷ cs)) (λ (parts : List ℕ). at_local stack_frame parts fn m)

abbrev pub VariablesResult : Type 0
VariablesResult = ReturnCode × List Variable

-- The answer without variables.
abbrev pub no_variables : ReturnCode → VariablesResult
no_variables rc = (rc, [])

abbrev pub nothing_set : ReturnCode → ReturnCode × Option Variable
nothing_set rc = (rc, none)

-- `begin + 1`: the parts behind the first.
abbrev pub rest_of : List ℕ → List ℕ
rest_of [] = []
rest_of (p ∷ ps) = ps

-- The number of locals that the loop may read: `beginIterator + count` is a `uint32_t`.
abbrev pub local_count : PaginationInfo → ℕ
local_count page = (page.begin_iterator + page.count) % 4294967296 - page.begin_iterator

module _ {Object Heap : Type 0} (platform : Platform) (bit_index : VariableType → ℕ)
    (api : SquirrelApi Object Heap) (f : ℕ) where
  -- The locals from the index `seq` on, at most `n` of them.
  unfoldable pub root_variables : ℕ → ℕ → ℕ → Run Object Heap (List Variable)
  unfolding create_child_variable
  root_variables stack_frame zero seq m = some ([], m)
  root_variables stack_frame (suc n) seq m = elim (api.local m.heap stack_frame seq) [
    | none ↦ some ([], m)
    | some (name, o) ↦
        let variable = record new_variable { path_iterator = seq; path_ui_string = name } in
        then_run (create_child_variable platform bit_index api f variable (push o m))
          (λ (v : Variable × Machine Object Heap).
            then_run (root_variables stack_frame n (suc seq) (pop 1 v.1))
              (λ (vs : List Variable × Machine Object Heap).
                some (record v.0 { editable = false } ∷ vs.0, vs.1)))
  ]

  unfoldable pub succeed : Run Object Heap (List Variable) → Run Object Heap VariablesResult
  succeed run m =
      then_run (run m) (λ (vs : List Variable × Machine Object Heap). some ((success, vs.0), vs.1))

  -- `CreateChildVariablesFromIterable`
  unfoldable pub children_from_path : List ℕ → PaginationInfo → Run Object Heap VariablesResult
  unfolding with_variable_at_path create_child_variables succeed
  children_from_path ps page =
      with_variable_at_path api no_variables ps
        (succeed (create_child_variables platform bit_index api f page.begin_iterator page.count))

  unfoldable pub populate_stack_variables :
      ℕ → Text → PaginationInfo → Run Object Heap VariablesResult
  unfolding root_variables with_stack_variables children_from_path succeed
  populate_stack_variables stack_frame [] page =
      succeed (root_variables stack_frame (local_count page) page.begin_iterator)
  populate_stack_variables stack_frame (c ∷ cs) page =
      with_stack_variables api no_variables stack_frame (c ∷ cs)
        (λ parts. children_from_path (rest_of parts) page)

  -- The parts of a path that may be empty.
  unfoldable pub global_parts : Text → Option (List ℕ)
  unfolding path_parts
  global_parts [] = some []
  global_parts (c ∷ cs) = path_parts (c ∷ cs)

  unfoldable pub populate_global_variables : Text → PaginationInfo → Run Object Heap VariablesResult
  unfolding global_parts children_from_path
  populate_global_variables path page m = then_run (global_parts path) (λ (parts : List ℕ).
      then_run (children_from_path parts page (push (api.root_table m.heap) m))
        (λ (r : VariablesResult × Machine Object Heap). some (r.0, pop 1 r.1)))

  -- A local itself cannot be set.
  unfoldable pub set_at : Text → List ℕ → Run Object Heap (ReturnCode × Option Variable)
  unfolding with_variable_at_path set_value
  set_at value [] m = none
  set_at value (p ∷ []) m = some (nothing_set invalid_parameter, m)
  set_at value (p ∷ q ∷ qs) m =
      with_variable_at_path api nothing_set (q ∷ qs)
        (set_value platform bit_index api f value new_variable) m

  unfoldable pub set_stack_variable :
      ℕ → Text → Text → Run Object Heap (ReturnCode × Option Variable)
  unfolding with_stack_variables set_at
  set_stack_variable stack_frame path value =
      with_stack_variables api nothing_set stack_frame path (set_at value)

  -- The commands of `SquirrelDebugger`.
  unfoldable pub get_stack_variables :
      ℕ → Text → PaginationInfo → Debugger → Run Object Heap VariablesResult
  unfolding with_stack_frame populate_stack_variables
  get_stack_variables stack_frame path page d m =
      with_stack_frame stack_frame (λ rc. some (no_variables rc, m))
        (populate_stack_variables stack_frame path page m) d

  unfoldable pub get_global_variables :
      Text → PaginationInfo → Debugger → Run Object Heap VariablesResult
  unfolding with_globals populate_global_variables
  get_global_variables path page d m =
      with_globals (λ rc. some (no_variables rc, m)) (populate_global_variables path page m) d

  unfoldable pub set_stack_variable_value :
      ℕ → Text → Text → Debugger → Run Object Heap (ReturnCode × Option Variable)
  unfolding with_stack_frame set_stack_variable
  set_stack_variable_value stack_frame path value d m =
      with_stack_frame stack_frame (λ rc. some (nothing_set rc, m))
        (set_stack_variable stack_frame path value m) d
