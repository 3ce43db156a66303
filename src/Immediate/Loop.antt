-- ===== src/Immediate/Loop.antt =====
-- `GetImmediateValue`: the stack of roots to evaluate, and the command.
use squirrel_debug_server.Base.{
  ℕ, zero, suc, ◌*◌, ℤ, true, false, Option, none, some, List, [], ◌∷◌, Text, inl, inr,
}
use squirrel_debug_server.Base.Assoc.{lookup, insert}
use squirrel_debug_server.Data.{
  ReturnCode, success, invalid_parameter, invalid_not_paused, ImmediateValue, VariableType,
}
use squirrel_debug_server.Debugger.{Debugger}
use squirrel_debug_server.Watch.{ExpressionNode, Outcome, parsed, failed, crash, out_of_fuel}
use squirrel_debug_server.Watch.Parser.{parse_watch}
use squirrel_debug_server.Variables.Machine.{SquirrelApi, Machine, Run, push, pop, then_run}
use squirrel_debug_server.Variables.Types.{Platform}
use squirrel_debug_server.Variables.Children.{new_variable, create_child_variable}
use squirrel_debug_server.Immediate.{NodeState, Results, Step}
use squirrel_debug_server.Immediate.Nodes.{Pointer, inner, accessors, unresolved, push_all}
use squirrel_debug_server.Immediate.Evaluate.{and_then, evaluate_node}

module _ {Object Heap : Type 0} (platform : Platform) (api : SquirrelApi Object Heap) (f : ℕ)
    (frame : ℤ) where
  -- `while (!stack.empty())`: a root waits on the stack until its accessors have results.
  unfoldable pub evaluate_loop :
      ℕ → List Pointer → Results Object → Run Object Heap (Step Object (Results Object))
  unfolding unresolved accessors evaluate_node insert
  evaluate_loop zero stack results m = none
  evaluate_loop (suc g) [] results m = some ((inr results, []), m)
  evaluate_loop (suc g) ((n, e) ∷ below) results m =
      elim (unresolved results (accessors (suc n) e)) [
        | p ∷ ps ↦ evaluate_loop g (push_all (p ∷ ps) ((n, e) ∷ below)) results m
        | [] ↦
            and_then (evaluate_node platform api f frame (n, e) results m)
              (λ state m₁. evaluate_loop g below (insert n state results) m₁)
      ]

  -- The fuel is that of two steps for each root, and one.
  unfoldable pub evaluate_roots : ExpressionNode → Run Object Heap (Step Object (Results Object))
  unfolding evaluate_loop inner
  evaluate_roots e m = evaluate_loop (suc (2 * suc (inner e))) ((0, e) ∷ []) [] m

-- `~RefOwner`
unfoldable pub release_all :
    {Object Heap : Type 0}
    → SquirrelApi Object Heap
    → List Object
    → Machine Object Heap
    → Machine Object Heap
release_all api [] m = m
release_all api (o ∷ os) m = release_all api os (record m { heap = api.release m.heap o })

-- The return code, with what it writes to `foundRootVariable` where it succeeds.
abbrev pub ImmediateResult : Type 0
ImmediateResult = ReturnCode × Option ImmediateValue

module _ {Object Heap : Type 0} (platform : Platform) (bit_index : VariableType → ℕ)
    (api : SquirrelApi Object Heap) (f : ℕ) where
  unfoldable pub to_immediate_value : NodeState Object → Run Object Heap ImmediateResult
  unfolding create_child_variable
  to_immediate_value state m =
      then_run
        (create_child_variable platform bit_index api f new_variable (push state.resolved_value m))
        (λ r. some (
          (
            success,
            some (record {
              variable = r.0;
              scope = state.scope;
              iterator_path = state.iterator_path;
            }),
          ),
          pop 1 r.1,
        ))

  unfoldable pub root_result : Results Object → Run Object Heap ImmediateResult
  unfolding to_immediate_value lookup
  root_result results m = elim (lookup 0 results) [
    | none ↦ some ((invalid_parameter, none), m)
    | some state ↦ to_immediate_value state m
  ]

  -- What follows the evaluation, up to the return, which runs `~RefOwner`.
  unfoldable pub finish :
      Option (Step Object (Results Object) × Machine Object Heap)
      → Option (ImmediateResult × Machine Object Heap)
  unfolding root_result release_all
  finish none = none
  finish (some ((inl rc, owned), m)) = some ((rc, none), release_all api owned m)
  finish (some ((inr results, owned), m)) =
      then_run (root_result results m) (λ r. some (r.0, release_all api owned r.1))

  unfoldable pub immediate_value : ℤ → ExpressionNode → Run Object Heap ImmediateResult
  unfolding evaluate_roots finish
  immediate_value frame e m = finish (evaluate_roots platform api f frame e m)

  -- What follows the reading of the expression.
  unfoldable pub evaluate_parsed :
      ℤ → Outcome ExpressionNode → Debugger → Run Object Heap ImmediateResult
  unfolding immediate_value
  evaluate_parsed frame (parsed e rest) d m = elim d.is_paused [
    | true ↦ immediate_value frame e m
    | false ↦ some ((invalid_not_paused, none), m)
  ]
  evaluate_parsed frame (failed message at) d m = some ((invalid_parameter, none), m)
  evaluate_parsed frame crash d m = none
  evaluate_parsed frame out_of_fuel d m = none

  -- The expression is read before `pauseMutex_` is taken.
  unfoldable pub get_immediate_value : ℤ → Text → Debugger → Run Object Heap ImmediateResult
  unfolding parse_watch evaluate_parsed
  get_immediate_value frame watch d m = evaluate_parsed frame (parse_watch watch) d m
