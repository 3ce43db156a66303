-- ===== src/Immediate/Root.antt =====
-- The whole expression has a result whenever the stack of roots is empty again.
use squirrel_debug_server.Base.{ℕ, ◌≡◌, sym, ◌∙◌, ℤ, some, List, [], inr, arith}
use squirrel_debug_server.Base.Assoc.{lookup}
use squirrel_debug_server.Watch.{ExpressionNode}
use squirrel_debug_server.Variables.Machine.{SquirrelApi, Machine}
use squirrel_debug_server.Variables.Types.{Platform}
use squirrel_debug_server.Immediate.{NodeState, Results}
use squirrel_debug_server.Immediate.Steps.{Goes}
use squirrel_debug_server.Immediate.Added.{resolve_root-Added}
use squirrel_debug_server.Immediate.Loop.{evaluate_roots}
use squirrel_debug_server.Immediate.Order.{evaluate_roots-resolve_root}

-- If the evaluation of an expression goes on to the end, there is a result for the whole expression:
-- the return with the message `Expression must not be empty.` is never reached.
pub evaluate_roots-result :
    {Object Heap : Type 0} (platform : Platform) (api : SquirrelApi Object Heap) (f : ℕ) (frame : ℤ)
    (e : ExpressionNode) (m m' : Machine Object Heap) (results : Results Object)
    (owned : List Object)
    → evaluate_roots platform api f frame e m ≡ some ((inr results, owned), m')
    → (state : NodeState Object) × (lookup 0 results ≡ some state)
unfolding Goes
evaluate_roots-result platform api f frame e m m' results owned goes =
    let added =
      resolve_root-Added platform api f frame 0 e [] m results owned m'
        (sym (evaluate_roots-resolve_root platform api f frame e m) ∙ goes) in
    added.there 0 (omega arith) (omega arith)
