-- ===== src/Immediate/Reference.antt =====
-- What the stack of roots computes: each root after those in its brackets, the last bracket first.
use squirrel_debug_server.Base.{ℕ, suc, ◌+◌, ℤ}
use squirrel_debug_server.Base.Assoc.{insert}
use squirrel_debug_server.Watch.{
  ExpressionNode, node, Accessor, no_accessor, accessor, Next, no_next, next,
}
use squirrel_debug_server.Variables.Machine.{SquirrelApi, Run}
use squirrel_debug_server.Variables.Types.{Platform}
use squirrel_debug_server.Immediate.{Results, Step}
use squirrel_debug_server.Immediate.Nodes.{inner, inner_accessor}
use squirrel_debug_server.Immediate.Evaluate.{and_then, done, evaluate_node}

module _ {Object Heap : Type 0} (platform : Platform) (api : SquirrelApi Object Heap) (f : ℕ)
    (frame : ℤ) where
  unfoldable mutual
    unfolding inner evaluate_node insert

    pub resolve_root :
        ℕ → ExpressionNode → Results Object → Run Object Heap (Step Object (Results Object))
    resolve_root n (node value a type nodes) results m =
        let brackets =
          and_then (resolve_next (suc n + inner_accessor a) nodes results m)
            (λ results' m'. resolve_accessor (suc n) a results' m') in
        and_then brackets (λ results₁ m₁.
          and_then (evaluate_node platform api f frame (n, node value a type nodes) results₁ m₁)
            (λ state m₂. done (insert n state results₁) m₂))

    pub resolve_accessor :
        ℕ → Accessor → Results Object → Run Object Heap (Step Object (Results Object))
    resolve_accessor n no_accessor results m = done results m
    resolve_accessor n (accessor e) results m = resolve_root n e results m

    pub resolve_next : ℕ → Next → Results Object → Run Object Heap (Step Object (Results Object))
    resolve_next n no_next results m = done results m
    resolve_next n (next (node value a type nodes)) results m =
        and_then (resolve_next (n + inner_accessor a) nodes results m)
          (λ results' m'. resolve_accessor n a results' m')
