-- ===== src/Immediate/Turns.antt =====
-- The steps of the stack of roots that evaluate the brackets of a `next` list.
use squirrel_debug_server.Base.{
  ℕ, ◌+◌, ◌≡◌, refl, sym, ap, ◌∙◌, Text, ℤ, Option, List, [], ◌∷◌, arith,
}
use squirrel_debug_server.Base.Assoc.{lookup}
use squirrel_debug_server.Watch.{
  ExpressionNodeType, node, Accessor, no_accessor, accessor, Next, next,
}
use squirrel_debug_server.Variables.Machine.{SquirrelApi, Machine, Run}
use squirrel_debug_server.Variables.Types.{Platform}
use squirrel_debug_server.Immediate.{NodeState, Results, Step}
use squirrel_debug_server.Immediate.Nodes.{
  inner, inner_accessor, inner_next, Pointer, pointer, accessors, accessors_next, unresolved,
  push_all,
}
use squirrel_debug_server.Immediate.Evaluate.{and_then, done}
use squirrel_debug_server.Immediate.Steps.{
  and_then_assoc, and_then-done, done-and_then, and_then_cong,
}
use squirrel_debug_server.Immediate.Reference.{resolve_root, resolve_accessor, resolve_next}
use squirrel_debug_server.Immediate.Added.{Added, resolve_next-Added}
use squirrel_debug_server.Immediate.Cost.{cost, cost_accessor, cost_next, Fresh}
use squirrel_debug_server.Immediate.Loop.{evaluate_loop}

module _ {Object Heap : Type 0} (platform : Platform) (api : SquirrelApi Object Heap) (f : ℕ)
    (frame : ℤ) where
  abbrev loop : ℕ → List Pointer → Results Object → Run Object Heap (Step Object (Results Object))
  loop g stack results m = evaluate_loop platform api f frame g stack results m

  -- What is pushed for a part of a `next` list.
  abbrev pushed : List (Option Pointer) → List Pointer → List Pointer
  pushed ps stack = push_all (unresolved {V = NodeState Object} [] ps) stack

  -- With `c` steps, a stack evaluates what is pushed on it as `run` does, and goes on.
  unfoldable pub Evaluates :
      ℕ
      → List (Option Pointer)
      → ℕ
      → ℕ
      → (Results Object → Run Object Heap (Step Object (Results Object)))
      → Type 0
  Evaluates c ps n k run =
      (g : ℕ) (below : List Pointer) (results : Results Object) (m : Machine Object Heap)
      → Fresh n k results
      → loop (c + g) (pushed ps below) results m
        ≡ and_then (run results m) (λ results' m'. loop g below results' m')

  pushed_first :
      (n : ℕ) (a : Accessor) (ps : List (Option Pointer)) (below : List Pointer)
      → pushed (pointer n a ∷ ps) below ≡ pushed ps (pushed (pointer n a ∷ []) below)
  unfolding unresolved lookup
  pushed_first n no_accessor ps below = refl
  pushed_first n (accessor e) ps below = refl

  resolve_next-node :
      (n : ℕ) (value : Text) (a : Accessor) (type : ExpressionNodeType) (nodes : Next)
      (results : Results Object) (m : Machine Object Heap)
      → resolve_next platform api f frame n (next (node value a type nodes)) results m
        ≡ and_then
            (resolve_next platform api f frame (n + inner_accessor a) nodes results m)
            (λ results' m'. resolve_accessor platform api f frame n a results' m')
  unfolding resolve_root
  resolve_next-node n value a type nodes results m = refl

  pub Evaluates-next :
      (n : ℕ) (value : Text) (a : Accessor) (type : ExpressionNodeType) (nodes : Next)
      → Evaluates
          (cost_next nodes)
          (accessors_next (n + inner_accessor a) nodes)
          (n + inner_accessor a)
          (inner_next nodes)
          (resolve_next platform api f frame (n + inner_accessor a) nodes)
      → Evaluates
          (cost_accessor a)
          (pointer n a ∷ [])
          n
          (inner_accessor a)
          (resolve_accessor platform api f frame n a)
      → Evaluates
          (cost_next (next (node value a type nodes)))
          (accessors_next n (next (node value a type nodes)))
          n
          (inner_next (next (node value a type nodes)))
          (resolve_next platform api f frame n (next (node value a type nodes)))
  unfolding Evaluates cost inner accessors Fresh
  Evaluates-next n value a type nodes first second g below results m fresh =
      let j = cost_accessor a + g in
      let stack = pushed (pointer n a ∷ []) below in
      let start = resolve_next platform api f frame (n + inner_accessor a) nodes results m in
      ap
        (λ c.
          loop c (pushed (pointer n a ∷ accessors_next (n + inner_accessor a) nodes) below) results
            m)
        (omega arith)
      ∙ ap (λ s. loop (cost_next nodes + j) s results m)
          (pushed_first n a (accessors_next (n + inner_accessor a) nodes) below)
      ∙ first j stack results m (λ key h l. fresh key (omega arith) (omega arith))
      ∙ and_then_cong (Added (n + inner_accessor a) (inner_next nodes) results) start
          (λ r m'. loop j stack r m')
          (λ r m'.
            and_then (resolve_accessor platform api f frame n a r m')
              (λ r' m''. loop g below r' m''))
          (resolve_next-Added platform api f frame (n + inner_accessor a) nodes results m)
          (λ r m' added.
            second g below r m'
              (λ key h l. added.below key (omega arith) ∙ fresh key h (omega arith)))
      ∙ sym (
          and_then_assoc start (λ r m'. resolve_accessor platform api f frame n a r m')
            (λ r m'. loop g below r m'))
      ∙ ap (λ x. and_then x (λ r m'. loop g below r m'))
          (sym (resolve_next-node n value a type nodes results m))

  pub Evaluates-nothing :
      (c : ℕ) (ps : List (Option Pointer)) (n k : ℕ)
      (run : Results Object → Run Object Heap (Step Object (Results Object)))
      (results : Results Object) (m : Machine Object Heap)
      → Evaluates c ps n k run
      → Fresh n k results
      → c ≡ 0
      → unresolved {V = NodeState Object} [] ps ≡ []
      → run results m ≡ done results m
  unfolding Evaluates evaluate_loop
  Evaluates-nothing c ps n k run results m evaluates fresh free nothing =
      sym (and_then-done (run results m))
      ∙ sym (evaluates 1 [] results m fresh)
      ∙ ap (λ x. loop (x + 1) (pushed ps []) results m) free
      ∙ ap (λ u. loop 1 (push_all u []) results m) nothing

  pub Evaluates-none :
      (ps : List (Option Pointer)) (n : ℕ)
      → unresolved {V = NodeState Object} [] ps ≡ []
      → Evaluates 0 ps n 0 (λ results m. done results m)
  unfolding Evaluates
  Evaluates-none ps n nothing g below results m fresh =
      ap (λ x. loop x (pushed ps below) results m) (omega arith)
      ∙ ap (λ u. loop g (push_all u below) results m) nothing
      ∙ sym (done-and_then results m (λ r m'. loop g below r m'))
