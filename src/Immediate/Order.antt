-- ===== src/Immediate/Order.antt =====
-- The stack of roots comes to an end, and evaluates each root once, after those in its brackets.
use squirrel_debug_server.Base.{
  ℕ, suc, ◌+◌, ◌*◌, ◌-◌, ◌≡◌, refl, sym, ap, ◌∙◌, inl, inr, Text, ℤ, none, some, List, [], ◌∷◌,
  arith,
}
use squirrel_debug_server.Base.Assoc.{lookup, insert}
use squirrel_debug_server.Watch.{
  ExpressionNode, ExpressionNodeType, node, Accessor, no_accessor, accessor, Next, no_next, next,
}
use squirrel_debug_server.Variables.Machine.{SquirrelApi, Machine, Run}
use squirrel_debug_server.Variables.Types.{Platform}
use squirrel_debug_server.Immediate.{NodeState, Results, Step}
use squirrel_debug_server.Immediate.Nodes.{
  inner, inner_accessor, inner_next, Pointer, pointer, accessors, accessors_next, unresolved,
  push_all,
}
use squirrel_debug_server.Immediate.Evaluate.{and_then, done, evaluate_node}
use squirrel_debug_server.Immediate.Steps.{
  and_then_assoc, and_then-done, done-and_then, and_then_cong, Goes-true,
}
use squirrel_debug_server.Immediate.Reference.{resolve_root, resolve_accessor, resolve_next}
use squirrel_debug_server.Immediate.Added.{Added, resolve_next-Added}
use squirrel_debug_server.Immediate.Cost.{
  cost, cost_accessor, cost_next, cost-le, Fresh, Resolved, unresolved-Fresh, unresolved-Resolved,
  pending-cost,
}
use squirrel_debug_server.Immediate.Turns.{
  Evaluates, Evaluates-next, Evaluates-nothing, Evaluates-none,
}
use squirrel_debug_server.Immediate.Loop.{evaluate_loop, evaluate_roots}

module _ {Object Heap : Type 0} (platform : Platform) (api : SquirrelApi Object Heap) (f : ℕ)
    (frame : ℤ) where
  abbrev loop : ℕ → List Pointer → Results Object → Run Object Heap (Step Object (Results Object))
  loop g stack results m = evaluate_loop platform api f frame g stack results m

  -- The value of a root whose brackets have results, and the rest of the stack.
  abbrev value_then :
      ℕ → List Pointer → Pointer → Results Object → Run Object Heap (Step Object (Results Object))
  value_then g below p results m =
      and_then (evaluate_node platform api f frame p results m)
        (λ state m₁. loop g below (insert p.0 state results) m₁)

  resolve_root-value_then :
      (n : ℕ) (e : ExpressionNode) (g : ℕ) (below : List Pointer) (results : Results Object)
      (m : Machine Object Heap)
      → and_then (resolve_root platform api f frame n e results m) (λ r m'. loop g below r m')
        ≡ and_then
            (resolve_next platform api f frame (suc n) (next e) results m)
            (λ r m'. value_then g below (n, e) r m')
  unfolding resolve_root
  resolve_root-value_then n (node value a type nodes) g below results m =
      let e = node value a type nodes in
      let brackets = resolve_next platform api f frame (suc n) (next e) results m in
      let insert_value : Results Object → Run Object Heap (Step Object (Results Object)) = λ r m₁.
        and_then (evaluate_node platform api f frame (n, e) r m₁)
          (λ state m₂. done (insert n state r) m₂) in
      and_then_assoc brackets insert_value (λ r m'. loop g below r m')
      ∙ and_then_cong (λ (r : Results Object). Unit) brackets
          (λ r m'. and_then (insert_value r m') (λ r' m''. loop g below r' m''))
          (λ r m'. value_then g below (n, e) r m') (Goes-true brackets)
          (λ r m' u.
            and_then_assoc (evaluate_node platform api f frame (n, e) r m')
              (λ state m₂. done (insert n state r) m₂) (λ r' m''. loop g below r' m'')
            ∙ and_then_cong (λ (s : NodeState Object). Unit)
                (evaluate_node platform api f frame (n, e) r m')
                (λ state m₂. and_then (done (insert n state r) m₂) (λ r' m''. loop g below r' m''))
                (λ state m₁. loop g below (insert n state r) m₁)
                (Goes-true (evaluate_node platform api f frame (n, e) r m'))
                (λ state m₂ u. done-and_then (insert n state r) m₂ (λ r' m''. loop g below r' m'')))

  loop_nothing :
      (n : ℕ) (e : ExpressionNode) (g : ℕ) (below : List Pointer) (results : Results Object)
      (m : Machine Object Heap)
      → unresolved results (accessors (suc n) e) ≡ []
      → loop (suc g) ((n, e) ∷ below) results m ≡ value_then g below (n, e) results m
  unfolding evaluate_loop
  loop_nothing n e g below results m u = rw (evaluate_loop, u) refl

  loop-push :
      (n : ℕ) (e : ExpressionNode) (g : ℕ) (p : Pointer) (ps below : List Pointer)
      (results : Results Object) (m : Machine Object Heap)
      → unresolved results (accessors (suc n) e) ≡ p ∷ ps
      → loop (suc g) ((n, e) ∷ below) results m
        ≡ loop g (push_all (p ∷ ps) ((n, e) ∷ below)) results m
  unfolding evaluate_loop
  loop-push n e g p ps below results m u = rw (evaluate_loop, u) refl

  Evaluates-root :
      (n : ℕ) (value : Text) (a : Accessor) (type : ExpressionNodeType) (nodes : Next)
      → Evaluates platform api f frame
          (cost_next (next (node value a type nodes)))
          (accessors_next (suc n) (next (node value a type nodes)))
          (suc n)
          (inner_next (next (node value a type nodes)))
          (resolve_next platform api f frame (suc n) (next (node value a type nodes)))
      → Evaluates platform api f frame
          (cost (node value a type nodes))
          (some (n, node value a type nodes) ∷ [])
          n
          (suc (inner (node value a type nodes)))
          (resolve_root platform api f frame n (node value a type nodes))
  unfolding Evaluates cost inner Fresh Resolved accessors unresolved lookup
  Evaluates-root n value a type nodes brackets g below results m fresh =
      let e = node value a type nodes in
      let bracketed = resolve_next platform api f frame (suc n) (next e) in
      let fresh' : Fresh (suc n) (inner_next (next e)) results =
        λ key h l. fresh key (omega arith) (omega arith) in
      let same = unresolved-Fresh (suc n) (next e) results fresh' in
      elim (pending-cost Object (suc n) (next e)) [
        | inl (nothing, free) ↦
            ap (λ c. loop c ((n, e) ∷ below) results m) (ground (arith, free))
            ∙ loop_nothing n e g below results m (same ∙ nothing)
            ∙ sym (done-and_then results m (λ r m'. value_then g below (n, e) r m'))
            ∙ ap (λ x. and_then x (λ r m'. value_then g below (n, e) r m'))
                (sym (
                  Evaluates-nothing platform api f frame (cost_next (next e))
                    (accessors_next (suc n) (next e)) (suc n) (inner_next (next e)) bracketed
                    results m brackets fresh' free nothing))
            ∙ sym (resolve_root-value_then n e g below results m)
        | inr (p, ps, j, pending, some_cost) ↦
            ap (λ c. loop c ((n, e) ∷ below) results m) (ground (arith, some_cost))
            ∙ loop-push n e (cost_next (next e) + suc g) p ps below results m (same ∙ pending)
            ∙ ap (λ u. loop (cost_next (next e) + suc g) (push_all u ((n, e) ∷ below)) results m)
                (sym pending)
            ∙ brackets (suc g) ((n, e) ∷ below) results m fresh'
            ∙ and_then_cong (Added (suc n) (inner_next (next e)) results) (bracketed results m)
                (λ r m'. loop (suc g) ((n, e) ∷ below) r m')
                (λ r m'. value_then g below (n, e) r m')
                (resolve_next-Added platform api f frame (suc n) (next e) results m)
                (λ r m' added.
                  loop_nothing n e g below r m'
                    (unresolved-Resolved (suc n) (next e) r added.there))
            ∙ sym (resolve_root-value_then n e g below results m)
      ]

  mutual
    unfolding cost inner accessors resolve_root unresolved

    Evaluates-resolve_root :
        (n : ℕ) (e : ExpressionNode)
        → Evaluates platform api f frame
            (cost e)
            (some (n, e) ∷ [])
            n
            (suc (inner e))
            (resolve_root platform api f frame n e)
    Evaluates-resolve_root n (node value a type nodes) = Evaluates-root n value a type nodes (
        Evaluates-next platform api f frame (suc n) value a type nodes
          (Evaluates-resolve_next (suc n + inner_accessor a) nodes)
          (Evaluates-resolve_accessor (suc n) a))

    Evaluates-resolve_accessor :
        (n : ℕ) (a : Accessor)
        → Evaluates platform api f frame
            (cost_accessor a)
            (pointer n a ∷ [])
            n
            (inner_accessor a)
            (resolve_accessor platform api f frame n a)
    Evaluates-resolve_accessor n no_accessor =
        Evaluates-none platform api f frame (none ∷ []) n refl
    Evaluates-resolve_accessor n (accessor e) = Evaluates-resolve_root n e

    Evaluates-resolve_next :
        (n : ℕ) (nodes : Next)
        → Evaluates platform api f frame
            (cost_next nodes)
            (accessors_next n nodes)
            n
            (inner_next nodes)
            (resolve_next platform api f frame n nodes)
    Evaluates-resolve_next n no_next = Evaluates-none platform api f frame [] n refl
    Evaluates-resolve_next n (next (node value a type nodes)) =
        Evaluates-next platform api f frame n value a type nodes
          (Evaluates-resolve_next (n + inner_accessor a) nodes) (Evaluates-resolve_accessor n a)

  -- The stack of roots comes to an end, with the fuel that is given, for every expression, and
  -- computes what the recursion over the expression does, which evaluates each root once, after the
  -- roots in its brackets, of which the last comes first.
  pub evaluate_roots-resolve_root :
      (e : ExpressionNode) (m : Machine Object Heap)
      → evaluate_roots platform api f frame e m ≡ resolve_root platform api f frame 0 e [] m
  unfolding evaluate_roots Evaluates evaluate_loop unresolved lookup Fresh
  evaluate_roots-resolve_root e m =
      let spare = 2 * suc (inner e) - cost e in
      let enough : suc (2 * suc (inner e)) ≡ cost e + suc spare = omega (arith, cost-le e) in
      ap (λ g. loop g ((0, e) ∷ []) [] m) enough
      ∙ Evaluates-resolve_root 0 e (suc spare) [] [] m (λ key h l. refl)
      ∙ and_then-done (resolve_root platform api f frame 0 e [] m)
