-- ===== src/Immediate/Cost.antt =====
-- The number of steps that the stack of roots takes, and which of its roots have results.
use squirrel_debug_server.Base.{
  ℕ, zero, suc, ◌+◌, ◌*◌, ◌≤◌, ◌<◌, ◌≡◌, refl, ◌⊎◌, inl, inr, none, some, List, [], ◌∷◌, arith,
}
use squirrel_debug_server.Base.Assoc.{lookup}
use squirrel_debug_server.Watch.{
  ExpressionNode, node, Accessor, no_accessor, accessor, Next, no_next, next,
}
use squirrel_debug_server.Immediate.{NodeState, Results}
use squirrel_debug_server.Immediate.Nodes.{
  inner, inner_accessor, inner_next, Pointer, accessors, accessors_next, unresolved,
}

-- The steps of the stack for a root: one for its value, and one more to push what stands in its
-- brackets, if there is anything.
abbrev pub tally : ℕ → ℕ
tally zero = zero
tally (suc n) = suc (suc n)

unfoldable mutual
  pub cost : ExpressionNode → ℕ
  cost (node value a type nodes) = suc (tally (cost_next nodes + cost_accessor a))

  pub cost_accessor : Accessor → ℕ
  cost_accessor no_accessor = 0
  cost_accessor (accessor e) = cost e

  pub cost_next : Next → ℕ
  cost_next no_next = 0
  cost_next (next (node value a type nodes)) = cost_next nodes + cost_accessor a

mutual
  unfolding cost inner

  pub cost-le : (e : ExpressionNode) → cost e ≤ 2 * suc (inner e)
  cost-le (node value a type nodes) = ground (arith, cost_accessor-le a, cost_next-le nodes)

  cost_accessor-le : (a : Accessor) → cost_accessor a ≤ 2 * inner_accessor a
  cost_accessor-le no_accessor = omega arith
  cost_accessor-le (accessor e) = cost-le e

  cost_next-le : (nodes : Next) → cost_next nodes ≤ 2 * inner_next nodes
  cost_next-le no_next = omega arith
  cost_next-le (next (node value a type nodes)) =
      omega (arith, cost_accessor-le a, cost_next-le nodes)

module _ {Object : Type 0} where
  -- No result of these numbers is there yet.
  unfoldable pub Fresh : ℕ → ℕ → Results Object → Type 0
  Fresh n k results = (key : ℕ) → n ≤ key → key < n + k → lookup key results ≡ none

  unfoldable pub Resolved : ℕ → ℕ → Results Object → Type 0
  Resolved n k results =
      (key : ℕ) → n ≤ key → key < n + k → (s : NodeState Object) × (lookup key results ≡ some s)

  pub unresolved-Fresh :
      (n : ℕ) (nodes : Next) (results : Results Object)
      → Fresh n (inner_next nodes) results
      → unresolved results (accessors_next n nodes)
        ≡ unresolved {V = NodeState Object} [] (accessors_next n nodes)
  unfolding unresolved accessors inner Fresh lookup
  unresolved-Fresh n no_next results fresh = refl
  unresolved-Fresh n (next (node value no_accessor type nodes)) results fresh =
      unresolved-Fresh (n + 0) nodes results (λ key h l. fresh key (omega arith) (omega arith))
  unresolved-Fresh n (next (node value (accessor e) type nodes)) results fresh = ground (
    arith,
    fresh n (omega arith) (omega arith),
    unresolved-Fresh (n + suc (inner e)) nodes results
        (λ key h l. fresh key (omega arith) (omega arith)),
  )

  pub unresolved-Resolved :
      (n : ℕ) (nodes : Next) (results : Results Object)
      → Resolved n (inner_next nodes) results
      → unresolved results (accessors_next n nodes) ≡ []
  unfolding unresolved accessors inner Resolved
  unresolved-Resolved n no_next results there = refl
  unresolved-Resolved n (next (node value no_accessor type nodes)) results there =
      unresolved-Resolved (n + 0) nodes results (λ key h l. there key (omega arith) (omega arith))
  unresolved-Resolved n (next (node value (accessor e) type nodes)) results there =
      let (s, found) = there n (omega arith) (omega arith) in
      ground (
        arith,
        found,
        unresolved-Resolved (n + suc (inner e)) nodes results
            (λ key h l. there key (omega arith) (omega arith)),
      )

-- There is something to push if and only if that costs a step.
pub pending-cost :
    (Object : Type 0) (n : ℕ) (nodes : Next)
    → ((unresolved {V = NodeState Object} [] (accessors_next n nodes) ≡ []) × (cost_next nodes ≡ 0))
      ⊎ ((p : Pointer) × (ps : List Pointer) × (j : ℕ) × (unresolved {V = NodeState Object} []
              (accessors_next n nodes)
            ≡ p ∷ ps)
          × (cost_next nodes ≡ suc j))
unfolding unresolved accessors cost lookup
pending-cost Object n no_next = inl (refl, refl)
pending-cost Object n (next (node value no_accessor type nodes)) =
    elim (pending-cost Object (n + 0) nodes) [
      | inl (a, b) ↦ inl (a, omega arith)
      | inr (p, ps, j, a, b) ↦ inr (p, ps, j, a, omega arith)
    ]
pending-cost Object n (next (node value (accessor (node v b t ns)) type nodes)) =
    let j = tally (cost_next ns + cost_accessor b) in
    inr ((n, node v b t ns), _, cost_next nodes + j, refl, omega arith)
