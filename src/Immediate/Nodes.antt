-- ===== src/Immediate/Nodes.antt =====
-- The nodes of an expression as `GetImmediateValue` walks them. The expressions that stand in brackets
-- and the whole one are the roots; a root's number, in preorder, stands for its address.
use squirrel_debug_server.Base.{ℕ, suc, ◌+◌, Option, none, some, List, [], ◌∷◌}
use squirrel_debug_server.Base.Assoc.{lookup}
use squirrel_debug_server.Watch.{
  ExpressionNode, node, Accessor, no_accessor, accessor, Next, no_next, next,
}

-- The roots that stand in the brackets of an expression, at any depth.
unfoldable mutual
  pub inner : ExpressionNode → ℕ
  inner (node value a t n) = inner_accessor a + inner_next n

  pub inner_accessor : Accessor → ℕ
  inner_accessor no_accessor = 0
  inner_accessor (accessor e) = suc (inner e)

  pub inner_next : Next → ℕ
  inner_next no_next = 0
  inner_next (next e) = inner e

-- `ExpressionNode*` to a root.
abbrev pub Pointer : Type 0
Pointer = ℕ × ExpressionNode

-- The `accessorExpression` of a node.
abbrev pub pointer : ℕ → Accessor → Option Pointer
pointer n no_accessor = none
pointer n (accessor e) = some (n, e)

-- The `accessorExpression` of each node of a `next` list, where `n` is the number of the first.
unfoldable mutual
  unfolding inner

  pub accessors : ℕ → ExpressionNode → List (Option Pointer)
  accessors n (node value a t nodes) = pointer n a ∷ accessors_next (n + inner_accessor a) nodes

  pub accessors_next : ℕ → Next → List (Option Pointer)
  accessors_next n no_next = []
  accessors_next n (next e) = accessors n e

-- The ones that have no result.
unfoldable pub unresolved {ℓ} : {V : Type ℓ} → List (ℕ × V) → List (Option Pointer) → List Pointer
unfolding lookup
unresolved results [] = []
unresolved results (none ∷ ps) = unresolved results ps
unresolved results (some p ∷ ps) =
    let rest = unresolved results ps in
    elim (lookup p.0 results) [ none ↦ p ∷ rest | some v ↦ rest ]

-- `push_back` of each on the stack, whose back comes first here.
abbrev pub push_all : List Pointer → List Pointer → List Pointer
push_all [] stack = stack
push_all (p ∷ ps) stack = push_all ps (p ∷ stack)
