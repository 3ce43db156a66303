-- ===== src/Immediate/Names.antt =====
-- The names of the later members of an expression play no part in its evaluation: the objects that
-- they are looked up by are made from the first node of the list.
use squirrel_debug_server.Base.{ℕ, suc, ◌+◌, ◌≡◌, refl, sym, ap, ◌∙◌, Text, ℤ, Option, [], ◌∷◌}
use squirrel_debug_server.Base.Assoc.{insert}
use squirrel_debug_server.Data.{VariableType}
use squirrel_debug_server.Watch.{ExpressionNodeType, node, Accessor, Next, no_next, next}
use squirrel_debug_server.Variables.Machine.{SquirrelApi, Machine, Run}
use squirrel_debug_server.Variables.Types.{Platform}
use squirrel_debug_server.Immediate.{Results, Step}
use squirrel_debug_server.Immediate.Nodes.{
  inner, inner_accessor, inner_next, pointer, accessors, accessors_next,
}
use squirrel_debug_server.Immediate.Evaluate.{
  and_then, done, sq_nodes, evaluate_keys, evaluate_node,
}
use squirrel_debug_server.Immediate.Steps.{and_then_cong, Goes-true}
use squirrel_debug_server.Immediate.Reference.{resolve_root, resolve_accessor, resolve_next}
use squirrel_debug_server.Immediate.Order.{evaluate_roots-resolve_root}
use squirrel_debug_server.Immediate.Loop.{finish, immediate_value}

-- The same list with other names, and the same brackets.
unfoldable pub renamed : (Text → Text) → Next → Next
renamed rename no_next = no_next
renamed rename (next (node value a type nodes)) =
    next (node (rename value) a type (renamed rename nodes))

inner_next-renamed :
    (rename : Text → Text) (nodes : Next) → inner_next (renamed rename nodes) ≡ inner_next nodes
unfolding inner renamed
inner_next-renamed rename no_next = refl
inner_next-renamed rename (next (node value a type nodes)) =
    ap (λ k. inner_accessor a + k) (inner_next-renamed rename nodes)

accessors_next-renamed :
    (rename : Text → Text) (n : ℕ) (nodes : Next)
    → accessors_next n (renamed rename nodes) ≡ accessors_next n nodes
unfolding accessors renamed
accessors_next-renamed rename n no_next = refl
accessors_next-renamed rename n (next (node value a type nodes)) =
    ap (λ ps. pointer n a ∷ ps) (accessors_next-renamed rename (n + inner_accessor a) nodes)

module _ {Object Heap : Type 0} (platform : Platform) (api : SquirrelApi Object Heap) (f : ℕ)
    (frame : ℤ) where
  resolve_next-renamed :
      (rename : Text → Text) (n : ℕ) (nodes : Next) (results : Results Object)
      (m : Machine Object Heap)
      → resolve_next platform api f frame n (renamed rename nodes) results m
        ≡ resolve_next platform api f frame n nodes results m
  unfolding resolve_root renamed
  resolve_next-renamed rename n no_next results m = refl
  resolve_next-renamed rename n (next (node value a type nodes)) results m =
      ap (λ o. and_then o (λ r m'. resolve_accessor platform api f frame n a r m'))
        (resolve_next-renamed rename (n + inner_accessor a) nodes results m)

  evaluate_node-renamed :
      (rename : Text → Text) (n : ℕ) (value : Text) (a : Accessor) (type : ExpressionNodeType)
      (nodes : Next) (results : Results Object) (m : Machine Object Heap)
      → evaluate_node platform api f frame (n, node value a type (renamed rename nodes)) results m
        ≡ evaluate_node platform api f frame (n, node value a type nodes) results m
  unfolding evaluate_node accessors
  evaluate_node-renamed rename n value a type nodes results m =
      ap
        (λ ps.
          and_then (sq_nodes platform api f value type results (pointer (suc n) a ∷ ps) m)
            (λ keys m₁. evaluate_keys platform api f frame value type keys m₁))
        (accessors_next-renamed rename (suc n + inner_accessor a) nodes)

  resolve_root-renamed :
      (rename : Text → Text) (n : ℕ) (value : Text) (a : Accessor) (type : ExpressionNodeType)
      (nodes : Next) (results : Results Object) (m : Machine Object Heap)
      → resolve_root platform api f frame n (node value a type (renamed rename nodes)) results m
        ≡ resolve_root platform api f frame n (node value a type nodes) results m
  unfolding resolve_root
  resolve_root-renamed rename n value a type nodes results m =
      let after : Results Object → Run Object Heap (Step Object (Results Object)) = λ r m₁.
        and_then (evaluate_node platform api f frame (n, node value a type nodes) r m₁)
          (λ state m₂. done (insert n state r) m₂) in
      let brackets : Option (Step Object (Results Object) × Machine Object Heap) =
        and_then (resolve_next platform api f frame (suc n + inner_accessor a) nodes results m)
          (λ r m'. resolve_accessor platform api f frame (suc n) a r m') in
      ap
        (λ o.
          and_then (and_then o (λ r m'. resolve_accessor platform api f frame (suc n) a r m'))
            (λ r m₁.
              and_then
                (evaluate_node platform api f frame (n, node value a type (renamed rename nodes)) r
                  m₁)
                (λ state m₂. done (insert n state r) m₂)))
        (resolve_next-renamed rename (suc n + inner_accessor a) nodes results m)
      ∙ and_then_cong (λ (r : Results Object). Unit) brackets
          (λ r m₁.
            and_then
              (evaluate_node platform api f frame (n, node value a type (renamed rename nodes)) r
                m₁)
              (λ state m₂. done (insert n state r) m₂))
          after (Goes-true brackets)
          (λ r m₁ u.
            ap (λ o. and_then o (λ state m₂. done (insert n state r) m₂))
              (evaluate_node-renamed rename n value a type nodes r m₁))

  -- An expression with members, such as `a.b.c`, has the value of the one in which every member but
  -- the first has another name, such as `a.x.y`, in every state of the VM: `GetImmediateValue` takes
  -- the key of each member that is not in brackets from the first.
  pub immediate_value-renamed :
      (bit_index : VariableType → ℕ) (rename : Text → Text) (value : Text) (a : Accessor)
      (type : ExpressionNodeType) (nodes : Next) (m : Machine Object Heap)
      → immediate_value platform bit_index api f frame (node value a type (renamed rename nodes)) m
        ≡ immediate_value platform bit_index api f frame (node value a type nodes) m
  unfolding immediate_value
  immediate_value-renamed bit_index rename value a type nodes m =
      ap (λ o. finish platform bit_index api f o)
        (evaluate_roots-resolve_root platform api f frame (node value a type (renamed rename nodes))
            m
          ∙ resolve_root-renamed rename 0 value a type nodes [] m
          ∙ sym (evaluate_roots-resolve_root platform api f frame (node value a type nodes) m))
