-- ===== src/Immediate/Added.antt =====
-- Which results the evaluation of a root adds: those of the numbers that it takes.
use squirrel_debug_server.Base.{
  ℕ, zero, suc, ◌+◌, ◌≤◌, ◌<◌, ◌≡◌, refl, ◌∙◌, ◌⊎◌, inl, inr, Text, ℤ, some, arith,
}
use squirrel_debug_server.Base.Assoc.{lookup, insert, lookup-insert}
use squirrel_debug_server.Watch.{
  ExpressionNode, ExpressionNodeType, node, Accessor, no_accessor, accessor, Next, no_next, next,
}
use squirrel_debug_server.Variables.Machine.{SquirrelApi, Machine}
use squirrel_debug_server.Variables.Types.{Platform}
use squirrel_debug_server.Immediate.{NodeState, Results}
use squirrel_debug_server.Immediate.Nodes.{inner, inner_accessor, inner_next}
use squirrel_debug_server.Immediate.Evaluate.{and_then, done, evaluate_node}
use squirrel_debug_server.Immediate.Steps.{Goes, and_then-Goes, done-Goes, Goes-true, Goes-map}
use squirrel_debug_server.Immediate.Reference.{resolve_root, resolve_accessor, resolve_next}

compare_lt : (a b : ℕ) → (a < b) ⊎ (b ≤ a)
compare_lt zero zero = inr (omega arith)
compare_lt zero (suc b) = inl (omega arith)
compare_lt (suc a) zero = inr (omega arith)
compare_lt (suc a) (suc b) = elim (compare_lt a b) [
  | inl h ↦ inl (omega arith)
  | inr h ↦ inr (omega arith)
]

module _ {Object : Type 0} where
  pub record Added (n k : ℕ) (before after : Results Object) : Type 0 where
    pub below : (key : ℕ) → key < n → lookup key after ≡ lookup key before
    pub beyond : (key : ℕ) → n + k ≤ key → lookup key after ≡ lookup key before
    pub there :
        (key : ℕ)
        → n ≤ key
        → key < n + k
        → (state : NodeState Object) × (lookup key after ≡ some state)

  Added-none : (n : ℕ) (results : Results Object) → Added n 0 results results
  Added-none n results = record {
    below = λ key h. refl;
    beyond = λ key h. refl;
    there = λ key h l. absurd (omega arith);
  }

  -- The numbers above first.
  Added-both :
      (n j k : ℕ) (r₁ r₂ r₃ : Results Object)
      → Added (n + j) k r₁ r₂
      → Added n j r₂ r₃
      → Added n (j + k) r₁ r₃
  Added-both n j k r₁ r₂ r₃ a b = record {
    below = λ key h. b.below key h ∙ a.below key (omega arith);
    beyond = λ key h. b.beyond key (omega arith) ∙ a.beyond key (omega arith);
    there = λ key h l. elim (compare_lt key (n + j)) [
      | inl low ↦ b.there key h low
      | inr high ↦ let (state, e) = a.there key high (omega arith) in (state, b.beyond key high ∙ e)
    ];
  }

  Added-insert :
      (n k : ℕ) (state : NodeState Object) (r₁ r₂ : Results Object)
      → Added (suc n) k r₁ r₂
      → Added n (suc k) r₁ (insert n state r₂)
  unfolding insert lookup
  Added-insert n k state r₁ r₂ a = record {
    below = λ key h. ground (arith, lookup-insert n key state r₂, a.below key (omega arith));
    beyond = λ key h. ground (arith, lookup-insert n key state r₂, a.beyond key (omega arith));
    there = λ key h l. elim (compare_lt n key) [
      | inl above ↦
          let (s, e) = a.there key above (omega arith) in
          (s, ground (arith, lookup-insert n key state r₂))
      | inr same ↦ (state, ground (arith, lookup-insert n key state r₂))
    ];
  }

module _ {Object Heap : Type 0} (platform : Platform) (api : SquirrelApi Object Heap) (f : ℕ)
    (frame : ℤ) where
  brackets-Added :
      (n : ℕ) (value : Text) (a : Accessor) (type : ExpressionNodeType) (nodes : Next)
      (results : Results Object) (m : Machine Object Heap)
      → Goes
          (Added (n + inner_accessor a) (inner_next nodes) results)
          (resolve_next platform api f frame (n + inner_accessor a) nodes results m)
      → ((r : Results Object) (m' : Machine Object Heap)
          → Goes (Added n (inner_accessor a) r) (resolve_accessor platform api f frame n a r m'))
      → Goes
          (Added n (inner_accessor a + inner_next nodes) results)
          (resolve_next platform api f frame n (next (node value a type nodes)) results m)
  unfolding resolve_root
  brackets-Added n value a type nodes results m first second =
      and_then-Goes (Added (n + inner_accessor a) (inner_next nodes) results)
        (Added n (inner_accessor a + inner_next nodes) results)
        (resolve_next platform api f frame (n + inner_accessor a) nodes results m)
        (λ results' m'. resolve_accessor platform api f frame n a results' m') first
        (λ r m' added.
          Goes-map (Added n (inner_accessor a) r) _ (resolve_accessor platform api f frame n a r m')
            (λ r' b. Added-both n (inner_accessor a) (inner_next nodes) results r r' added b)
            (second r m'))

  mutual
    unfolding resolve_root inner

    pub resolve_root-Added :
        (n : ℕ) (e : ExpressionNode) (results : Results Object) (m : Machine Object Heap)
        → Goes (Added n (suc (inner e)) results) (resolve_root platform api f frame n e results m)
    resolve_root-Added n (node value a type nodes) results m =
        and_then-Goes (Added (suc n) (inner (node value a type nodes)) results)
          (Added n (suc (inner (node value a type nodes))) results)
          (resolve_next platform api f frame (suc n) (next (node value a type nodes)) results m)
          (λ results₁ m₁.
            and_then (evaluate_node platform api f frame (n, node value a type nodes) results₁ m₁)
              (λ state m₂. done (insert n state results₁) m₂))
          (brackets-Added (suc n) value a type nodes results m
            (resolve_next-Added (suc n + inner_accessor a) nodes results m)
            (λ r m'. resolve_accessor-Added (suc n) a r m'))
          (λ r m' added.
            and_then-Goes (λ (s : NodeState Object). Unit)
              (Added n (suc (inner (node value a type nodes))) results)
              (evaluate_node platform api f frame (n, node value a type nodes) r m')
              (λ state m₂. done (insert n state r) m₂)
              (Goes-true (evaluate_node platform api f frame (n, node value a type nodes) r m'))
              (λ state m₂ u.
                done-Goes (Added n (suc (inner (node value a type nodes))) results)
                  (insert n state r) m₂
                  (Added-insert n (inner (node value a type nodes)) state results r added)))

    pub resolve_accessor-Added :
        (n : ℕ) (a : Accessor) (results : Results Object) (m : Machine Object Heap)
        → Goes
            (Added n (inner_accessor a) results)
            (resolve_accessor platform api f frame n a results m)
    resolve_accessor-Added n no_accessor results m =
        done-Goes (Added n 0 results) results m (Added-none n results)
    resolve_accessor-Added n (accessor e) results m = resolve_root-Added n e results m

    pub resolve_next-Added :
        (n : ℕ) (nodes : Next) (results : Results Object) (m : Machine Object Heap)
        → Goes
            (Added n (inner_next nodes) results)
            (resolve_next platform api f frame n nodes results m)
    resolve_next-Added n no_next results m =
        done-Goes (Added n 0 results) results m (Added-none n results)
    resolve_next-Added n (next (node value a type nodes)) results m =
        brackets-Added n value a type nodes results m
          (resolve_next-Added (n + inner_accessor a) nodes results m)
          (λ r m'. resolve_accessor-Added n a r m')
