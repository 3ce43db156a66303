-- ===== src/Variables/Counts.antt =====
-- How many variables the listings of SquirrelVmHelpers.cpp and SquirrelDebugger.cpp give.
use squirrel_debug_server.Base.{
  ℕ, zero, suc, ◌≤◌, ◌≡◌, refl, ap, subst, ℤ, pos, Bool, true, false, Option, none, some, List, [],
  ◌∷◌, length, drop, ltb, arith,
}
use mathlib.Core.Option.{some-injective}
use squirrel_debug_server.Data.{Variable, VariableType}
use squirrel_debug_server.Variables.Machine.{SquirrelApi, Machine, Run, at, push, pop, then_run}
use squirrel_debug_server.Variables.Types.{Platform}
use squirrel_debug_server.Variables.Show.{
  KeyToTableIter, sort_keys, sq_next, max_table_size_to_sort,
}
use squirrel_debug_server.Variables.Children.{
  array_child, table_child, children_in_order, children_at_keys, sorted_children, table_children,
  create_child_variables,
}
use squirrel_debug_server.Variables.Frames.{root_variables}

abbrev pub AtMost : ℕ → List Variable → Type 0
AtMost n vs = length vs ≤ n

module _ {Object Heap : Type 0} where
  -- What it gives, if it comes back.
  unfoldable pub Gives : {A : Type 0} → (A → Type 0) → Option (A × Machine Object Heap) → Type 0
  Gives {A} P o = (a : A) (m : Machine Object Heap) → o ≡ some (a, m) → P a

  pub some-Gives :
      {A : Type 0} (P : A → Type 0) (a : A) (m : Machine Object Heap) → P a → Gives P (some (a, m))
  unfolding Gives
  some-Gives {A} P a m p a' m' e =
      subst P (ap (λ (r : A × Machine Object Heap). r.0) (some-injective (a, m) (a', m') e)) p

  -- Something is read or run, whatever it gives.
  pub any-Gives :
      {A B : Type 0} (P : B → Type 0) (o : Option A) (k : A → Option (B × Machine Object Heap))
      → ((a : A) → Gives P (k a))
      → Gives P (then_run o k)
  unfolding Gives
  any-Gives P none k rest b m e = ground arith
  any-Gives P (some a) k rest b m e = rest a b m e

  pub then_run-Gives :
      {A B : Type 0} (Q : A → Type 0) (P : B → Type 0) (o : Option (A × Machine Object Heap))
      (k : A × Machine Object Heap → Option (B × Machine Object Heap))
      → Gives Q o
      → ((a : A) (m : Machine Object Heap) → Q a → Gives P (k (a, m)))
      → Gives P (then_run o k)
  unfolding Gives
  then_run-Gives Q P none k first rest b m e = ground arith
  then_run-Gives Q P (some (a, m)) k first rest b m' e = rest a m (first a m refl) b m' e

  pub option-Gives :
      {A B : Type 0} (P : B → Type 0) (o : Option A) (x : Option (B × Machine Object Heap))
      (k : A → Option (B × Machine Object Heap))
      → Gives P x
      → ((a : A) → Gives P (k a))
      → Gives P (elim o [ none ↦ x | some a ↦ k a ])
  option-Gives P none x k missing found = missing
  option-Gives P (some a) x k missing found = found a

  pub test-Gives :
      {B : Type 0} (P : B → Type 0) (b : Bool) (x y : Option (B × Machine Object Heap))
      → Gives P x
      → Gives P y
      → Gives P (elim b [ true ↦ x | false ↦ y ])
  test-Gives P true x y if_true if_false = if_true
  test-Gives P false x y if_true if_false = if_false

  pub refused-Gives :
      {B : Type 0} (P : B → Type 0) (b : Bool) (y : Option (B × Machine Object Heap))
      → Gives P y
      → Gives P (elim b [ true ↦ none | false ↦ y ])
  unfolding Gives
  refused-Gives P true y if_false b m e = ground arith
  refused-Gives P false y if_false b m e = if_false b m e

  -- One variable in front of a listing.
  cons-Gives :
      (n : ℕ) (v : Variable) (o : Option (List Variable × Machine Object Heap))
      (w : Variable → Variable)
      → Gives (AtMost n) o
      → Gives
          (AtMost (suc n))
          (then_run o (λ (vs : List Variable × Machine Object Heap). some (w v ∷ vs.0, vs.1)))
  cons-Gives n v o w few =
      then_run-Gives (AtMost n) (AtMost (suc n)) o _ few
        (λ vs m h. some-Gives (AtMost (suc n)) (w v ∷ vs) m (omega (arith, h)))

  nothing-Gives : (n : ℕ) (m : Machine Object Heap) → Gives (AtMost n) (some ([], m))
  nothing-Gives n m = some-Gives (AtMost n) [] m (omega arith)

module _ {Object Heap : Type 0} (platform : Platform) (bit_index : VariableType → ℕ)
    (api : SquirrelApi Object Heap) (f : ℕ) where
  children_in_order-AtMost :
      (child : ℤ → Run Object Heap Variable) (count : ℕ) (m : Machine Object Heap)
      → Gives (AtMost count) (children_in_order platform bit_index api child count m)
  unfolding children_in_order
  children_in_order-AtMost child zero m = nothing-Gives 0 (pop 1 m)
  children_in_order-AtMost child (suc count) m =
      any-Gives (AtMost (suc count)) (at 0 m) _ (λ iterator.
        option-Gives (AtMost (suc count)) (api.integer_value iterator) _ _
          (nothing-Gives (suc count) (pop 1 m))
          (λ i. any-Gives (AtMost (suc count)) (sq_next api m) _ (λ next.
            option-Gives (AtMost (suc count)) next _ _ (nothing-Gives (suc count) (pop 1 m)) (λ m'.
              any-Gives (AtMost (suc count)) (child i m') _ (λ v.
                cons-Gives count v.0 (children_in_order platform bit_index api child count v.1)
                  (λ x. x) (children_in_order-AtMost child count v.1))))))

  children_at_keys-AtMost :
      (child : ℤ → Run Object Heap Variable) (count : ℕ) (es : List KeyToTableIter)
      (m : Machine Object Heap)
      → Gives (AtMost count) (children_at_keys platform bit_index api child count es m)
  unfolding children_at_keys
  children_at_keys-AtMost child zero es m = nothing-Gives 0 m
  children_at_keys-AtMost child (suc count) [] m = nothing-Gives (suc count) m
  children_at_keys-AtMost child (suc count) (e ∷ es) m =
      any-Gives (AtMost (suc count)) (sq_next api (push (api.integer_object e.1) m)) _ (λ next.
        option-Gives (AtMost (suc count)) next _ _ (nothing-Gives (suc count) m) (λ m'.
          any-Gives (AtMost (suc count)) (child e.1 m') _ (λ v.
            cons-Gives count v.0
              (children_at_keys platform bit_index api child count es (pop 1 v.1)) (λ x. x)
              (children_at_keys-AtMost child count es (pop 1 v.1)))))

  sorted_children-AtMost :
      (begin count : ℕ) (m : Machine Object Heap)
      → Gives (AtMost count) (sorted_children platform bit_index api f begin count m)
  unfolding sorted_children
  sorted_children-AtMost begin count m = any-Gives (AtMost count) _ _ (λ keys.
      refused-Gives (AtMost count) (ltb (length keys.0) begin) _ (
        children_at_keys-AtMost (table_child platform bit_index api f) count
          (drop begin (sort_keys keys.0)) keys.1))

  table_children-AtMost :
      (begin count : ℕ) (m : Machine Object Heap)
      → Gives (AtMost count) (table_children platform bit_index api f begin count m)
  unfolding table_children
  table_children-AtMost begin count m = any-Gives (AtMost count) (at 0 m) _ (λ top.
      test-Gives (AtMost count) (ltb (api.size m.heap top) max_table_size_to_sort) _ _
        (sorted_children-AtMost begin count m)
        (children_in_order-AtMost (table_child platform bit_index api f) count
          (push (api.integer_object (pos begin)) m)))

  pub create_child_variables-AtMost :
      (begin count : ℕ) (m : Machine Object Heap)
      → Gives (AtMost count) (create_child_variables platform bit_index api f begin count m)
  unfolding create_child_variables Gives
  create_child_variables-AtMost begin count m vs m' e = ground (
    arith,
    e,
    table_children-AtMost begin count m vs m',
    children_in_order-AtMost (array_child platform bit_index api f) count
        (push (api.integer_object (pos begin)) m) vs m',
  )

  pub root_variables-AtMost :
      (stack_frame n seq : ℕ) (m : Machine Object Heap)
      → Gives (AtMost n) (root_variables platform bit_index api f stack_frame n seq m)
  unfolding root_variables
  root_variables-AtMost stack_frame zero seq m = nothing-Gives 0 m
  root_variables-AtMost stack_frame (suc n) seq m =
      option-Gives (AtMost (suc n)) (api.local m.heap stack_frame seq) _ _ (nothing-Gives (suc n) m)
        (λ l. any-Gives (AtMost (suc n)) _ _ (λ v.
          cons-Gives n v.0
            (root_variables platform bit_index api f stack_frame n (suc seq) (pop 1 v.1))
            (λ x. record x { editable = false })
            (root_variables-AtMost stack_frame n (suc seq) (pop 1 v.1))))
