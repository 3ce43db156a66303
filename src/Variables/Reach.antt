-- ===== src/Variables/Reach.antt =====
-- `WithVariableAtPath` is the walk along a path of children; it gives the stack back as it found it.
use squirrel_debug_server.Base.{
  ℕ, zero, suc, ◌+◌, ◌-◌, ◌≡◌, refl, true, false, Option, none, some, List, [], ◌∷◌, length, drop,
  arith, Bool-cases, Option-cases, inl, inr,
}
use squirrel_debug_server.Data.{ReturnCode, invalid_parameter, array, table, instance_}
use squirrel_debug_server.Variables.Machine.{SquirrelApi, Machine, Run, push, then_run}
use squirrel_debug_server.Variables.Walk.{
  to_int, is_outside, to_sq_integer, popping, at_index, at_iterator, with_variable_at_path,
}

length-drop {ℓ} : {A : Type ℓ} (n : ℕ) (xs : List A) → length (drop n xs) ≡ length xs - n
length-drop zero xs = omega arith
length-drop (suc n) [] = omega arith
length-drop (suc n) (x ∷ xs) = omega (arith, length-drop n xs)

module _ {Object Heap : Type 0} (api : SquirrelApi Object Heap) where
  abbrev child_at_index : Heap → Object → ℕ → Option Object
  child_at_index heap o p = elim (is_outside (to_int p) (api.size heap o)) [
    | true ↦ none
    | false ↦ api.get heap o (api.integer_object (to_int p))
  ]

  abbrev child_at_iterator : Heap → Object → ℕ → Option Object
  child_at_iterator heap o p =
      then_run (api.next heap o (api.integer_object (to_sq_integer p)))
        (λ (r : Object × Object × Object). some r.2)

  -- The child of an object that a part of a path names: an element of an array, or what the iterator
  -- of a table or an instance points to.
  unfoldable pub child : Heap → Object → ℕ → Option Object
  child heap o p = elim (api.type_of o) [
    | array ↦ child_at_index heap o p
    | table ↦ child_at_iterator heap o p
    | instance_ ↦ child_at_iterator heap o p
    | _ ↦ none
  ]

  unfoldable pub follow : Heap → Object → List ℕ → Option Object
  unfolding child
  follow heap o [] = some o
  follow heap o (p ∷ ps) = then_run (child heap o p) (λ (c : Object). follow heap c ps)

module _ {Object Heap A : Type 0} (api : SquirrelApi Object Heap) (refuse : ReturnCode → A) where
  -- A function that looks only at the top of the stack and the heap, and changes nothing.
  unfoldable pub IsReader : (Heap → Object → A) → Run Object Heap A → Type 0
  IsReader f fn =
      (heap : Heap) (o : Object) (below : List Object)
      → fn (record { stack = o ∷ below; heap = heap })
        ≡ some (f heap o, record { stack = o ∷ below; heap = heap })

  -- What a reader answers of an object that may not be there.
  unfoldable pub answer : (Heap → Object → A) → Heap → Option Object → A
  answer f heap none = refuse invalid_parameter
  answer f heap (some o) = f heap o

  at_index-reads :
      (f : Heap → Object → A) (rest : Run Object Heap A) (ps : List ℕ) (p : ℕ) (heap : Heap)
      (o : Object) (below : List Object)
      → IsReader (λ heap' c. answer f heap' (follow api heap' c ps)) rest
      → at_index api refuse p o rest (record { stack = o ∷ below; heap = heap })
        ≡ some (
          answer f heap
              (then_run (child_at_index api heap o p) (λ (c : Object). follow api heap c ps)),
          record { stack = o ∷ below; heap = heap },
        )
  unfolding at_index answer IsReader
  at_index-reads f rest ps p heap o below reader =
      elim (Bool-cases (is_outside (to_int p) (api.size heap o))) [
        | inl outside ↦ ground (arith, outside)
        | inr inside ↦ elim (Option-cases (api.get heap o (api.integer_object (to_int p)))) [
          | inl missing ↦ ground (arith, inside, missing)
          | inr (c, found) ↦ ground (arith, inside, found, reader heap c (o ∷ below))
        ]
      ]

  at_iterator-reads :
      (f : Heap → Object → A) (rest : Run Object Heap A) (ps : List ℕ) (p : ℕ) (heap : Heap)
      (o : Object) (below : List Object)
      → IsReader (λ heap' c. answer f heap' (follow api heap' c ps)) rest
      → at_iterator api refuse p o rest (record { stack = o ∷ below; heap = heap })
        ≡ some (
          answer f heap
              (then_run (child_at_iterator api heap o p) (λ (c : Object). follow api heap c ps)),
          record { stack = o ∷ below; heap = heap },
        )
  unfolding at_iterator answer IsReader
  at_iterator-reads f rest ps p heap o below reader =
      elim (Option-cases (api.next heap o (api.integer_object (to_sq_integer p)))) [
        | inl missing ↦ ground (arith, missing)
        | inr ((iterator, key, c), found) ↦
            ground (arith, found, reader heap c (key ∷ iterator ∷ o ∷ below))
      ]

  -- A function that looks at the top of the stack is given the object at the end of the path; where
  -- the path leads nowhere, the answer is `InvalidParameter`. The stack is as it was.
  pub with_variable_at_path-reads :
      (f : Heap → Object → A) (fn : Run Object Heap A) (ps : List ℕ) (heap : Heap) (o : Object)
      (below : List Object)
      → IsReader f fn
      → with_variable_at_path api refuse ps fn (record { stack = o ∷ below; heap = heap })
        ≡ some (answer f heap (follow api heap o ps), record { stack = o ∷ below; heap = heap })
  unfolding with_variable_at_path at_index at_iterator follow child answer IsReader
  with_variable_at_path-reads f fn [] heap o below reader = reader heap o below
  with_variable_at_path-reads f fn (p ∷ ps) heap o below reader =
      let rest = with_variable_at_path-reads f fn ps in
      let indexed =
        at_index-reads f (with_variable_at_path api refuse ps fn) ps p heap o below
          (λ h c b. rest h c b reader) in
      let iterated =
        at_iterator-reads f (with_variable_at_path api refuse ps fn) ps p heap o below
          (λ h c b. rest h c b reader) in
      ground (arith, indexed, iterated)

  -- A function that leaves the stack as deep as it was.
  unfoldable pub IsBalanced : Run Object Heap A → Type 0
  IsBalanced fn =
      (m m' : Machine Object Heap) (rc : A)
      → fn m ≡ some (rc, m')
      → length m'.stack ≡ length m.stack

  popping-depth :
      (n : ℕ) (o : Option (A × Machine Object Heap)) (m m' : Machine Object Heap) (rc : A)
      → ((r : A) (m'' : Machine Object Heap)
          → o ≡ some (r, m'')
          → length m''.stack ≡ n + length m.stack)
      → popping api refuse n o ≡ some (rc, m')
      → length m'.stack ≡ length m.stack
  popping-depth n none m m' rc depth e = ground arith
  popping-depth n (some (r, m'')) m m' rc depth e =
      ground (arith, e, depth r m'' refl, length-drop n m''.stack)

  at_index-IsBalanced :
      (rest : Run Object Heap A) (p : ℕ) (o : Object)
      → IsBalanced rest
      → IsBalanced (at_index api refuse p o rest)
  unfolding at_index IsBalanced
  at_index-IsBalanced rest p o balanced m m' rc e =
      elim (Bool-cases (is_outside (to_int p) (api.size m.heap o))) [
        | inl outside ↦ ground (arith, outside, e)
        | inr inside ↦ elim (Option-cases (api.get m.heap o (api.integer_object (to_int p)))) [
          | inl missing ↦ ground (arith, inside, missing, e)
          | inr (c, found) ↦
              popping-depth 1 (rest (push c m)) m m' rc
                (λ r m'' h. omega (arith, balanced (push c m) m'' r h))
                (ground (arith, inside, found, e))
        ]
      ]

  at_iterator-IsBalanced :
      (rest : Run Object Heap A) (p : ℕ) (o : Object)
      → IsBalanced rest
      → IsBalanced (at_iterator api refuse p o rest)
  unfolding at_iterator IsBalanced
  at_iterator-IsBalanced rest p o balanced m m' rc e =
      elim (Option-cases (api.next m.heap o (api.integer_object (to_sq_integer p)))) [
        | inl missing ↦ ground (arith, missing, e)
        | inr ((iterator, key, c), found) ↦
            let m₀ = push c (push key (push iterator m)) in
            popping-depth 3 (rest m₀) m m' rc (λ r m'' h. omega (arith, balanced m₀ m'' r h))
              (ground (arith, found, e))
      ]

  -- `WithVariableAtPath` leaves the stack as deep as it was, on every path, if the function that it
  -- is given does: the assertion of `ScopedVerifySqTop` holds.
  pub with_variable_at_path-IsBalanced :
      (fn : Run Object Heap A) (ps : List ℕ)
      → IsBalanced fn
      → IsBalanced (with_variable_at_path api refuse ps fn)
  unfolding with_variable_at_path at_index at_iterator IsBalanced
  with_variable_at_path-IsBalanced fn [] balanced m m' rc e = balanced m m' rc e
  with_variable_at_path-IsBalanced fn (p ∷ ps) balanced m m' rc e =
      let rest = with_variable_at_path-IsBalanced fn ps balanced in
      let indexed = at_index-IsBalanced (with_variable_at_path api refuse ps fn) p in
      let iterated = at_iterator-IsBalanced (with_variable_at_path api refuse ps fn) p in
      elim m.stack as (λ (xs : List Object). m.stack ≡ xs → length m'.stack ≡ length m.stack) [
        | [] ↦ λ q. ground (arith, q, e)
        | top ∷ below ↦
            λ q. ground (arith, q, e, indexed top rest m m' rc, iterated top rest m m' rc)
      ]
        refl
