-- ===== src/Variables/ListingTotality.antt =====
-- `CreateChildVariables` of SquirrelVmHelpers.cpp comes back on tables and arrays of values whose tables
-- are nested to a bounded depth.
use squirrel_debug_server.Base.{
  ℕ, zero, suc, ◌≡◌, sym, subst, ℤ, pos, Option, none, some, List, [], ◌∷◌, Text, length, drop, ltb,
  arith, false, inl, inr, ◌⊎◌,
}
use squirrel_debug_server.Data.{Variable, VariableType, closure, array, table}
use squirrel_debug_server.Variables.Machine.{SquirrelApi, Machine, Run, pop, then_run}
use squirrel_debug_server.Variables.Types.{Platform, to_variable_type}
use squirrel_debug_server.Variables.Path.{to_uint64}
use squirrel_debug_server.Variables.Show.{
  KeyToTableIter, sort_keys, to_string, max_table_size_to_sort,
}
use squirrel_debug_server.Variables.Children.{
  new_variable, fill_by_type, with_size, with_delegate_size, described, create_child_variable,
  array_child, table_child, children_in_order, children_at_keys, sorted_children, table_children,
  create_child_variables,
}
use squirrel_debug_server.Variables.Returns.{
  machine, Returns, some-Returns, then_run-Returns, test-Returns, option-Returns, sq_next-Returns,
}
use squirrel_debug_server.Variables.Totality.{
  IsPlain, IsNamed, HasLess, IsShallow, table_keys-Returns, to_string-Returns,
}

-- The types of shallow values.
data IsListed : VariableType → Type 0 where
  is_plain : {t : VariableType} → IsPlain t → IsListed t
  is_named : {t : VariableType} → IsNamed t → IsListed t
  is_closure : IsListed closure
  is_table : IsListed table

module _ {Object Heap : Type 0} (platform : Platform) (bit_index : VariableType → ℕ)
    (api : SquirrelApi Object Heap) (heap : Heap)
    (reports : (t : VariableType) → to_variable_type platform bit_index t ≡ some t) where
  abbrev Shallow : ℕ → Object → Type 0
  Shallow n o = IsShallow platform bit_index api heap n o

  shallow-IsListed : (n : ℕ) (o : Object) → Shallow n o → IsListed (api.type_of o)
  shallow-IsListed n o (IsShallow.plain _ _ p) = is_plain p
  shallow-IsListed n o (IsShallow.by_type _ _ s t named) = is_named t
  shallow-IsListed n o (IsShallow.function _ _ t named) = subst IsListed (sym t) is_closure
  shallow-IsListed n o (IsShallow.entries _ _ t less keys values) = subst IsListed (sym t) is_table

  fill_by_type-Returns :
      (n : ℕ) (variable : Variable) (o : Object) (below : List Object) (t : VariableType)
      (text : Text)
      → IsListed t
      → Returns heap (o ∷ below) (
          fill_by_type platform bit_index api n
            (described platform bit_index api variable o t text)
            (machine heap (o ∷ below)))
  unfolding fill_by_type with_size with_delegate_size
  fill_by_type-Returns n variable o below _ text (is_plain IsPlain.is_bool) =
      some-Returns heap _ (o ∷ below)
  fill_by_type-Returns n variable o below _ text (is_plain IsPlain.is_integer) =
      some-Returns heap _ (o ∷ below)
  fill_by_type-Returns n variable o below _ text (is_plain IsPlain.is_float) =
      some-Returns heap _ (o ∷ below)
  fill_by_type-Returns n variable o below _ text (is_plain IsPlain.is_string) =
      some-Returns heap _ (o ∷ below)
  fill_by_type-Returns n variable o below _ text (is_plain IsPlain.is_array) =
      some-Returns heap _ (o ∷ below)
  fill_by_type-Returns n variable o below _ text (is_named IsNamed.is_null) =
      some-Returns heap _ (o ∷ below)
  fill_by_type-Returns n variable o below _ text (is_named IsNamed.is_user_data) =
      some-Returns heap _ (o ∷ below)
  fill_by_type-Returns n variable o below _ text (is_named IsNamed.is_native_closure) =
      some-Returns heap _ (o ∷ below)
  fill_by_type-Returns n variable o below _ text (is_named IsNamed.is_generator) =
      some-Returns heap _ (o ∷ below)
  fill_by_type-Returns n variable o below _ text (is_named IsNamed.is_user_pointer) =
      some-Returns heap _ (o ∷ below)
  fill_by_type-Returns n variable o below _ text (is_named IsNamed.is_thread) =
      some-Returns heap _ (o ∷ below)
  fill_by_type-Returns n variable o below _ text (is_named IsNamed.is_func_proto) =
      some-Returns heap _ (o ∷ below)
  fill_by_type-Returns n variable o below _ text (is_named IsNamed.is_weak_ref) =
      some-Returns heap _ (o ∷ below)
  fill_by_type-Returns n variable o below _ text (is_named IsNamed.is_outer) =
      some-Returns heap _ (o ∷ below)
  fill_by_type-Returns n variable o below _ text is_closure = some-Returns heap _ (o ∷ below)
  fill_by_type-Returns n variable o below _ text is_table = some-Returns heap _ (o ∷ below)

  create_child_variable-Returns :
      (n : ℕ) (variable : Variable) (o : Object) (below : List Object)
      → Shallow n o
      → Returns heap
          (o ∷ below)
          (create_child_variable platform bit_index api n variable (machine heap (o ∷ below)))
  unfolding create_child_variable
  create_child_variable-Returns n variable o below shallow = rw (reports (api.type_of o)) (
      then_run-Returns heap (o ∷ below) (o ∷ below) _ _
        (to_string-Returns platform bit_index api heap n o below shallow)
        (λ text.
          then_run-Returns heap (o ∷ below) (o ∷ below) _ _
            (fill_by_type-Returns n variable o below (api.type_of o) text
              (shallow-IsListed n o shallow))
            (λ v. some-Returns heap _ (o ∷ below))))

  -- A function that comes back with a variable, and pops the value and its key.
  ChildReturns : ℕ → (ℤ → Run Object Heap Variable) → Type 0
  ChildReturns n child =
      (i : ℤ) (value key : Object) (below : List Object)
      → Shallow n value
      → Shallow n key
      → Returns heap below (child i (machine heap (value ∷ key ∷ below)))

  array_child-Returns : (n : ℕ) → ChildReturns n (array_child platform bit_index api n)
  unfolding ChildReturns array_child
  array_child-Returns n i value key below is_value is_key =
      then_run-Returns heap (value ∷ key ∷ below) below _ _
        (create_child_variable-Returns n new_variable value (key ∷ below) is_value)
        (λ v.
          then_run-Returns heap (key ∷ below) below _ _
            (to_string-Returns platform bit_index api heap n key below is_key)
            (λ text. some-Returns heap _ below))

  table_child-Returns : (n : ℕ) → ChildReturns n (table_child platform bit_index api n)
  unfolding ChildReturns table_child
  table_child-Returns n i value key below is_value is_key =
      then_run-Returns heap (value ∷ key ∷ below) below _ _
        (create_child_variable-Returns n (record new_variable { path_iterator = to_uint64 i }) value
          (key ∷ below) is_value)
        (λ v.
          then_run-Returns heap (key ∷ below) below _ _
            (to_string-Returns platform bit_index api heap n key below is_key)
            (λ text. rw (reports (api.type_of key)) (some-Returns heap _ below)))

  -- What a container's iterators lead to.
  abbrev pub HoldsShallow : ℕ → Object → Type 0
  HoldsShallow n container =
      (i i' key value : Object)
      → api.next heap container i ≡ some (i', key, value)
      → Shallow n key × Shallow n value

  module _ (n : ℕ) (child : ℤ → Run Object Heap Variable) (returns : ChildReturns n child)
      (container : Object) (holds : HoldsShallow n container) (below : List Object) where
    abbrev after_entry :
        ℤ
        → Run Object Heap (List Variable)
        → Option (Machine Object Heap)
        → Option (List Variable × Machine Object Heap)
    after_entry i rest none = some ([], machine heap (container ∷ below))
    after_entry i rest (some m) = then_run (child i m) (λ (v : Variable × Machine Object Heap).
        then_run (rest v.1) (λ (vs : List Variable × Machine Object Heap). some (v.0 ∷ vs.0, vs.1)))

    children_in_order-Returns :
        (count : ℕ) (i : Object)
        → Returns heap (container ∷ below) (
            children_in_order platform bit_index api child count
              (machine heap (i ∷ container ∷ below)))
    unfolding children_in_order ChildReturns
    children_in_order-Returns zero i = some-Returns heap [] (container ∷ below)
    children_in_order-Returns (suc count) i =
        option-Returns heap (container ∷ below) (api.integer_value i) _ _
          (some-Returns heap [] (container ∷ below))
          (λ index.
            sq_next-Returns heap api i container below (container ∷ below)
              (after_entry index (children_in_order platform bit_index api child count))
              (λ at_end. some-Returns heap [] (container ∷ below))
              (λ i' key value next.
                let both = holds i i' key value next in
                then_run-Returns heap (i' ∷ container ∷ below) (container ∷ below) _ _
                  (returns index value key (i' ∷ container ∷ below) both.1 both.0)
                  (λ v.
                    then_run-Returns heap (container ∷ below) (container ∷ below) _ _
                      (children_in_order-Returns count i')
                      (λ vs. some-Returns heap (v ∷ vs) (container ∷ below)))))

    children_at_keys-Returns :
        (count : ℕ) (es : List KeyToTableIter)
        → Returns heap (container ∷ below) (
            children_at_keys platform bit_index api child count es
              (machine heap (container ∷ below)))
    unfolding children_at_keys ChildReturns
    children_at_keys-Returns zero es = some-Returns heap [] (container ∷ below)
    children_at_keys-Returns (suc count) [] = some-Returns heap [] (container ∷ below)
    children_at_keys-Returns (suc count) (e ∷ es) =
        sq_next-Returns heap api (api.integer_object e.1) container below (container ∷ below)
          (after_entry e.1 (λ m. children_at_keys platform bit_index api child count es (pop 1 m)))
          (λ at_end. some-Returns heap [] (container ∷ below))
          (λ i' key value next.
            let both = holds (api.integer_object e.1) i' key value next in
            then_run-Returns heap (i' ∷ container ∷ below) (container ∷ below) _ _
              (returns e.1 value key (i' ∷ container ∷ below) both.1 both.0)
              (λ v.
                then_run-Returns heap (container ∷ below) (container ∷ below) _ _
                  (children_at_keys-Returns count es)
                  (λ vs. some-Returns heap (v ∷ vs) (container ∷ below))))

  -- A container that can be listed from `begin` on with the fuel `n`: an array, or a table with less
  -- than `n` entries from its first one on.
  abbrev pub IsListable : ℕ → ℕ → Object → Type 0
  IsListable n begin o =
      (api.type_of o ≡ array)
      ⊎ ((api.type_of o ≡ table)
          × HasLess platform bit_index api heap o (api.integer_object (pos 0)) n
          × (begin ≡ 0))

  table_children-Returns :
      (n count : ℕ) (o : Object) (below : List Object)
      → HasLess platform bit_index api heap o (api.integer_object (pos 0)) n
      → HoldsShallow n o
      → Returns heap
          (o ∷ below)
          (table_children platform bit_index api n 0 count (machine heap (o ∷ below)))
  unfolding table_children sorted_children
  table_children-Returns n count o below less holds =
      let xs = o ∷ below in
      let child = table_child platform bit_index api n in
      let returns = table_child-Returns n in
      test-Returns heap xs (ltb (api.size heap o) max_table_size_to_sort) _ _
        (then_run-Returns heap xs xs _ _
          (table_keys-Returns platform bit_index api heap (to_string platform bit_index api n 0) n
            (to_string-Returns platform bit_index api heap n) o (api.integer_object (pos 0)) below n
            less (λ i i' key value next. (holds i i' key value next).0))
          (λ keys.
            let inside : ltb (length keys) 0 ≡ false = ground arith in
            rw (inside) (
              children_at_keys-Returns n child returns o holds below count
                (drop 0 (sort_keys keys)))))
        (children_in_order-Returns n child returns o holds below count (api.integer_object (pos 0)))

  -- Whatever the number of variables that are asked for, `CreateChildVariables` comes back on such a
  -- container, if all keys and values in it are shallow, and the stack and the heap are as they were.
  pub create_child_variables-Returns :
      (n begin count : ℕ) (o : Object) (below : List Object)
      → IsListable n begin o
      → HoldsShallow n o
      → Returns heap
          (o ∷ below)
          (create_child_variables platform bit_index api n begin count (machine heap (o ∷ below)))
  unfolding create_child_variables
  create_child_variables-Returns n begin count o below (inl t) holds = rw (t) (
      children_in_order-Returns n (array_child platform bit_index api n) (array_child-Returns n) o
        holds below count (api.integer_object (pos begin)))
  create_child_variables-Returns n begin count o below (inr (t, less, first)) holds = rw (t) (
      subst
        (λ b.
          Returns heap (o ∷ below)
            (table_children platform bit_index api n b count (machine heap (o ∷ below))))
        (sym first) (table_children-Returns n count o below less holds))
