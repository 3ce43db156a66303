-- ===== src/Variables/Balance.antt =====
-- `ToString`, `CreateChildVariable` and `CreateChildVariables` give the stack of the API back as it
-- was, where no anonymous function can be reached: what the assertions of `ScopedVerifySqTop` ask for.
use squirrel_debug_server.Base.{
  ℕ, zero, suc, ℤ, pos, some, List, [], ◌∷◌, Text, length, ltb, drop, arith,
}
use squirrel_debug_server.Data.{Variable, VariableType}
use squirrel_debug_server.Variables.Machine.{SquirrelApi, Machine, Run, at, push, pop}
use squirrel_debug_server.Variables.Types.{Platform, to_sq_object_type_name, to_variable_type}
use squirrel_debug_server.Variables.Path.{to_uint64}
use squirrel_debug_server.Variables.Show.{
  KeyToTableIter, sort_keys, to_string, max_table_size_to_sort,
}
use squirrel_debug_server.Variables.Children.{
  new_variable, is_editable, with_class_name, with_delegate_size, with_size, fill_instance,
  fill_by_type, described, create_child_variable, array_child, table_child, children_in_order,
  children_at_keys, sorted_children, table_children, create_child_variables,
}
use squirrel_debug_server.Variables.Ends.{
  Ends, none-Ends, some-Ends, then_run-Ends, read-Ends, option-Ends, test-Ends,
}
use squirrel_debug_server.Variables.ClassEnds.{to_class_full_name-Ends}
use squirrel_debug_server.Variables.ShowEnds.{
  ShowEnds, HasNames, NamedAt, NamedBelow, push-NamedAt, sq_next_named-Ends, table_keys-Ends,
  create_table_summary-Ends, closure_text-Ends,
}

module _ {Object Heap : Type 0} (platform : Platform) (bit_index : VariableType → ℕ)
    (api : SquirrelApi Object Heap) where
  pub to_string-Ends :
      (f : ℕ) (m : Machine Object Heap)
      → NamedAt api 0 m
      → Ends m (to_string platform bit_index api f 0 m)
  unfolding to_string to_sq_object_type_name Ends ShowEnds
  to_string-Ends zero m named = none-Ends Text m
  to_string-Ends (suc f) m named = read-Ends m (at 0 m) _ (λ o a. λ text m' e. ground (
    arith,
    e,
    closure_text-Ends api 0 m named text m',
    to_class_full_name-Ends api f 0 m text m',
    create_table_summary-Ends api (to_string platform bit_index api f 0) f m
        (λ o' m₁ o'_named. to_string-Ends f (push o' m₁) (push-NamedAt api o' m₁ o'_named)) named
        text m',
  ))

  with_class_name-Ends :
      (f : ℕ) (variable : Variable) (m : Machine Object Heap)
      → Ends m (with_class_name platform bit_index api f variable m)
  unfolding with_class_name
  with_class_name-Ends f variable m = read-Ends m (at 0 m) _ (λ o a.
      option-Ends m (api.class_of m.heap o) _ _ (some-Ends variable m) (λ c found.
        then_run-Ends (push c m) m _ _ (to_class_full_name-Ends api f 0 (push c m))
          (λ name. some-Ends _ m)))

  with_delegate_size-Ends :
      (variable : Variable) (m : Machine Object Heap)
      → Ends m (with_delegate_size platform bit_index api variable m)
  unfolding with_delegate_size
  with_delegate_size-Ends variable m = read-Ends m (at 0 m) _ (λ o a. some-Ends _ m)

  with_size-Ends :
      (variable : Variable) (m : Machine Object Heap)
      → Ends m (with_size platform bit_index api variable m)
  unfolding with_size
  with_size-Ends variable m = read-Ends m (at 0 m) _ (λ o a. some-Ends _ m)

  fill_instance-Ends :
      (f : ℕ) (variable : Variable) (m : Machine Object Heap)
      → Ends m (fill_instance platform bit_index api f variable m)
  unfolding fill_instance
  fill_instance-Ends f variable m =
      then_run-Ends m m _ _ (with_class_name-Ends f variable m) (λ v. with_delegate_size-Ends v m)

  fill_by_type-Ends :
      (f : ℕ) (variable : Variable) (m : Machine Object Heap)
      → Ends m (fill_by_type platform bit_index api f variable m)
  unfolding fill_by_type Ends
  fill_by_type-Ends f variable m v m' e = ground (
    arith,
    e,
    fill_instance-Ends f variable m v m',
    with_delegate_size-Ends variable m v m',
    with_size-Ends variable m v m',
  )

  -- An object that is pushed, and its text.
  pub pushed_to_string-Ends : (f : ℕ) → ShowEnds api (to_string platform bit_index api f 0)
  unfolding ShowEnds
  pushed_to_string-Ends f o m named = to_string-Ends f (push o m) (push-NamedAt api o m named)

  pub create_child_variable-Ends :
      (f : ℕ) (variable : Variable) (m : Machine Object Heap)
      → NamedAt api 0 m
      → Ends m (create_child_variable platform bit_index api f variable m)
  unfolding create_child_variable
  create_child_variable-Ends f variable m named = read-Ends m (at 0 m) _ (λ o a.
      read-Ends m (to_variable_type platform bit_index (api.type_of o)) _ (λ t found.
        then_run-Ends m m _ _ (to_string-Ends f m named) (λ text.
          then_run-Ends m m _
            (λ (v : Variable × Machine Object Heap).
              some (record v.0 { editable = is_editable v.0.value_type }, v.1))
            (fill_by_type-Ends f (described platform bit_index api variable o t text) m)
            (λ v. some-Ends (record v { editable = is_editable v.value_type }) m))))

  -- A function that pops a value and its key.
  unfoldable pub ChildEnds : (ℤ → Run Object Heap Variable) → Type 0
  ChildEnds child =
      (i : ℤ) (key value : Object) (m : Machine Object Heap)
      → HasNames api m.heap key
      → HasNames api m.heap value
      → Ends m (child i (push value (push key m)))

  array_child-Ends : (f : ℕ) → ChildEnds (array_child platform bit_index api f)
  unfolding ChildEnds array_child ShowEnds
  array_child-Ends f i key value m key_named value_named =
      then_run-Ends (push value (push key m)) m _ _
        (create_child_variable-Ends f new_variable (push value (push key m))
          (push-NamedAt api value (push key m) value_named))
        (λ v.
          then_run-Ends (push key m) m _ _ (pushed_to_string-Ends f key m key_named)
            (λ k. some-Ends _ m))

  pub table_child-Ends : (f : ℕ) → ChildEnds (table_child platform bit_index api f)
  unfolding ChildEnds table_child ShowEnds
  table_child-Ends f i key value m key_named value_named =
      then_run-Ends (push value (push key m)) m _ _
        (create_child_variable-Ends f (record new_variable { path_iterator = to_uint64 i })
          (push value (push key m)) (push-NamedAt api value (push key m) value_named))
        (λ v. then_run-Ends (push key m) m _ _ (pushed_to_string-Ends f key m key_named) (λ k.
          read-Ends m (to_variable_type platform bit_index (api.type_of key))
            (λ (t : VariableType).
              some (record v { path_ui_string = k; path_table_key_type = t }, m))
            (λ t found. some-Ends (record v { path_ui_string = k; path_table_key_type = t }) m)))

  children_in_order-Ends :
      (child : ℤ → Run Object Heap Variable) (count : ℕ) (m : Machine Object Heap)
      → ChildEnds child
      → NamedBelow api m
      → Ends (pop 1 m) (children_in_order platform bit_index api child count m)
  unfolding children_in_order ChildEnds NamedBelow
  children_in_order-Ends child zero m ends named = some-Ends [] (pop 1 m)
  children_in_order-Ends child (suc count) m ends named =
      read-Ends (pop 1 m) (at 0 m) _ (λ iterator a.
        option-Ends (pop 1 m) (api.integer_value iterator) _ _ (some-Ends [] (pop 1 m)) (λ i found.
          sq_next_named-Ends api m (pop 1 m) _ named (some-Ends [] (pop 1 m))
            (λ iterator' key value key_named value_named.
              let m₁ = push iterator' (pop 1 m) in
              then_run-Ends m₁ (pop 1 m) _ _ (ends i key value m₁ key_named value_named) (λ v.
                then_run-Ends (pop 1 m) (pop 1 m) _ _
                  (children_in_order-Ends child count m₁ ends named)
                  (λ vs. some-Ends _ (pop 1 m))))))

  children_at_keys-Ends :
      (child : ℤ → Run Object Heap Variable) (count : ℕ) (es : List KeyToTableIter)
      (m : Machine Object Heap)
      → ChildEnds child
      → NamedAt api 0 m
      → Ends m (children_at_keys platform bit_index api child count es m)
  unfolding children_at_keys ChildEnds NamedBelow
  children_at_keys-Ends child zero es m ends named = some-Ends [] m
  children_at_keys-Ends child (suc count) [] m ends named = some-Ends [] m
  children_at_keys-Ends child (suc count) (e ∷ es) m ends named =
      sq_next_named-Ends api (push (api.integer_object e.1) m) m _ named (some-Ends [] m)
        (λ iterator key value key_named value_named.
          then_run-Ends (push iterator m) m _ _
            (ends e.1 key value (push iterator m) key_named value_named)
            (λ v.
              then_run-Ends m m _ _ (children_at_keys-Ends child count es m ends named)
                (λ vs. some-Ends _ m)))

  sorted_children-Ends :
      (f begin count : ℕ) (m : Machine Object Heap)
      → NamedAt api 0 m
      → Ends m (sorted_children platform bit_index api f begin count m)
  unfolding sorted_children NamedBelow
  sorted_children-Ends f begin count m named =
      then_run-Ends m m _ _
        (table_keys-Ends api (to_string platform bit_index api f 0) f
          (push (api.integer_object (pos 0)) m) (pushed_to_string-Ends f) named)
        (λ keys. test-Ends m (ltb (length keys) begin) _ _ (none-Ends (List Variable) m) (
          children_at_keys-Ends (table_child platform bit_index api f) count
            (drop begin (sort_keys keys)) m (table_child-Ends f) named))

  table_children-Ends :
      (f begin count : ℕ) (m : Machine Object Heap)
      → NamedAt api 0 m
      → Ends m (table_children platform bit_index api f begin count m)
  unfolding table_children NamedBelow
  table_children-Ends f begin count m named = read-Ends m (at 0 m) _ (λ top a.
      test-Ends m (ltb (api.size m.heap top) max_table_size_to_sort) _ _
        (sorted_children-Ends f begin count m named)
        (children_in_order-Ends (table_child platform bit_index api f) count
          (push (api.integer_object (pos begin)) m) (table_child-Ends f) named))

  -- Where no anonymous function can be reached from the object on top, `CreateChildVariables`, if it
  -- comes back, leaves the stack as it was, for every page.
  pub create_child_variables-Ends :
      (f begin count : ℕ) (m : Machine Object Heap)
      → NamedAt api 0 m
      → Ends m (create_child_variables platform bit_index api f begin count m)
  unfolding create_child_variables NamedBelow Ends
  create_child_variables-Ends f begin count m named vs m' e = ground (
    arith,
    e,
    table_children-Ends f begin count m named vs m',
    children_in_order-Ends (array_child platform bit_index api f) count
        (push (api.integer_object (pos begin)) m) (array_child-Ends f) named vs m',
  )
