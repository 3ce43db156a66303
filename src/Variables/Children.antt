-- ===== src/Variables/Children.antt =====
-- SquirrelVmHelpers.cpp: `CreateChildVariable` and `CreateChildVariables`. Their return codes are
-- always `Success`, so the results are the variables; `none` is an exception or undefined behaviour.
use squirrel_debug_server.Base.{
  ℕ, zero, suc, ℤ, pos, Bool, true, false, Option, none, some, List, [], ◌∷◌, Text, length, drop,
  ltb, if◌then◌else◌,
}
use squirrel_debug_server.Data.{
  Variable, VariableType, null, bool, integer, float, string, array, table, instance_, user_data,
}
use squirrel_debug_server.Variables.Machine.{SquirrelApi, Machine, Run, at, push, pop, then_run}
use squirrel_debug_server.Variables.Types.{Platform, to_variable_type}
use squirrel_debug_server.Variables.Path.{to_uint64}
use squirrel_debug_server.Variables.ClassNames.{to_class_full_name}
use squirrel_debug_server.Variables.Show.{
  KeyToTableIter, sq_next, table_keys, sort_keys, max_table_size_to_sort, to_string,
}

abbrev pub new_variable : Variable
new_variable = record {
  path_iterator = 0;
  path_ui_string = [];
  path_table_key_type = null;
  value_type = null;
  value = [];
  value_raw_address = 0;
  child_count = 0;
  instance_class_name = [];
  editable = false;
}

abbrev pub is_editable : VariableType → Bool
is_editable bool = true
is_editable float = true
is_editable integer = true
is_editable string = true
is_editable _ = false

module _ {Object Heap : Type 0} (platform : Platform) (bit_index : VariableType → ℕ)
    (api : SquirrelApi Object Heap) where
  -- The size of the delegate. The object is pushed as a table, with the delegate above it, and both
  -- are popped.
  abbrev pub delegate_size : Object → Heap → ℕ
  delegate_size o heap = elim (api.delegate heap o) [ none ↦ 0 | some d ↦ api.size heap d ]

  -- The name of the class of the instance on top.
  unfoldable pub with_class_name : ℕ → Variable → Run Object Heap Variable
  unfolding to_class_full_name
  with_class_name f variable m = then_run (at 0 m) (λ (o : Object). elim (api.class_of m.heap o) [
    | none ↦ some (variable, m)
    | some c ↦ then_run (to_class_full_name api f 0 (push c m)) (λ (r : Text × Machine Object Heap).
        some (record variable { instance_class_name = r.0 }, pop 1 r.1))
  ])

  unfoldable pub with_delegate_size : Variable → Run Object Heap Variable
  with_delegate_size variable m =
      then_run (at 0 m)
        (λ (o : Object). some (record variable { child_count = delegate_size o m.heap }, m))

  unfoldable pub with_size : Variable → Run Object Heap Variable
  with_size variable m =
      then_run (at 0 m)
        (λ (o : Object). some (record variable { child_count = api.size m.heap o }, m))

  -- The case of an instance, which falls through to the next one.
  unfoldable pub fill_instance : ℕ → Variable → Run Object Heap Variable
  unfolding with_class_name with_delegate_size
  fill_instance f variable m =
      then_run (with_class_name f variable m)
        (λ (r : Variable × Machine Object Heap). with_delegate_size r.0 r.1)

  -- The switch on `valueType`.
  unfoldable pub fill_by_type : ℕ → Variable → Run Object Heap Variable
  unfolding fill_instance with_delegate_size with_size
  fill_by_type f variable m = elim variable.value_type [
    | instance_ ↦ fill_instance f variable m
    | user_data ↦ with_delegate_size variable m
    | array ↦ with_size variable m
    | table ↦ with_size variable m
    | _ ↦ some (record variable { child_count = 0 }, m)
  ]

  -- The raw address, the type and the text.
  abbrev pub described : Variable → Object → VariableType → Text → Variable
  described variable o t text = record variable {
    value_raw_address = if api.is_ref_counted (api.type_of o) then api.raw_value o else 0;
    value_type = t;
    value = text;
  }

  unfoldable pub create_child_variable : ℕ → Variable → Run Object Heap Variable
  unfolding to_variable_type to_string fill_by_type
  create_child_variable f variable m = then_run (at 0 m) (λ (o : Object).
      then_run (to_variable_type platform bit_index (api.type_of o)) (λ (t : VariableType).
        then_run (to_string platform bit_index api f 0 m) (λ (r : Text × Machine Object Heap).
          then_run (fill_by_type f (described variable o t r.0) r.1)
            (λ (v : Variable × Machine Object Heap).
              some (record v.0 { editable = is_editable v.0.value_type }, v.1)))))

  -- From the value on top of the key to the child at the iterator `i`; both are popped.
  unfoldable pub array_child : ℕ → ℤ → Run Object Heap Variable
  unfolding create_child_variable
  array_child f i m =
      then_run (create_child_variable f new_variable m) (λ (v : Variable × Machine Object Heap).
        then_run (to_string platform bit_index api f 0 (pop 1 v.1))
          (λ (k : Text × Machine Object Heap).
            some (record v.0 { path_iterator = to_uint64 i; path_ui_string = k.0 }, pop 1 k.1)))

  unfoldable pub table_child : ℕ → ℤ → Run Object Heap Variable
  unfolding create_child_variable
  table_child f i m =
      then_run (create_child_variable f (record new_variable { path_iterator = to_uint64 i }) m)
        (λ (v : Variable × Machine Object Heap).
          then_run (to_string platform bit_index api f 0 (pop 1 v.1))
            (λ (k : Text × Machine Object Heap). then_run (at 0 k.1) (λ (key : Object).
              then_run (to_variable_type platform bit_index (api.type_of key))
                (λ (t : VariableType).
                  some (record v.0 { path_ui_string = k.0; path_table_key_type = t }, pop 1 k.1)))))

  -- At most `count` children in the container's order, from the iterator on top on; it is popped.
  unfoldable pub children_in_order :
      (ℤ → Run Object Heap Variable) → ℕ → Run Object Heap (List Variable)
  unfolding sq_next
  children_in_order child zero m = some ([], pop 1 m)
  children_in_order child (suc count) m = then_run (at 0 m) (λ (iterator : Object).
      elim (api.integer_value iterator) [
        | none ↦ some ([], pop 1 m)
        | some i ↦ then_run (sq_next api m) (λ (o : Option (Machine Object Heap)). elim o [
          | none ↦ some ([], pop 1 m)
          | some m' ↦ then_run (child i m') (λ (v : Variable × Machine Object Heap).
              then_run (children_in_order child count v.1)
                (λ (vs : List Variable × Machine Object Heap). some (v.0 ∷ vs.0, vs.1)))
        ])
      ])

  -- At most `count` children of the table on top, at the iterators of the sorted keys.
  unfoldable pub children_at_keys :
      (ℤ → Run Object Heap Variable) → ℕ → List KeyToTableIter → Run Object Heap (List Variable)
  unfolding sq_next
  children_at_keys child zero es m = some ([], m)
  children_at_keys child (suc count) [] m = some ([], m)
  children_at_keys child (suc count) (e ∷ es) m =
      then_run (sq_next api (push (api.integer_object e.1) m))
        (λ (o : Option (Machine Object Heap)). elim o [
          | none ↦ some ([], m)
          | some m' ↦ then_run (child e.1 m') (λ (v : Variable × Machine Object Heap).
              then_run (children_at_keys child count es (pop 1 v.1))
                (λ (vs : List Variable × Machine Object Heap). some (v.0 ∷ vs.0, vs.1)))
        ])

  -- `begin() + beginIterator` may not go past the end.
  unfoldable pub sorted_children : ℕ → ℕ → ℕ → Run Object Heap (List Variable)
  unfolding table_keys sort_keys children_at_keys table_child to_string
  sorted_children f begin count m =
      then_run
        (table_keys api (to_string platform bit_index api f 0) f
          (push (api.integer_object (pos 0)) m))
        (λ (keys : List KeyToTableIter × Machine Object Heap). elim (ltb (length keys.0) begin) [
          | true ↦ none
          | false ↦ children_at_keys (table_child f) count (drop begin (sort_keys keys.0)) keys.1
        ])

  unfoldable pub table_children : ℕ → ℕ → ℕ → Run Object Heap (List Variable)
  unfolding sorted_children children_in_order table_child
  table_children f begin count m = then_run (at 0 m) (λ (top : Object).
      elim (ltb (api.size m.heap top) max_table_size_to_sort) [
        | true ↦ sorted_children f begin count m
        | false ↦ children_in_order (table_child f) count (push (api.integer_object (pos begin)) m)
      ])

  -- With the pagination's `beginIterator` and `count`.
  unfoldable pub create_child_variables : ℕ → ℕ → ℕ → Run Object Heap (List Variable)
  unfolding table_children children_in_order array_child
  create_child_variables f begin count m = then_run (at 0 m) (λ (top : Object).
      elim (api.type_of top) [
        | array ↦ children_in_order (array_child f) count (push (api.integer_object (pos begin)) m)
        | instance_ ↦ table_children f begin count m
        | table ↦ table_children f begin count m
        | _ ↦ some ([], m)
      ])
