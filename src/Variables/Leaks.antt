-- ===== src/Variables/Leaks.antt =====
-- `ToString` on an anonymous function, whose name is `null`, and on a table that holds itself.
use squirrel_debug_server.Base.{
  ℕ, zero, suc, ◌≡◌, ◌<◌, ◌⊎◌, subst, ltb, refl, ℤ, pos, true, false, none, some, List, [], ◌∷◌,
  Text, arith, Option-cases, inl, inr,
}
use squirrel_debug_server.Data.{Variable, VariableType, null, closure, table, string}
use squirrel_debug_server.Variables.Machine.{SquirrelApi, Run}
use squirrel_debug_server.Variables.Types.{Platform, to_variable_type}
use squirrel_debug_server.Variables.Path.{to_uint64}
use squirrel_debug_server.Variables.Show.{
  closure_name_text, closure_text, to_string, create_table_summary, table_keys, sorted_fields,
  sort_keys, insert_sorted, write_field, sq_next, max_table_size_to_sort, or_empty,
}
use squirrel_debug_server.Variables.Children.{
  new_variable, described, create_child_variable, fill_by_type, table_child,
}

module _ {Object Heap : Type 0} (platform : Platform) (bit_index : VariableType → ℕ)
    (api : SquirrelApi Object Heap) where
  -- A closure whose name is `null`, which is neither a string nor a closure.
  pub record IsAnonymous (heap : Heap) (o name : Object) : Type 0 where
    pub is_closure : api.type_of o ≡ closure
    pub name_pushed : api.closure_name heap o ≡ some name
    pub name_is_null : api.type_of name ≡ null
    pub name_no_string : api.string_value name ≡ none
    pub name_no_closure : api.closure_info heap name ≡ none

  to_string-anonymous :
      (f : ℕ) (heap : Heap) (o name : Object) (below : List Object)
      → IsAnonymous heap o name
      → to_string platform bit_index api (suc f) 0 (record { stack = o ∷ below; heap = heap })
        ≡ some ([], record { stack = name ∷ o ∷ below; heap = heap })
  unfolding to_string closure_text closure_name_text
  to_string-anonymous f heap o name below h =
      ground (arith, h.is_closure, h.name_pushed, h.name_no_string, h.name_no_closure)

  abbrev anonymous_variable : Variable → Object → Variable
  anonymous_variable variable o = record (described platform bit_index api variable o closure []) {
    child_count = 0;
    editable = false;
  }

  create_child_variable-anonymous :
      (f : ℕ) (variable : Variable) (heap : Heap) (o name : Object) (below : List Object)
      → IsAnonymous heap o name
      → ((t : VariableType) → to_variable_type platform bit_index t ≡ some t)
      → create_child_variable platform bit_index api
          (suc f)
          variable
          (record { stack = o ∷ below; heap = heap })
        ≡ some (anonymous_variable variable o, record { stack = name ∷ o ∷ below; heap = heap })
  unfolding create_child_variable fill_by_type
  create_child_variable-anonymous f variable heap o name below h types =
      let typed =
        subst (λ (x : VariableType). to_variable_type platform bit_index (api.type_of o) ≡ some x)
          h.is_closure (types (api.type_of o)) in
      rw (to_string-anonymous f heap o name below h, typed) refl

  -- Where types are reported as themselves, the child of a table that is an anonymous function is
  -- listed without a name and with a key of type null, and its value and key stay on the stack.
  pub table_child-anonymous :
      (f : ℕ) (i : ℤ) (heap : Heap) (o name key : Object) (below : List Object)
      → IsAnonymous heap o name
      → ((t : VariableType) → to_variable_type platform bit_index t ≡ some t)
      → (v : Variable) × (table_child platform bit_index api
            (suc f)
            i
            (record { stack = o ∷ key ∷ below; heap = heap })
          ≡ some (v, record { stack = o ∷ key ∷ below; heap = heap }))
        × (v.path_ui_string ≡ [])
        × (v.path_table_key_type ≡ null)
  unfolding table_child
  table_child-anonymous f i heap o name key below h types =
      let variable = record new_variable { path_iterator = to_uint64 i } in
      (
        record (anonymous_variable variable o) { path_ui_string = []; path_table_key_type = null },
        rw (create_child_variable-anonymous f variable heap o name (key ∷ below) h types) (
            rw (to_string-anonymous f heap o name (key ∷ below) h)
              (rw (h.name_is_null) (rw (types null) refl))),
        refl,
        refl,
      )

  -- A table with one entry, whose key is a string and whose value is the table.
  pub record HoldsItself (heap : Heap) (o key end : Object) : Type 0 where
    pub is_table : api.type_of o ≡ table
    pub is_small : api.size heap o < max_table_size_to_sort
    pub first : api.next heap o (api.integer_object (pos 0)) ≡ some (end, key, o)
    pub last : api.next heap o end ≡ none
    pub zero_read : api.integer_value (api.integer_object (pos 0)) ≡ some (pos 0)
    pub key_is_string : api.type_of key ≡ string

  lt→ltb : (a b : ℕ) → a < b → ltb a b ≡ true
  lt→ltb a b h = ground arith

  to_string-key :
      (f : ℕ) (heap : Heap) (key : Object) (below : List Object)
      → api.type_of key ≡ string
      → to_string platform bit_index api (suc f) 0 (record { stack = key ∷ below; heap = heap })
        ≡ some (or_empty (api.string_value key), record { stack = key ∷ below; heap = heap })
  unfolding to_string
  to_string-key f heap key below e = rw e refl

  table_keys-one :
      (show : Run Object Heap Text) (g : ℕ) (text : Text) (heap : Heap) (o key end : Object)
      (below : List Object)
      → HoldsItself heap o key end
      → show (record { stack = key ∷ end ∷ o ∷ below; heap = heap })
        ≡ some (text, record { stack = key ∷ end ∷ o ∷ below; heap = heap })
      → (table_keys api show g
            (record { stack = api.integer_object (pos 0) ∷ o ∷ below; heap = heap })
          ≡ none)
        ⊎ (table_keys api show g
              (record { stack = api.integer_object (pos 0) ∷ o ∷ below; heap = heap })
            ≡ some ((text, pos 0) ∷ [], record { stack = o ∷ below; heap = heap }))
  unfolding table_keys sq_next
  table_keys-one show zero text heap o key end below h shown = inl refl
  table_keys-one show (suc zero) text heap o key end below h shown =
      inl (rw (h.zero_read, h.first, shown) refl)
  table_keys-one show (suc (suc g)) text heap o key end below h shown =
      elim (Option-cases (api.integer_value end)) [
        | inl none_read ↦ inr (rw (h.zero_read, h.first, shown, none_read) refl)
        | inr (i, read) ↦ inr (rw (h.zero_read, h.first, shown, read, h.last) refl)
      ]

  sorted_fields-one :
      (show : Run Object Heap Text) (text : Text) (heap : Heap) (o key end : Object)
      (below : List Object)
      → HoldsItself heap o key end
      → show (record { stack = o ∷ key ∷ end ∷ o ∷ below; heap = heap }) ≡ none
      → sorted_fields api show
          (sort_keys ((text, pos 0) ∷ []))
          []
          (record { stack = o ∷ below; heap = heap })
        ≡ none
  unfolding sorted_fields write_field sq_next sort_keys insert_sorted
  sorted_fields-one show text heap o key end below h shown = rw (h.first, shown) refl

  create_table_summary-one :
      (show : Run Object Heap Text) (f : ℕ) (text : Text) (heap : Heap) (o key end : Object)
      (below : List Object)
      → HoldsItself heap o key end
      → show (record { stack = key ∷ end ∷ o ∷ below; heap = heap })
        ≡ some (text, record { stack = key ∷ end ∷ o ∷ below; heap = heap })
      → show (record { stack = o ∷ key ∷ end ∷ o ∷ below; heap = heap }) ≡ none
      → create_table_summary api show f (record { stack = o ∷ below; heap = heap }) ≡ none
  unfolding create_table_summary
  create_table_summary-one show f text heap o key end below h shown_key shown_table =
      let small = lt→ltb (api.size heap o) max_table_size_to_sort h.is_small in
      elim (table_keys-one show f text heap o key end below h shown_key) [
        | inl stops ↦ rw (small, stops) refl
        | inr keys ↦
            rw (small, keys, sorted_fields-one show text heap o key end below h shown_table) refl
      ]

  -- A table with one entry, which is the table itself under a string, has no text: `ToString` calls
  -- itself without end, however deep the recursion may go.
  pub to_string-HoldsItself :
      (f : ℕ) (heap : Heap) (o key end : Object) (below : List Object)
      → HoldsItself heap o key end
      → to_string platform bit_index api f 0 (record { stack = o ∷ below; heap = heap }) ≡ none
  unfolding to_string create_table_summary table_keys
  to_string-HoldsItself zero heap o key end below h = refl
  to_string-HoldsItself (suc zero) heap o key end below h =
      rw (h.is_table)
        (rw (create_table_summary, lt→ltb (api.size heap o) max_table_size_to_sort h.is_small) refl)
  to_string-HoldsItself (suc (suc f)) heap o key end below h = rw (h.is_table) (
      create_table_summary-one (to_string platform bit_index api (suc f) 0) (suc f)
        (or_empty (api.string_value key)) heap o key end below h
        (to_string-key f heap key (end ∷ o ∷ below) h.key_is_string)
        (to_string-HoldsItself (suc f) heap o key end (key ∷ end ∷ o ∷ below) h))
