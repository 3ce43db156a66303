-- ===== src/Variables/Setting.antt =====
-- `SetStackVariableValue` on an entry of a table, and on an element of an array.
use squirrel_debug_server.Base.{ℕ, ◌≡◌, false, none, some, List, [], ◌∷◌, Text, arith}
use squirrel_debug_server.Data.{success, error_internal, Variable, VariableType, array, table}
use squirrel_debug_server.Variables.Machine.{SquirrelApi, Machine}
use squirrel_debug_server.Variables.Types.{Platform}
use squirrel_debug_server.Variables.Path.{path_parts, path_parts-empty}
use squirrel_debug_server.Variables.Walk.{
  to_int, is_outside, to_sq_integer, at_index, at_iterator, with_variable_at_path,
}
use squirrel_debug_server.Variables.Children.{new_variable, create_child_variable}
use squirrel_debug_server.Variables.Update.{
  parse_as, sq_set, sq_get, update_from_string, read_back, set_value,
}
use squirrel_debug_server.Variables.Frames.{
  at_local, with_stack_variables, set_at, set_stack_variable,
}

module _ {Object Heap : Type 0} (platform : Platform) (bit_index : VariableType → ℕ)
    (api : SquirrelApi Object Heap) (f : ℕ) where
  -- The local number `p` of the frame is the table `o`, which has a value at the iterator `q` that
  -- can be replaced by the object `new` of the text; the table is then found to hold `new`, which can
  -- be described by `variable`.
  pub record SetsEntry (m : Machine Object Heap) (stack_frame p q : ℕ) (value : Text)
      (o new : Object) (heap : Heap) (variable : Variable) : Type 0 where
    pub name : Text
    pub iterator : Object
    pub key : Object
    pub old : Object
    pub is_local : api.local m.heap stack_frame p ≡ some (name, o)
    pub is_table : api.type_of o ≡ table
    pub is_entry :
        api.next m.heap o (api.integer_object (to_sq_integer q)) ≡ some (iterator, key, old)
    pub is_parsed : parse_as api (api.type_of old) value ≡ some new
    pub is_set : api.set m.heap o key new ≡ some heap
    pub is_read : api.get heap o key ≡ some new
    pub is_described :
        create_child_variable platform bit_index api f new_variable
          (record { stack = new ∷ key ∷ iterator ∷ o ∷ m.stack; heap = heap })
        ≡ some (variable, record { stack = new ∷ key ∷ iterator ∷ o ∷ m.stack; heap = heap })

  set_value-entry :
      (value : Text) (variable : Variable) (heap₀ heap : Heap) (iterator key old o new : Object)
      (below : List Object)
      → parse_as api (api.type_of old) value ≡ some new
      → api.set heap₀ o key new ≡ some heap
      → api.get heap o key ≡ some new
      → create_child_variable platform bit_index api f new_variable
          (record { stack = new ∷ key ∷ iterator ∷ o ∷ below; heap = heap })
        ≡ some (variable, record { stack = new ∷ key ∷ iterator ∷ o ∷ below; heap = heap })
      → set_value platform bit_index api f value new_variable
          (record { stack = old ∷ key ∷ iterator ∷ o ∷ below; heap = heap₀ })
        ≡ some (
          (success, some variable),
          record { stack = new ∷ key ∷ iterator ∷ o ∷ below; heap = heap },
        )
  unfolding set_value update_from_string sq_set read_back sq_get
  set_value-entry value variable heap₀ heap iterator key old o new below parsed set read described =
      ground (arith, parsed, set, read, described)

  -- `SetStackVariableValue` on an entry of a local table, whose new value is accepted, writes the
  -- parsed value under the entry's key, answers with the value that is read back, and leaves the
  -- stack as it was.
  pub set_stack_variable-entry :
      (path value : Text) (stack_frame p q : ℕ) (o new : Object) (heap : Heap) (variable : Variable)
      (m : Machine Object Heap)
      → path_parts path ≡ some (p ∷ q ∷ [])
      → SetsEntry m stack_frame p q value o new heap variable
      → set_stack_variable platform bit_index api f stack_frame path value m
        ≡ some ((success, some variable), record { stack = m.stack; heap = heap })
  unfolding set_stack_variable with_stack_variables at_local set_at with_variable_at_path
      at_iterator
  set_stack_variable-entry [] value stack_frame p q o new heap variable m parts h =
      ground (arith, parts, path_parts-empty)
  set_stack_variable-entry (c ∷ cs) value stack_frame p q o new heap variable m parts h = ground (
    arith,
    parts,
    h.is_local,
    h.is_table,
    h.is_entry,
    set_value-entry value variable m.heap heap h.iterator h.key h.old o new m.stack h.is_parsed
        h.is_set h.is_read h.is_described,
  )

  -- The local number `p` of the frame is the array `o`, which has an element at `q` for which the
  -- text gives an object; the second object below the array on the API's stack takes no new value
  -- under the array as a key.
  pub record SetsElement (m : Machine Object Heap) (stack_frame p q : ℕ) (value : Text) (o : Object)
      : Type 0 where
    pub name : Text
    pub old : Object
    pub new : Object
    pub first : Object
    pub second : Object
    pub below : List Object
    pub stack_below : m.stack ≡ first ∷ second ∷ below
    pub is_local : api.local m.heap stack_frame p ≡ some (name, o)
    pub is_array : api.type_of o ≡ array
    pub is_inside : is_outside (to_int q) (api.size m.heap o) ≡ false
    pub is_element : api.get m.heap o (api.integer_object (to_int q)) ≡ some old
    pub is_parsed : parse_as api (api.type_of old) value ≡ some new
    pub not_set : api.set m.heap second o new ≡ none

  set_value-element :
      (value : Text) (heap : Heap) (old o new first second : Object) (below : List Object)
      → parse_as api (api.type_of old) value ≡ some new
      → api.set heap second o new ≡ none
      → set_value platform bit_index api f value new_variable
          (record { stack = old ∷ o ∷ first ∷ second ∷ below; heap = heap })
        ≡ some (
          (error_internal, none),
          record { stack = new ∷ o ∷ first ∷ second ∷ below; heap = heap },
        )
  unfolding set_value update_from_string sq_set
  set_value-element value heap old o new first second below parsed refused =
      ground (arith, parsed, refused)

  -- `SetStackVariableValue` on an element of a local array does not look at the array: it tries to
  -- set the second object below it on the stack, with the array as the key. Where this is refused,
  -- the answer is `ErrorInternal` and nothing changes, although the element is there and the text is
  -- a value of its type.
  pub set_stack_variable-element :
      (path value : Text) (stack_frame p q : ℕ) (o : Object) (m : Machine Object Heap)
      → path_parts path ≡ some (p ∷ q ∷ [])
      → SetsElement m stack_frame p q value o
      → set_stack_variable platform bit_index api f stack_frame path value m
        ≡ some ((error_internal, none), m)
  unfolding set_stack_variable with_stack_variables at_local set_at with_variable_at_path at_index
  set_stack_variable-element [] value stack_frame p q o m parts h =
      ground (arith, parts, path_parts-empty)
  set_stack_variable-element (c ∷ cs) value stack_frame p q o m parts h = ground (
    arith,
    parts,
    h.is_local,
    h.is_array,
    h.is_inside,
    h.is_element,
    set_value-element value m.heap h.old o h.new h.first h.second h.below h.is_parsed h.not_set,
    h.stack_below,
  )
