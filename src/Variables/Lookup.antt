-- ===== src/Variables/Lookup.antt =====
-- SquirrelVmHelpers.cpp: `GetObjectFromExpression`. The list of `SqExpressionNode` is that of their
-- objects, and the null pointer is its end.
use squirrel_debug_server.Base.{
  ℕ, zero, suc, ◌-◌, ◌%◌, ℤ, pos, negsuc, Bool, true, false, Option, none, some, List, [], ◌∷◌,
  ◌==◌,
}
use squirrel_debug_server.Data.{
  ReturnCode, invalid_parameter, error_internal, VariableType, integer, float, array, table,
  instance_,
}
use squirrel_debug_server.Variables.Machine.{SquirrelApi, Machine, Run, at, push, pop, then_run}

-- `Success` with the found object and the iterators that were added to the path, or another code,
-- on which no caller looks at either.
pub data Lookup (Object : Type 0) : Type 0 where
  found : Object → List ℕ → Lookup Object
  refused : ReturnCode → Lookup Object

abbrev pub along : {Object : Type 0} → ℕ → Lookup Object → Lookup Object
along p (found o ps) = found o (p ∷ ps)
along p (refused rc) = refused rc

-- `static_cast<uint32_t>` of a `SQInteger`.
abbrev pub wrap_uint32 : ℤ → ℕ
wrap_uint32 (pos n) = n % 4294967296
wrap_uint32 (negsuc n) = 4294967295 - n % 4294967296

-- `sq_isnumeric`
abbrev pub is_numeric : VariableType → Bool
is_numeric integer = true
is_numeric float = true
is_numeric _ = false

module _ {Object Heap : Type 0} (api : SquirrelApi Object Heap) where
  -- The rest of the expression, looked up in the value on top; `n` objects are popped behind it.
  abbrev pub onward :
      ℕ
      → ℕ
      → Option (Lookup Object × Machine Object Heap)
      → Option (Lookup Object × Machine Object Heap)
  onward n p o =
      then_run o (λ (r : Lookup Object × Machine Object Heap). some (along p r.0, pop n r.1))

  -- `rest` looks the rest of the expression up.
  unfoldable pub in_array :
      Object → Object → Run Object Heap (Lookup Object) → Run Object Heap (Lookup Object)
  in_array top key rest m = elim (is_numeric (api.type_of key)) [
    | false ↦ some (refused invalid_parameter, m)
    | true ↦ then_run (api.integer_value key) (λ (i : ℤ). elim (api.get m.heap top key) [
      | none ↦ some (refused invalid_parameter, m)
      | some value ↦ onward 1 (wrap_uint32 i) (rest (push value m))
    ])
  ]

  -- The loop over the keys, with the iterator and the value that `sq_get` found on the container. The
  -- keys are compared by the raw value of their objects.
  unfoldable pub find_key :
      ℕ → Object → Run Object Heap (Lookup Object) → Run Object Heap (Lookup Object)
  find_key zero key rest m = none
  find_key (suc f) key rest m = then_run (at 0 m) (λ (iterator : Object).
      elim (api.integer_value iterator) [
        | none ↦ some (refused invalid_parameter, pop 2 m)
        | some i ↦ then_run (at 2 m) (λ (container : Object).
            elim (api.next m.heap container iterator) [
              | none ↦ some (refused invalid_parameter, pop 2 m)
              | some (iterator', key', value) ↦ elim (api.raw_value key' == api.raw_value key) [
                | true ↦
                    onward 4 (wrap_uint32 i)
                      (rest (push value (push key' (push iterator' (pop 1 m)))))
                | false ↦ find_key f key rest (push iterator' (pop 1 m))
              ]
            ])
      ])

  unfoldable pub in_table :
      ℕ → Object → Object → Run Object Heap (Lookup Object) → Run Object Heap (Lookup Object)
  unfolding find_key
  in_table f top key rest m = elim (api.get m.heap top key) [
    | none ↦ some (refused invalid_parameter, m)
    | some value ↦ find_key f key rest (push (api.integer_object (pos 0)) (push value m))
  ]

  unfoldable pub get_object_from_expression : ℕ → List Object → Run Object Heap (Lookup Object)
  unfolding in_array in_table
  get_object_from_expression f [] m = elim (at 0 m) [
    | none ↦ some (refused error_internal, m)
    | some o ↦ some (found o [], m)
  ]
  get_object_from_expression f (key ∷ keys) m =
      let rest = get_object_from_expression f keys in
      then_run (at 0 m) (λ (top : Object). elim (api.type_of top) [
        | array ↦ in_array top key rest m
        | table ↦ in_table f top key rest m
        | instance_ ↦ in_table f top key rest m
        | _ ↦ some (refused invalid_parameter, m)
      ])
