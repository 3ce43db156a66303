-- ===== src/Variables/Walk.antt =====
-- SquirrelVmHelpers.cpp: `WithVariableAtPath`.
use squirrel_debug_server.Base.{
  ℕ, ◌-◌, ◌%◌, ℤ, pos, negsuc, Bool, true, false, Option, none, some, List, [], ◌∷◌, ltb,
  if◌then◌else◌,
}
use squirrel_debug_server.Data.{ReturnCode, invalid_parameter, array, table, instance_}
use squirrel_debug_server.Variables.Machine.{SquirrelApi, Machine, Run, push, pop, then_run}

-- `static_cast<int>` of a `uint64_t`.
abbrev pub to_int : ℕ → ℤ
to_int n =
    let low = n % 4294967296 in if ltb low 2147483648 then pos low else negsuc (4294967295 - low)

-- `arrIndex >= arrSize`
abbrev pub is_outside : ℤ → ℕ → Bool
is_outside (pos n) size = if ltb n size then false else true
is_outside (negsuc n) size = false

-- `uint64_t` as `SQInteger`.
abbrev pub to_sq_integer : ℕ → ℤ
to_sq_integer n = if ltb n 9223372036854775808 then pos n else negsuc (18446744073709551615 - n)

-- `A` is what the function at the end of the path answers: a return code, with what it writes to
-- the variables that it captures; `refuse` makes one of a return code alone.
module _ {Object Heap A : Type 0} (api : SquirrelApi Object Heap) (refuse : ReturnCode → A) where
  abbrev pub popping : ℕ → Option (A × Machine Object Heap) → Option (A × Machine Object Heap)
  popping n o = then_run o (λ (r : A × Machine Object Heap). some (r.0, pop n r.1))

  -- The case of an array, `rest` being the walk along the rest of the path.
  unfoldable pub at_index : ℕ → Object → Run Object Heap A → Run Object Heap A
  at_index p top rest m = elim (is_outside (to_int p) (api.size m.heap top)) [
    | true ↦ some (refuse invalid_parameter, m)
    | false ↦ elim (api.get m.heap top (api.integer_object (to_int p))) [
      | none ↦ some (refuse invalid_parameter, m)
      | some value ↦ popping 1 (rest (push value m))
    ]
  ]

  -- The case of a table or an instance.
  unfoldable pub at_iterator : ℕ → Object → Run Object Heap A → Run Object Heap A
  at_iterator p top rest m = elim (api.next m.heap top (api.integer_object (to_sq_integer p))) [
    | none ↦ some (refuse invalid_parameter, m)
    | some (iterator, key, value) ↦ popping 3 (rest (push value (push key (push iterator m))))
  ]

  unfoldable pub with_variable_at_path : List ℕ → Run Object Heap A → Run Object Heap A
  unfolding at_index at_iterator
  with_variable_at_path [] fn m = fn m
  with_variable_at_path (p ∷ ps) fn m =
      let rest = with_variable_at_path ps fn in
      elim m.stack [
        | [] ↦ none
        | top ∷ below ↦ elim (api.type_of top) [
          | array ↦ at_index p top rest m
          | table ↦ at_iterator p top rest m
          | instance_ ↦ at_iterator p top rest m
          | _ ↦ some (refuse invalid_parameter, m)
        ]
      ]
