-- ===== src/Variables/Update.antt =====
-- SquirrelVmHelpers.cpp: `UpdateFromString`, and the function by which `SetStackVariableValue`
-- (SquirrelDebugger.cpp) calls it on what it finds at the end of a path.
use squirrel_debug_server.Base.{
  ℕ, ℤ, Bool, true, false, ◌||◌, Option, none, some, Text, codes, text_eq,
}
use squirrel_debug_server.Data.{
  ReturnCode, success, invalid, invalid_parameter, error_internal, Variable, VariableType, bool,
  integer, float, string,
}
use squirrel_debug_server.Numbers.Read.{stoi}
use squirrel_debug_server.Variables.Machine.{SquirrelApi, Machine, Run, at, push, pop, then_run}
use squirrel_debug_server.Variables.Types.{Platform}
use squirrel_debug_server.Variables.Children.{create_child_variable}

-- The text of a Boolean: `true` and `1` are true, all else is false.
abbrev pub is_true : Text → Bool
is_true value = text_eq value (codes "true") || text_eq value (codes "1")

module _ {Object Heap : Type 0} (api : SquirrelApi Object Heap) where
  -- `stoi` and its integer.
  abbrev parsed_integer : Option ℤ → Option Object
  parsed_integer none = none
  parsed_integer (some i) = some (api.integer_object i)

  -- The new value that a text gives for an object of the type.
  unfoldable pub parse_as : VariableType → Text → Option Object
  unfolding stoi
  parse_as bool value = some (api.bool_object (is_true value))
  parse_as integer value = parsed_integer (stoi value)
  parse_as float value = api.parse_float value
  parse_as string value = some (api.string_object value)
  parse_as _ value = none

  -- `sq_set` of the container at index -(k + 1), with the value on top of the key. On success both
  -- are popped.
  unfoldable pub sq_set : ℕ → Run Object Heap Bool
  sq_set k m = then_run (at k m) (λ (container : Object). then_run (at 1 m) (λ (key : Object).
      then_run (at 0 m) (λ (value : Object). elim (api.set m.heap container key value) [
        | none ↦ some (false, m)
        | some heap ↦ some (true, record (pop 2 m) { heap = heap })
      ])))

  abbrev set_code : Bool → ReturnCode
  set_code true = success
  set_code false = error_internal

  unfoldable pub update_from_string : ℕ → Text → Run Object Heap ReturnCode
  unfolding parse_as sq_set
  update_from_string k value m = then_run (at 0 m) (λ (old : Object).
      elim (parse_as (api.type_of old) value) [
        | none ↦ some (invalid_parameter, m)
        | some new ↦
            then_run (sq_set k (push new (pop 1 m)))
              (λ (r : Bool × Machine Object Heap). some (set_code r.0, r.1))
      ])

  -- `sq_get` of the container at index -(k + 1); the key on top is replaced by the value, or popped.
  unfoldable pub sq_get : ℕ → Run Object Heap Bool
  sq_get k m = then_run (at k m) (λ (container : Object). then_run (at 0 m) (λ (key : Object).
      elim (api.get m.heap container key) [
        | none ↦ some (false, pop 1 m)
        | some value ↦ some (true, push value (pop 1 m))
      ]))

module _ {Object Heap : Type 0} (platform : Platform) (bit_index : VariableType → ℕ)
    (api : SquirrelApi Object Heap) where
  -- The result with the variable that is read back, if there is one.
  abbrev pub SetResult : Type 0
  SetResult = ReturnCode × Option Variable

  -- What follows a successful update: the key is pushed twice, and the new value is read.
  unfoldable pub read_back : ℕ → Variable → Object → Run Object Heap SetResult
  unfolding sq_get create_child_variable
  read_back f variable key m =
      then_run (sq_get api 3 (push key (push key m))) (λ (r : Bool × Machine Object Heap).
        elim r.0 [
          | false ↦ some ((invalid, none), r.1)
          | true ↦
              then_run (create_child_variable platform bit_index api f variable r.1)
                (λ (v : Variable × Machine Object Heap). some ((success, some v.0), v.1))
        ])

  -- Expects the container, the iterator, the key and the value, this on top.
  unfoldable pub set_value : ℕ → Text → Variable → Run Object Heap SetResult
  unfolding update_from_string read_back
  set_value f value variable m = then_run (at 1 m) (λ (key : Object).
      then_run (update_from_string api 3 value m) (λ (r : ReturnCode × Machine Object Heap).
        elim r.0 [ success ↦ read_back f variable key r.1 | rc ↦ some ((rc, none), r.1) ]))
