-- ===== src/Immediate/Evaluate.antt =====
-- `GetImmediateValue`: the objects of a root's `next` list, and the value of a root.
use squirrel_debug_server.Base.{
  ℕ, zero, suc, ◌-◌, ◌%◌, ℤ, pos, negsuc, true, false, Option, none, some, List, [], ◌∷◌, ◌++◌,
  Text, text_eq, leb, inl, inr, if◌then◌else◌,
}
use squirrel_debug_server.Base.Assoc.{lookup}
use squirrel_debug_server.Data.{
  ReturnCode, error_internal, invalid_parameter, VariableScope, local, global, evaluation,
}
use squirrel_debug_server.Numbers.Digits.{digits_value}
use squirrel_debug_server.Numbers.Read.{skip_space, read_sign}
use squirrel_debug_server.Watch.{node, ExpressionNodeType, number, identifier}
use squirrel_debug_server.Watch.Chars.{is_digit}
use squirrel_debug_server.Watch.Strings.{span}
use squirrel_debug_server.Variables.Machine.{SquirrelApi, Machine, Run, at, push, pop, then_run}
use squirrel_debug_server.Variables.Types.{Platform, msvc, other_compiler}
use squirrel_debug_server.Variables.Walk.{to_int}
use squirrel_debug_server.Variables.Lookup.{Lookup, found, refused, get_object_from_expression}
use squirrel_debug_server.Immediate.{NodeState, Results, Step}
use squirrel_debug_server.Immediate.Nodes.{Pointer, accessors}

-- `LONG_MAX`
abbrev pub long_max : Platform → ℕ
long_max msvc = 2147483647
long_max other_compiler = 9223372036854775807

-- `strtol` in base 10, whose `long` becomes an `int`; `none`: `errno` is `ERANGE`.
unfoldable pub strtol : Platform → Text → Option ℤ
unfolding digits_value span
strtol platform t =
    let (minus, u) = read_sign (skip_space t) in
    let n = digits_value 0 (span is_digit u).0 in
    if leb n (if minus then suc (long_max platform) else long_max platform)
    then some (to_int (if minus then 18446744073709551616 - n else n))
    else none

-- The objects that an earlier part has added come first.
abbrev pub owing :
    {Object Heap A : Type 0}
    → List Object
    → Option (Step Object A × Machine Object Heap)
    → Option (Step Object A × Machine Object Heap)
owing owned none = none
owing owned (some ((s, more), m)) = some ((s, owned ++ more), m)

-- What follows a part that went on.
abbrev pub and_then :
    {Object Heap A B : Type 0}
    → Option (Step Object A × Machine Object Heap)
    → (A → Run Object Heap (Step Object B))
    → Option (Step Object B × Machine Object Heap)
and_then none k = none
and_then (some ((inl rc, owned), m)) k = some ((inl rc, owned), m)
and_then (some ((inr a, owned), m)) k = owing owned (k a m)

abbrev pub done : {Object Heap A : Type 0} → A → Run Object Heap (Step Object A)
done a m = some ((inr a, []), m)

abbrev pub fail : {Object Heap A : Type 0} → ReturnCode → Run Object Heap (Step Object A)
fail rc m = some ((inl rc, []), m)

-- `iteratorPath[0] = nSeq`: the path is not empty.
abbrev pub at_local_index : {Object : Type 0} → ℕ → Lookup Object → Option (Lookup Object)
at_local_index seq (found o []) = none
at_local_index seq (found o (p ∷ ps)) = some (found o (seq % 4294967296 ∷ ps))
at_local_index seq (refused rc) = some (refused rc)

-- The state of a node, from what was found.
unfoldable pub in_scope :
    {Object : Type 0} → VariableScope → Lookup Object → Step Object (NodeState Object)
in_scope scope (refused rc) = (inl rc, [])
in_scope scope (found o ps) =
    (inr (record { iterator_path = ps; resolved_value = o; scope = scope }), [])

-- A literal is the first object of its list, which is never empty.
unfoldable pub evaluate_literal :
    {Object Heap : Type 0} → List Object → Run Object Heap (Step Object (NodeState Object))
evaluate_literal [] m = none
evaluate_literal (o ∷ os) m =
    done (record { iterator_path = []; resolved_value = o; scope = evaluation }) m

module _ {Object Heap : Type 0} (platform : Platform) (api : SquirrelApi Object Heap) (f : ℕ) where
  -- The object of a node without an accessor: the test and the value are those of the root of the
  -- list, whichever of its nodes this is.
  unfoldable pub own_object : Text → ExpressionNodeType → Run Object Heap (Step Object Object)
  unfolding strtol
  own_object value number m = elim (strtol platform value) [
    | none ↦ fail invalid_parameter m
    | some i ↦ done (api.integer_object i) m
  ]
  own_object value _ m =
      let o = api.string_object value in
      some ((inr o, o ∷ []), record m { heap = api.add_ref m.heap o })

  unfoldable pub target_object :
      Text
      → ExpressionNodeType
      → Results Object
      → Option Pointer
      → Run Object Heap (Step Object Object)
  unfolding own_object lookup
  target_object value type results none m = own_object value type m
  target_object value type results (some p) m = elim (lookup p.0 results) [
    | none ↦ fail error_internal m
    | some state ↦ done state.resolved_value m
  ]

  unfoldable pub sq_nodes :
      Text
      → ExpressionNodeType
      → Results Object
      → List (Option Pointer)
      → Run Object Heap (Step Object (List Object))
  unfolding target_object
  sq_nodes value type results [] m = done [] m
  sq_nodes value type results (p ∷ ps) m =
      and_then (target_object value type results p m)
        (λ o m₁. and_then (sq_nodes value type results ps m₁) (λ os m₂. done (o ∷ os) m₂))

  -- With the temporary table on top, into which the local goes under its name.
  unfoldable pub in_temporary_table : Text → Object → List Object → Run Object Heap (Lookup Object)
  unfolding get_object_from_expression
  in_temporary_table name o keys m = then_run (at 0 m) (λ (temporary : Object).
      get_object_from_expression api f keys
        (record m { heap = api.raw_set m.heap temporary (api.string_object name) o }))

  -- The loop over the locals of the frame. Squirrel numbers them without a gap; `none` is no local of
  -- that name.
  unfoldable pub find_local_value :
      ℕ → Text → List Object → ℕ → ℕ → Run Object Heap (Option (Lookup Object))
  unfolding in_temporary_table
  find_local_value zero value keys frame seq m = none
  find_local_value (suc g) value keys frame seq m = elim (api.local m.heap frame seq) [
    | none ↦ some (none, m)
    | some (name, o) ↦ elim (text_eq name value) [
      | false ↦ find_local_value g value keys frame (suc seq) m
      | true ↦
          then_run (in_temporary_table name o keys m) (λ (r : Lookup Object × Machine Object Heap).
            then_run (at_local_index seq r.0) (λ (l : Lookup Object). some (some l, r.1)))
    ]
  ]

  unfoldable pub local_value : Text → List Object → ℤ → Run Object Heap (Option (Lookup Object))
  unfolding find_local_value
  local_value value keys (negsuc n) m = some (none, m)
  local_value value keys (pos frame) m =
      let (temporary, heap) = api.new_table m.heap in
      then_run (find_local_value f value keys frame 0 (push temporary (record m { heap = heap })))
        (λ (r : Option (Lookup Object) × Machine Object Heap). some (r.0, pop 1 r.1))

  unfoldable pub global_value : List Object → Run Object Heap (Lookup Object)
  unfolding get_object_from_expression
  global_value keys m =
      then_run (get_object_from_expression api f keys (push (api.root_table m.heap) m))
        (λ (r : Lookup Object × Machine Object Heap). some (r.0, pop 1 r.1))

  unfoldable pub evaluate_identifier :
      ℤ → Text → List Object → Run Object Heap (Step Object (NodeState Object))
  unfolding local_value global_value in_scope
  evaluate_identifier frame value keys m =
      then_run (local_value value keys frame m)
        (λ (r : Option (Lookup Object) × Machine Object Heap). elim r.0 [
          | some l ↦ some (in_scope local l, r.1)
          | none ↦
              then_run (global_value keys r.1)
                (λ (l : Lookup Object × Machine Object Heap). some (in_scope global l.0, l.1))
        ])

  unfoldable pub evaluate_keys :
      ℤ → Text → ExpressionNodeType → List Object → Run Object Heap (Step Object (NodeState Object))
  unfolding evaluate_identifier evaluate_literal
  evaluate_keys frame value identifier keys m = evaluate_identifier frame value keys m
  evaluate_keys frame value _ keys m = evaluate_literal keys m

  -- A root with the number `n`, once the results of its accessors are there.
  unfoldable pub evaluate_node :
      ℤ → Pointer → Results Object → Run Object Heap (Step Object (NodeState Object))
  unfolding sq_nodes evaluate_keys accessors
  evaluate_node frame (n, node value a type nodes) results m =
      and_then (sq_nodes value type results (accessors (suc n) (node value a type nodes)) m)
        (λ keys m₁. evaluate_keys frame value type keys m₁)
