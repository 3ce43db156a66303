-- ===== src/Immediate/Leaves.antt =====
-- The parts of an evaluation leave the stack as it was, and say which references they have added.
use squirrel_debug_server.Base.{
  ℕ, zero, suc, refl, ◌∙◌, ℤ, pos, negsuc, Text, text_eq, Option, none, some, List, [], ◌∷◌, inl,
  inr, arith,
}
use squirrel_debug_server.Base.Assoc.{lookup, insert}
use squirrel_debug_server.Data.{error_internal, invalid_parameter, local, global, VariableScope}
use squirrel_debug_server.Watch.{node, ExpressionNodeType, undefined, string, number, identifier}
use squirrel_debug_server.Variables.Machine.{SquirrelApi, Machine, at, push, then_run}
use squirrel_debug_server.Variables.Types.{Platform}
use squirrel_debug_server.Variables.Lookup.{Lookup, found, refused, get_object_from_expression}
use squirrel_debug_server.Variables.LookupEnds.{get_object-Ends}
use squirrel_debug_server.Immediate.{NodeState, Results}
use squirrel_debug_server.Immediate.Nodes.{Pointer, accessors, unresolved, push_all}
use squirrel_debug_server.Immediate.Evaluate.{
  done, fail, own_object, target_object, sq_nodes, strtol, at_local_index, in_temporary_table,
  find_local_value, local_value, global_value, in_scope, evaluate_identifier, evaluate_literal,
  evaluate_keys, evaluate_node,
}
use squirrel_debug_server.Immediate.Loop.{evaluate_loop}
use squirrel_debug_server.Immediate.Stays.{
  CountsReferences, Left, Left-refl, Left-Stays, pop-Stays, after-Stays, Stays, Ends-Stays,
  some-Stays, none-Stays, then_run-Stays, read-Stays, option-Stays, test-Stays,
}
use squirrel_debug_server.Immediate.Keeps.{
  owed, either-Keeps, Keeps, some-Keeps, none-Keeps, done-Keeps, and_then-Keeps, then_run-Keeps,
}

module _ {Object Heap : Type 0} (platform : Platform) (api : SquirrelApi Object Heap) (f : ℕ)
    (references : Heap → Object → ℕ) (same : Object → Object → ℕ)
    (counts : CountsReferences api references same) where
  in_temporary_table-Stays :
      (name : Text) (o : Object) (keys : List Object) (m : Machine Object Heap)
      → Stays references same m (in_temporary_table platform api f name o keys m)
  unfolding in_temporary_table
  in_temporary_table-Stays name o keys m = read-Stays references same m (at 0 m) _ (λ t.
      let m₁ = record m { heap = api.raw_set m.heap t (api.string_object name) o } in
      Ends-Stays references same m m₁ (get_object_from_expression api f keys m₁)
        (record {
          stack = refl;
          held = λ x. counts.set_kept m.heap t (api.string_object name) o x ∙ omega arith;
        })
        (get_object-Ends api f keys m₁))

  find_local_value-Stays :
      (g : ℕ) (value : Text) (keys : List Object) (frame seq : ℕ) (m : Machine Object Heap)
      → Stays references same m (find_local_value platform api f g value keys frame seq m)
  unfolding find_local_value
  find_local_value-Stays zero value keys frame seq m =
      none-Stays references same (Option (Lookup Object)) m
  find_local_value-Stays (suc g) value keys frame seq m =
      option-Stays references same m (api.local m.heap frame seq) _ _
        (some-Stays references same none m)
        (λ l.
          test-Stays references same m (text_eq l.0 value) _ _
            (then_run-Stays references same m (in_temporary_table platform api f l.0 l.1 keys m) _
              (in_temporary_table-Stays l.0 l.1 keys m)
              (λ r m₁ left.
                read-Stays references same m (at_local_index seq r) _
                  (λ found. Left-Stays references same (some found) m m₁ left)))
            (find_local_value-Stays g value keys frame (suc seq) m))

  local_value-Stays :
      (value : Text) (keys : List Object) (frame : ℤ) (m : Machine Object Heap)
      → Stays references same m (local_value platform api f value keys frame m)
  unfolding local_value
  local_value-Stays value keys (negsuc n) m = some-Stays references same none m
  local_value-Stays value keys (pos frame) m =
      let temporary = api.new_table m.heap in
      pop-Stays references same temporary.0 temporary.1 m _ (λ x. counts.new_kept m.heap x)
        (find_local_value-Stays f value keys frame 0
          (record { stack = temporary.0 ∷ m.stack; heap = temporary.1 }))

  global_value-Stays :
      (keys : List Object) (m : Machine Object Heap)
      → Stays references same m (global_value platform api f keys m)
  unfolding global_value
  global_value-Stays keys m =
      let m₁ = push (api.root_table m.heap) m in
      pop-Stays references same (api.root_table m.heap) m.heap m _ (λ x. refl)
        (Ends-Stays references same m₁ m₁ (get_object_from_expression api f keys m₁)
          (Left-refl references same m₁) (get_object-Ends api f keys m₁))

  in_scope-Keeps :
      (scope : VariableScope) (l : Lookup Object) (m m₁ : Machine Object Heap)
      → Left references same m m₁ (λ x. 0)
      → Keeps references same m (some (in_scope scope l, m₁))
  unfolding in_scope
  in_scope-Keeps scope (refused rc) m m₁ left = done-Keeps references same (inl rc) m m₁ left
  in_scope-Keeps scope (found o ps) m m₁ left = done-Keeps references same (inr _) m m₁ left

  scoped-Keeps :
      (l : Option (Lookup Object)) (keys : List Object) (m m₁ : Machine Object Heap)
      → Left references same m m₁ (λ x. 0)
      → Keeps references same m (elim l [
        | some l ↦ some (in_scope local l, m₁)
        | none ↦
            then_run
              (global_value platform api f keys m₁)
              (λ (l : Lookup Object × Machine Object Heap). some (in_scope global l.0, l.1))
      ])
  scoped-Keeps (some l) keys m m₁ left = in_scope-Keeps local l m m₁ left
  scoped-Keeps none keys m m₁ left =
      then_run-Keeps references same m (global_value platform api f keys m₁) _
        (after-Stays references same m m₁ _ left (global_value-Stays keys m₁))
        (λ l m₂ left'. in_scope-Keeps global l m m₂ left')

  evaluate_literal-Keeps :
      (keys : List Object) (m : Machine Object Heap)
      → Keeps references same m (evaluate_literal keys m)
  unfolding evaluate_literal
  evaluate_literal-Keeps [] m = none-Keeps references same (NodeState Object) m
  evaluate_literal-Keeps (o ∷ os) m =
      done-Keeps references same (inr _) m m (Left-refl references same m)

  evaluate_identifier-Keeps :
      (frame : ℤ) (value : Text) (keys : List Object) (m : Machine Object Heap)
      → Keeps references same m (evaluate_identifier platform api f frame value keys m)
  unfolding evaluate_identifier
  evaluate_identifier-Keeps frame value keys m =
      then_run-Keeps references same m (local_value platform api f value keys frame m) _
        (local_value-Stays value keys frame m) (λ l m₁ left. scoped-Keeps l keys m m₁ left)

  evaluate_keys-Keeps :
      (frame : ℤ) (value : Text) (type : ExpressionNodeType) (keys : List Object)
      (m : Machine Object Heap)
      → Keeps references same m (evaluate_keys platform api f frame value type keys m)
  unfolding evaluate_keys
  evaluate_keys-Keeps frame value identifier keys m = evaluate_identifier-Keeps frame value keys m
  evaluate_keys-Keeps frame value undefined keys m = evaluate_literal-Keeps keys m
  evaluate_keys-Keeps frame value string keys m = evaluate_literal-Keeps keys m
  evaluate_keys-Keeps frame value number keys m = evaluate_literal-Keeps keys m

  string-Keeps :
      (value : Text) (m : Machine Object Heap)
      → let o = api.string_object value in
        Keeps references same m (some ((inr o, o ∷ []), record m { heap = api.add_ref m.heap o }))
  unfolding owed
  string-Keeps value m =
      let o = api.string_object value in
      some-Keeps references same (inr o) (o ∷ []) m (record m { heap = api.add_ref m.heap o })
        (record { stack = refl; held = λ x. omega (arith, counts.added m.heap o x) })

  number-Keeps :
      (o : Option ℤ) (m : Machine Object Heap)
      → Keeps references same m (elim o [
        | none ↦ fail {A = Object} invalid_parameter m
        | some i ↦ done (api.integer_object i) m
      ])
  number-Keeps none m =
      done-Keeps references same (inl invalid_parameter) m m (Left-refl references same m)
  number-Keeps (some i) m = done-Keeps references same (inr _) m m (Left-refl references same m)

  own_object-Keeps :
      (value : Text) (type : ExpressionNodeType) (m : Machine Object Heap)
      → Keeps references same m (own_object platform api f value type m)
  unfolding own_object
  own_object-Keeps value number m = number-Keeps (strtol platform value) m
  own_object-Keeps value undefined m = string-Keeps value m
  own_object-Keeps value string m = string-Keeps value m
  own_object-Keeps value identifier m = string-Keeps value m

  resolved-Keeps :
      (o : Option (NodeState Object)) (m : Machine Object Heap)
      → Keeps references same m (elim o [
        | none ↦ fail {A = Object} error_internal m
        | some state ↦ done state.resolved_value m
      ])
  resolved-Keeps none m =
      done-Keeps references same (inl error_internal) m m (Left-refl references same m)
  resolved-Keeps (some state) m =
      done-Keeps references same (inr _) m m (Left-refl references same m)

  target_object-Keeps :
      (value : Text) (type : ExpressionNodeType) (results : Results Object) (p : Option Pointer)
      (m : Machine Object Heap)
      → Keeps references same m (target_object platform api f value type results p m)
  unfolding target_object
  target_object-Keeps value type results none m = own_object-Keeps value type m
  target_object-Keeps value type results (some p) m = resolved-Keeps (lookup p.0 results) m

  sq_nodes-Keeps :
      (value : Text) (type : ExpressionNodeType) (results : Results Object)
      (ps : List (Option Pointer)) (m : Machine Object Heap)
      → Keeps references same m (sq_nodes platform api f value type results ps m)
  unfolding sq_nodes
  sq_nodes-Keeps value type results [] m =
      done-Keeps references same (inr []) m m (Left-refl references same m)
  sq_nodes-Keeps value type results (p ∷ ps) m =
      and_then-Keeps references same m _ _ (target_object-Keeps value type results p m) (λ o m₁.
        and_then-Keeps references same m₁ _ _ (sq_nodes-Keeps value type results ps m₁)
          (λ os m₂. done-Keeps references same (inr (o ∷ os)) m₂ m₂ (Left-refl references same m₂)))

  evaluate_node-Keeps :
      (frame : ℤ) (p : Pointer) (results : Results Object) (m : Machine Object Heap)
      → Keeps references same m (evaluate_node platform api f frame p results m)
  unfolding evaluate_node
  evaluate_node-Keeps frame (n, node value a type nodes) results m =
      and_then-Keeps references same m _ _
        (sq_nodes-Keeps value type results (accessors (suc n) (node value a type nodes)) m)
        (λ keys m₁. evaluate_keys-Keeps frame value type keys m₁)

  pub evaluate_loop-Keeps :
      (frame : ℤ) (g : ℕ) (stack : List Pointer) (results : Results Object)
      (m : Machine Object Heap)
      → Keeps references same m (evaluate_loop platform api f frame g stack results m)
  unfolding evaluate_loop
  evaluate_loop-Keeps frame zero stack results m = none-Keeps references same (Results Object) m
  evaluate_loop-Keeps frame (suc g) [] results m =
      done-Keeps references same (inr results) m m (Left-refl references same m)
  evaluate_loop-Keeps frame (suc g) ((n, e) ∷ below) results m =
      either-Keeps references same (unresolved results (accessors (suc n) e)) m _ _
        (and_then-Keeps references same m _ _ (evaluate_node-Keeps frame (n, e) results m)
          (λ state m₁. evaluate_loop-Keeps frame g below (insert n state results) m₁))
        (λ p ps. evaluate_loop-Keeps frame g (push_all (p ∷ ps) ((n, e) ∷ below)) results m)
