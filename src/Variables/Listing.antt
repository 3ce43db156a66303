-- ===== src/Variables/Listing.antt =====
-- `GetStackVariables` and `GetGlobalVariables` leave the API's stack as it was.
use squirrel_debug_server.Base.{
  ℕ, zero, suc, false, some, List, [], ◌∷◌, Text, arith, Option-cases, inl, inr,
}
use squirrel_debug_server.Data.{
  ReturnCode, PaginationInfo, Variable, VariableType, invalid_parameter, success,
}
use squirrel_debug_server.Debugger.{Debugger}
use squirrel_debug_server.Debugger.Commands.{with_stack_frame, with_globals}
use squirrel_debug_server.Variables.Machine.{SquirrelApi, Machine, Run, push, pop, then_run}
use squirrel_debug_server.Variables.Types.{Platform}
use squirrel_debug_server.Variables.Path.{path_parts}
use squirrel_debug_server.Variables.Walk.{
  to_int, to_sq_integer, at_index, at_iterator, with_variable_at_path,
}
use squirrel_debug_server.Variables.Children.{
  new_variable, create_child_variable, create_child_variables,
}
use squirrel_debug_server.Variables.Ends.{
  Ends, none-Ends, some-Ends, then_run-Ends, read-Ends, option-Ends,
}
use squirrel_debug_server.Variables.ShowEnds.{
  HasNames, HasNames-value, HasNames-get, LocalsHaveNames, push-NamedAt,
}
use squirrel_debug_server.Variables.Balance.{
  create_child_variable-Ends, create_child_variables-Ends,
}
use squirrel_debug_server.Variables.Frames.{
  at_local, with_stack_variables, rest_of, no_variables, local_count, succeed, root_variables,
  children_from_path, populate_stack_variables, global_parts, populate_global_variables,
  get_stack_variables, get_global_variables,
}

module _ {Object Heap A : Type 0} (api : SquirrelApi Object Heap) (refuse : ReturnCode → A) where
  RunEnds : Run Object Heap A → Type 0
  RunEnds run =
      (o : Object) (m : Machine Object Heap)
      → HasNames api m.heap o
      → Ends (push o m) (run (push o m))

  at_index-Ends :
      (p : ℕ) (top : Object) (rest : Run Object Heap A) (m : Machine Object Heap)
      → RunEnds rest
      → HasNames api m.heap top
      → Ends m (at_index api refuse p top rest m)
  unfolding at_index RunEnds Ends
  at_index-Ends p top rest m ends named a m' e =
      elim (Option-cases (api.get m.heap top (api.integer_object (to_int p)))) [
        | inl missing ↦ ground (arith, missing, e)
        | inr (value, found) ↦ ground (
          arith,
          found,
          e,
          then_run-Ends (push value m) m (rest (push value m))
              (λ (r : A × Machine Object Heap). some (r.0, pop 1 r.1))
              (ends value m
                (HasNames-get api m.heap top (api.integer_object (to_int p)) value found named))
              (λ a'. some-Ends a' m) a m',
        )
      ]

  at_iterator-Ends :
      (p : ℕ) (top : Object) (rest : Run Object Heap A) (m : Machine Object Heap)
      → RunEnds rest
      → HasNames api m.heap top
      → Ends m (at_iterator api refuse p top rest m)
  unfolding at_iterator RunEnds
  at_iterator-Ends p top rest m ends named =
      option-Ends m (api.next m.heap top (api.integer_object (to_sq_integer p))) _
        (λ (r : Object × Object × Object).
          then_run (rest (push r.2 (push r.1 (push r.0 m))))
            (λ (s : A × Machine Object Heap). some (s.0, pop 3 s.1)))
        (some-Ends (refuse invalid_parameter) m)
        (λ r found.
          let m₁ = push r.2 (push r.1 (push r.0 m)) in
          then_run-Ends m₁ m _ _
            (ends r.2 (push r.1 (push r.0 m)) (
              HasNames-value api m.heap top (api.integer_object (to_sq_integer p)) r.0 r.1 r.2 found
                named))
            (λ a'. some-Ends a' m))

  with_variable_at_path-Ends :
      (fn : Run Object Heap A) (ps : List ℕ)
      → RunEnds fn
      → RunEnds (with_variable_at_path api refuse ps fn)
  unfolding with_variable_at_path RunEnds Ends
  with_variable_at_path-Ends fn [] ends o m named a m' e = ends o m named a m' e
  with_variable_at_path-Ends fn (p ∷ ps) ends o m named a m' e =
      let rest = with_variable_at_path-Ends fn ps ends in
      let run = with_variable_at_path api refuse ps fn in
      ground (
        arith,
        e,
        at_index-Ends p o run (push o m) rest named a m',
        at_iterator-Ends p o run (push o m) rest named a m',
      )

  with_stack_variables-Ends :
      (stack_frame : ℕ) (path : Text) (fn : List ℕ → Run Object Heap A) (m : Machine Object Heap)
      → ((ps : List ℕ) → RunEnds (fn ps))
      → LocalsHaveNames api m.heap stack_frame
      → Ends m (with_stack_variables api refuse stack_frame path fn m)
  unfolding with_stack_variables at_local RunEnds LocalsHaveNames
  with_stack_variables-Ends stack_frame [] fn m ends named = some-Ends _ m
  with_stack_variables-Ends stack_frame (c ∷ cs) fn m ends named =
      read-Ends m (path_parts (c ∷ cs)) _ (λ parts found.
        elim parts as (λ ps. Ends m (at_local api refuse stack_frame ps fn m)) [
          | [] ↦ none-Ends A m
          | p ∷ ps ↦
              option-Ends m (api.local m.heap stack_frame p) _ _ (some-Ends _ m) (λ l is_local.
                then_run-Ends (push l.1 m) m _ _ (ends (p ∷ ps) l.1 m (named p l is_local))
                  (λ a'. some-Ends a' m))
        ])

module _ {Object Heap : Type 0} (platform : Platform) (bit_index : VariableType → ℕ)
    (api : SquirrelApi Object Heap) (f : ℕ) where
  root_variables-Ends :
      (stack_frame n seq : ℕ) (m : Machine Object Heap)
      → LocalsHaveNames api m.heap stack_frame
      → Ends m (root_variables platform bit_index api f stack_frame n seq m)
  unfolding root_variables LocalsHaveNames
  root_variables-Ends stack_frame zero seq m named = some-Ends [] m
  root_variables-Ends stack_frame (suc n) seq m named =
      option-Ends m (api.local m.heap stack_frame seq) _
        (λ (l : Text × Object).
          then_run
            (create_child_variable platform bit_index api f
              (record new_variable { path_iterator = seq; path_ui_string = l.0 }) (push l.1 m))
            (λ (v : Variable × Machine Object Heap).
              then_run (root_variables platform bit_index api f stack_frame n (suc seq) (pop 1 v.1))
                (λ (vs : List Variable × Machine Object Heap).
                  some (record v.0 { editable = false } ∷ vs.0, vs.1))))
        (some-Ends [] m)
        (λ l found.
          then_run-Ends (push l.1 m) m _ _
            (create_child_variable-Ends platform bit_index api f
              (record new_variable { path_iterator = seq; path_ui_string = l.0 }) (push l.1 m)
              (push-NamedAt api l.1 m (named seq l found)))
            (λ v.
              then_run-Ends m m _ _ (root_variables-Ends stack_frame n (suc seq) m named)
                (λ vs. some-Ends (record v { editable = false } ∷ vs) m)))

  succeed-Ends :
      (run : Run Object Heap (List Variable)) (m : Machine Object Heap)
      → Ends m (run m)
      → Ends m (succeed platform bit_index api f run m)
  unfolding succeed
  succeed-Ends run m ends = then_run-Ends m m _ _ ends (λ vs. some-Ends (success, vs) m)

  children_from_path-Ends :
      (ps : List ℕ) (page : PaginationInfo)
      → RunEnds api no_variables (children_from_path platform bit_index api f ps page)
  unfolding children_from_path RunEnds
  children_from_path-Ends ps page = with_variable_at_path-Ends api no_variables _ ps (λ o m named.
      succeed-Ends (create_child_variables platform bit_index api f page.begin_iterator page.count)
        (push o m)
        (create_child_variables-Ends platform bit_index api f page.begin_iterator page.count
          (push o m) (push-NamedAt api o m named)))

  populate_stack_variables-Ends :
      (stack_frame : ℕ) (path : Text) (page : PaginationInfo) (m : Machine Object Heap)
      → LocalsHaveNames api m.heap stack_frame
      → Ends m (populate_stack_variables platform bit_index api f stack_frame path page m)
  unfolding populate_stack_variables
  populate_stack_variables-Ends stack_frame [] page m named =
      succeed-Ends
        (root_variables platform bit_index api f stack_frame (local_count page) page.begin_iterator)
        m (root_variables-Ends stack_frame (local_count page) page.begin_iterator m named)
  populate_stack_variables-Ends stack_frame (c ∷ cs) page m named =
      with_stack_variables-Ends api no_variables stack_frame (c ∷ cs) _ m
        (λ parts. children_from_path-Ends (rest_of parts) page) named

  populate_global_variables-Ends :
      (path : Text) (page : PaginationInfo) (m : Machine Object Heap)
      → HasNames api m.heap (api.root_table m.heap)
      → Ends m (populate_global_variables platform bit_index api f path page m)
  unfolding populate_global_variables RunEnds
  populate_global_variables-Ends path page m named =
      read-Ends m (global_parts platform bit_index api f path) _ (λ parts found.
        then_run-Ends (push (api.root_table m.heap) m) m _ _
          (children_from_path-Ends parts page (api.root_table m.heap) m named) (λ r. some-Ends r m))

  -- Whatever the path and the page: if `GetStackVariables` comes back for a frame of which no local leads
  -- to an anonymous function, then the stack of the VM is as it was, in success and in error. An object
  -- leads to itself and to what its keys, values and elements lead to.
  pub get_stack_variables-Ends :
      (stack_frame : ℕ) (path : Text) (page : PaginationInfo) (d : Debugger)
      (m : Machine Object Heap)
      → LocalsHaveNames api m.heap stack_frame
      → Ends m (get_stack_variables platform bit_index api f stack_frame path page d m)
  unfolding get_stack_variables with_stack_frame Ends
  get_stack_variables-Ends stack_frame path page d m named a m' e =
      ground (arith, e, populate_stack_variables-Ends stack_frame path page m named a m')

  -- Whatever the path and the page: if `GetGlobalVariables` comes back where the root table leads to no
  -- anonymous function, then the stack of the VM is as it was, in success and in error. An object leads
  -- to itself and to what its keys, values and elements lead to.
  pub get_global_variables-Ends :
      (path : Text) (page : PaginationInfo) (d : Debugger) (m : Machine Object Heap)
      → HasNames api m.heap (api.root_table m.heap)
      → Ends m (get_global_variables platform bit_index api f path page d m)
  unfolding get_global_variables with_globals Ends
  get_global_variables-Ends path page d m named a m' e =
      ground (arith, e, populate_global_variables-Ends path page m named a m')
