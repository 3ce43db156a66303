-- ===== src/Variables/LookupEnds.antt =====
-- What `GetObjectFromExpression` leaves behind, and where the path leads that it answers with.
use squirrel_debug_server.Base.{
  ℕ, zero, suc, pos, Option-cases, inl, inr, List, [], ◌∷◌, ◌==◌, arith,
}
use squirrel_debug_server.Data.{invalid_parameter}
use squirrel_debug_server.Variables.Machine.{SquirrelApi, Machine, Run, at, push}
use squirrel_debug_server.Variables.Ends.{
  Ends, none-Ends, some-Ends, then_run-Ends, read-Ends, option-Ends, test-Ends,
}
use squirrel_debug_server.Variables.Lookup.{
  Lookup, refused, is_numeric, in_array, find_key, in_table, get_object_from_expression,
}

module _ {Object Heap : Type 0} (api : SquirrelApi Object Heap) where
  RestEnds : Run Object Heap (Lookup Object) → Type 0
  RestEnds rest = (m : Machine Object Heap) → Ends m (rest m)

  in_array-Ends :
      (top key : Object) (rest : Run Object Heap (Lookup Object)) (m : Machine Object Heap)
      → RestEnds rest
      → Ends m (in_array api top key rest m)
  unfolding in_array RestEnds
  in_array-Ends top key rest m ends =
      test-Ends m (is_numeric (api.type_of key)) _ _
        (read-Ends m (api.integer_value key) _ (λ i e.
          option-Ends m (api.get m.heap top key) _ _ (some-Ends (refused invalid_parameter) m)
            (λ value e'.
              then_run-Ends (push value m) m _ _ (ends (push value m)) (λ r. some-Ends _ m))))
        (some-Ends (refused invalid_parameter) m)

  find_key-Ends :
      (f : ℕ) (key : Object) (rest : Run Object Heap (Lookup Object)) (iterator value : Object)
      (m : Machine Object Heap)
      → RestEnds rest
      → Ends m (find_key api f key rest (push iterator (push value m)))
  unfolding find_key RestEnds
  find_key-Ends zero key rest iterator value m ends = none-Ends (Lookup Object) m
  find_key-Ends (suc f) key rest iterator value m ends =
      option-Ends m (api.integer_value iterator) _ _ (some-Ends (refused invalid_parameter) m)
        (λ i e. read-Ends m (at 0 m) _ (λ container e₁.
          option-Ends m (api.next m.heap container iterator) _ _
            (some-Ends (refused invalid_parameter) m)
            (λ triple e₂.
              let m₁ = push triple.2 (push triple.1 (push triple.0 (push value m))) in
              test-Ends m (api.raw_value triple.1 == api.raw_value key) _ _
                (then_run-Ends m₁ m _ _ (ends m₁) (λ r. some-Ends _ m))
                (find_key-Ends f key rest triple.0 value m ends))))

  in_table-Ends :
      (f : ℕ) (top key : Object) (rest : Run Object Heap (Lookup Object)) (m : Machine Object Heap)
      → RestEnds rest
      → Ends m (in_table api f top key rest m)
  unfolding in_table
  in_table-Ends f top key rest m ends =
      option-Ends m (api.get m.heap top key) _ _ (some-Ends (refused invalid_parameter) m)
        (λ value e. find_key-Ends f key rest (api.integer_object (pos 0)) value m ends)

  -- `GetObjectFromExpression`, if it comes back, leaves the stack and the heap as they were, whatever
  -- it finds and wherever it fails: the assertion of `ScopedVerifySqTop` holds.
  pub get_object-Ends :
      (f : ℕ) (keys : List Object) (m : Machine Object Heap)
      → Ends m (get_object_from_expression api f keys m)
  unfolding get_object_from_expression RestEnds Ends
  get_object-Ends f [] m r m' e = ground (arith, e)
  get_object-Ends f (key ∷ keys) m r m' e = elim (Option-cases (at 0 m)) [
    | inl a ↦ ground (arith, a, e)
    | inr (top, a) ↦
        let rest = get_object_from_expression api f keys in
        let ends : RestEnds rest = λ m₁. get_object-Ends f keys m₁ in
        ground (
          arith,
          a,
          e,
          in_array-Ends top key rest m ends r m',
          in_table-Ends f top key rest m ends r m',
        )
  ]
