-- ===== src/Variables/ShowEnds.antt =====
-- `ToString` gives the machine back as it was, if no anonymous function can be reached.
use squirrel_debug_server.Base.{
  ℕ, zero, suc, ◌≡◌, ◌∙◌, refl, sym, get_elem?, drop, pos, Bool, true, false, Option, none, some,
  List, [], ◌∷◌, ◌++◌, Text, length, ltb, arith, subst, Option-cases, inl, inr, ◌==◌,
}
use mathlib.Core.Option.{some-injective}
use squirrel_debug_server.Variables.Machine.{SquirrelApi, Machine, Run, at, push, pop, then_run}
use squirrel_debug_server.Variables.Show.{
  KeyToTableIter, sq_next, write_field, write_value, table_keys, sorted_fields, unsorted_fields,
  sort_keys, create_table_summary, closure_name_text, closure_text, max_table_size_to_sort,
  max_table_value_string_length,
}
use squirrel_debug_server.Variables.Ends.{
  Ends, none-Ends, some-Ends, then_run-Ends, read-Ends, option-Ends, test-Ends,
}

module _ {Object Heap : Type 0} (api : SquirrelApi Object Heap) where
  -- What an object leads to: itself, and what its keys, its values and its elements lead to.
  pub data LeadsTo (heap : Heap) : Object → Object → Type 0 where
    itself : (o : Object) → LeadsTo heap o o
    by_key :
        (o i i' key value x : Object)
        → api.next heap o i ≡ some (i', key, value)
        → LeadsTo heap key x
        → LeadsTo heap o x
    by_value :
        (o i i' key value x : Object)
        → api.next heap o i ≡ some (i', key, value)
        → LeadsTo heap value x
        → LeadsTo heap o x
    by_get :
        (o key value x : Object)
        → api.get heap o key ≡ some value
        → LeadsTo heap value x
        → LeadsTo heap o x

  -- No function that the object leads to is anonymous: Squirrel gives such a function the name `null`,
  -- which is no string.
  unfoldable pub HasNames : Heap → Object → Type 0
  HasNames heap o =
      (x name : Object)
      → LeadsTo heap o x
      → api.closure_name heap x ≡ some name
      → (s : Text) × (api.string_value name ≡ some s)

  pub HasNames-key :
      (heap : Heap) (o i i' key value : Object)
      → api.next heap o i ≡ some (i', key, value)
      → HasNames heap o
      → HasNames heap key
  unfolding HasNames
  HasNames-key heap o i i' key value next named x name leads =
      named x name (LeadsTo.by_key o i i' key value x next leads)

  pub HasNames-value :
      (heap : Heap) (o i i' key value : Object)
      → api.next heap o i ≡ some (i', key, value)
      → HasNames heap o
      → HasNames heap value
  unfolding HasNames
  HasNames-value heap o i i' key value next named x name leads =
      named x name (LeadsTo.by_value o i i' key value x next leads)

  pub HasNames-get :
      (heap : Heap) (o key value : Object)
      → api.get heap o key ≡ some value
      → HasNames heap o
      → HasNames heap value
  unfolding HasNames
  HasNames-get heap o key value found named x name leads =
      named x name (LeadsTo.by_get o key value x found leads)

  -- No local of the frame leads to an anonymous function.
  unfoldable pub LocalsHaveNames : Heap → ℕ → Type 0
  LocalsHaveNames heap stack_frame =
      (seq : ℕ) (l : Text × Object) → api.local heap stack_frame seq ≡ some l → HasNames heap l.1

  -- The object at index -(k + 1), if there is one.
  unfoldable pub NamedAt : ℕ → Machine Object Heap → Type 0
  NamedAt k m = (o : Object) → at k m ≡ some o → HasNames m.heap o

  pub at-NamedAt :
      (o : Object) (m : Machine Object Heap) → at 0 m ≡ some o → HasNames m.heap o → NamedAt 0 m
  unfolding NamedAt
  at-NamedAt o m is_at named o' e =
      subst (λ x. HasNames m.heap x) (some-injective o o' (sym is_at ∙ e)) named

  pub push-NamedAt :
      (o : Object) (m : Machine Object Heap) → HasNames m.heap o → NamedAt 0 (push o m)
  unfolding NamedAt
  push-NamedAt o m named o' e = subst (λ x. HasNames m.heap x) (some-injective o o' e) named

  -- The object below the top.
  unfoldable pub NamedBelow : Machine Object Heap → Type 0
  unfolding NamedAt
  NamedBelow m = NamedAt 0 (pop 1 m)

  at-pop : (m : Machine Object Heap) → at 0 (pop 1 m) ≡ at 1 m
  at-pop m = elim m.stack as (λ (xs : List Object). get_elem? (drop 1 xs) 0 ≡ get_elem? xs 1) [
    | [] ↦ refl
    | x ∷ xs ↦ refl
  ]

  sq_next-none :
      (m : Machine Object Heap) (iterator container : Object)
      → at 0 m ≡ some iterator
      → at 1 m ≡ some container
      → api.next m.heap container iterator ≡ none
      → sq_next api m ≡ some none
  unfolding sq_next
  sq_next-none m iterator container a₀ a₁ n = ground (arith, a₀, a₁, n)

  pub sq_next-some :
      (m : Machine Object Heap) (iterator container iterator' key value : Object)
      → at 0 m ≡ some iterator
      → at 1 m ≡ some container
      → api.next m.heap container iterator ≡ some (iterator', key, value)
      → sq_next api m ≡ some (some (push value (push key (push iterator' (pop 1 m)))))
  unfolding sq_next
  sq_next-some m iterator container iterator' key value a₀ a₁ n = ground (arith, a₀, a₁, n)

  -- A step of an iterator, and what follows.
  pub sq_next_from-Ends :
      {B : Type 0} (m t : Machine Object Heap)
      (k : Option (Machine Object Heap) → Option (B × Machine Object Heap))
      → Ends t (k none)
      → ((container iterator iterator' key value : Object)
          → at 1 m ≡ some container
          → api.next m.heap container iterator ≡ some (iterator', key, value)
          → Ends t (k (some (push value (push key (push iterator' (pop 1 m)))))))
      → Ends t (then_run (sq_next api m) k)
  unfolding sq_next Ends
  sq_next_from-Ends m t k at_end at_next b m' e = elim (Option-cases (at 0 m)) [
    | inl a₀ ↦ ground (arith, a₀, e)
    | inr (iterator, a₀) ↦ elim (Option-cases (at 1 m)) [
      | inl a₁ ↦ ground (arith, a₀, a₁, e)
      | inr (container, a₁) ↦ elim (Option-cases (api.next m.heap container iterator)) [
        | inl n ↦
            at_end b m' (
              subst (λ x. then_run x k ≡ some (b, m')) (sq_next-none m iterator container a₀ a₁ n)
                e)
        | inr ((iterator', key, value), n) ↦
            at_next container iterator iterator' key value a₁ n b m' (
              subst (λ x. then_run x k ≡ some (b, m'))
                (sq_next-some m iterator container iterator' key value a₀ a₁ n) e)
      ]
    ]
  ]

  pub sq_next-Ends :
      {B : Type 0} (m t : Machine Object Heap)
      (k : Option (Machine Object Heap) → Option (B × Machine Object Heap))
      → Ends t (k none)
      → ((iterator key value : Object)
          → Ends t (k (some (push value (push key (push iterator (pop 1 m)))))))
      → Ends t (then_run (sq_next api m) k)
  sq_next-Ends m t k at_end at_next =
      sq_next_from-Ends m t k at_end
        (λ container iterator iterator' key value a₁ n. at_next iterator' key value)

  -- The same, where the container leads to no anonymous function.
  pub sq_next_named-Ends :
      {B : Type 0} (m t : Machine Object Heap)
      (k : Option (Machine Object Heap) → Option (B × Machine Object Heap))
      → NamedBelow m
      → Ends t (k none)
      → ((iterator key value : Object)
          → HasNames m.heap key
          → HasNames m.heap value
          → Ends t (k (some (push value (push key (push iterator (pop 1 m)))))))
      → Ends t (then_run (sq_next api m) k)
  unfolding NamedBelow NamedAt
  sq_next_named-Ends m t k named at_end at_next =
      sq_next_from-Ends m t k at_end (λ container iterator iterator' key value a₁ n.
        let container_named = named container (at-pop m ∙ a₁) in
        at_next iterator' key value
          (HasNames-key m.heap container iterator iterator' key value n container_named)
          (HasNames-value m.heap container iterator iterator' key value n container_named))

  unfoldable pub ShowEnds : Run Object Heap Text → Type 0
  ShowEnds show =
      (o : Object) (m : Machine Object Heap) → HasNames m.heap o → Ends (push o m) (show (push o m))

  write_value-Ends :
      (show : Run Object Heap Text) (is_first : Bool) (text : Text) (key value : Object)
      (m : Machine Object Heap)
      → ShowEnds show
      → HasNames m.heap key
      → Ends m (write_value api show is_first text (push value (push key m)))
  unfolding write_value ShowEnds
  write_value-Ends show is_first [] key value m shows key_named = some-Ends [] m
  write_value-Ends show is_first (c ∷ cs) key value m shows key_named =
      then_run-Ends (push key m) m _ _ (shows key m key_named) (λ k. some-Ends _ m)

  write_field-Ends :
      (show : Run Object Heap Text) (is_first : Bool) (key value : Object) (m : Machine Object Heap)
      → ShowEnds show
      → HasNames m.heap key
      → HasNames m.heap value
      → Ends m (write_field api show is_first (push value (push key m)))
  unfolding write_field ShowEnds
  write_field-Ends show is_first key value m shows key_named value_named =
      then_run-Ends (push value (push key m)) m _ _ (shows value (push key m) value_named)
        (λ text. write_value-Ends show is_first text key value m shows key_named)

  pub table_keys-Ends :
      (show : Run Object Heap Text) (f : ℕ) (m : Machine Object Heap)
      → ShowEnds show
      → NamedBelow m
      → Ends (pop 1 m) (table_keys api show f m)
  unfolding table_keys ShowEnds NamedBelow
  table_keys-Ends show zero m shows named = none-Ends (List KeyToTableIter) (pop 1 m)
  table_keys-Ends show (suc f) m shows named = read-Ends (pop 1 m) (at 0 m) _ (λ iterator a.
      option-Ends (pop 1 m) (api.integer_value iterator) _ _ (some-Ends [] (pop 1 m)) (λ i found.
        sq_next_named-Ends m (pop 1 m) _ named (some-Ends [] (pop 1 m))
          (λ iterator' key value key_named value_named.
            let m₁ = push iterator' (pop 1 m) in
            then_run-Ends (push key m₁) (pop 1 m) _ _ (shows key m₁ key_named) (λ k.
              then_run-Ends (pop 1 m) (pop 1 m) _ _ (table_keys-Ends show f m₁ shows named)
                (λ rest. some-Ends _ (pop 1 m))))))

  sorted_fields-Ends :
      (show : Run Object Heap Text) (es : List KeyToTableIter) (text : Text)
      (m : Machine Object Heap)
      → ShowEnds show
      → NamedAt 0 m
      → Ends m (sorted_fields api show es text m)
  unfolding sorted_fields ShowEnds NamedBelow
  sorted_fields-Ends show [] text m shows named = some-Ends text m
  sorted_fields-Ends show (e ∷ es) text m shows named =
      test-Ends m (ltb (length text) max_table_value_string_length) _ _
        (sq_next_named-Ends (push (api.integer_object e.1) m) m _ named (some-Ends text m)
          (λ iterator key value key_named value_named.
            then_run-Ends (push iterator m) m _ _
              (write_field-Ends show (length text == 0) key value (push iterator m) shows key_named
                value_named)
              (λ r. sorted_fields-Ends show es (text ++ r) m shows named)))
        (some-Ends text m)

  unsorted_fields-Ends :
      (show : Run Object Heap Text) (f : ℕ) (is_first : Bool) (text : Text)
      (m : Machine Object Heap)
      → ShowEnds show
      → NamedBelow m
      → Ends (pop 1 m) (unsorted_fields api show f is_first text m)
  unfolding unsorted_fields ShowEnds NamedBelow
  unsorted_fields-Ends show zero is_first text m shows named = none-Ends Text (pop 1 m)
  unsorted_fields-Ends show (suc f) is_first text m shows named =
      test-Ends (pop 1 m) (ltb (suc (length text)) max_table_value_string_length) _ _
        (sq_next_named-Ends m (pop 1 m) _ named (some-Ends text (pop 1 m))
          (λ iterator key value key_named value_named.
            let m₁ = push iterator (pop 1 m) in
            then_run-Ends m₁ (pop 1 m) _ _
              (write_field-Ends show is_first key value m₁ shows key_named value_named)
              (λ r. unsorted_fields-Ends show f false (text ++ r) m₁ shows named)))
        (some-Ends text (pop 1 m))

  pub create_table_summary-Ends :
      (show : Run Object Heap Text) (f : ℕ) (m : Machine Object Heap)
      → ShowEnds show
      → NamedAt 0 m
      → Ends m (create_table_summary api show f m)
  unfolding create_table_summary ShowEnds NamedBelow
  create_table_summary-Ends show f m shows named = read-Ends m (at 0 m) _ (λ top a.
      let start = push (api.integer_object (pos 0)) m in
      then_run-Ends m m _ _
        (test-Ends m (ltb (api.size m.heap top) max_table_size_to_sort) _ _
          (then_run-Ends m m _ _ (table_keys-Ends show f start shows named)
            (λ keys. sorted_fields-Ends show (sort_keys keys) [] m shows named))
          (unsorted_fields-Ends show f true [] start shows named))
        (λ r. some-Ends _ m))

  pub closure_text-Ends :
      (k : ℕ) (m : Machine Object Heap) → NamedAt k m → Ends m (closure_text api k m)
  unfolding closure_text closure_name_text NamedAt HasNames Ends
  closure_text-Ends k m named = read-Ends m (at k m) _ (λ o a. λ text m' e.
      elim (Option-cases (api.closure_name m.heap o)) [
        | inl missing ↦ ground (arith, missing, a, e)
        | inr (name, found) ↦
            let (s, is_text) = named o a o name (LeadsTo.itself o) found in
            ground (arith, found, is_text, a, e)
      ])
