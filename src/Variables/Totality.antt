-- ===== src/Variables/Totality.antt =====
-- `ToString` of SquirrelVmHelpers.cpp comes back on values whose tables are nested to a bounded depth.
use squirrel_debug_server.Base.{
  ℕ, zero, suc, ◌≡◌, refl, ℤ, pos, Bool, true, false, Option, none, some, List, [], ◌∷◌, ◌++◌, Text,
  length, ltb, ◌==◌, codes, Option-cases, inl, inr,
}
use squirrel_debug_server.Data.{
  VariableType, null, bool, integer, float, string, array, table, closure, user_data,
  native_closure, generator, user_pointer, thread, func_proto, weak_ref, outer,
}
use squirrel_debug_server.Variables.Machine.{SquirrelApi, Machine, Run, pop, then_run}
use squirrel_debug_server.Variables.Types.{Platform, to_sq_object_type_name}
use squirrel_debug_server.Variables.Show.{
  KeyToTableIter, closure_name_text, closure_text, write_field, write_value, table_keys,
  sorted_fields, unsorted_fields, sort_keys, create_table_summary, max_table_size_to_sort,
  max_table_value_string_length, to_string,
}
use squirrel_debug_server.Variables.Returns.{
  machine, Returns, some-Returns, then_run-Returns, test-Returns, option-Returns, sq_next-Returns,
}

-- The types whose text needs no other value.
pub data IsPlain : VariableType → Type 0 where
  is_bool : IsPlain bool
  is_integer : IsPlain integer
  is_float : IsPlain float
  is_string : IsPlain string
  is_array : IsPlain array

-- The types whose text is the type's name.
pub data IsNamed : VariableType → Type 0 where
  is_null : IsNamed null
  is_user_data : IsNamed user_data
  is_native_closure : IsNamed native_closure
  is_generator : IsNamed generator
  is_user_pointer : IsNamed user_pointer
  is_thread : IsNamed thread
  is_func_proto : IsNamed func_proto
  is_weak_ref : IsNamed weak_ref
  is_outer : IsNamed outer

module _ {Object Heap : Type 0} (platform : Platform) (bit_index : VariableType → ℕ)
    (api : SquirrelApi Object Heap) (heap : Heap) where
  -- From this iterator on, the container has less than so many entries.
  pub data HasLess (container : Object) : Object → ℕ → Type 0 where
    steps :
        (i : Object) (n : ℕ)
        → ((i' key value : Object)
            → api.next heap container i ≡ some (i', key, value)
            → HasLess container i' n)
        → HasLess container i (suc n)

  -- A value that is no class and no instance, whose functions are not anonymous, and whose tables are
  -- nested less than `n` deep and have each less entries than its depth leaves.
  pub data IsShallow : ℕ → Object → Type 0 where
    plain : (n : ℕ) (o : Object) → IsPlain (api.type_of o) → IsShallow (suc n) o
    by_type :
        (n : ℕ) (o : Object) (s : Text)
        → IsNamed (api.type_of o)
        → to_sq_object_type_name platform bit_index (api.type_of o) ≡ some s
        → IsShallow (suc n) o
    function :
        (n : ℕ) (o : Object)
        → api.type_of o ≡ closure
        → ((name : Object)
            → api.closure_name heap o ≡ some name
            → (s : Text) × (api.string_value name ≡ some s))
        → IsShallow (suc n) o
    entries :
        (n : ℕ) (o : Object)
        → api.type_of o ≡ table
        → HasLess o (api.integer_object (pos 0)) n
        → ((i i' key value : Object) → api.next heap o i ≡ some (i', key, value) → IsShallow n key)
        → ((i i' key value : Object)
            → api.next heap o i ≡ some (i', key, value)
            → IsShallow n value)
        → IsShallow (suc n) o

  module _ (show : Run Object Heap Text) (f : ℕ)
      (shows : (o : Object) (below : List Object)
        → IsShallow f o
        → Returns heap (o ∷ below) (show (machine heap (o ∷ below)))) where
    write_field-Returns :
        (is_first : Bool) (value key : Object) (below : List Object)
        → IsShallow f value
        → IsShallow f key
        → Returns heap below (write_field api show is_first (machine heap (value ∷ key ∷ below)))
    unfolding write_field write_value
    write_field-Returns is_first value key below is_value is_key =
        then_run-Returns heap (value ∷ key ∷ below) below _ _ (shows value (key ∷ below) is_value)
          (λ text.
            elim text
              as (λ t.
                Returns heap below
                  (write_value api show is_first t (machine heap (value ∷ key ∷ below)))) [
                    | [] ↦ some-Returns heap [] below
                    | c ∷ cs ↦
                        then_run-Returns heap (key ∷ below) below _ _ (shows key below is_key)
                          (λ k. some-Returns heap _ below)
                  ])

    abbrev after_key :
        ℕ
        → ℤ
        → List Object
        → Option (Machine Object Heap)
        → Option (List KeyToTableIter × Machine Object Heap)
    after_key n index xs none = some ([], machine heap xs)
    after_key n index xs (some m) = then_run (show (pop 1 m)) (λ (k : Text × Machine Object Heap).
        then_run (table_keys api show n (pop 1 k.1))
          (λ (rest : List KeyToTableIter × Machine Object Heap).
            some ((k.0, index) ∷ rest.0, rest.1)))

    abbrev after_field :
        Bool
        → List Object
        → Text
        → (Text → Run Object Heap Text)
        → Option (Machine Object Heap)
        → Option (Text × Machine Object Heap)
    after_field is_first xs text rest none = some (text, machine heap xs)
    after_field is_first xs text rest (some m) =
        then_run (write_field api show is_first m)
          (λ (r : Text × Machine Object Heap). rest (text ++ r.0) r.1)

    pub table_keys-Returns :
        (container i : Object) (below : List Object) (n : ℕ)
        → HasLess container i n
        → ((i i' key value : Object)
            → api.next heap container i ≡ some (i', key, value)
            → IsShallow f key)
        → Returns heap
            (container ∷ below)
            (table_keys api show n (machine heap (i ∷ container ∷ below)))
    unfolding table_keys
    table_keys-Returns container i below zero less keys = elim less [ ]
    table_keys-Returns container i below (suc n) (HasLess.steps _ _ less) keys =
        option-Returns heap (container ∷ below) (api.integer_value i) _ _
          (some-Returns heap [] (container ∷ below))
          (λ index.
            sq_next-Returns heap api i container below (container ∷ below)
              (after_key n index (container ∷ below))
              (λ at_end. some-Returns heap [] (container ∷ below))
              (λ i' key value next.
                then_run-Returns heap (key ∷ i' ∷ container ∷ below) (container ∷ below) _ _
                  (shows key (i' ∷ container ∷ below) (keys i i' key value next))
                  (λ text.
                    then_run-Returns heap (container ∷ below) (container ∷ below) _ _
                      (table_keys-Returns container i' below n (less i' key value next) keys)
                      (λ rest. some-Returns heap ((text, index) ∷ rest) (container ∷ below)))))

    sorted_fields-Returns :
        (container : Object) (below : List Object) (es : List KeyToTableIter) (text : Text)
        → ((i i' key value : Object)
            → api.next heap container i ≡ some (i', key, value)
            → IsShallow f key × IsShallow f value)
        → Returns heap
            (container ∷ below)
            (sorted_fields api show es text (machine heap (container ∷ below)))
    unfolding sorted_fields
    sorted_fields-Returns container below [] text shallow =
        some-Returns heap text (container ∷ below)
    sorted_fields-Returns container below (e ∷ es) text shallow =
        test-Returns heap (container ∷ below) (ltb (length text) max_table_value_string_length) _ _
          (sq_next-Returns heap api (api.integer_object e.1) container below (container ∷ below)
            (after_field (length text == 0) (container ∷ below) text
              (λ text₁ m. sorted_fields api show es text₁ (pop 1 m)))
            (λ at_end. some-Returns heap text (container ∷ below))
            (λ i' key value next.
              let both = shallow (api.integer_object e.1) i' key value next in
              then_run-Returns heap (i' ∷ container ∷ below) (container ∷ below) _ _
                (write_field-Returns (length text == 0) value key (i' ∷ container ∷ below) both.1
                  both.0)
                (λ field. sorted_fields-Returns container below es (text ++ field) shallow)))
          (some-Returns heap text (container ∷ below))

    unsorted_fields-Returns :
        (container i : Object) (below : List Object) (n : ℕ) (is_first : Bool) (text : Text)
        → HasLess container i n
        → ((i i' key value : Object)
            → api.next heap container i ≡ some (i', key, value)
            → IsShallow f key × IsShallow f value)
        → Returns heap
            (container ∷ below)
            (unsorted_fields api show n is_first text (machine heap (i ∷ container ∷ below)))
    unfolding unsorted_fields
    unsorted_fields-Returns container i below zero is_first text less shallow = elim less [ ]
    unsorted_fields-Returns container i below (suc n) is_first text (HasLess.steps _ _ less)
          shallow =
        test-Returns heap (container ∷ below)
          (ltb (suc (length text)) max_table_value_string_length) _ _
          (sq_next-Returns heap api i container below (container ∷ below)
            (after_field is_first (container ∷ below) text (unsorted_fields api show n false))
            (λ at_end. some-Returns heap text (container ∷ below))
            (λ i' key value next.
              let both = shallow i i' key value next in
              then_run-Returns heap (i' ∷ container ∷ below) (container ∷ below) _ _
                (write_field-Returns is_first value key (i' ∷ container ∷ below) both.1 both.0)
                (λ field.
                  unsorted_fields-Returns container i' below n false (text ++ field)
                    (less i' key value next) shallow)))
          (some-Returns heap text (container ∷ below))

    create_table_summary-Returns :
        (container : Object) (below : List Object)
        → HasLess container (api.integer_object (pos 0)) f
        → ((i i' key value : Object)
            → api.next heap container i ≡ some (i', key, value)
            → IsShallow f key × IsShallow f value)
        → Returns heap
            (container ∷ below)
            (create_table_summary api show f (machine heap (container ∷ below)))
    unfolding create_table_summary
    create_table_summary-Returns container below less shallow =
        let xs = container ∷ below in
        let start = api.integer_object (pos 0) in
        then_run-Returns heap xs xs _ _
          (test-Returns heap xs (ltb (api.size heap container) max_table_size_to_sort) _ _
            (then_run-Returns heap xs xs _ _
              (table_keys-Returns container start below f less
                (λ i i' key value next. (shallow i i' key value next).0))
              (λ keys. sorted_fields-Returns container below (sort_keys keys) [] shallow))
            (unsorted_fields-Returns container start below f true [] less shallow))
          (λ text. some-Returns heap _ xs)

  plain-Returns :
      (n : ℕ) (o : Object) (below : List Object) (t : VariableType)
      → api.type_of o ≡ t
      → IsPlain t
      → Returns heap
          (o ∷ below)
          (to_string platform bit_index api (suc n) 0 (machine heap (o ∷ below)))
  unfolding to_string
  plain-Returns n o below _ e IsPlain.is_bool = rw (e) (some-Returns heap _ (o ∷ below))
  plain-Returns n o below _ e IsPlain.is_integer = rw (e) (some-Returns heap _ (o ∷ below))
  plain-Returns n o below _ e IsPlain.is_float = rw (e) (some-Returns heap _ (o ∷ below))
  plain-Returns n o below _ e IsPlain.is_string = rw (e) (some-Returns heap _ (o ∷ below))
  plain-Returns n o below _ e IsPlain.is_array = rw (e) (some-Returns heap _ (o ∷ below))

  named-Returns :
      (n : ℕ) (o : Object) (below : List Object) (t : VariableType) (s : Text)
      → api.type_of o ≡ t
      → IsNamed t
      → to_sq_object_type_name platform bit_index t ≡ some s
      → Returns heap
          (o ∷ below)
          (to_string platform bit_index api (suc n) 0 (machine heap (o ∷ below)))
  unfolding to_string
  named-Returns n o below _ s e IsNamed.is_null named =
      rw (e, named) (some-Returns heap s (o ∷ below))
  named-Returns n o below _ s e IsNamed.is_user_data named =
      rw (e, named) (some-Returns heap s (o ∷ below))
  named-Returns n o below _ s e IsNamed.is_native_closure named =
      rw (e, named) (some-Returns heap s (o ∷ below))
  named-Returns n o below _ s e IsNamed.is_generator named =
      rw (e, named) (some-Returns heap s (o ∷ below))
  named-Returns n o below _ s e IsNamed.is_user_pointer named =
      rw (e, named) (some-Returns heap s (o ∷ below))
  named-Returns n o below _ s e IsNamed.is_thread named =
      rw (e, named) (some-Returns heap s (o ∷ below))
  named-Returns n o below _ s e IsNamed.is_func_proto named =
      rw (e, named) (some-Returns heap s (o ∷ below))
  named-Returns n o below _ s e IsNamed.is_weak_ref named =
      rw (e, named) (some-Returns heap s (o ∷ below))
  named-Returns n o below _ s e IsNamed.is_outer named =
      rw (e, named) (some-Returns heap s (o ∷ below))

  closure-Returns :
      (o : Object) (below : List Object)
      → ((name : Object)
          → api.closure_name heap o ≡ some name
          → (s : Text) × (api.string_value name ≡ some s))
      → Returns heap (o ∷ below) (closure_text api 0 (machine heap (o ∷ below)))
  unfolding closure_text closure_name_text
  closure-Returns o below named =
      let xs = o ∷ below in
      then_run-Returns heap xs xs (closure_name_text api o (machine heap xs)) _
        (elim (Option-cases (api.closure_name heap o)) [
          | inl missing ↦
              rw (closure_name_text, missing) (some-Returns heap (codes "Invalid Closure") xs)
          | inr (name, found) ↦
              let (s, is_text) = named name found in
              rw (closure_name_text, found, is_text) (some-Returns heap s xs)
        ])
        (λ text.
          option-Returns heap xs (api.closure_info heap o) _ _ (some-Returns heap text xs)
            (λ info. some-Returns heap _ xs))

  -- On a value that is shallow for `n`, `ToString` comes back with `n` for the fuel, and the stack and the
  -- heap are as they were.
  pub to_string-Returns :
      (n : ℕ) (o : Object) (below : List Object)
      → IsShallow n o
      → Returns heap (o ∷ below) (to_string platform bit_index api n 0 (machine heap (o ∷ below)))
  unfolding to_string
  to_string-Returns zero o below shallow = elim shallow [ ]
  to_string-Returns (suc n) o below (IsShallow.plain _ _ p) =
      plain-Returns n o below (api.type_of o) refl p
  to_string-Returns (suc n) o below (IsShallow.by_type _ _ s t named) =
      named-Returns n o below (api.type_of o) s refl t named
  to_string-Returns (suc n) o below (IsShallow.function _ _ t named) =
      rw (t) (closure-Returns o below named)
  to_string-Returns (suc n) o below (IsShallow.entries _ _ t less keys values) = rw (t) (
      create_table_summary-Returns (to_string platform bit_index api n 0) n (to_string-Returns n) o
        below less (λ i i' key value next. (keys i i' key value next, values i i' key value next)))
