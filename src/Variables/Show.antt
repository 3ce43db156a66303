-- ===== src/Variables/Show.antt =====
-- SquirrelVmHelpers.cpp: `ToString`, `CreateTableSummary` and the `<<` of one of its fields, on the
-- API's stack. `show` stands for the recursive calls of `ToString`.
use squirrel_debug_server.Base.{
  ℕ, zero, suc, ℤ, pos, negsuc, Bool, true, false, Option, none, some, List, [], ◌∷◌, ◌++◌, Text,
  codes, length, ltb, ◌==◌, if◌then◌else◌,
}
use squirrel_debug_server.Data.{
  VariableType, bool, integer, float, string, closure, class, array, table, instance_,
}
use squirrel_debug_server.Numbers.Digits.{decimal}
use squirrel_debug_server.Variables.Machine.{SquirrelApi, Machine, Run, at, push, pop, then_run}
use squirrel_debug_server.Variables.Types.{Platform, to_sq_object_type_name}
use squirrel_debug_server.Variables.ClassNames.{to_class_full_name}

abbrev pub max_table_size_to_sort : ℕ
max_table_size_to_sort = 1000

abbrev pub max_table_value_string_length : ℕ
max_table_value_string_length = 20

unfoldable pub show_integer : ℤ → Text
unfolding decimal
show_integer (pos n) = decimal n
show_integer (negsuc n) = b'-' ∷ decimal (suc n)

-- `operator<` of `std::string`.
unfoldable pub text_lt : Text → Text → Bool
text_lt s [] = false
text_lt [] (d ∷ t) = true
text_lt (c ∷ s) (d ∷ t) = if ltb c d then true else (if c == d then text_lt s t else false)

-- A key's text, and the iterator that leads to it.
abbrev pub KeyToTableIter : Type 0
KeyToTableIter = Text × ℤ

-- `std::sort` by the text.
unfoldable pub insert_sorted : KeyToTableIter → List KeyToTableIter → List KeyToTableIter
unfolding text_lt
insert_sorted e [] = e ∷ []
insert_sorted e (x ∷ xs) = if text_lt e.0 x.0 then e ∷ x ∷ xs else x ∷ insert_sorted e xs

unfoldable pub sort_keys : List KeyToTableIter → List KeyToTableIter
unfolding insert_sorted
sort_keys [] = []
sort_keys (e ∷ es) = insert_sorted e (sort_keys es)

module _ {Object Heap : Type 0} (api : SquirrelApi Object Heap) where
  -- `sq_next(v, -2)`: the iterator on top is replaced, and the key and the value are pushed.
  unfoldable pub sq_next : Machine Object Heap → Option (Option (Machine Object Heap))
  sq_next m = then_run (at 0 m) (λ (iterator : Object). then_run (at 1 m) (λ (container : Object).
      some (
        then_run (api.next m.heap container iterator)
          (λ (r : Object × Object × Object). some (push r.2 (push r.1 (push r.0 (pop 1 m))))))))

  -- With the value, whose text is known, on top of the key; both are popped. The result is what is
  -- written: nothing, if the value's text is empty.
  unfoldable pub write_value : Run Object Heap Text → Bool → Text → Run Object Heap Text
  write_value show is_first [] m = some ([], pop 2 m)
  write_value show is_first (c ∷ cs) m =
      then_run (show (pop 1 m)) (λ (k : Text × Machine Object Heap).
        some ((if is_first then [] else codes ", ") ++ k.0 ++ codes ": " ++ c ∷ cs, pop 1 k.1))

  unfoldable pub write_field : Run Object Heap Text → Bool → Run Object Heap Text
  unfolding write_value
  write_field show is_first m =
      then_run (show m) (λ (r : Text × Machine Object Heap). write_value show is_first r.0 r.1)

  -- The keys of the table below the iterator, in its order; the iterator is popped.
  unfoldable pub table_keys : Run Object Heap Text → ℕ → Run Object Heap (List KeyToTableIter)
  unfolding sq_next
  table_keys show zero m = none
  table_keys show (suc f) m = then_run (at 0 m) (λ (iterator : Object).
      elim (api.integer_value iterator) [
        | none ↦ some ([], pop 1 m)
        | some i ↦ then_run (sq_next m) (λ (o : Option (Machine Object Heap)). elim o [
          | none ↦ some ([], pop 1 m)
          | some m' ↦ then_run (show (pop 1 m')) (λ (k : Text × Machine Object Heap).
              then_run (table_keys show f (pop 1 k.1))
                (λ (rest : List KeyToTableIter × Machine Object Heap).
                  some ((k.0, i) ∷ rest.0, rest.1)))
        ])
      ])

  -- The first fields of the sorted ones; `text` is what stands behind the opening brace so far.
  unfoldable pub sorted_fields :
      Run Object Heap Text → List KeyToTableIter → Text → Run Object Heap Text
  unfolding write_field sq_next
  sorted_fields show [] text m = some (text, m)
  sorted_fields show (e ∷ es) text m = elim (ltb (length text) max_table_value_string_length) [
    | false ↦ some (text, m)
    | true ↦
        then_run (sq_next (push (api.integer_object e.1) m)) (λ (o : Option (Machine Object Heap)).
          elim o [
            | none ↦ some (text, m)
            | some m' ↦
                then_run (write_field show (length text == 0) m')
                  (λ (r : Text × Machine Object Heap).
                    sorted_fields show es (text ++ r.0) (pop 1 r.1))
          ])
  ]

  -- The first fields in the table's order, with the iterator on top. Here the opening brace counts.
  unfoldable pub unsorted_fields : Run Object Heap Text → ℕ → Bool → Text → Run Object Heap Text
  unfolding write_field sq_next
  unsorted_fields show zero is_first text m = none
  unsorted_fields show (suc f) is_first text m =
      elim (ltb (suc (length text)) max_table_value_string_length) [
        | false ↦ some (text, pop 1 m)
        | true ↦ then_run (sq_next m) (λ (o : Option (Machine Object Heap)). elim o [
          | none ↦ some (text, pop 1 m)
          | some m' ↦
              then_run (write_field show is_first m')
                (λ (r : Text × Machine Object Heap). unsorted_fields show f false (text ++ r.0) r.1)
        ])
      ]

  unfoldable pub create_table_summary : Run Object Heap Text → ℕ → Run Object Heap Text
  unfolding table_keys sorted_fields unsorted_fields sort_keys
  create_table_summary show f m = then_run (at 0 m) (λ (top : Object).
      let start = push (api.integer_object (pos 0)) m in
      let fields : Option (Text × Machine Object Heap) =
        elim (ltb (api.size m.heap top) max_table_size_to_sort) [
          | true ↦
              then_run (table_keys show f start)
                (λ (keys : List KeyToTableIter × Machine Object Heap).
                  sorted_fields show (sort_keys keys.0) [] keys.1)
          | false ↦ unsorted_fields show f true [] start
        ] in
      then_run fields (λ (r : Text × Machine Object Heap). some (b'{' ∷ r.0 ++ codes "}", r.1)))

  -- The name of a closure, which is popped only if it is a string.
  unfoldable pub closure_name_text : Object → Run Object Heap Text
  closure_name_text o m = elim (api.closure_name m.heap o) [
    | none ↦ some (codes "Invalid Closure", m)
    | some name ↦ elim (api.string_value name) [
      | none ↦ some ([], push name m)
      | some s ↦ some (s, m)
    ]
  ]

  unfoldable pub closure_text : ℕ → Run Object Heap Text
  unfolding closure_name_text
  closure_text k m = then_run (at k m) (λ (o : Object).
      then_run (closure_name_text o m) (λ (r : Text × Machine Object Heap).
        then_run (at k r.1) (λ (o' : Object). elim (api.closure_info m.heap o') [
          | none ↦ some r
          | some (params, free_vars) ↦ some (
            r.0
                ++ codes "("
                ++ decimal params
                ++ codes " params, "
                ++ decimal free_vars
                ++ codes " freeVars)",
            r.1,
          )
        ])))

abbrev pub or_empty : Option Text → Text
or_empty none = []
or_empty (some s) = s

abbrev truth : Option Bool → Text
truth none = []
truth (some true) = codes "true"
truth (some false) = codes "false"

abbrev integer_text : Option ℤ → Text
integer_text none = []
integer_text (some i) = show_integer i

module _ {Object Heap : Type 0} (platform : Platform) (bit_index : VariableType → ℕ)
    (api : SquirrelApi Object Heap) where
  -- The object at index -(k + 1). Each call of it from a summary is one of a fuel less.
  unfoldable pub to_string : ℕ → ℕ → Run Object Heap Text
  unfolding create_table_summary closure_text to_class_full_name to_sq_object_type_name
  to_string zero k m = none
  to_string (suc f) k m = then_run (at k m) (λ (o : Object). elim (api.type_of o) [
    | bool ↦ some (truth (api.bool_value o), m)
    | integer ↦ some (integer_text (api.integer_value o), m)
    | float ↦ some (or_empty (api.float_text o), m)
    | string ↦ some (or_empty (api.string_value o), m)
    | closure ↦ closure_text api k m
    | class ↦ to_class_full_name api f 0 m
    | array ↦ some (codes "{ size=" ++ decimal (api.size m.heap o) ++ codes " }", m)
    | instance_ ↦ create_table_summary api (to_string f 0) f m
    | table ↦ create_table_summary api (to_string f 0) f m
    | t ↦ then_run (to_sq_object_type_name platform bit_index t) (λ (s : Text). some (s, m))
  ])
