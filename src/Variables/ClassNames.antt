-- ===== src/Variables/ClassNames.antt =====
-- SquirrelVmHelpers.cpp: `getClassesFullNameHelper` and `ToClassFullName`. Their loops run as long as
-- the API answers, and tables may hold each other, so they recurse on fuel; `none` is an exception,
-- undefined behaviour, or the end of the fuel.
use squirrel_debug_server.Base.{
  ℕ, zero, suc, true, false, none, some, List, [], ◌∷◌, ◌++◌, Text, ◌==◌,
}
use squirrel_debug_server.Base.Assoc.{lookup, insert}
use squirrel_debug_server.Data.{table, class}
use squirrel_debug_server.Variables.Machine.{SquirrelApi, Machine, Run, at, push, pop, then_run}

-- `unordered_map<SQHash, std::string>`
abbrev pub Names : Type 0
Names = List (ℕ × Text)

abbrev pub qualified : Text → Text → Text
qualified [] key = key
qualified (c ∷ cs) key = (c ∷ cs) ++ b'.' ∷ key

module _ {Object Heap : Type 0} (api : SquirrelApi Object Heap) where
  -- A table in the table is entered by pushing a null iterator. `again` is the loop.
  unfoldable pub enter_table :
      (Text → Names → Run Object Heap Names) → Text → Names → Object → Run Object Heap Names
  enter_table again ns names key m = then_run (api.string_value key) (λ (k : Text).
      then_run (again (qualified ns k) names (push api.null_object m))
        (λ (r : Names × Machine Object Heap). again ns r.0 (pop 2 r.1)))

  -- A class that is known already ends the loop; a new one is added under its name.
  unfoldable pub add_class :
      (Text → Names → Run Object Heap Names)
      → Text
      → Names
      → Object
      → Object
      → Run Object Heap Names
  unfolding lookup insert
  add_class again ns names key value m = then_run (api.string_value key) (λ (k : Text).
      elim (lookup (api.hash value) names) [
        | some old ↦ some (names, pop 1 (pop 2 m))
        | none ↦ again ns (insert (api.hash value) (qualified ns k) names) (pop 2 m)
      ])

  -- The loop, with the iterator on top of the table, and the pop of the iterator behind it.
  unfoldable pub classes_loop : ℕ → Text → Names → Run Object Heap Names
  unfolding enter_table add_class
  classes_loop zero ns names m = none
  classes_loop (suc f) ns names m = then_run (at 0 m) (λ (iterator : Object).
      then_run (at 1 m) (λ (container : Object). elim (api.next m.heap container iterator) [
        | none ↦ some (names, pop 1 m)
        | some (iterator', key, value) ↦
            let m' = push value (push key (push iterator' (pop 1 m))) in
            elim (api.type_of value) [
              | table ↦ enter_table (classes_loop f) ns names key m'
              | class ↦ add_class (classes_loop f) ns names key value m'
              | _ ↦ classes_loop f ns names (pop 2 m')
            ]
      ]))

  unfoldable pub classes_full_name : ℕ → Text → Names → Run Object Heap Names
  unfolding classes_loop
  classes_full_name f ns names m = then_run (at 0 m) (λ (top : Object). elim (api.type_of top) [
    | table ↦ classes_loop f ns names (push api.null_object m)
    | _ ↦ none
  ])

  -- The loops over the levels of the stack and the locals of each. What the helper finds in a local
  -- table is never looked at.
  unfoldable pub find_local : ℕ → ℕ → ℕ → ℕ → Names → Run Object Heap Text
  unfolding classes_full_name
  find_local zero hash level seq names m = none
  find_local (suc f) hash level seq names m = elim (api.has_level m.heap level) [
    | false ↦ none
    | true ↦ elim (api.local m.heap level seq) [
      | none ↦ find_local f hash (suc level) 0 names m
      | some (name, o) ↦ elim (api.type_of o) [
        | table ↦
            then_run (classes_full_name f [] names (push o m)) (λ (r : Names × Machine Object Heap).
              find_local f hash level (suc seq) r.0 (pop 1 r.1))
        | class ↦ elim (api.hash o == hash) [
          | true ↦ some (name, m)
          | false ↦ find_local f hash level (suc seq) names m
        ]
        | _ ↦ find_local f hash level (suc seq) names m
      ]
    ]
  ]

  unfoldable pub to_class_full_name : ℕ → ℕ → Run Object Heap Text
  unfolding classes_full_name find_local lookup
  to_class_full_name f k m = then_run (at 0 m) (λ (top : Object). then_run (at k m) (λ (o : Object).
      elim (api.type_of top) [
        | class ↦
            then_run (classes_full_name f [] [] (push (api.root_table m.heap) m))
              (λ (r : Names × Machine Object Heap). elim (lookup (api.hash o) r.0) [
                | some name ↦ some (name, pop 1 r.1)
                | none ↦ find_local f (api.hash o) 0 0 r.0 (pop 1 r.1)
              ])
        | _ ↦ none
      ]))
