-- ===== src/Variables/ClassEnds.antt =====
-- `ToClassFullName` gives the machine back as it was.
use squirrel_debug_server.Base.{ℕ, zero, suc, none, some, [], Text, arith, Option-cases, inl, inr}
use squirrel_debug_server.Base.Assoc.{lookup, insert}
use squirrel_debug_server.Variables.Machine.{SquirrelApi, Machine, Run, at, push, pop}
use squirrel_debug_server.Variables.ClassNames.{
  Names, qualified, enter_table, add_class, classes_loop, classes_full_name, find_local,
  to_class_full_name,
}
use squirrel_debug_server.Variables.Ends.{Ends, none-Ends, then_run-Ends, read-Ends}

module _ {Object Heap : Type 0} (api : SquirrelApi Object Heap) where
  -- A loop on some fuel, that pops its iterator.
  LoopEnds : (Text → Names → Run Object Heap Names) → Type 0
  LoopEnds again =
      (ns : Text) (names : Names) (m : Machine Object Heap) → Ends (pop 1 m) (again ns names m)

  enter_table-Ends :
      (again : Text → Names → Run Object Heap Names) (ns : Text) (names : Names)
      (key value : Object) (m : Machine Object Heap)
      → LoopEnds again
      → Ends (pop 1 m) (enter_table api again ns names key (push value (push key m)))
  unfolding enter_table LoopEnds
  enter_table-Ends again ns names key value m loop =
      read-Ends (pop 1 m) (api.string_value key) _ (λ k found.
        then_run-Ends (push value (push key m)) (pop 1 m) _ _
          (loop (qualified ns k) names (push api.null_object (push value (push key m))))
          (λ names'. loop ns names' m))

  add_class-Ends :
      (again : Text → Names → Run Object Heap Names) (ns : Text) (names : Names)
      (key value : Object) (m : Machine Object Heap)
      → LoopEnds again
      → Ends (pop 1 m) (add_class api again ns names key value (push value (push key m)))
  unfolding add_class LoopEnds Ends
  add_class-Ends again ns names key value m loop =
      read-Ends (pop 1 m) (api.string_value key) _ (λ k found. λ a m' e.
        ground (arith, e, loop ns (insert (api.hash value) (qualified ns k) names) m a m'))

  classes_loop-Ends : (f : ℕ) → LoopEnds (classes_loop api f)
  unfolding classes_loop LoopEnds Ends
  classes_loop-Ends zero ns names m = none-Ends Names (pop 1 m)
  classes_loop-Ends (suc f) ns names m = read-Ends (pop 1 m) (at 0 m) _ (λ iterator i.
      read-Ends (pop 1 m) (at 1 m) _ (λ container c. λ a m' e.
        elim (Option-cases (api.next m.heap container iterator)) [
          | inl missing ↦ ground (arith, missing, e)
          | inr ((iterator', key, value), found) ↦
              let m₁ = push iterator' (pop 1 m) in
              let loop = classes_loop-Ends f in
              ground (
                arith,
                found,
                e,
                enter_table-Ends (classes_loop api f) ns names key value m₁ loop a m',
                add_class-Ends (classes_loop api f) ns names key value m₁ loop a m',
                loop ns names m₁ a m',
              )
        ]))

  classes_full_name-Ends :
      (f : ℕ) (ns : Text) (names : Names) (m : Machine Object Heap)
      → Ends m (classes_full_name api f ns names m)
  unfolding classes_full_name LoopEnds Ends
  classes_full_name-Ends f ns names m = read-Ends m (at 0 m) _ (λ top t.
      λ a m' e. ground (arith, e, classes_loop-Ends f ns names (push api.null_object m) a m'))

  find_local-Ends :
      (f hash level seq : ℕ) (names : Names) (m : Machine Object Heap)
      → Ends m (find_local api f hash level seq names m)
  unfolding find_local Ends
  find_local-Ends zero hash level seq names m a m' e = ground arith
  find_local-Ends (suc f) hash level seq names m a m' e =
      elim (Option-cases (api.local m.heap level seq)) [
        | inl missing ↦
            ground (arith, missing, e, find_local-Ends f hash (suc level) 0 names m a m')
        | inr ((name, o), found) ↦ ground (
          arith,
          found,
          e,
          find_local-Ends f hash level (suc seq) names m a m',
          then_run-Ends (push o m) m (classes_full_name api f [] names (push o m))
              (λ (r : Names × Machine Object Heap).
                find_local api f hash level (suc seq) r.0 (pop 1 r.1))
              (classes_full_name-Ends f [] names (push o m))
              (λ names'. find_local-Ends f hash level (suc seq) names' m) a m',
        )
      ]

  pub to_class_full_name-Ends :
      (f k : ℕ) (m : Machine Object Heap) → Ends m (to_class_full_name api f k m)
  unfolding to_class_full_name Ends
  to_class_full_name-Ends f k m = read-Ends m (at 0 m) _ (λ top t. read-Ends m (at k m) _ (λ o t'.
      λ a m' e. ground (
        arith,
        e,
        then_run-Ends (push (api.root_table m.heap) m) m
            (classes_full_name api f [] [] (push (api.root_table m.heap) m))
            (λ (r : Names × Machine Object Heap). elim (lookup (api.hash o) r.0) [
              | some name ↦ some (name, pop 1 r.1)
              | none ↦ find_local api f (api.hash o) 0 0 r.0 (pop 1 r.1)
            ])
            (classes_full_name-Ends f [] [] (push (api.root_table m.heap) m))
            (λ names.
              λ a' m'' e'. ground (arith, e', find_local-Ends f (api.hash o) 0 0 names m a' m''))
            a m',
      )))
