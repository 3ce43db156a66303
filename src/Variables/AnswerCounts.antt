-- ===== src/Variables/AnswerCounts.antt =====
-- How many variables `GetStackVariables` and `GetGlobalVariables` answer with.
use squirrel_debug_server.Base.{
  ℕ, ◌≤◌, ◌≡◌, refl, Option, none, some, List, [], ◌∷◌, Text, length, arith,
}
use squirrel_debug_server.Data.{ReturnCode, PaginationInfo, Variable, VariableType, success}
use squirrel_debug_server.Debugger.{Debugger}
use squirrel_debug_server.Debugger.Commands.{with_stack_frame, with_globals}
use squirrel_debug_server.Variables.Machine.{SquirrelApi, Machine, Run, push, pop, then_run}
use squirrel_debug_server.Variables.Types.{Platform}
use squirrel_debug_server.Variables.Path.{path_parts}
use squirrel_debug_server.Variables.Walk.{
  to_int, is_outside, to_sq_integer, at_index, at_iterator, with_variable_at_path,
}
use squirrel_debug_server.Variables.Children.{create_child_variables}
use squirrel_debug_server.Variables.Frames.{
  VariablesResult, no_variables, at_local, with_stack_variables, rest_of, local_count, succeed,
  root_variables, children_from_path, populate_stack_variables, global_parts,
  populate_global_variables, get_stack_variables, get_global_variables,
}
use squirrel_debug_server.Variables.Counts.{
  Gives, AtMost, some-Gives, any-Gives, then_run-Gives, option-Gives, test-Gives,
  create_child_variables-AtMost, root_variables-AtMost,
}

module _ {Object Heap A : Type 0} (api : SquirrelApi Object Heap) (refuse : ReturnCode → A)
    (P : A → Type 0) (refused : (rc : ReturnCode) → P (refuse rc)) where
  popped-Gives :
      (n : ℕ) (o : Option (A × Machine Object Heap))
      → Gives P o
      → Gives P (then_run o (λ (r : A × Machine Object Heap). some (r.0, pop n r.1)))
  popped-Gives n o gives =
      then_run-Gives P P o (λ (r : A × Machine Object Heap). some (r.0, pop n r.1)) gives
        (λ a m p. some-Gives P a (pop n m) p)

  at_index-Gives :
      (p : ℕ) (top : Object) (rest : Run Object Heap A) (m : Machine Object Heap)
      → ((m₁ : Machine Object Heap) → Gives P (rest m₁))
      → Gives P (at_index api refuse p top rest m)
  unfolding at_index
  at_index-Gives p top rest m gives =
      test-Gives P (is_outside (to_int p) (api.size m.heap top)) _ _ (some-Gives P _ m (refused _))
        (option-Gives P (api.get m.heap top (api.integer_object (to_int p))) _ _
          (some-Gives P _ m (refused _))
          (λ value. popped-Gives 1 (rest (push value m)) (gives (push value m))))

  at_iterator-Gives :
      (p : ℕ) (top : Object) (rest : Run Object Heap A) (m : Machine Object Heap)
      → ((m₁ : Machine Object Heap) → Gives P (rest m₁))
      → Gives P (at_iterator api refuse p top rest m)
  unfolding at_iterator
  at_iterator-Gives p top rest m gives =
      option-Gives P (api.next m.heap top (api.integer_object (to_sq_integer p))) _ _
        (some-Gives P _ m (refused _))
        (λ r. popped-Gives 3 (rest (push r.2 (push r.1 (push r.0 m)))) (gives _))

  with_stack_variables-Gives :
      (stack_frame : ℕ) (path : Text) (fn : List ℕ → Run Object Heap A) (m : Machine Object Heap)
      → ((ps : List ℕ) (m₁ : Machine Object Heap) → Gives P (fn ps m₁))
      → Gives P (with_stack_variables api refuse stack_frame path fn m)
  unfolding with_stack_variables at_local
  with_stack_variables-Gives stack_frame [] fn m gives = some-Gives P _ m (refused _)
  with_stack_variables-Gives stack_frame (c ∷ cs) fn m gives =
      any-Gives P (path_parts (c ∷ cs)) _ (λ parts.
        elim parts as (λ ps. Gives P (at_local api refuse stack_frame ps fn m)) [
          | [] ↦ any-Gives {A = ℕ} P none (λ x. fn [] m) (λ x. gives [] m)
          | p ∷ ps ↦
              option-Gives P (api.local m.heap stack_frame p) _ _ (some-Gives P _ m (refused _))
                (λ l. popped-Gives 1 (fn (p ∷ ps) (push l.1 m)) (gives (p ∷ ps) (push l.1 m)))
        ])

-- An answer has at most so many variables.
abbrev AnswersAtMost : ℕ → VariablesResult → Type 0
AnswersAtMost n r = length r.1 ≤ n

module _ {Object Heap : Type 0} (platform : Platform) (bit_index : VariableType → ℕ)
    (api : SquirrelApi Object Heap) (f : ℕ) where
  succeed-AtMost :
      (n : ℕ) (run : Run Object Heap (List Variable)) (m : Machine Object Heap)
      → Gives (AtMost n) (run m)
      → Gives (AnswersAtMost n) (succeed platform bit_index api f run m)
  unfolding succeed
  succeed-AtMost n run m gives =
      then_run-Gives (AtMost n) (AnswersAtMost n) (run m) _ gives
        (λ vs m₁ few. some-Gives (AnswersAtMost n) (success, vs) m₁ few)

  no_variables-AtMost : (n : ℕ) (rc : ReturnCode) → AnswersAtMost n (no_variables rc)
  no_variables-AtMost n rc = omega arith

  with_variable_at_path-AtMost :
      (n : ℕ) (fn : Run Object Heap VariablesResult) (ps : List ℕ) (m : Machine Object Heap)
      → ((m₁ : Machine Object Heap) → Gives (AnswersAtMost n) (fn m₁))
      → Gives (AnswersAtMost n) (with_variable_at_path api no_variables ps fn m)
  unfolding with_variable_at_path Gives
  with_variable_at_path-AtMost n fn [] m gives a m' e = gives m a m' e
  with_variable_at_path-AtMost n fn (p ∷ ps) m gives a m' e =
      let run = with_variable_at_path api no_variables ps fn in
      let rest = λ (m₁ : Machine Object Heap). with_variable_at_path-AtMost n fn ps m₁ gives in
      let refused = no_variables-AtMost n in
      elim m.stack as (λ (xs : List Object). m.stack ≡ xs → length a.1 ≤ n) [
        | [] ↦ λ q. ground (arith, q, e)
        | top ∷ below ↦ λ q. ground (
          arith,
          q,
          e,
          at_index-Gives api no_variables (AnswersAtMost n) refused p top run m rest a m',
          at_iterator-Gives api no_variables (AnswersAtMost n) refused p top run m rest a m',
        )
      ]
        refl

  children_from_path-AtMost :
      (ps : List ℕ) (page : PaginationInfo) (m : Machine Object Heap)
      → Gives (AnswersAtMost page.count) (children_from_path platform bit_index api f ps page m)
  unfolding children_from_path
  children_from_path-AtMost ps page m =
      let listing =
        create_child_variables platform bit_index api f page.begin_iterator page.count in
      with_variable_at_path-AtMost page.count (succeed platform bit_index api f listing) ps m (λ m₁.
        succeed-AtMost page.count listing m₁ (
          create_child_variables-AtMost platform bit_index api f page.begin_iterator page.count m₁))

  local_count-le : (page : PaginationInfo) → local_count page ≤ page.count
  local_count-le page = omega arith

  populate_stack_variables-AtMost :
      (stack_frame : ℕ) (path : Text) (page : PaginationInfo) (m : Machine Object Heap)
      → Gives
          (AnswersAtMost page.count)
          (populate_stack_variables platform bit_index api f stack_frame path page m)
  unfolding populate_stack_variables Gives
  populate_stack_variables-AtMost stack_frame [] page m a m' e =
      let count = local_count page in
      let few =
        succeed-AtMost count
          (root_variables platform bit_index api f stack_frame count page.begin_iterator) m
          (root_variables-AtMost platform bit_index api f stack_frame count page.begin_iterator m) a
          m' e in
      omega (arith, few, local_count-le page)
  populate_stack_variables-AtMost stack_frame (c ∷ cs) page m a m' e =
      with_stack_variables-Gives api no_variables (AnswersAtMost page.count)
        (no_variables-AtMost page.count) stack_frame (c ∷ cs) _ m
        (λ parts. children_from_path-AtMost (rest_of parts) page) a m' e

  populate_global_variables-AtMost :
      (path : Text) (page : PaginationInfo) (m : Machine Object Heap)
      → Gives
          (AnswersAtMost page.count)
          (populate_global_variables platform bit_index api f path page m)
  unfolding populate_global_variables
  populate_global_variables-AtMost path page m =
      any-Gives (AnswersAtMost page.count) (global_parts platform bit_index api f path) _ (λ parts.
        then_run-Gives (AnswersAtMost page.count) (AnswersAtMost page.count) _ _
          (children_from_path-AtMost parts page (push (api.root_table m.heap) m))
          (λ a m₁ few. some-Gives (AnswersAtMost page.count) a (pop 1 m₁) few))

  pub get_stack_variables-AtMost :
      (stack_frame : ℕ) (path : Text) (page : PaginationInfo) (d : Debugger)
      (m m' : Machine Object Heap) (rc : ReturnCode) (vs : List Variable)
      → get_stack_variables platform bit_index api f stack_frame path page d m ≡ some ((rc, vs), m')
      → length vs ≤ page.count
  unfolding get_stack_variables with_stack_frame Gives
  get_stack_variables-AtMost stack_frame path page d m m' rc vs e =
      ground (arith, e, populate_stack_variables-AtMost stack_frame path page m (rc, vs) m')

  pub get_global_variables-AtMost :
      (path : Text) (page : PaginationInfo) (d : Debugger) (m m' : Machine Object Heap)
      (rc : ReturnCode) (vs : List Variable)
      → get_global_variables platform bit_index api f path page d m ≡ some ((rc, vs), m')
      → length vs ≤ page.count
  unfolding get_global_variables with_globals Gives
  get_global_variables-AtMost path page d m m' rc vs e =
      ground (arith, e, populate_global_variables-AtMost path page m (rc, vs) m')
