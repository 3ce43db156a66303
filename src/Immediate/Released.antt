-- ===== src/Immediate/Released.antt =====
-- `GetImmediateValue` gives the stack back as it was, and every reference that it took.
use squirrel_debug_server.Base.{
  ℕ, suc, ◌*◌, ◌-◌, ◌≡◌, refl, ◌∙◌, ℤ, Text, Option, none, some, List, [], ◌∷◌, inl, inr, arith,
  Option-cases,
}
use squirrel_debug_server.Base.Assoc.{lookup}
use squirrel_debug_server.Data.{VariableType}
use squirrel_debug_server.Debugger.{Debugger}
use squirrel_debug_server.Watch.{ExpressionNode, Outcome, parsed, failed, crash, out_of_fuel}
use squirrel_debug_server.Watch.Parser.{parse_watch}
use squirrel_debug_server.Variables.Machine.{SquirrelApi, Machine, push, then_run}
use squirrel_debug_server.Variables.Types.{Platform}
use squirrel_debug_server.Variables.Ends.{then_run-Ends, some-Ends}
use squirrel_debug_server.Variables.ShowEnds.{HasNames, push-NamedAt}
use squirrel_debug_server.Variables.Balance.{create_child_variable-Ends}
use squirrel_debug_server.Variables.Children.{new_variable}
use squirrel_debug_server.Immediate.{NodeState, Results, Step}
use squirrel_debug_server.Immediate.Nodes.{inner}
use squirrel_debug_server.Immediate.Loop.{
  ImmediateResult, evaluate_roots, release_all, to_immediate_value, root_result, finish,
  immediate_value, evaluate_parsed, get_immediate_value,
}
use squirrel_debug_server.Immediate.Stays.{
  CountsReferences, Left, Left-refl, Stays, Ends-Stays, some-Stays, none-Stays, Left-Stays,
  test-Stays,
}
use squirrel_debug_server.Immediate.Keeps.{owed, Keeps, kept}
use squirrel_debug_server.Immediate.Leaves.{evaluate_loop-Keeps}

module _ {Object Heap : Type 0} (platform : Platform) (bit_index : VariableType → ℕ)
    (api : SquirrelApi Object Heap) (f : ℕ) (references : Heap → Object → ℕ)
    (same : Object → Object → ℕ) (counts : CountsReferences api references same) where
  release_all-stack :
      (os : List Object) (m : Machine Object Heap) → (release_all api os m).stack ≡ m.stack
  unfolding release_all
  release_all-stack [] m = refl
  release_all-stack (o ∷ os) m = release_all-stack os (record m { heap = api.release m.heap o })

  release_all-references :
      (os : List Object) (m : Machine Object Heap) (x : Object)
      → references (release_all api os m).heap x ≡ references m.heap x - owed references same os x
  unfolding release_all owed
  release_all-references [] m x = omega arith
  release_all-references (o ∷ os) m x = omega (
    arith,
    release_all-references os (record m { heap = api.release m.heap o }) x,
    counts.released m.heap o x,
  )

  -- The references that were taken are given back.
  release_all-Left :
      (os : List Object) (m m₁ m₂ : Machine Object Heap)
      → Left references same m m₁ (owed references same os)
      → Left references same m₁ m₂ (λ x. 0)
      → Left references same m (release_all api os m₂) (λ x. 0)
  release_all-Left os m m₁ m₂ taken later = record {
    stack = release_all-stack os m₂ ∙ later.stack ∙ taken.stack;
    held = λ x. omega (arith, release_all-references os m₂ x, later.held x, taken.held x);
  }

  to_immediate_value-Stays :
      (state : NodeState Object) (m : Machine Object Heap)
      → HasNames api m.heap state.resolved_value
      → Stays references same m (to_immediate_value platform bit_index api f state m)
  unfolding to_immediate_value
  to_immediate_value-Stays state m named =
      let m₁ = push state.resolved_value m in
      Ends-Stays references same m m (to_immediate_value platform bit_index api f state m)
        (Left-refl references same m)
        (then_run-Ends m₁ m _ _
          (create_child_variable-Ends platform bit_index api f new_variable m₁
            (push-NamedAt api state.resolved_value m named))
          (λ v. some-Ends _ m))

  root_result-Stays :
      (results : Results Object) (m : Machine Object Heap)
      → ((state : NodeState Object)
          → lookup 0 results ≡ some state
          → HasNames api m.heap state.resolved_value)
      → Stays references same m (root_result platform bit_index api f results m)
  unfolding root_result
  root_result-Stays results m named = elim (Option-cases (lookup 0 results)) [
    | inl missing ↦ rw (root_result, missing) (some-Stays references same _ m)
    | inr (state, found) ↦
        rw (root_result, found) (to_immediate_value-Stays state m (named state found))
  ]

  -- The object that an evaluation answers, the result of the whole expression, leads to no anonymous
  -- function.
  unfoldable pub AnswerHasNames :
      Option (Step Object (Results Object) × Machine Object Heap) → Type 0
  AnswerHasNames o =
      (results : Results Object) (owned : List Object) (m : Machine Object Heap)
      (state : NodeState Object)
      → o ≡ some ((inr results, owned), m)
      → lookup 0 results ≡ some state
      → HasNames api m.heap state.resolved_value

  then_release-Stays :
      {A : Type 0} (os : List Object) (m m₁ : Machine Object Heap)
      (o : Option (A × Machine Object Heap))
      → Left references same m m₁ (owed references same os)
      → Stays references same m₁ o
      → Stays references same m
          (then_run o (λ (r : A × Machine Object Heap). some (r.0, release_all api os r.1)))
  unfolding Stays
  then_release-Stays {A} os m m₁ none taken stays = none-Stays references same A m
  then_release-Stays os m m₁ (some (a, m₂)) taken stays =
      Left-Stays references same a m (release_all api os m₂)
        (release_all-Left os m m₁ m₂ taken (stays a m₂ refl))

  finish-Stays :
      (o : Option (Step Object (Results Object) × Machine Object Heap)) (m : Machine Object Heap)
      → Keeps references same m o
      → AnswerHasNames o
      → Stays references same m (finish platform bit_index api f o)
  unfolding finish AnswerHasNames
  finish-Stays none m keeps named = none-Stays references same ImmediateResult m
  finish-Stays (some ((inl rc, owned), m₁)) m keeps named =
      Left-Stays references same (rc, none) m (release_all api owned m₁)
        (release_all-Left owned m m₁ m₁ (kept references same (inl rc) owned m₁ m keeps)
          (Left-refl references same m₁))
  finish-Stays (some ((inr results, owned), m₁)) m keeps named =
      then_release-Stays owned m m₁ (root_result platform bit_index api f results m₁)
        (kept references same (inr results) owned m₁ m keeps)
        (root_result-Stays results m₁ (λ state. named results owned m₁ state refl))

  immediate_value-Stays :
      (frame : ℤ) (e : ExpressionNode) (m : Machine Object Heap)
      → AnswerHasNames (evaluate_roots platform api f frame e m)
      → Stays references same m (immediate_value platform bit_index api f frame e m)
  unfolding immediate_value evaluate_roots
  immediate_value-Stays frame e m named =
      finish-Stays (evaluate_roots platform api f frame e m) m
        (evaluate_loop-Keeps platform api f references same counts frame (suc (2 * suc (inner e)))
          ((0, e) ∷ []) [] m)
        named

  evaluate_parsed-Stays :
      (o : Outcome ExpressionNode) (frame : ℤ) (d : Debugger) (m : Machine Object Heap)
      → ((e : ExpressionNode) (rest : Text)
          → o ≡ parsed e rest
          → AnswerHasNames (evaluate_roots platform api f frame e m))
      → Stays references same m (evaluate_parsed platform bit_index api f frame o d m)
  unfolding evaluate_parsed
  evaluate_parsed-Stays (parsed e rest) frame d m named =
      test-Stays references same m d.is_paused _ _
        (immediate_value-Stays frame e m (named e rest refl)) (some-Stays references same _ m)
  evaluate_parsed-Stays (failed message at) frame d m named = some-Stays references same _ m
  evaluate_parsed-Stays crash frame d m named = none-Stays references same ImmediateResult m
  evaluate_parsed-Stays out_of_fuel frame d m named = none-Stays references same ImmediateResult m

  -- If `GetImmediateValue` comes back, the stack is as it was, and as many references are held on each
  -- object as there were: at each early return, and where it succeeds with an object that leads to no
  -- anonymous function.
  pub get_immediate_value-restores :
      (frame : ℤ) (watch : Text) (d : Debugger) (m m' : Machine Object Heap) (r : ImmediateResult)
      → ((e : ExpressionNode) (rest : Text)
          → parse_watch watch ≡ parsed e rest
          → AnswerHasNames (evaluate_roots platform api f frame e m))
      → get_immediate_value platform bit_index api f frame watch d m ≡ some (r, m')
      → (m'.stack ≡ m.stack) × ((x : Object) → references m'.heap x ≡ references m.heap x)
  unfolding get_immediate_value Stays
  get_immediate_value-restores frame watch d m m' r named e =
      let left = evaluate_parsed-Stays (parse_watch watch) frame d m named r m' e in
      (left.stack, λ x. omega (arith, left.held x))
