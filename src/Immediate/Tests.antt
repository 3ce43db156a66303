-- ===== src/Immediate/Tests.antt =====
-- Watches of a small VM, and the theorems at concrete inputs.
use squirrel_debug_server.Base.{
  ℕ, ◌≡◌, refl, ℤ, pos, negsuc, Option, none, some, List, [], ◌∷◌, Text, codes,
}
use squirrel_debug_server.Data.{
  ImmediateValue, VariableScope, ReturnCode, success, invalid_parameter, local, global, evaluation,
}
use squirrel_debug_server.Watch.{
  ExpressionNode, node, no_accessor, accessor, Next, no_next, next, identifier, string,
}
use squirrel_debug_server.Watch.Parser.{read_word, read_accessor, read_dot, link}
use squirrel_debug_server.Watch.Strings.{read_identifier, read_string}
use squirrel_debug_server.Variables.Show.{show_integer}
use squirrel_debug_server.Variables.Machine.{Machine}
use squirrel_debug_server.Variables.Types.{msvc, position}
use squirrel_debug_server.Variables.Reach.{follow}
use squirrel_debug_server.Variables.Lookup.{get_object_from_expression}
use squirrel_debug_server.Variables.LookupTrip.{get_object-follow}
use squirrel_debug_server.Immediate.Loop.{evaluate_roots, immediate_value, get_immediate_value}
use squirrel_debug_server.Immediate.Reference.{resolve_root}
use squirrel_debug_server.Immediate.Order.{evaluate_roots-resolve_root}
use squirrel_debug_server.Immediate.{NodeState}
use squirrel_debug_server.Immediate.Root.{evaluate_roots-result}
use squirrel_debug_server.Base.Assoc.{lookup}
use squirrel_debug_server.Immediate.Names.{renamed, immediate_value-renamed}
use squirrel_debug_server.Immediate.Released.{AnswerHasNames, get_immediate_value-restores}
use squirrel_debug_server.Immediate.SmallVm.{
  Object, Heap, globals, whole, chars, small_vm, heap₀, machine₀, paused_debugger, held_on,
  small_vm-CountsFromZero, small_vm-HasNames, small_vm-CountsReferences,
}

abbrev code_of :
    Option ((ReturnCode × Option ImmediateValue) × Machine Object Heap)
    → Option (ReturnCode × Option (VariableScope × List ℕ × Text) × ℕ)
code_of none = none
code_of (some ((rc, none), m)) = some (rc, none, m.heap.held)
code_of (some ((rc, some v), m)) =
    some (rc, some (v.scope, v.iterator_path, v.variable.value), m.heap.held)

abbrev watched : ℤ → Text → Option (ReturnCode × Option (VariableScope × List ℕ × Text) × ℕ)
watched frame watch =
    code_of (get_immediate_value msvc position small_vm 20 frame watch paused_debugger machine₀)

-- A local, a global, a literal, the empty text, and an unknown name.
local_found : watched (pos 0) (codes "n") ≡ some (success, some (local, 1 ∷ [], codes "9"), 0)
unfolding get_immediate_value read_word read_accessor read_dot read_identifier read_string link
    position show_integer
local_found = refl

global_found :
    watched (negsuc 0) (codes "p") ≡ some (success, some (global, 0 ∷ [], codes "{hp: 5}"), 0)
unfolding get_immediate_value read_word read_accessor read_dot read_identifier read_string link
    position show_integer
global_found = refl

literal : watched (pos 0) (codes "'ab'") ≡ some (success, some (evaluation, [], codes "ab"), 0)
unfolding get_immediate_value read_word read_accessor read_dot read_identifier read_string link
    position show_integer
literal = refl

empty_watch : watched (pos 0) [] ≡ some (success, some (evaluation, [], []), 0)
unfolding get_immediate_value read_word read_accessor read_dot read_identifier read_string link
    position show_integer
empty_watch = refl

unknown : watched (pos 0) (codes "q") ≡ some (invalid_parameter, none, 0)
unfolding get_immediate_value read_word read_accessor read_dot read_identifier read_string link
    position show_integer
unknown = refl

-- A member that is there is not found by its name, since it is looked up as `p`; in brackets it is.
member : watched (pos 0) (codes "p.hp") ≡ some (invalid_parameter, none, 0)
unfolding get_immediate_value read_word read_accessor read_dot read_identifier read_string link
    position show_integer
member = refl

bracketed :
    watched (pos 0) (codes "p['hp']") ≡ some (success, some (global, 0 ∷ 0 ∷ [], codes "5"), 0)
unfolding get_immediate_value read_word read_accessor read_dot read_identifier read_string link
    position show_integer
bracketed = refl

-- `p['hp']` and `p.hp`.
abbrev bracket_node : ExpressionNode
bracket_node =
    node (codes "p") no_accessor identifier
      (next (node [] (accessor (node (codes "hp") no_accessor string no_next)) identifier no_next))

abbrev hp_members : Next
hp_members = next (node (codes "hp") no_accessor identifier no_next)

get_object-follow_example : follow small_vm heap₀ globals (0 ∷ 0 ∷ []) ≡ some (whole (pos 5))
unfolding get_object_from_expression
get_object-follow_example =
    get_object-follow small_vm small_vm-CountsFromZero 9
      (chars (codes "p") ∷ chars (codes "hp") ∷ []) heap₀ globals (whole (pos 5)) [] (0 ∷ 0 ∷ [])
      (record { stack = globals ∷ []; heap = heap₀ }) refl

evaluate_roots-resolve_root_example :
    evaluate_roots msvc small_vm 9 (pos 0) bracket_node machine₀
    ≡ resolve_root msvc small_vm 9 (pos 0) 0 bracket_node [] machine₀
evaluate_roots-resolve_root_example =
    evaluate_roots-resolve_root msvc small_vm 9 (pos 0) bracket_node machine₀

-- The watch `'a'`.
evaluate_roots-result_example :
    (state : NodeState Object) × (lookup 0 (
        (0, record { iterator_path = []; resolved_value = chars (codes "a"); scope = evaluation })
        ∷ [])
      ≡ some state)
unfolding evaluate_roots
evaluate_roots-result_example =
    evaluate_roots-result msvc small_vm 9 (pos 0) (node (codes "a") no_accessor string no_next)
      machine₀ (record { stack = []; heap = record { entry = none; held = 1 } }) _
      (chars (codes "a") ∷ []) refl

immediate_value-renamed_example :
    immediate_value msvc position small_vm 20
      (pos 0)
      (node (codes "p") no_accessor identifier (renamed (λ s. codes "mp") hp_members))
      machine₀
    ≡ immediate_value msvc position small_vm 20
        (pos 0)
        (node (codes "p") no_accessor identifier hp_members)
        machine₀
immediate_value-renamed_example =
    immediate_value-renamed msvc small_vm 20 (pos 0) position (λ s. codes "mp") (codes "p")
      no_accessor identifier hp_members machine₀

-- The global `p`, a table, is found and described.
abbrev watch_p : Option ((ReturnCode × Option ImmediateValue) × Machine Object Heap)
watch_p =
    get_immediate_value msvc position small_vm 20 (negsuc 0) (codes "p") paused_debugger machine₀

abbrev result_of :
    Option ((ReturnCode × Option ImmediateValue) × Machine Object Heap)
    → ReturnCode × Option ImmediateValue
result_of none = (invalid_parameter, none)
result_of (some (r, m)) = r

get_immediate_value-restores_example : ([] ≡ machine₀.stack) × ((x : Object) → 0 ≡ held_on heap₀ x)
unfolding get_immediate_value read_word read_accessor read_dot read_identifier read_string link
    position show_integer AnswerHasNames
get_immediate_value-restores_example =
    get_immediate_value-restores msvc position small_vm 20 held_on (λ o x. 1)
      small_vm-CountsReferences (negsuc 0) (codes "p") paused_debugger machine₀ machine₀
      (result_of watch_p)
      (λ e rest is_parsed results owned m state answered found.
        small_vm-HasNames m.heap state.resolved_value)
      refl
