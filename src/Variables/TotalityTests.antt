-- ===== src/Variables/TotalityTests.antt =====
-- A local of a small VM, a table with one entry, whose listing comes back.
use squirrel_debug_server.Base.{
  zero, suc, ◌≡◌, refl, ap, subst, pos, negsuc, Option, none, some, List, [], ◌∷◌, codes, inr,
  arith,
}
use squirrel_debug_server.Data.{Variable, success}
use squirrel_debug_server.Variables.Types.{msvc, position}
use squirrel_debug_server.Variables.Path.{path_parts}
use squirrel_debug_server.Variables.Returns.{machine}
use squirrel_debug_server.Variables.Totality.{IsPlain, HasLess, IsShallow}
use squirrel_debug_server.Variables.Frames.{get_stack_variables}
use squirrel_debug_server.Variables.LocalsTotality.{get_stack_variables-answers}
use squirrel_debug_server.Variables.Tests.{
  Object, nothing, globals, items, ring, nameless, whole, flag, chars, small_api, heap₀,
  reports_itself, paused_debugger, first_page,
}

abbrev key_of : Option (Object × Object × Object) → Object
key_of none = nothing
key_of (some (i, key, value)) = key

abbrev value_of : Option (Object × Object × Object) → Object
value_of none = nothing
value_of (some (i, key, value)) = value

abbrev iterator_of : Option (Object × Object × Object) → Object
iterator_of none = nothing
iterator_of (some (i, key, value)) = i

abbrev Shallow : Object → Type 0
Shallow o = IsShallow msvc position small_api heap₀ 3 o

text-Shallow : Shallow (chars (codes "x"))
text-Shallow = IsShallow.plain 2 (chars (codes "x")) IsPlain.is_string

seven-Shallow : Shallow (whole (pos 7))
seven-Shallow = IsShallow.plain 2 (whole (pos 7)) IsPlain.is_integer

entries-Shallow :
    (i i' key value : Object)
    → small_api.next heap₀ globals i ≡ some (i', key, value)
    → Shallow key × Shallow value
entries-Shallow (whole (pos zero)) i' key value e =
    (subst Shallow (ap key_of e) text-Shallow, subst Shallow (ap value_of e) seven-Shallow)
entries-Shallow (whole (pos (suc n))) i' key value e = ground arith
entries-Shallow (whole (negsuc n)) i' key value e = ground arith
entries-Shallow nothing i' key value e = ground arith
entries-Shallow globals i' key value e = ground arith
entries-Shallow items i' key value e = ground arith
entries-Shallow ring i' key value e = ground arith
entries-Shallow nameless i' key value e = ground arith
entries-Shallow (flag b) i' key value e = ground arith
entries-Shallow (chars s) i' key value e = ground arith

globals-HasLess : HasLess msvc position small_api heap₀ globals (whole (pos 0)) 3
globals-HasLess = HasLess.steps _ 2 (λ i key value e.
    subst (λ j. HasLess msvc position small_api heap₀ globals j 2) (ap iterator_of e)
      (HasLess.steps (whole (pos 1)) 1 (λ i' key' value' e'. ground arith)))

get_stack_variables-answers_example :
    (vs : List Variable) × (get_stack_variables msvc position small_api 3 0
        (b'0' ∷ [])
        first_page
        paused_debugger
        (machine heap₀ (nothing ∷ []))
      ≡ some ((success, vs), machine heap₀ (nothing ∷ [])))
unfolding path_parts
get_stack_variables-answers_example =
    get_stack_variables-answers msvc position small_api heap₀ 3 0 b'0' 0 [] (codes "t") globals
      first_page paused_debugger (nothing ∷ []) reports_itself refl (omega arith) refl refl
      (inr (refl, globals-HasLess, refl)) entries-Shallow
