-- ===== src/Variables/Tests.antt =====
-- A small API, with a table, an array, a table that holds itself and an anonymous function, and the
-- theorems at concrete inputs.
use squirrel_debug_server.Base.{
  ℕ, zero, suc, ◌≡◌, refl, ℤ, pos, Bool, true, false, Option, none, some, List, [], ◌∷◌, Text,
  codes, arith, map, ◌&&◌, ap, sym, ◌∙◌,
}
use squirrel_debug_server.Data.{
  ReturnCode, success, invalid_parameter, Variable, VariableType, null, bool, integer, string,
  table, array, closure, PaginationInfo,
}
use squirrel_debug_server.Debugger.{Debugger, new_debugger}
use squirrel_debug_server.Variables.Machine.{SquirrelApi, Machine, Run}
use squirrel_debug_server.Variables.Types.{
  msvc, IsSquirrelOrder, position, to_variable_type, to_variable_type-msvc,
}
use squirrel_debug_server.Variables.Path.{path_parts, print_path, path_parts-print}
use squirrel_debug_server.Variables.Walk.{with_variable_at_path}
use squirrel_debug_server.Variables.Reach.{
  IsReader, IsBalanced, with_variable_at_path-reads, answer, follow, child,
}
use squirrel_debug_server.Variables.Show.{to_string, show_integer}
use squirrel_debug_server.Variables.Children.{new_variable, create_child_variable, table_child}
use squirrel_debug_server.Variables.Ends.{Ends}
use squirrel_debug_server.Variables.ShowEnds.{LeadsTo, HasNames, LocalsHaveNames}
use squirrel_debug_server.Variables.Leaks.{table_child-anonymous, to_string-HoldsItself}
use squirrel_debug_server.Variables.Update.{parse_as}
use squirrel_debug_server.Variables.Frames.{
  get_stack_variables, get_global_variables, set_stack_variable,
}
use squirrel_debug_server.Variables.Listing.{get_stack_variables-Ends, get_global_variables-Ends}
use squirrel_debug_server.Variables.Setting.{set_stack_variable-entry}

pub data Object : Type 0 where
  nothing globals items ring nameless : Object
  whole : ℤ → Object
  flag : Bool → Object
  chars : Text → Object

-- The value of the one entry of `globals`, and the one element of `items`.
pub record Heap : Type 0 where
  pub entry : Object
  pub element : Object

abbrev type_of_object : Object → VariableType
type_of_object nothing = null
type_of_object globals = table
type_of_object items = array
type_of_object ring = table
type_of_object nameless = closure
type_of_object (whole i) = integer
type_of_object (flag b) = bool
type_of_object (chars s) = string

abbrev whole_value : Object → Option ℤ
whole_value (whole i) = some i
whole_value _ = none

abbrev flag_value : Object → Option Bool
flag_value (flag b) = some b
flag_value _ = none

abbrev chars_value : Object → Option Text
chars_value (chars s) = some s
chars_value _ = none

abbrev next_of : Heap → Object → Object → Option (Object × Object × Object)
next_of heap globals (whole (pos zero)) = some (whole (pos 1), chars (codes "x"), heap.entry)
next_of heap items (whole (pos zero)) = some (whole (pos 1), whole (pos 0), heap.element)
next_of heap ring (whole (pos zero)) = some (whole (pos 1), chars (codes "me"), ring)
next_of heap _ _ = none

abbrev get_of : Heap → Object → Object → Option Object
get_of heap globals (chars s) = some heap.entry
get_of heap items (whole (pos zero)) = some heap.element
get_of heap _ _ = none

abbrev set_of : Heap → Object → Object → Object → Option Heap
set_of heap globals (chars s) value = some (record heap { entry = value })
set_of heap items (whole (pos zero)) value = some (record heap { element = value })
set_of heap _ _ _ = none

abbrev size_of : Object → ℕ
size_of globals = 1
size_of items = 1
size_of ring = 1
size_of _ = 0

abbrev local_of : ℕ → ℕ → Option (Text × Object)
local_of zero zero = some (codes "t", globals)
local_of zero (suc zero) = some (codes "a", items)
local_of _ _ = none

abbrev name_of : Object → Option Object
name_of nameless = some nothing
name_of _ = none

abbrev pub small_api : SquirrelApi Object Heap
small_api = record {
  type_of = type_of_object;
  integer_object = whole;
  bool_object = flag;
  string_object = chars;
  parse_float = λ s. none;
  bool_value = flag_value;
  integer_value = whole_value;
  string_value = chars_value;
  float_text = λ o. none;
  closure_name = λ heap o. none;
  closure_info = λ heap o. none;
  size = λ heap o. size_of o;
  next = next_of;
  get = get_of;
  set = set_of;
  local = λ heap frame seq. local_of frame seq;
  root_table = λ heap. globals;
  null_object = nothing;
  hash = λ o. 0;
  class_of = λ heap o. none;
  delegate = λ heap o. none;
  has_level = λ heap level. false;
  is_ref_counted = λ t. false;
  raw_value = λ o. 0;
  new_table = λ heap. (globals, heap);
  raw_set = λ heap o key value. heap;
  add_ref = λ heap o. heap;
  release = λ heap o. heap;
}

-- The same, where the anonymous function has the name `null`.
abbrev anonymous_api : SquirrelApi Object Heap
anonymous_api = record small_api { closure_name = λ heap o. name_of o }

abbrev pub heap₀ : Heap
heap₀ = record { entry = whole (pos 7); element = flag false }

abbrev machine₀ : Machine Object Heap
machine₀ = record { stack = nothing ∷ nothing ∷ []; heap = heap₀ }

position-order : IsSquirrelOrder position
unfolding IsSquirrelOrder position
position-order t = ground arith

pub reports_itself : (t : VariableType) → to_variable_type msvc position t ≡ some t
reports_itself t = to_variable_type-msvc position t position-order

path_parts-print_example : path_parts (print_path 3 (14 ∷ [])) ≡ some (3 ∷ 14 ∷ [])
path_parts-print_example = path_parts-print 3 (14 ∷ []) refl

-- Looks at the type of the object on top.
abbrev is_flag : Object → ReturnCode
is_flag (flag b) = success
is_flag _ = invalid_parameter

abbrev look : Run Object Heap ReturnCode
look m = elim m.stack [ [] ↦ none | o ∷ below ↦ some (is_flag o, m) ]

look-IsReader : IsReader small_api (λ rc. rc) (λ heap o. is_flag o) look
unfolding IsReader
look-IsReader heap o below = refl

look-IsBalanced : IsBalanced small_api (λ rc. rc) look
unfolding IsBalanced
look-IsBalanced m m' rc e = ground (arith, e)

with_variable_at_path-reads_example :
    with_variable_at_path small_api
      (λ rc. rc)
      (0 ∷ [])
      look
      (record { stack = items ∷ []; heap = heap₀ })
    ≡ some (success, record { stack = items ∷ []; heap = heap₀ })
unfolding answer follow child
with_variable_at_path-reads_example =
    with_variable_at_path-reads small_api (λ rc. rc) (λ heap o. is_flag o) look (0 ∷ []) heap₀ items
      [] look-IsReader

-- What an iterator of `globals`, `items` or `ring` leads to is no function, though there is one.
abbrev no_function : Object → Bool
no_function nameless = false
no_function _ = true

abbrev both_no_function : Option (Object × Object × Object) → Bool
both_no_function none = true
both_no_function (some (i, key, value)) = no_function key && no_function value

next_of_lem : (o i : Object) → both_no_function (next_of heap₀ o i) ≡ true
next_of_lem o i = ground arith

abbrev value_no_function : Option Object → Bool
value_no_function none = true
value_no_function (some value) = no_function value

get_of_lem : (o key : Object) → value_no_function (get_of heap₀ o key) ≡ true
get_of_lem o key = ground arith

no_function-LeadsTo :
    {o x : Object} → LeadsTo anonymous_api heap₀ o x → no_function o ≡ true → no_function x ≡ true
no_function-LeadsTo (LeadsTo.itself _) h = h
no_function-LeadsTo (LeadsTo.by_key o i i' key value _ next leads) h =
    no_function-LeadsTo leads (ground (arith, next_of_lem o i, ap both_no_function next))
no_function-LeadsTo (LeadsTo.by_value o i i' key value _ next leads) h =
    no_function-LeadsTo leads (ground (arith, next_of_lem o i, ap both_no_function next))
no_function-LeadsTo (LeadsTo.by_get o key value _ found leads) h =
    no_function-LeadsTo leads (sym (ap value_no_function found) ∙ get_of_lem o key)

no_function-HasNames : (o : Object) → no_function o ≡ true → HasNames anonymous_api heap₀ o
unfolding HasNames
no_function-HasNames o h x name leads e = ground (arith, no_function-LeadsTo leads h, e)

locals-HaveNames : LocalsHaveNames anonymous_api heap₀ 0
unfolding LocalsHaveNames
locals-HaveNames seq l e = no_function-HasNames l.1 (ground (arith, e))

abbrev pub paused_debugger : Debugger
paused_debugger = record new_debugger {
  pause_mutex_data = record new_debugger.pause_mutex_data { is_paused = true };
}

abbrev pub first_page : PaginationInfo
first_page = record { begin_iterator = 0; count = 100 }

get_stack_variables-Ends_example : Ends machine₀ (
    get_stack_variables msvc position anonymous_api 9 0
      (codes "0")
      first_page
      paused_debugger
      machine₀)
get_stack_variables-Ends_example =
    get_stack_variables-Ends msvc position anonymous_api 9 0 (codes "0") first_page paused_debugger
      machine₀ locals-HaveNames

get_global_variables-Ends_example : Ends machine₀ (
    get_global_variables msvc position anonymous_api 9
      (codes "0")
      first_page
      paused_debugger
      machine₀)
get_global_variables-Ends_example =
    get_global_variables-Ends msvc position anonymous_api 9 (codes "0") first_page paused_debugger
      machine₀ (no_function-HasNames globals refl)

-- The entry of the table is listed by its name.
abbrev listed : Option ((ReturnCode × List Variable) × Machine Object Heap) → List (Text × Text)
listed none = []
listed (some (((rc, vs)), m)) = map (λ (v : Variable). (v.path_ui_string, v.value)) vs

lists_entry :
    listed (
      get_stack_variables msvc position small_api 9 0
        (codes "0")
        first_page
        paused_debugger
        machine₀)
    ≡ (codes "x", codes "7") ∷ []
unfolding get_stack_variables position to_string path_parts show_integer
lists_entry = refl

table_child-anonymous_example :
    (v : Variable) × (table_child msvc position anonymous_api 1
        (pos 0)
        (record { stack = nameless ∷ chars (codes "x") ∷ []; heap = heap₀ })
      ≡ some (v, record { stack = nameless ∷ chars (codes "x") ∷ []; heap = heap₀ }))
    × (v.path_ui_string ≡ [])
    × (v.path_table_key_type ≡ null)
table_child-anonymous_example =
    table_child-anonymous msvc position anonymous_api 0 (pos 0) heap₀ nameless nothing
      (chars (codes "x")) []
      (record {
        is_closure = refl;
        name_pushed = refl;
        name_is_null = refl;
        name_no_string = refl;
        name_no_closure = refl;
      })
      reports_itself

to_string-HoldsItself_example :
    to_string msvc position small_api 9 0 (record { stack = ring ∷ []; heap = heap₀ }) ≡ none
to_string-HoldsItself_example =
    to_string-HoldsItself msvc position small_api 9 heap₀ ring (chars (codes "me")) (whole (pos 1))
      []
      (record {
        is_table = refl;
        is_small = omega arith;
        first = refl;
        last = refl;
        zero_read = refl;
        key_is_string = refl;
      })

abbrev eight : Variable
eight = record new_variable { value_type = integer; value = codes "8"; editable = true }

set_stack_variable-entry_example :
    set_stack_variable msvc position small_api 9 0 (codes "0,0") (codes "8") machine₀
    ≡ some (
      (success, some eight),
      record {
        stack = machine₀.stack;
        heap = record { entry = whole (pos 8); element = flag false };
      },
    )
unfolding position create_child_variable path_parts parse_as to_string show_integer
set_stack_variable-entry_example =
    set_stack_variable-entry msvc position small_api 9 (codes "0,0") (codes "8") 0 0 0 globals
      (whole (pos 8)) (record { entry = whole (pos 8); element = flag false }) eight machine₀ refl
      (record {
        name = codes "t";
        iterator = whole (pos 1);
        key = chars (codes "x");
        old = whole (pos 7);
        is_local = refl;
        is_table = refl;
        is_entry = refl;
        is_parsed = refl;
        is_set = refl;
        is_read = refl;
        is_described = refl;
      })
