-- ===== src/Immediate/SmallVm.antt =====
-- A VM whose root table holds a table `p`, with one member `hp`, and whose frame has a local `n`.
use squirrel_debug_server.Base.{
  ℕ, zero, suc, ◌-◌, ◌≡◌, ◌≢◌, ◌<◌, refl, ℤ, pos, negsuc, Bool, true, false, Option, none, some, [],
  ◌∷◌, Text, ◌==◌, if◌then◌else◌, codes, arith,
}
use squirrel_debug_server.Data.{VariableType, null, integer, table, array}
use squirrel_debug_server.Debugger.{Debugger, new_debugger}
use squirrel_debug_server.Variables.Machine.{SquirrelApi, Machine}
use squirrel_debug_server.Variables.ShowEnds.{HasNames}
use squirrel_debug_server.Variables.LookupTrip.{CountsFromZero}
use squirrel_debug_server.Immediate.Stays.{CountsReferences}

pub data Object : Type 0 where
  nothing globals player temporary : Object
  whole : ℤ → Object
  chars : Text → Object

-- What the temporary table holds, and the number of references that the host holds.
pub record Heap : Type 0 where
  pub entry : Option (Object × Object)
  pub held : ℕ

abbrev type_of_object : Object → VariableType
type_of_object nothing = null
type_of_object globals = table
type_of_object player = table
type_of_object temporary = table
type_of_object (whole i) = integer
type_of_object (chars s) = VariableType.string

abbrev whole_value : Object → Option ℤ
whole_value (whole i) = some i
whole_value _ = none

abbrev chars_value : Object → Option Text
chars_value (chars s) = some s
chars_value _ = none

-- The first character of a string.
abbrev raw : Object → ℕ
raw (chars (c ∷ s)) = c
raw _ = 0

abbrev entry_next : Option (Object × Object) → Option (Object × Object × Object)
entry_next none = none
entry_next (some (key, value)) = some (whole (pos 1), key, value)

abbrev next_of : Heap → Object → Object → Option (Object × Object × Object)
next_of heap globals (whole (pos zero)) = some (whole (pos 1), chars (codes "p"), player)
next_of heap player (whole (pos zero)) = some (whole (pos 1), chars (codes "hp"), whole (pos 5))
next_of heap temporary (whole (pos zero)) = entry_next heap.entry
next_of heap _ _ = none

abbrev starts : ℕ → Text → Bool
starts c [] = false
starts c (d ∷ s) = c == d

abbrev get_of : Heap → Object → Object → Option Object
get_of heap globals (chars s) = if starts b'p' s then some player else none
get_of heap player (chars s) = if starts b'h' s then some (whole (pos 5)) else none
get_of heap temporary (chars s) = elim heap.entry [ none ↦ none | some e ↦ some e.1 ]
get_of heap _ _ = none

abbrev local_of : ℕ → ℕ → Option (Text × Object)
local_of zero zero = some (codes "m", globals)
local_of zero (suc zero) = some (codes "n", whole (pos 9))
local_of _ _ = none

abbrev pub small_vm : SquirrelApi Object Heap
small_vm = record {
  type_of = type_of_object;
  integer_object = whole;
  bool_object = λ b. nothing;
  string_object = chars;
  parse_float = λ s. none;
  bool_value = λ o. none;
  integer_value = whole_value;
  string_value = chars_value;
  float_text = λ o. none;
  closure_name = λ heap o. none;
  closure_info = λ heap o. none;
  size = λ heap o. 1;
  next = next_of;
  get = get_of;
  set = λ heap o key value. none;
  local = λ heap frame seq. local_of frame seq;
  root_table = λ heap. globals;
  null_object = nothing;
  hash = λ o. 0;
  class_of = λ heap o. none;
  delegate = λ heap o. none;
  has_level = λ heap level. false;
  is_ref_counted = λ t. false;
  raw_value = raw;
  new_table = λ heap. (temporary, record heap { entry = none });
  raw_set = λ heap o key value. record heap { entry = some (key, value) };
  add_ref = λ heap o. record heap { held = suc heap.held };
  release = λ heap o. record heap { held = heap.held - 1 };
}

abbrev pub heap₀ : Heap
heap₀ = record { entry = none; held = 0 }

abbrev pub machine₀ : Machine Object Heap
machine₀ = record { stack = []; heap = heap₀ }

abbrev pub paused_debugger : Debugger
paused_debugger = record new_debugger {
  pause_mutex_data = record new_debugger.pause_mutex_data { is_paused = true };
}

no_arrays : (o : Object) → type_of_object o ≢ array
no_arrays nothing h = ground (arith, h)
no_arrays globals h = ground (arith, h)
no_arrays player h = ground (arith, h)
no_arrays temporary h = ground (arith, h)
no_arrays (whole i) h = ground (arith, h)
no_arrays (chars s) h = ground (arith, h)

next_of-suc : (heap : Heap) (o : Object) (n : ℕ) → next_of heap o (whole (pos (suc n))) ≡ none
next_of-suc heap nothing n = refl
next_of-suc heap globals n = refl
next_of-suc heap player n = refl
next_of-suc heap temporary n = refl
next_of-suc heap (whole i) n = refl
next_of-suc heap (chars s) n = refl

next_of-negsuc : (heap : Heap) (o : Object) (n : ℕ) → next_of heap o (whole (negsuc n)) ≡ none
next_of-negsuc heap nothing n = refl
next_of-negsuc heap globals n = refl
next_of-negsuc heap player n = refl
next_of-negsuc heap temporary n = refl
next_of-negsuc heap (whole i) n = refl
next_of-negsuc heap (chars s) n = refl

next_of-entry :
    (heap : Heap) (o iterator : Object) (triple : Object × Object × Object) (i : ℤ)
    → whole_value iterator ≡ some i
    → next_of heap o iterator ≡ some triple
    → (n : ℕ) × (i ≡ pos n) × (n < 2147483648) × (next_of heap o (whole (pos n)) ≡ some triple)
next_of-entry heap o (whole (pos zero)) triple i e step = (0, ground (arith, e), omega arith, step)
next_of-entry heap o (whole (pos (suc n))) triple i e step =
    let absurd : ⊥ = ground (arith, step, next_of-suc heap o n) in elim absurd [ ]
next_of-entry heap o (whole (negsuc n)) triple i e step =
    let absurd : ⊥ = ground (arith, step, next_of-negsuc heap o n) in elim absurd [ ]
next_of-entry heap o nothing triple i e step = let absurd : ⊥ = ground (arith, e) in elim absurd [ ]
next_of-entry heap o globals triple i e step = let absurd : ⊥ = ground (arith, e) in elim absurd [ ]
next_of-entry heap o player triple i e step = let absurd : ⊥ = ground (arith, e) in elim absurd [ ]
next_of-entry heap o temporary triple i e step =
    let absurd : ⊥ = ground (arith, e) in elim absurd [ ]
next_of-entry heap o (chars s) triple i e step =
    let absurd : ⊥ = ground (arith, e) in elim absurd [ ]

pub small_vm-CountsFromZero : CountsFromZero small_vm
small_vm-CountsFromZero = record {
  element = λ heap o key value i t e g. elim (no_arrays o t) [ ];
  entry = next_of-entry;
}

pub small_vm-HasNames : (heap : Heap) (o : Object) → HasNames small_vm heap o
unfolding HasNames
small_vm-HasNames heap o x name leads e = ground (arith, e)

-- There is one count for all objects.
abbrev pub held_on : Heap → Object → ℕ
held_on heap x = heap.held

pub small_vm-CountsReferences : CountsReferences small_vm held_on (λ o x. 1)
small_vm-CountsReferences = record {
  added = λ heap o x. omega arith;
  released = λ heap o x. omega arith;
  new_kept = λ heap x. refl;
  set_kept = λ heap t key value x. refl;
}
