-- ===== src/Variables/Machine.antt =====
-- What SquirrelVmHelpers.cpp uses of the Squirrel API: its objects and heap are abstract, its stack
-- is a list with the top (index -1) first. A function of the API that fails is `none`. `sq_get`
-- and `sq_next` are functions of the heap: the metamethods of a script, which could change it, are not run.
use squirrel_debug_server.Base.{ℕ, ℤ, Bool, Option, none, some, List, ◌∷◌, Text, drop, get_elem?}
use squirrel_debug_server.Data.{VariableType}

pub record SquirrelApi (Object Heap : Type 0) : Type 0 where
  -- `sq_gettype`, `sq_pushinteger`, `sq_pushbool`, `sq_pushstring`: the type of an object, and the
  -- object of a value.
  pub type_of : Object → VariableType
  pub integer_object : ℤ → Object
  pub bool_object : Bool → Object
  pub string_object : Text → Object
  -- `std::stof` and `sq_pushfloat`.
  pub parse_float : Text → Option Object
  -- `sq_getbool`, `sq_getinteger`, `sq_getstring`, `sq_getfloat` with its `<<`.
  pub bool_value : Object → Option Bool
  pub integer_value : Object → Option ℤ
  pub string_value : Object → Option Text
  pub float_text : Object → Option Text
  -- `sq_getclosurename` (the object that it pushes), `sq_getclosureinfo`, `sq_getsize`.
  pub closure_name : Heap → Object → Option Object
  pub closure_info : Heap → Object → Option (ℕ × ℕ)
  pub size : Heap → Object → ℕ
  -- `sq_next` of a container at an iterator: the new iterator, the key, the value.
  pub next : Heap → Object → Object → Option (Object × Object × Object)
  -- `sq_get` and `sq_set` of a container at a key.
  pub get : Heap → Object → Object → Option Object
  pub set : Heap → Object → Object → Object → Option Heap
  -- `sq_getlocal` of a stack frame at an index.
  pub local : Heap → ℕ → ℕ → Option (Text × Object)
  pub root_table : Heap → Object
  -- `sq_pushnull`, `sq_gethash`, `sq_getclass`, `sq_getdelegate`, `sq_stackinfos` (whether the level
  -- exists), `ISREFCOUNTED` and the raw value of an object.
  pub null_object : Object
  pub hash : Object → ℕ
  pub class_of : Heap → Object → Option Object
  pub delegate : Heap → Object → Option Object
  pub has_level : Heap → ℕ → Bool
  pub is_ref_counted : VariableType → Bool
  pub raw_value : Object → ℕ
  -- `sq_newtable` (the table, and the heap with it), `sq_rawset`, `sq_addref`, `sq_release`.
  pub new_table : Heap → Object × Heap
  pub raw_set : Heap → Object → Object → Object → Heap
  pub add_ref : Heap → Object → Heap
  pub release : Heap → Object → Heap

pub record Machine (Object Heap : Type 0) : Type 0 where
  pub stack : List Object
  pub heap : Heap

-- `none`: an exception, or an index below the bottom of the stack.
abbrev pub Run : Type 0 → Type 0 → Type 0 → Type 0
Run Object Heap A = Machine Object Heap → Option (A × Machine Object Heap)

module _ {Object Heap : Type 0} where
  -- The object at index -(k + 1).
  abbrev pub at : ℕ → Machine Object Heap → Option Object
  at k m = get_elem? m.stack k

  abbrev pub push : Object → Machine Object Heap → Machine Object Heap
  push o m = record m { stack = o ∷ m.stack }

  abbrev pub pop : ℕ → Machine Object Heap → Machine Object Heap
  pop n m = record m { stack = drop n m.stack }

-- What follows a call that may not come back.
abbrev pub then_run {ℓ ℓ'} : {A : Type ℓ} {B : Type ℓ'} → Option A → (A → Option B) → Option B
then_run none f = none
then_run (some a) f = f a
