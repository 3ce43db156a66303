-- ===== src/Variables/Types.antt =====
-- SquirrelVmHelpers.cpp: `ToSqObjectTypeName` and `ToVariableType`. Squirrel's header gives each
-- type one bit of its raw type; `bit_index` is its position, and the tables are in that order.
use squirrel_debug_server.Base.{
  ℕ, suc, ◌-◌, ◌≡◌, Option, some, List, [], ◌∷◌, Text, codes, get_elem?, arith,
}
use squirrel_debug_server.Data.{
  VariableType, null, integer, float, bool, string, table, array, user_data, closure,
  native_closure, generator, user_pointer, thread, func_proto, class, instance_, weak_ref, outer,
}

abbrev pub type_names : List Text
type_names =
    codes "NULL"
    ∷ codes "INTEGER"
    ∷ codes "FLOAT"
    ∷ codes "BOOL"
    ∷ codes "STRING"
    ∷ codes "TABLE"
    ∷ codes "ARRAY"
    ∷ codes "USERDATA"
    ∷ codes "CLOSURE"
    ∷ codes "NATIVECLOSURE"
    ∷ codes "GENERATOR"
    ∷ codes "USERPOINTER"
    ∷ codes "THREAD"
    ∷ codes "FUNCPROTO"
    ∷ codes "CLASS"
    ∷ codes "INSTANCE"
    ∷ codes "WEAKREF"
    ∷ codes "OUTER"
    ∷ []

abbrev pub variable_types : List VariableType
variable_types =
    null ∷ integer ∷ float ∷ bool ∷ string ∷ table ∷ array ∷ user_data ∷ closure ∷ native_closure
    ∷ generator ∷ user_pointer ∷ thread ∷ func_proto ∷ class ∷ instance_ ∷ weak_ref ∷ outer ∷ []

-- `_MSC_VER` or not.
pub data Platform : Type 0 where
  msvc other_compiler : Platform

-- The unsigned result of `31 - idx`, where `idx` counts the zeros above the bit, or is the position
-- of the lowest bit, from 1.
abbrev pub table_index : Platform → ℕ → ℕ
table_index msvc bit = 31 - (31 - bit)
table_index other_compiler bit = 31 - suc bit

module _ (platform : Platform) (bit_index : VariableType → ℕ) where
  -- `none`: `at` throws `std::out_of_range`.
  unfoldable pub to_sq_object_type_name : VariableType → Option Text
  to_sq_object_type_name t = get_elem? type_names (table_index platform (bit_index t))

  unfoldable pub to_variable_type : VariableType → Option VariableType
  to_variable_type t = get_elem? variable_types (table_index platform (bit_index t))

-- What squirrel.h documents of the positions: the bit of a type is its place in the table.
unfoldable pub IsSquirrelOrder : (VariableType → ℕ) → Type 0
IsSquirrelOrder bit_index = (t : VariableType) → get_elem? variable_types (bit_index t) ≡ some t

unfoldable pub position : VariableType → ℕ
position null = 0
position integer = 1
position float = 2
position bool = 3
position string = 4
position table = 5
position array = 6
position user_data = 7
position closure = 8
position native_closure = 9
position generator = 10
position user_pointer = 11
position thread = 12
position func_proto = 13
position class = 14
position instance_ = 15
position weak_ref = 16
position outer = 17

position_unique : (i : ℕ) (t : VariableType) → get_elem? variable_types i ≡ some t → i ≡ position t
unfolding position
position_unique i t h = ground arith

-- With Microsoft's compiler, each type is reported as itself.
pub to_variable_type-msvc :
    (bit_index : VariableType → ℕ) (t : VariableType)
    → IsSquirrelOrder bit_index
    → to_variable_type msvc bit_index t ≡ some t
unfolding to_variable_type IsSquirrelOrder position
to_variable_type-msvc bit_index t order =
    ground (arith, order t, position_unique (bit_index t) t (order t))

-- With any other compiler, the only type that is reported as itself is `Instance`.
pub to_variable_type-other :
    (bit_index : VariableType → ℕ) (t : VariableType)
    → IsSquirrelOrder bit_index
    → to_variable_type other_compiler bit_index t ≡ some t
    → t ≡ instance_
unfolding to_variable_type IsSquirrelOrder position
to_variable_type-other bit_index t order h =
    ground (arith, order t, position_unique (bit_index t) t (order t), h)
