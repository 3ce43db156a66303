-- ===== src/Data.antt =====
-- interfaces/include/sdb/MessageInterface.h: the values that the debugger and the server exchange.
-- `uint32_t` and `uint64_t` fields are numbers; nothing in the program computes with them but where
-- the model says so.
use squirrel_debug_server.Base.{ℕ, Bool, List, Text}

pub data ReturnCode : Type 0 where
  success invalid invalid_not_paused invalid_parameter error_internal : ReturnCode

-- The values of the enumerators, which `static_cast<int32_t>` yields.
abbrev pub return_code_value : ReturnCode → ℕ
return_code_value success = 0
return_code_value invalid = 100
return_code_value invalid_not_paused = 101
return_code_value invalid_parameter = 102
return_code_value error_internal = 200

pub data RunState : Type 0 where
  running pausing paused stepping : RunState

pub record StackEntry : Type 0 where
  pub file : Text
  pub line : ℕ
  pub function : Text

pub record Status : Type 0 where
  pub run_state : RunState
  pub stack : List StackEntry
  pub paused_at_breakpoint_id : ℕ

pub record OutputLine : Type 0 where
  pub output : Text
  pub is_err : Bool
  pub file_name : Text
  pub line : ℕ

pub data VariableType : Type 0 where
  null integer float bool string table array user_data closure native_closure : VariableType
  generator user_pointer thread func_proto class instance_ weak_ref outer : VariableType

pub data VariableScope : Type 0 where
  local global evaluation : VariableScope

pub record Variable : Type 0 where
  pub path_iterator : ℕ
  pub path_ui_string : Text
  pub path_table_key_type : VariableType
  pub value_type : VariableType
  pub value : Text
  pub value_raw_address : ℕ
  pub child_count : ℕ
  pub instance_class_name : Text
  pub editable : Bool

pub record PaginationInfo : Type 0 where
  pub begin_iterator : ℕ
  pub count : ℕ

pub record CreateBreakpoint : Type 0 where
  pub id : ℕ
  pub line : ℕ

pub record ResolvedBreakpoint : Type 0 where
  pub id : ℕ
  pub line : ℕ
  pub verified : Bool

pub record ImmediateValue : Type 0 where
  pub variable : Variable
  pub scope : VariableScope
  pub iterator_path : List ℕ
