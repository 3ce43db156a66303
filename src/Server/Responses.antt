-- ===== src/Server/Responses.antt =====
-- embedded_server/controller/DebugCommandController.h and dto/EventDto.h: the responses, and how
-- results become part of them.
use squirrel_debug_server.Base.{ℕ, ◌+◌, ◌-◌, ℤ, pos, negsuc, Bool, List, Text, ltb, if◌then◌else◌}
use squirrel_debug_server.Data.{
  ReturnCode, success, return_code_value, Variable, VariableScope, local, global, evaluation,
  ImmediateValue, ResolvedBreakpoint,
}
use squirrel_debug_server.Variables.Types.{position}

-- `dto::Variable`; an enumerator is its value.
pub record VariableDto : Type 0 where
  pub path_iterator : ℕ
  pub path_ui_string : Text
  pub path_table_key_type : ℕ
  pub value_type : ℕ
  pub value : Text
  pub value_raw_address : ℕ
  pub child_count : ℕ
  pub instance_class_name : Text
  pub editable : Bool

pub record ImmediateValueDto : Type 0 where
  pub variable : VariableDto
  pub variable_scope : ℕ
  pub iterator_path : List ℕ

-- `id` is an `Int64` and `line` an `Int32`, of a `uint64_t` and a `uint32_t`.
pub record ResolvedBreakpointDto : Type 0 where
  pub id : ℤ
  pub line : ℤ
  pub verified : Bool

-- What a response holds beside its code.
pub data ResponseBody : Type 0 where
  nothing_more : ResponseBody
  variables : List VariableDto → ResponseBody
  values : List ImmediateValueDto → ResponseBody
  breakpoints : List ResolvedBreakpointDto → ResponseBody

pub record Response : Type 0 where
  pub status : ℕ
  pub code : ℕ
  pub body : ResponseBody

abbrev pub scope_value : VariableScope → ℕ
scope_value local = 0
scope_value global = 1
scope_value evaluation = 2

abbrev pub create_variable : Variable → VariableDto
create_variable v = record {
  path_iterator = v.path_iterator;
  path_ui_string = v.path_ui_string;
  path_table_key_type = position v.path_table_key_type;
  value_type = position v.value_type;
  value = v.value;
  value_raw_address = v.value_raw_address;
  child_count = v.child_count;
  instance_class_name = v.instance_class_name;
  editable = v.editable;
}

abbrev pub create_immediate_value : ImmediateValue → ImmediateValueDto
create_immediate_value iv = record {
  variable = create_variable iv.variable;
  variable_scope = scope_value iv.scope;
  iterator_path = iv.iterator_path;
}

-- An unsigned number of the width of `modulus = 2 * half`, as a signed one.
abbrev pub to_signed : ℕ → ℕ → ℤ
to_signed half n = if ltb n half then pos n else negsuc (half + half - 1 - n)

abbrev pub create_resolved_breakpoint : ResolvedBreakpoint → ResolvedBreakpointDto
create_resolved_breakpoint bp = record {
  id = to_signed 9223372036854775808 bp.id;
  line = to_signed 2147483648 bp.line;
  verified = bp.verified;
}

abbrev pub command_ok_response : Response
command_ok_response = record { status = 200; code = 0; body = nothing_more }

unfoldable pub create_return_code_response : ReturnCode → Response
create_return_code_response success = command_ok_response
create_return_code_response rc = record {
  status = if ltb (return_code_value rc) 200 then 400 else 500;
  code = return_code_value rc;
  body = nothing_more;
}

-- The response to a command that succeeded.
abbrev pub success_response : ResponseBody → Response
success_response body = record { status = 200; code = return_code_value success; body = body }
