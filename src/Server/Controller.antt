-- ===== src/Server/Controller.antt =====
-- embedded_server/controller/DebugCommandController.h: the endpoints, over the commands that
-- interfaces/include/sdb/MessageInterface.h declares. The parsing of paths, queries and bodies is the
-- HTTP library's; a request is what it hands to the endpoint.
use squirrel_debug_server.Base.{ℕ, ℤ, Option, none, some, List, [], ◌∷◌, ◌++◌, Text, map}
use squirrel_debug_server.Data.{
  ReturnCode, success, invalid_parameter, PaginationInfo, Variable, ImmediateValue,
  CreateBreakpoint, ResolvedBreakpoint,
}
use squirrel_debug_server.Server.Parameters.{QueryParams, c_str, pagination}
use squirrel_debug_server.Server.Responses.{
  Response, ResponseBody, variables, values, breakpoints, create_variable, create_immediate_value,
  create_resolved_breakpoint, create_return_code_response, success_response,
}

-- The commands, on a state `S`. `none` is an exception, which leaves the endpoint. The second result
-- is what the command writes to its reference parameter.
pub record MessageCommandInterface (S : Type 0) : Type 0 where
  pub pause_execution : S → Option (ReturnCode × S)
  pub continue_execution : S → Option (ReturnCode × S)
  pub step_out : S → Option (ReturnCode × S)
  pub step_over : S → Option (ReturnCode × S)
  pub step_in : S → Option (ReturnCode × S)
  pub send_status : S → Option (ReturnCode × S)
  pub get_stack_variables :
      ℕ → Text → PaginationInfo → S → Option ((ReturnCode × List Variable) × S)
  pub get_global_variables : Text → PaginationInfo → S → Option ((ReturnCode × List Variable) × S)
  pub set_stack_variable_value : ℕ → Text → Text → S → Option ((ReturnCode × Variable) × S)
  pub get_immediate_value :
      ℤ → Text → PaginationInfo → S → Option ((ReturnCode × ImmediateValue) × S)
  pub set_file_breakpoints :
      Text → List CreateBreakpoint → S → Option ((ReturnCode × List ResolvedBreakpoint) × S)

pub data Request : Type 0 where
  put_send_status put_step_out put_step_over put_step_in put_pause put_continue : Request
  get_local : ℕ → Text → QueryParams → Request
  put_local : ℕ → Text → Text → Request
  get_global : Text → QueryParams → Request
  put_immediate : ℤ → QueryParams → List Text → Request
  put_file_breakpoints : Text → List CreateBreakpoint → Request

module _ {S : Type 0} where
  abbrev pub return_code_answer : Option (ReturnCode × S) → Option (Response × S)
  return_code_answer none = none
  return_code_answer (some (rc, s)) = some (create_return_code_response rc, s)

  -- A result with what it goes with in the response, if it is a success.
  unfoldable pub result_answer :
      {A : Type 0} → (A → ResponseBody) → Option ((ReturnCode × A) × S) → Option (Response × S)
  result_answer to_body none = none
  result_answer to_body (some ((success, a), s)) = some (success_response (to_body a), s)
  result_answer to_body (some ((rc, a), s)) = some (create_return_code_response rc, s)

  -- `HandleVariablesCommandMessage`, and the same steps in `StackImmediate`.
  unfoldable pub with_pagination :
      QueryParams → (PaginationInfo → Option (Response × S)) → S → Option (Response × S)
  unfolding pagination create_return_code_response
  with_pagination params serve s = elim (pagination params) [
    | none ↦ some (create_return_code_response invalid_parameter, s)
    | some page ↦ serve page
  ]

module _ {S : Type 0} (commands : MessageCommandInterface S) where
  -- The loop of `StackImmediate`: the first failure ends it.
  unfoldable pub immediate_values :
      ℤ
      → PaginationInfo
      → List Text
      → List ImmediateValue
      → S
      → Option ((ReturnCode × List ImmediateValue) × S)
  immediate_values frame page [] found s = some ((success, found), s)
  immediate_values frame page (w ∷ ws) found s =
      elim (commands.get_immediate_value frame w page s) [
        | none ↦ none
        | some ((rc, value), s') ↦ elim rc [
          | success ↦ immediate_values frame page ws (found ++ value ∷ []) s'
          | rc' ↦ some ((rc', found), s')
        ]
      ]

  unfoldable pub handle : Request → S → Option (Response × S)
  unfolding result_answer with_pagination immediate_values create_return_code_response c_str
  handle put_send_status s = return_code_answer (commands.send_status s)
  handle put_step_out s = return_code_answer (commands.step_out s)
  handle put_step_over s = return_code_answer (commands.step_over s)
  handle put_step_in s = return_code_answer (commands.step_in s)
  handle put_pause s = return_code_answer (commands.pause_execution s)
  handle put_continue s = return_code_answer (commands.continue_execution s)
  handle (get_local frame path params) s =
      with_pagination params
        (λ page.
          result_answer (λ (vs : List Variable). variables (map create_variable vs))
            (commands.get_stack_variables frame path page s))
        s
  handle (put_local frame path value) s =
      result_answer (λ (v : Variable). variables (create_variable v ∷ []))
        (commands.set_stack_variable_value frame path value s)
  handle (get_global path params) s =
      with_pagination params
        (λ page.
          result_answer (λ (vs : List Variable). variables (map create_variable vs))
            (commands.get_global_variables path page s))
        s
  handle (put_immediate frame params watches) s =
      with_pagination params
        (λ page.
          result_answer (λ (ivs : List ImmediateValue). values (map create_immediate_value ivs))
            (immediate_values frame page watches [] s))
        s
  handle (put_file_breakpoints file bps) s =
      result_answer
        (λ (resolved : List ResolvedBreakpoint).
          breakpoints (map create_resolved_breakpoint resolved))
        (commands.set_file_breakpoints (c_str file) bps s)
