-- ===== src/Server/Answers.antt =====
-- What the endpoints answer.
use squirrel_debug_server.Base.{
  ℕ, suc, ◌+◌, ◌≡◌, refl, ℤ, Option, none, some, List, [], ◌∷◌, ◌++◌, Text, map, length,
  length-append, ◌==◌, ltb, if◌then◌else◌, arith, Option-cases, inl, inr, ap, ◌∙◌,
}
use squirrel_debug_server.Data.{
  ReturnCode, success, invalid_parameter, PaginationInfo, ImmediateValue,
}
use squirrel_debug_server.Server.Parameters.{QueryParams, c_str, pagination}
use squirrel_debug_server.Server.Responses.{
  Response, ResponseBody, values, create_immediate_value, create_return_code_response,
  ImmediateValueDto,
}
use squirrel_debug_server.Server.Controller.{
  MessageCommandInterface, Request, put_send_status, put_step_out, put_step_over, put_step_in,
  put_pause, put_continue, get_local, put_local, get_global, put_immediate, put_file_breakpoints,
  return_code_answer, result_answer, with_pagination, immediate_values, handle,
}

-- The HTTP status that belongs to a code: 0 is a success, below 200 is the client's error.
pub status_of : ℕ → ℕ
status_of code = if code == 0 then 200 else (if ltb code 200 then 400 else 500)

response_status :
    (rc : ReturnCode)
    → (create_return_code_response rc).status ≡ status_of (create_return_code_response rc).code
unfolding create_return_code_response status_of
response_status rc = ground arith

module _ {S : Type 0} where
  AnswersRightly : Option (Response × S) → Type 0
  AnswersRightly o = (r : Response) (s : S) → o ≡ some (r, s) → r.status ≡ status_of r.code

  return_code_answer-status : (o : Option (ReturnCode × S)) → AnswersRightly (return_code_answer o)
  unfolding AnswersRightly
  return_code_answer-status none r s e = ground (arith, e)
  return_code_answer-status (some (rc, s')) r s e = ground (arith, e, response_status rc)

  result_answer-status :
      {A : Type 0} (to_body : A → ResponseBody) (o : Option ((ReturnCode × A) × S))
      → AnswersRightly (result_answer to_body o)
  unfolding AnswersRightly result_answer status_of
  result_answer-status to_body none r s e = ground (arith, e)
  result_answer-status to_body (some ((rc, a), s')) r s e = ground (arith, e, response_status rc)

  with_pagination-status :
      (params : QueryParams) (serve : PaginationInfo → Option (Response × S)) (s : S)
      → ((page : PaginationInfo) → AnswersRightly (serve page))
      → AnswersRightly (with_pagination params serve s)
  unfolding AnswersRightly with_pagination
  with_pagination-status params serve s served r s' e = elim (Option-cases (pagination params)) [
    | inl refused ↦ ground (arith, refused, e, response_status invalid_parameter)
    | inr (page, p) ↦ ground (arith, p, e, served page r s')
  ]

-- The length of the values that a loop without failure collects.
immediate_values-length :
    {S : Type 0} (commands : MessageCommandInterface S) (frame : ℤ) (page : PaginationInfo)
    (watches : List Text) (found vs : List ImmediateValue) (s s' : S)
    → immediate_values commands frame page watches found s ≡ some ((success, vs), s')
    → length vs ≡ length found + length watches
unfolding immediate_values
immediate_values-length commands frame page [] found vs s s' e = ground (arith, e)
immediate_values-length commands frame page (w ∷ ws) found vs s s' e =
    elim (Option-cases (commands.get_immediate_value frame w page s)) [
      | inl thrown ↦ ground (arith, thrown, e)
      | inr (((rc, value), s₁), got) ↦ ground (
        arith,
        got,
        e,
        immediate_values-length commands frame page ws (found ++ value ∷ []) vs s₁ s',
        length-append found (value ∷ []),
      )
    ]

-- Every endpoint that answers, whatever the commands return, answers with status 200 exactly when the
-- code in the body is 0, with 400 for the codes up to 199, and with 500 for the others.
pub handle-status :
    {S : Type 0} (commands : MessageCommandInterface S) (request : Request) (s s' : S)
    (r : Response)
    → handle commands request s ≡ some (r, s')
    → r.status ≡ status_of r.code
unfolding handle AnswersRightly
handle-status commands put_send_status s s' r e =
    return_code_answer-status (commands.send_status s) r s' e
handle-status commands put_step_out s s' r e =
    return_code_answer-status (commands.step_out s) r s' e
handle-status commands put_step_over s s' r e =
    return_code_answer-status (commands.step_over s) r s' e
handle-status commands put_step_in s s' r e = return_code_answer-status (commands.step_in s) r s' e
handle-status commands put_pause s s' r e =
    return_code_answer-status (commands.pause_execution s) r s' e
handle-status commands put_continue s s' r e =
    return_code_answer-status (commands.continue_execution s) r s' e
handle-status commands (get_local frame path params) s s' r e =
    with_pagination-status params _ s
      (λ page. result_answer-status _ (commands.get_stack_variables frame path page s)) r s' e
handle-status commands (put_local frame path value) s s' r e =
    result_answer-status _ (commands.set_stack_variable_value frame path value s) r s' e
handle-status commands (get_global path params) s s' r e =
    with_pagination-status params _ s
      (λ page. result_answer-status _ (commands.get_global_variables path page s)) r s' e
handle-status commands (put_immediate frame params watches) s s' r e =
    with_pagination-status params _ s
      (λ page. result_answer-status _ (immediate_values commands frame page watches [] s)) r s' e
handle-status commands (put_file_breakpoints file bps) s s' r e =
    result_answer-status _ (commands.set_file_breakpoints (c_str file) bps s) r s' e

length-map {ℓ ℓ'} :
    {A : Type ℓ} {B : Type ℓ'} (g : A → B) (xs : List A) → length (map g xs) ≡ length xs
length-map g [] = refl
length-map g (x ∷ xs) = ap suc (length-map g xs)

abbrev value_list : List ImmediateValue → ResponseBody
value_list ivs = values (map create_immediate_value ivs)

value_list_answer :
    {S : Type 0} (o : Option ((ReturnCode × List ImmediateValue) × S)) (n : ℕ) (r : Response)
    (s : S)
    → ((ivs : List ImmediateValue) (s₁ : S) → o ≡ some ((success, ivs), s₁) → length ivs ≡ n)
    → result_answer value_list o ≡ some (r, s)
    → r.code ≡ 0
    → (vs : List ImmediateValueDto) × (r.body ≡ values vs) × (length vs ≡ n)
unfolding result_answer create_return_code_response
value_list_answer none n r s counts e ok = let absurd : ⊥ = ground (arith, e) in elim absurd [ ]
value_list_answer (some ((success, ivs), s₁)) n r s counts e ok = (
  map create_immediate_value ivs,
  ground (arith, e),
  length-map create_immediate_value ivs ∙ counts ivs s₁ refl,
)
value_list_answer (some ((rc, ivs), s₁)) n r s counts e ok =
    let absurd : ⊥ = ground (arith, e, ok) in elim absurd [ ]

-- If `StackImmediate` answers with code 0, the body holds one value for each watch expression of the
-- request; otherwise it holds none.
pub put_immediate-length :
    {S : Type 0} (commands : MessageCommandInterface S) (frame : ℤ) (params : QueryParams)
    (watches : List Text) (s s' : S) (r : Response)
    → handle commands (put_immediate frame params watches) s ≡ some (r, s')
    → r.code ≡ 0
    → (vs : List ImmediateValueDto) × (r.body ≡ values vs) × (length vs ≡ length watches)
unfolding handle with_pagination create_return_code_response
put_immediate-length commands frame params watches s s' r e ok =
    elim (Option-cases (pagination params)) [
      | inl refused ↦ let absurd : ⊥ = ground (arith, refused, e, ok) in elim absurd [ ]
      | inr (page, p) ↦
          value_list_answer (immediate_values commands frame page watches [] s) (length watches) r
            s'
            (λ ivs s₁ h.
              omega (arith, immediate_values-length commands frame page watches [] ivs s s₁ h))
            (ground (arith, p, e)) ok
    ]
